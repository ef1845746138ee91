-- ===== src/Messages/Events.antt =====
-- The events of namespace chronicle::channels in receiver_plugin.hpp: what the receiver publishes,
-- and what it sends to the state history endpoint.
use eos_chronicle.Base.{ℕ, Bool, String, List}
use eos_chronicle.Base.Exec.{Error}
use eos_chronicle.Store.Rows.{Bytes}
use eos_chronicle.Messages.Input.{
  BlockPosition, BlockHeader, SignedBlock, TableDelta, ContractRow, Trace,
}

pub data ForkReason : Type 0 where
  network restart resync : ForkReason

-- fork_reason_val's to_string: the enumeration has no other value.
unfoldable pub fork_reason_to_string : ForkReason → String
fork_reason_to_string network = "network"
fork_reason_to_string restart = "restart"
fork_reason_to_string resync = "resync"

pub record ForkEvent : Type 0 where
  pub block_num : ℕ
  pub depth : ℕ
  pub fork_reason : ForkReason
  pub last_irreversible : ℕ

pub record BlockBegins : Type 0 where
  pub block_num : ℕ
  pub block_id : ℕ
  pub block_timestamp : ℕ
  pub last_irreversible : ℕ

pub record Block : Type 0 where
  pub block_num : ℕ
  pub block_id : ℕ
  pub last_irreversible : ℕ
  pub block : SignedBlock

-- The program leaves the field block_num of a block_table_delta unset, so it is left out.
pub record BlockTableDelta : Type 0 where
  pub block_timestamp : ℕ
  pub table_delta : TableDelta

pub record TransactionTrace : Type 0 where
  pub block_num : ℕ
  pub block_timestamp : ℕ
  pub trace : Trace

pub record AbiUpdate : Type 0 where
  pub block_num : ℕ
  pub block_timestamp : ℕ
  pub account : ℕ
  pub abi : Bytes
  pub binary : Bytes

pub record AbiRemoval : Type 0 where
  pub block_num : ℕ
  pub block_timestamp : ℕ
  pub account : ℕ

pub record AbiError : Type 0 where
  pub block_num : ℕ
  pub block_timestamp : ℕ
  pub account : ℕ
  pub error : Error

pub record TableRowUpdate : Type 0 where
  pub block_num : ℕ
  pub block_timestamp : ℕ
  pub added : Bool
  pub kvo : ContractRow

-- A permission_update or a permission_link_update.
pub record PermissionUpdate : Type 0 where
  pub block_num : ℕ
  pub block_timestamp : ℕ
  pub added : Bool
  pub permission : Bytes

pub record MetadataUpdate : Type 0 where
  pub block_num : ℕ
  pub block_timestamp : ℕ
  pub account_metadata : Bytes

pub record ReceiverPause : Type 0 where
  pub head : ℕ
  pub acknowledged : ℕ

pub record BlockFinished : Type 0 where
  pub block_num : ℕ
  pub block_id : ℕ
  pub header : BlockHeader
  pub trx_count : ℕ
  pub last_irreversible : ℕ

-- One constructor for each channel of the receiver.
pub data Event : Type 0 where
  forks : ForkEvent → Event
  block_started : BlockBegins → Event
  blocks : Block → Event
  block_table_deltas : BlockTableDelta → Event
  transaction_traces : TransactionTrace → Event
  abi_updates : AbiUpdate → Event
  abi_removals : AbiRemoval → Event
  abi_errors : AbiError → Event
  table_row_updates : TableRowUpdate → Event
  permission_updates permission_link_updates : PermissionUpdate → Event
  account_metadata_updates : MetadataUpdate → Event
  receiver_pauses : ReceiverPause → Event
  block_completed : BlockFinished → Event

pub record InteractiveRequest : Type 0 where
  pub block_num_start : ℕ
  pub block_num_end : ℕ

-- get_blocks_request_v0, with max_messages_in_flight always at its maximum.
pub record BlocksRequest : Type 0 where
  pub start_block_num : ℕ
  pub end_block_num : ℕ
  pub have_positions : List BlockPosition
  pub irreversible_only : Bool
  pub fetch_block : Bool
  pub fetch_traces : Bool
  pub fetch_deltas : Bool
