-- ===== src/Decoder/Values.antt =====
-- The native values of the receiver's events: the fields that EOSIO_REFLECT names in
-- receiver_plugin.hpp, in its order.
use eos_chronicle.Base.{ℕ, String}
use eos_chronicle.Base.Exec.{Error}
use eos_chronicle.Store.Rows.{Bytes}
use eos_chronicle.Messages.Input.{SignedBlock, Trace, ContractRow, TableDelta}
use eos_chronicle.Messages.Events.{
  ForkEvent, BlockBegins, Block, TransactionTrace, AbiUpdate, AbiRemoval, AbiError, TableRowUpdate,
  PermissionUpdate, MetadataUpdate, ReceiverPause, BlockFinished,
}
use eos_chronicle.Decoder.Json.{
  Native, Fields, text, unsigned, boolean, fork_reason, checksum256, name, block_timestamp, object,
  coded, row_value, first_alternative, field, no_more,
}

-- The types of abieos by their reflection, which is not part of the repository; the texts of the
-- exceptions; and the id of a transaction.
pub record Reflection : Type 0 where
  pub signed_block : SignedBlock → Native
  pub table_delta : TableDelta → Native
  -- The index of a transaction_trace among its alternatives, and its first one.
  pub trace_index : Trace → ℕ
  pub transaction_trace_v0 : Trace → Native
  pub abi_def : Bytes → Native
  pub permission : Bytes → Native
  pub permission_link : Bytes → Native
  pub account_metadata : Bytes → Native
  pub contract_row : ContractRow → Fields
  pub trx_id : Trace → Bytes
  pub error_text : Error → Bytes

infixr 20 ◌is◌and◌
abbrev ◌is◌and◌ : String → Native → Fields → Fields
k is v and fs = field k v fs

abbrev pub fork_value : ForkEvent → Native
fork_value e = object (
    "block_num"
    is unsigned e.block_num and "depth"
    is unsigned e.depth and "fork_reason"
    is fork_reason e.fork_reason and "last_irreversible"
    is unsigned e.last_irreversible and no_more)

abbrev pub block_begins_value : BlockBegins → Native
block_begins_value e = object (
    "block_num"
    is unsigned e.block_num and "block_timestamp"
    is block_timestamp e.block_timestamp and no_more)

abbrev pub abi_removal_value : AbiRemoval → Native
abi_removal_value e = object (
    "block_num"
    is unsigned e.block_num and "block_timestamp"
    is block_timestamp e.block_timestamp and "account"
    is name e.account and no_more)

abbrev pub receiver_pause_value : ReceiverPause → Native
receiver_pause_value e =
    object ("head" is unsigned e.head and "acknowledged" is unsigned e.acknowledged and no_more)

abbrev pub block_finished_value : BlockFinished → Native
block_finished_value e = object (
    "block_num"
    is unsigned e.block_num and "block_id"
    is checksum256 e.block_id and "block_timestamp"
    is block_timestamp e.header.timestamp and "producer"
    is name e.header.producer and "previous"
    is checksum256 e.header.previous and "transaction_mroot"
    is checksum256 e.header.transaction_mroot and "action_mroot"
    is checksum256 e.header.action_mroot and "trx_count"
    is unsigned e.trx_count and "last_irreversible"
    is unsigned e.last_irreversible and no_more)

module _ (x : Reflection) where
  abbrev pub block_value : Block → Native
  block_value e = object (
      "block_num"
      is unsigned e.block_num and "block_id"
      is checksum256 e.block_id and "last_irreversible"
      is unsigned e.last_irreversible and "block"
      is x.signed_block e.block and no_more)

  abbrev pub transaction_trace_value : TransactionTrace → Native
  transaction_trace_value e = object (
      "block_num"
      is unsigned e.block_num and "block_timestamp"
      is block_timestamp e.block_timestamp and "trace"
      is first_alternative (x.trace_index e.trace) (x.transaction_trace_v0 e.trace) and no_more)

  abbrev pub abi_update_value : AbiUpdate → Native
  abi_update_value e = object (
      "block_num"
      is unsigned e.block_num and "block_timestamp"
      is block_timestamp e.block_timestamp and "account"
      is name e.account and "abi"
      is x.abi_def e.abi and no_more)

  abbrev pub abi_error_value : AbiError → Native
  abi_error_value e = object (
      "block_num"
      is unsigned e.block_num and "block_timestamp"
      is block_timestamp e.block_timestamp and "account"
      is name e.account and "error"
      is text (x.error_text e.error) and no_more)

  abbrev pub table_row_value : TableRowUpdate → Native
  table_row_value e = object (
      "block_num"
      is unsigned e.block_num and "block_timestamp"
      is block_timestamp e.block_timestamp and "added"
      is boolean e.added and "kvo"
      is coded (row_value e.kvo.code e.kvo.table e.kvo.value) (x.contract_row e.kvo) and no_more)

  abbrev pub permission_value : PermissionUpdate → Native
  permission_value e = object (
      "block_num"
      is unsigned e.block_num and "block_timestamp"
      is block_timestamp e.block_timestamp and "added"
      is boolean e.added and "permission"
      is x.permission e.permission and no_more)

  abbrev pub permission_link_value : PermissionUpdate → Native
  permission_link_value e = object (
      "block_num"
      is unsigned e.block_num and "block_timestamp"
      is block_timestamp e.block_timestamp and "added"
      is boolean e.added and "permission_link"
      is x.permission_link e.permission and no_more)

  abbrev pub metadata_value : MetadataUpdate → Native
  metadata_value e = object (
      "block_num"
      is unsigned e.block_num and "block_timestamp"
      is block_timestamp e.block_timestamp and "account_metadata"
      is x.account_metadata e.account_metadata and no_more)
