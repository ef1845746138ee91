-- ===== src/Receiver/State.antt =====
-- The fields of receiver_plugin_impl. `Config` holds the options, which do not change after the
-- start but for end_block_num; the rest is the state. The timers, the socket and the channels are
-- the effects that the program asks for: which timer is armed and for how long, whether a read is
-- pending, the requests sent and the events published, oldest first.
use eos_chronicle.Base.{ℕ, Bool, Option, String, List, [], ◌∷◌, ◌++◌}
use eos_chronicle.Store.Rows.{StateObject, ReceivedBlock, ContractAbi, AbiHistory, Tables, Bytes}
use eos_chronicle.Store.Index.{Index, Log}
use eos_chronicle.Store.Revisions.{Revisions}
use eos_chronicle.Messages.Input.{BlockHeader, AbiType, Codec}
use eos_chronicle.Messages.Events.{Event, InteractiveRequest, BlocksRequest}

-- has_subscribers() of the channels that the program asks about.
pub record Subscribers : Type 0 where
  pub block_started : Bool
  pub block_table_deltas : Bool
  pub transaction_traces : Bool
  pub abi_updates : Bool
  pub abi_errors : Bool
  pub table_row_updates : Bool
  pub permission_updates : Bool
  pub permission_link_updates : Bool
  pub account_metadata_updates : Bool

pub record Config : Type 0 where
  pub report_every : ℕ
  pub max_queue_size : ℕ
  pub interactive_mode : Bool
  pub noexport_mode : Bool
  pub skip_block_events : Bool
  pub skip_table_deltas : Bool
  pub skip_traces : Bool
  pub skip_account_info : Bool
  pub irreversible_only : Bool
  pub start_block_num : ℕ
  pub stale_check_deadline_msec : ℕ
  pub blacklist_actions : List (ℕ × List ℕ)
  pub enable_rcvr_filter : Bool
  pub rcvr_filter : List ℕ
  pub enable_auth_filter : Bool
  pub auth_filter : List ℕ
  pub enable_tables_filter : Bool
  pub tables_filter : List ℕ
  pub enable_tables_blacklist : Bool
  pub tables_blacklist : List ℕ
  pub do_trace_filter : Bool
  pub do_trace_blacklist : Bool

pub record Receiver (Db Context : Type 0) : Type 0 where
  pub config : Config
  pub subscribers : Subscribers
  pub db : Db
  pub aborting : Bool
  pub receiver_ready : Bool
  pub interactive_req_queue : List InteractiveRequest
  pub interactive_req_pending : Bool
  pub end_block_num : ℕ
  pub head : ℕ
  pub head_id : ℕ
  pub irreversible : ℕ
  pub irreversible_id : ℕ
  pub block_header : BlockHeader
  pub trx_count : ℕ
  pub received_blocks : ℕ
  pub abi_types : List (String × AbiType)
  pub contract_abi_ctxt : Option Context
  pub contract_abi_imported : List ℕ
  pub exporter_will_ack : Bool
  pub exporter_acked_block : ℕ
  pub exporter_max_unconfirmed : ℕ
  pub forked_at_block : ℕ
  pub pause_time_msec : ℕ
  pub slowdown_requested : Bool
  pub stale_check_last_head : ℕ
  -- The effects.
  pub stream_open : Bool
  pub reading : Bool
  pub pause_timer : Option ℕ
  pub stale_timer : Option ℕ
  pub quit : Bool
  pub requests : List BlocksRequest
  pub events : List Event

-- The ABI decoder of abieos, which is not part of the repository.
pub record AbiDecoder : Type 1 where
  pub Context : Type 0
  pub create : Context
  -- abieos_set_abi_bin: whether the ABI was accepted, and the context afterwards.
  pub set_abi_bin : Context → ℕ → Bytes → Bool × Context

-- The libraries that the receiver runs on.
pub record World : Type 1 where
  pub states : Log StateObject
  pub blocks : Index ReceivedBlock ℕ
  pub abis : Index ContractAbi ℕ
  pub history : Index AbiHistory (ℕ × ℕ)
  -- lower_bound of the index by_name_and_block_rev.
  pub lower_bound_rev : ℕ × ℕ → history.Table → Option AbiHistory
  pub database : Revisions (Tables states.Table blocks.Table abis.Table history.Table)
  pub decoder : AbiDecoder
  pub codec : Codec
  -- json_to_bin of abieos for a request, by the protocol's type: nothing where it throws.
  pub request_to_bin : AbiType → BlocksRequest → Option Bytes

abbrev pub TablesOf : World → Type 0
TablesOf w = Tables w.states.Table w.blocks.Table w.abis.Table w.history.Table

abbrev pub ReceiverOf : World → Type 0
ReceiverOf w = Receiver w.database.Db w.decoder.Context

module _ {Db Context : Type 0} where
  -- publish() of a channel. The priorities with which the queue delivers are left out.
  abbrev pub publish : Event → Receiver Db Context → Receiver Db Context
  publish e r = record r { events = r.events ++ e ∷ [] }
