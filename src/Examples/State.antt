-- ===== src/Examples/State.antt =====
-- Receivers in the concrete world: at block 10, with block 8 irreversible and block 9 acknowledged.
use eos_chronicle.Base.{ℕ, true, false, none, some, [], ◌∷◌}
use eos_chronicle.Store.Lists.{Stack}
use eos_chronicle.Messages.Input.{BlockPosition, BlocksResult}
use eos_chronicle.Receiver.State.{Subscribers, Config, ReceiverOf, TablesOf}
use eos_chronicle.Examples.World.{list_world}

abbrev pub all_subscribed : Subscribers
all_subscribed = record {
  block_started = true;
  block_table_deltas = true;
  transaction_traces = true;
  abi_updates = true;
  abi_errors = true;
  table_row_updates = true;
  permission_updates = true;
  permission_link_updates = true;
  account_metadata_updates = true;
}

abbrev pub scan_config : Config
scan_config = record {
  report_every = 10000;
  max_queue_size = 10000;
  interactive_mode = false;
  noexport_mode = false;
  skip_block_events = false;
  skip_table_deltas = false;
  skip_traces = false;
  skip_account_info = false;
  irreversible_only = false;
  start_block_num = 0;
  stale_check_deadline_msec = 10000;
  blacklist_actions = (66, 1 ∷ []) ∷ [];
  enable_rcvr_filter = false;
  rcvr_filter = [];
  enable_auth_filter = false;
  auth_filter = [];
  enable_tables_filter = false;
  tables_filter = [];
  enable_tables_blacklist = false;
  tables_blacklist = [];
  do_trace_filter = false;
  do_trace_blacklist = true;
}

-- Only the actions that account 7 received, but not those of the blacklist.
abbrev pub filter_config : Config
filter_config = record scan_config {
  enable_rcvr_filter = true;
  rcvr_filter = 7 ∷ [];
  do_trace_filter = true;
}

abbrev pub tables_at : ℕ → TablesOf list_world
tables_at n = record {
  states = record { head = n; head_id = 100; irreversible = 8; irreversible_id = 80 } ∷ [];
  blocks =
      record { block_index = 8; block_id = 80 } ∷ record { block_index = 9; block_id = 90 } ∷ [];
  abis = record { account = 7; abi = 1 ∷ [] } ∷ [];
  history =
      record { account = 7; block_index = 5; abi = 1 ∷ [] }
      ∷ record { account = 9; block_index = 3; abi = 2 ∷ [] }
      ∷ [];
}

abbrev pub stack_at_10 : Stack (TablesOf list_world)
stack_at_10 = record {
  contents = tables_at 10;
  committed = 8;
  kept = tables_at 9 ∷ tables_at 8 ∷ [];
}

abbrev pub receiver_at_10 : ReceiverOf list_world
receiver_at_10 = record {
  config = scan_config;
  subscribers = all_subscribed;
  db = stack_at_10;
  aborting = false;
  receiver_ready = true;
  interactive_req_queue = [];
  interactive_req_pending = false;
  end_block_num = 4294967295;
  head = 10;
  head_id = 100;
  irreversible = 8;
  irreversible_id = 80;
  block_header = record {
    timestamp = 0;
    producer = 0;
    previous = 0;
    transaction_mroot = 0;
    action_mroot = 0;
  };
  trx_count = 0;
  received_blocks = 1;
  abi_types = [];
  contract_abi_ctxt = some [];
  contract_abi_imported = [];
  exporter_will_ack = true;
  exporter_acked_block = 9;
  exporter_max_unconfirmed = 100;
  forked_at_block = 0;
  pause_time_msec = 0;
  slowdown_requested = false;
  stale_check_last_head = 0;
  stream_open = true;
  reading = false;
  pause_timer = none;
  stale_timer = none;
  quit = false;
  requests = [];
  events = [];
}

abbrev pub position : ℕ → ℕ → BlockPosition
position n id = record { block_num = n; block_id = id }

-- A message without a block's contents: the last irreversible block and the previous one.
abbrev pub message : ℕ → BlockPosition → BlockPosition → BlocksResult
message lib this prev = record {
  last_irreversible = position lib 80;
  this_block = some this;
  prev_block = some prev;
  block = none;
  traces = none;
  deltas = none;
}
