-- ===== src/Examples/Options.antt =====
-- The options at concrete inputs.
use eos_chronicle.Base.{refl, true, false, none, some, [], ◌∷◌, if◌then◌else◌, str_eq}
use eos_chronicle.Base.Exec.{Error, ok, err}
use eos_chronicle.Receiver.Options.{Options, Settings, NameReader, configure}
use eos_chronicle.Receiver.Options.Configured.{Configured, configure_lem}
use eos_chronicle.Examples.State.{scan_config}

-- A receiver that scans, and exports what the contract "alice" receives but not the blocks' start.
abbrev pub scan_options : Options
scan_options = record {
  data_dir = true;
  save_snapshot = false;
  restore_snapshot = none;
  mode = some "scan";
  report_every = 10000;
  max_queue_size = 100;
  skip_block_events = false;
  skip_table_deltas = true;
  skip_traces = false;
  skip_account_info = false;
  irreversible_only = false;
  start_block = 0;
  end_block = 4294967295;
  stale_deadline = 10000;
  enable_receiver_filter = true;
  include_receiver = some ("alice" ∷ []);
  enable_auth_filter = false;
  include_auth = none;
  blacklist_action = some ("eosio:onblock" ∷ []);
  enable_tables_filter = false;
  include_tables_contract = none;
  blacklist_tables_contract = some ("alice" ∷ []);
}

-- Three names.
abbrev pub three_names : NameReader
three_names = record {
  string_to_name_strict = λ s.
      if str_eq s "eosio"
      then ok 66
      else if str_eq s "onblock"
      then ok 1
      else if str_eq s "alice"
      then ok 7
      else err Error.bad_name;
  split = λ s. if str_eq s "eosio:onblock" then "eosio" ∷ "onblock" ∷ [] else s ∷ [];
}

abbrev fresh_settings : Settings
fresh_settings = record {
  config = record scan_config { blacklist_actions = []; do_trace_blacklist = false };
  end_block_num = 0;
}

configure_example :
    Configured three_names scan_options fresh_settings
      (configure three_names scan_options fresh_settings).1
unfolding configure
configure_example =
    configure_lem three_names scan_options fresh_settings
      (configure three_names scan_options fresh_settings).1
      (record {
        no_flag = refl;
        no_blacklist = refl;
        no_actions = refl;
        no_receivers = refl;
        no_authorizers = refl;
        no_contracts = refl;
        no_tables_flag = refl;
        no_tables = refl;
      })
      refl
