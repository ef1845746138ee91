-- ===== src/Receiver/Options.antt =====
-- The options of the receiver: plugin_initialize of receiver_plugin and is_noexport_opt. An option
-- with a default always has a value; another one is there or not. The lock file, the opening of the
-- database and of the snapshot files, host, port and the log are left out.
pub mod Modes
pub mod Initialize
pub mod Snapshots
pub mod Steps
pub mod Blacklist
pub mod Stages
pub mod Tables
pub mod Configured
use eos_chronicle.Base.{
  ℕ, Bool, true, false, ◌&&◌, ◌||◌, String, Option, none, some, List, [], ◌∷◌, is_some,
  if◌then◌else◌, ltb, ◌==◌, insert, str_eq,
}
use eos_chronicle.Base.Exec.{Exec, Error, Result, ok, err, pure, throw, lift, modify, ◌>>=◌, ◌>>◌}
use eos_chronicle.Receiver.State.{Config, ReceiverOf, World}
use eos_chronicle.Snapshot.{File, write_snapshot, read_snapshot}

pub record Options : Type 0 where
  pub data_dir : Bool
  pub save_snapshot : Bool
  -- The contents of the file that is named, if it is there.
  pub restore_snapshot : Option File
  pub mode : Option String
  pub report_every : ℕ
  pub max_queue_size : ℕ
  pub skip_block_events : Bool
  pub skip_table_deltas : Bool
  pub skip_traces : Bool
  pub skip_account_info : Bool
  pub irreversible_only : Bool
  pub start_block : ℕ
  pub end_block : ℕ
  pub stale_deadline : ℕ
  pub enable_receiver_filter : Bool
  pub include_receiver : Option (List String)
  pub enable_auth_filter : Bool
  pub include_auth : Option (List String)
  pub blacklist_action : Option (List String)
  pub enable_tables_filter : Bool
  pub include_tables_contract : Option (List String)
  pub blacklist_tables_contract : Option (List String)

-- eosio::string_to_name_strict and boost::split at ':', which are not part of the repository.
pub record NameReader : Type 0 where
  pub string_to_name_strict : String → Result ℕ
  pub split : String → List String

-- What the options set: the configuration, and end_block_num.
pub record Settings : Type 0 where
  pub config : Config
  pub end_block_num : ℕ

abbrev pub Setting : Type 0
Setting = Exec Settings (Unit {0})

abbrev pub set : (Config → Config) → Setting
set f = modify (λ (s : Settings). record s { config = f s.config })

-- The mode, where there is no snapshot to save or to restore. A mode of another name is taken
-- without a complaint, and leaves the two flags as they are.
unfoldable pub set_mode : Options → Option String → Setting
unfolding ◌>>=◌
set_mode o none = throw Error.option_missing
set_mode o (some receiver_mode) =
    set (λ (c : Config). record c { irreversible_only = o.irreversible_only })
    >> (if str_eq receiver_mode "scan"
        then set (λ (c : Config). record c { noexport_mode = false; interactive_mode = false })
        else if str_eq receiver_mode "scan-noexport"
        then set (λ (c : Config). record c { noexport_mode = true; interactive_mode = false })
        else if str_eq receiver_mode "interactive"
        then set (λ (c : Config). record c {
          noexport_mode = false;
          interactive_mode = true;
          irreversible_only = true;
        })
        else pure tt)

unfoldable pub choose_mode : Options → Setting
unfolding set_mode
choose_mode o =
    if o.save_snapshot || is_some o.restore_snapshot
    then (if o.save_snapshot && is_some o.restore_snapshot
        then throw Error.option_conflict
        else set (λ (c : Config). record c { noexport_mode = true; interactive_mode = false }))
    else set_mode o o.mode

-- The options that are only copied.
unfoldable pub set_plain : Options → Setting
set_plain o s =
    let t = record s {
      config = record s.config {
        report_every = o.report_every;
        max_queue_size = o.max_queue_size;
        skip_block_events = o.skip_block_events;
        skip_table_deltas = o.skip_table_deltas;
        skip_traces = o.skip_traces;
        skip_account_info = o.skip_account_info;
        start_block_num = o.start_block;
      };
    } in
    if s.config.interactive_mode && ltb 0 o.start_block then (err Error.bad_option, t) else (
      ok tt,
      record t {
        end_block_num = o.end_block;
        config = record t.config { stale_check_deadline_msec = o.stale_deadline };
      },
    )

module _ (names : NameReader) where
  -- The loop over the accounts of an option.
  unfoldable pub include_names : (ℕ → Config → Config) → List String → Setting
  unfolding ◌>>=◌
  include_names put [] = pure tt
  include_names put (accstr ∷ rest) = lift (names.string_to_name_strict accstr) >>= λ accname.
      set (put accname) >> include_names put rest

  abbrev required : (ℕ → Config → Config) → Option (List String) → Setting
  required put none = throw Error.option_missing
  required put (some filter_accs) = include_names put filter_accs

  -- A filter that is enabled needs at least one name.
  unfoldable pub set_filter :
      Bool → (Config → Config) → (ℕ → Config → Config) → Option (List String) → Setting
  unfolding include_names
  set_filter enabled flag put include =
      set flag >> (if enabled then required put include else pure tt)

  abbrev pub add_receiver : ℕ → Config → Config
  add_receiver n c = record c { rcvr_filter = insert n c.rcvr_filter }

  abbrev pub add_authorizer : ℕ → Config → Config
  add_authorizer n c = record c { auth_filter = insert n c.auth_filter }

  abbrev pub add_contract : ℕ → Config → Config
  add_contract n c = record c { tables_filter = insert n c.tables_filter }

  abbrev pub add_blacklisted : ℕ → Config → Config
  add_blacklisted n c = record c { tables_blacklist = insert n c.tables_blacklist }

  unfoldable pub set_trace_filter : Setting
  set_trace_filter = set (λ (c : Config). record c {
    do_trace_filter =
        if c.enable_rcvr_filter || c.enable_auth_filter then true else c.do_trace_filter;
  })

  -- `blacklist_actions[account].insert(name)`.
  abbrev pub insert_action : ℕ → ℕ → List (ℕ × List ℕ) → List (ℕ × List ℕ)
  insert_action account name [] = (account, name ∷ []) ∷ []
  insert_action account name ((a, actions) ∷ rest) =
      let more = insert_action account name rest in
      if a == account then (a, insert name actions) ∷ rest else (a, actions) ∷ more

  abbrev pub add_action : ℕ → ℕ → Config → Config
  add_action account name c = record c {
    blacklist_actions = insert_action account name c.blacklist_actions;
  }

  -- An entry is two names.
  abbrev pub blacklist_entry : List String → Setting
  blacklist_entry (contract ∷ action ∷ []) = lift (names.string_to_name_strict contract) >>= λ a.
      lift (names.string_to_name_strict action) >>= λ n. set (add_action a n)
  blacklist_entry other = throw Error.bad_option

  unfoldable pub blacklist_entries : List String → Setting
  unfolding ◌>>=◌
  blacklist_entries [] = pure tt
  blacklist_entries (entry ∷ rest) = blacklist_entry (names.split entry) >> blacklist_entries rest

  unfoldable pub set_blacklist : Option (List String) → Setting
  unfolding blacklist_entries
  set_blacklist none = pure tt
  set_blacklist (some entries) =
      set (λ (c : Config). record c { do_trace_blacklist = true }) >> blacklist_entries entries

  unfoldable pub set_tables_blacklist : Option (List String) → Setting
  unfolding include_names
  set_tables_blacklist none = pure tt
  set_tables_blacklist (some accounts) =
      set (λ (c : Config). record c { enable_tables_blacklist = true })
      >> include_names add_blacklisted accounts

  abbrev pub receiver_stage : Options → Setting
  receiver_stage o =
      set_filter o.enable_receiver_filter
        (λ (c : Config). record c { enable_rcvr_filter = o.enable_receiver_filter }) add_receiver
        o.include_receiver

  abbrev pub auth_stage : Options → Setting
  auth_stage o =
      set_filter o.enable_auth_filter
        (λ (c : Config). record c { enable_auth_filter = o.enable_auth_filter }) add_authorizer
        o.include_auth

  abbrev pub tables_stage : Options → Setting
  tables_stage o =
      set_filter o.enable_tables_filter
        (λ (c : Config). record c { enable_tables_filter = o.enable_tables_filter }) add_contract
        o.include_tables_contract

  -- The options of a receiver that runs.
  unfoldable pub configure : Options → Setting
  unfolding set_plain set_filter set_trace_filter set_blacklist set_tables_blacklist ◌>>=◌
  configure o =
      set_plain o
      >> (receiver_stage o
          >> (auth_stage o
              >> (set_trace_filter
                  >> (set_blacklist o.blacklist_action
                      >> (tables_stage o >> set_tables_blacklist o.blacklist_tables_contract)))))

-- is_noexport_opt, which the other plugins ask.
unfoldable pub is_noexport_opt : Options → Result Bool
is_noexport_opt o =
    if o.save_snapshot || is_some o.restore_snapshot
    then ok true
    else elim o.mode [ none ↦ err Error.option_missing | some m ↦ ok (str_eq m "scan-noexport") ]
