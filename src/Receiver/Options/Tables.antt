-- ===== src/Receiver/Options/Tables.antt =====
-- The options of tables, and those that are only copied, in the configuration of a receiver.
use eos_chronicle.Base.{
  ℕ, ◌≡◌, refl, sym, ap, ◌∙◌, Bool, true, false, ◌&&◌, ◌||◌, String, Option, none, some, List, [],
  is_some, contains, arith,
}
use eos_chronicle.Base.Exec.{ok, modify, ◌>>=◌}
use eos_chronicle.Receiver.Options.{
  Options, Settings, NameReader, set_plain, set_trace_filter, set_blacklist, set_tables_blacklist,
  tables_stage, add_contract, add_blacklisted,
}
use eos_chronicle.Receiver.Options.Steps.{
  any_included, include_names_lem, include_names-Unmoved, set_filter_lem, set_filter_flag,
  set_blacklist-Unmoved, set_tables_blacklist-Unmoved,
}
use eos_chronicle.Receiver.Options.Stages.{
  Steps, moved, after_flag, receivers_flag, authorizers_flag,
}

-- What is only copied.
pub record Plain : Type 0 where
  pub report_every : ℕ
  pub max_queue_size : ℕ
  pub skip_block_events : Bool
  pub skip_table_deltas : Bool
  pub skip_traces : Bool
  pub skip_account_info : Bool
  pub start_block_num : ℕ
  pub end_block_num : ℕ
  pub stale_deadline : ℕ

abbrev pub plain_of : Settings → Plain
plain_of s = record {
  report_every = s.config.report_every;
  max_queue_size = s.config.max_queue_size;
  skip_block_events = s.config.skip_block_events;
  skip_table_deltas = s.config.skip_table_deltas;
  skip_traces = s.config.skip_traces;
  skip_account_info = s.config.skip_account_info;
  start_block_num = s.config.start_block_num;
  end_block_num = s.end_block_num;
  stale_deadline = s.config.stale_check_deadline_msec;
}

abbrev pub asked_plain : Options → Plain
asked_plain o = record {
  report_every = o.report_every;
  max_queue_size = o.max_queue_size;
  skip_block_events = o.skip_block_events;
  skip_table_deltas = o.skip_table_deltas;
  skip_traces = o.skip_traces;
  skip_account_info = o.skip_account_info;
  start_block_num = o.start_block;
  end_block_num = o.end_block;
  stale_deadline = o.stale_deadline;
}

-- The modes, which another function sets.
abbrev pub modes_of : Settings → Bool × Bool × Bool
modes_of s = (s.config.interactive_mode, s.config.noexport_mode, s.config.irreversible_only)

abbrev tables_of : Settings → (Bool × List ℕ) × (Bool × List ℕ)
tables_of s = (
  (s.config.enable_tables_filter, s.config.tables_filter),
  (s.config.enable_tables_blacklist, s.config.tables_blacklist),
)

copied :
    (o : Options) (s t : Settings)
    → set_plain o s ≡ (ok tt, t)
    → (plain_of t ≡ asked_plain o) × (modes_of t ≡ modes_of s) × (tables_of t ≡ tables_of s)
unfolding set_plain
copied o s t run = ground arith

banned :
    (names : NameReader) (accounts : Option (List String)) (s t : Settings) (n : ℕ)
    → s.config.enable_tables_blacklist ≡ false
    → s.config.tables_blacklist ≡ []
    → set_tables_blacklist names accounts s ≡ (ok tt, t)
    → (t.config.enable_tables_blacklist ≡ is_some accounts)
      × (contains n t.config.tables_blacklist ≡ any_included names n accounts)
unfolding set_tables_blacklist ◌>>=◌ modify
banned names none s t n off empty run = (
  ap (λ o. o.1.config.enable_tables_blacklist) (sym run) ∙ off,
  ap (λ o. contains n o.1.config.tables_blacklist) (sym run) ∙ ap (contains n) empty,
)
banned names (some accounts) s t n off empty run =
    let u = record s { config = record s.config { enable_tables_blacklist = true } } in
    (
      ap (λ x. x.1.config.enable_tables_blacklist) (sym run)
          ∙ include_names-Unmoved (λ v. v.config.enable_tables_blacklist) names
              (add_blacklisted names) (λ m v. refl) accounts u,
      include_names_lem names (λ c. c.tables_blacklist) (add_blacklisted names) (λ m c. refl)
            accounts u t n run
          ∙ ap (λ l. contains n l || any_included names n (some accounts)) empty,
    )

module _ (names : NameReader) (o : Options) (s t : Settings) (run : Steps names o s t) where
  pub copied_lem : (plain_of t ≡ asked_plain o) × (modes_of t ≡ modes_of s)
  unfolding set_trace_filter modify
  copied_lem =
      let plain = copied o s run.plain run.plain_run in
      let all : Settings → Plain × (Bool × Bool × Bool) = λ u. (plain_of u, modes_of u) in
      let last =
        after_flag names o all s t run (λ b c l m u. refl) (λ b l u. refl)
        ∙ moved names o all (set_trace_filter names) run.authorizers run.flagged run.flagged_run
            refl
        ∙ authorizers_flag names o all s t run (λ k u. refl)
        ∙ receivers_flag names o all s t run (λ k u. refl) in
      (ap (λ p. p.0) last ∙ plain.0, ap (λ p. p.1) last ∙ plain.1)

  -- Before the options of tables nothing touches what they set.
  untouched : tables_of run.blacklisted ≡ tables_of s
  unfolding set_trace_filter modify
  untouched =
      let plain = copied o s run.plain run.plain_run in
      moved names o tables_of (set_blacklist names o.blacklist_action) run.flagged run.blacklisted
        run.blacklisted_run
        (set_blacklist-Unmoved tables_of names (λ l u. refl) (λ u. refl) o.blacklist_action
          run.flagged)
      ∙ moved names o tables_of (set_trace_filter names) run.authorizers run.flagged run.flagged_run
          refl
      ∙ authorizers_flag names o tables_of s t run (λ k u. refl)
      ∙ receivers_flag names o tables_of s t run (λ k u. refl)
      ∙ plain.2

  pub contracts_lem :
      (n : ℕ)
      → s.config.tables_filter ≡ []
      → (t.config.enable_tables_filter ≡ o.enable_tables_filter)
        × (contains n t.config.tables_filter
            ≡ (o.enable_tables_filter && any_included names n o.include_tables_contract))
  contracts_lem n empty =
      let get : Settings → Bool × List ℕ =
        λ u. (u.config.enable_tables_filter, u.config.tables_filter) in
      let last =
        moved names o get (set_tables_blacklist names o.blacklist_tables_contract) run.contracts t
          run.last_run
          (set_tables_blacklist-Unmoved get names (λ l u. refl) (λ m u. refl)
            o.blacklist_tables_contract run.contracts) in
      (
        ap (λ p. p.0) last
            ∙ moved names o (λ u. u.config.enable_tables_filter) (tables_stage names o)
                run.blacklisted run.contracts run.contracts_run
                (set_filter_flag (λ u. u.config.enable_tables_filter) names (add_contract names)
                  (λ m u. refl) o.enable_tables_filter
                  (λ c. record c { enable_tables_filter = o.enable_tables_filter })
                  o.include_tables_contract run.blacklisted),
        ap (λ p. contains n p.1) last
            ∙ set_filter_lem names (λ c. c.tables_filter) (add_contract names) (λ m c. refl)
                o.enable_tables_filter
                (λ c. record c { enable_tables_filter = o.enable_tables_filter })
                o.include_tables_contract run.blacklisted run.contracts n
                (ap (λ p. p.0.1) untouched ∙ empty) run.contracts_run,
      )

  pub banned_lem :
      (n : ℕ)
      → s.config.enable_tables_blacklist ≡ false
      → s.config.tables_blacklist ≡ []
      → (t.config.enable_tables_blacklist ≡ is_some o.blacklist_tables_contract)
        × (contains n t.config.tables_blacklist ≡ any_included names n o.blacklist_tables_contract)
  banned_lem n off empty =
      let get : Settings → Bool × List ℕ =
        λ u. (u.config.enable_tables_blacklist, u.config.tables_blacklist) in
      let last =
        moved names o get (tables_stage names o) run.blacklisted run.contracts run.contracts_run (
          set_filter_flag get names (add_contract names) (λ m u. refl) o.enable_tables_filter
            (λ c. record c { enable_tables_filter = o.enable_tables_filter })
            o.include_tables_contract run.blacklisted)
        ∙ ap (λ p. p.1) untouched in
      banned names o.blacklist_tables_contract run.contracts t n (ap (λ p. p.0) last ∙ off)
        (ap (λ p. p.1) last ∙ empty) run.last_run
