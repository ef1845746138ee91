-- ===== src/Receiver/Options/Configured.antt =====
-- What the configuration of a receiver that runs amounts to.
use eos_chronicle.Base.{
  ℕ, ltb, ◌≡◌, refl, ap, ◌∙◌, Bool, false, ◌&&◌, ◌||◌, [], is_some, contains, arith,
}
use eos_chronicle.Base.Exec.{ok, modify}
use eos_chronicle.Messages.Input.{Action}
use eos_chronicle.Receiver.State.{Config}
use eos_chronicle.Receiver.Traces.{blacklisted_names, is_blacklisted, is_received}
use eos_chronicle.Receiver.Options.{
  Options, Settings, NameReader, set_trace_filter, configure, add_receiver, add_authorizer,
}
use eos_chronicle.Receiver.Options.Steps.{any_included, set_filter_lem}
use eos_chronicle.Receiver.Options.Tables.{
  plain_of, asked_plain, modes_of, copied_lem, contracts_lem, banned_lem,
}
use eos_chronicle.Receiver.Options.Blacklist.{blacklists, set_blacklist_lem}
use eos_chronicle.Receiver.Options.Stages.{
  blacklist_of, receivers_of, authorizers_of, flag_of, start_of, Steps, steps, moved,
  after_blacklist, after_flag, receivers_flag, authorizers_flag, plain_lem,
}

-- As receiver_plugin_impl is made: no filter and no blacklist.
pub record IsFresh (c : Config) : Type 0 where
  pub no_flag : c.do_trace_filter ≡ false
  pub no_blacklist : c.do_trace_blacklist ≡ false
  pub no_actions : c.blacklist_actions ≡ []
  pub no_receivers : c.rcvr_filter ≡ []
  pub no_authorizers : c.auth_filter ≡ []
  pub no_contracts : c.tables_filter ≡ []
  pub no_tables_flag : c.enable_tables_blacklist ≡ false
  pub no_tables : c.tables_blacklist ≡ []

-- What the options say, for settings `t` made from `s`. The options that are only copied have their
-- values, and the modes are those of before. The blacklist holds the actions that an entry names. Each
-- filter and the tables' blacklist holds the accounts that its option names, a filter only if it is
-- enabled; traces are filtered if a filter of theirs is enabled. There is no start block in the
-- interactive mode.
pub record Configured (names : NameReader) (o : Options) (s t : Settings) : Type 0 where
  pub copied : plain_of t ≡ asked_plain o
  pub modes : modes_of t ≡ modes_of s
  pub blacklist :
      (act : Action) → is_blacklisted t.config act ≡ blacklists names act o.blacklist_action
  pub receivers :
      (n : ℕ)
      → is_received t.config n
        ≡ (o.enable_receiver_filter && any_included names n o.include_receiver)
  pub authorizers :
      (n : ℕ)
      → (t.config.enable_auth_filter && contains n t.config.auth_filter)
        ≡ (o.enable_auth_filter && any_included names n o.include_auth)
  pub filters : t.config.do_trace_filter ≡ (o.enable_receiver_filter || o.enable_auth_filter)
  pub no_start : (t.config.interactive_mode && ltb 0 t.config.start_block_num) ≡ false
  pub contracts :
      (n : ℕ)
      → (t.config.enable_tables_filter ≡ o.enable_tables_filter)
        × (contains n t.config.tables_filter
            ≡ (o.enable_tables_filter && any_included names n o.include_tables_contract))
  pub tables_blacklist :
      (n : ℕ)
      → (t.config.enable_tables_blacklist ≡ is_some o.blacklist_tables_contract)
        × (contains n t.config.tables_blacklist ≡ any_included names n o.blacklist_tables_contract)

twice : (a b c d : Bool) → a ≡ b → c ≡ (b && d) → (a && c) ≡ (b && d)
twice a b c d e f = ground arith

module _ (names : NameReader) (o : Options) (s t : Settings) (run : Steps names o s t)
    (fresh : IsFresh s.config) where
  blacklist_lem :
      (act : Action) → is_blacklisted t.config act ≡ blacklists names act o.blacklist_action
  unfolding is_blacklisted set_trace_filter modify
  blacklist_lem act =
      let before =
        moved names o blacklist_of (set_trace_filter names) run.authorizers run.flagged
          run.flagged_run refl
        ∙ authorizers_flag names o blacklist_of s t run (λ n u. refl)
        ∙ receivers_flag names o blacklist_of s t run (λ n u. refl)
        ∙ (plain_lem names o s run.plain run.plain_run).0 in
      ap {B = Bool} (λ p. p.0 && contains act.name (blacklisted_names act.account p.1))
        (after_blacklist names o blacklist_of s t run (λ b c l m u. refl))
      ∙ set_blacklist_lem names act o.blacklist_action run.flagged run.blacklisted
          run.blacklisted_run (ap (λ p. p.0) before ∙ fresh.no_blacklist)
          (ap (λ p. p.1) before ∙ fresh.no_actions)

  receivers_lem :
      (n : ℕ)
      → is_received t.config n
        ≡ (o.enable_receiver_filter && any_included names n o.include_receiver)
  unfolding is_received set_trace_filter modify
  receivers_lem n =
      let plain = plain_lem names o s run.plain run.plain_run in
      let last =
        after_flag names o receivers_of s t run (λ b c l m u. refl) (λ b l u. refl)
        ∙ moved names o receivers_of (set_trace_filter names) run.authorizers run.flagged
            run.flagged_run refl
        ∙ authorizers_flag names o receivers_of s t run (λ k u. refl) in
      twice t.config.enable_rcvr_filter o.enable_receiver_filter (contains n t.config.rcvr_filter)
        (any_included names n o.include_receiver)
        (ap (λ p. p.0) last
          ∙ receivers_flag names o (λ u. u.config.enable_rcvr_filter) s t run (λ k u. refl))
        (ap (λ p. contains n p.1) last
          ∙ set_filter_lem names (λ c. c.rcvr_filter) (add_receiver names) (λ k c. refl)
              o.enable_receiver_filter
              (λ c. record c { enable_rcvr_filter = o.enable_receiver_filter }) o.include_receiver
              run.plain run.receivers n (plain.1 ∙ fresh.no_receivers) run.receivers_run)

  authorizers_lem :
      (n : ℕ)
      → (t.config.enable_auth_filter && contains n t.config.auth_filter)
        ≡ (o.enable_auth_filter && any_included names n o.include_auth)
  unfolding set_trace_filter modify
  authorizers_lem n =
      let plain = plain_lem names o s run.plain run.plain_run in
      let last =
        after_flag names o authorizers_of s t run (λ b c l m u. refl) (λ b l u. refl)
        ∙ moved names o authorizers_of (set_trace_filter names) run.authorizers run.flagged
            run.flagged_run refl in
      twice t.config.enable_auth_filter o.enable_auth_filter (contains n t.config.auth_filter)
        (any_included names n o.include_auth)
        (ap (λ p. p.0) last
          ∙ authorizers_flag names o (λ u. u.config.enable_auth_filter) s t run (λ k u. refl))
        (ap (λ p. contains n p.1) last
          ∙ set_filter_lem names (λ c. c.auth_filter) (add_authorizer names) (λ k c. refl)
              o.enable_auth_filter (λ c. record c { enable_auth_filter = o.enable_auth_filter })
              o.include_auth run.receivers run.authorizers n
              (receivers_flag names o (λ u. u.config.auth_filter) s t run (λ k u. refl)
                ∙ plain.2
                ∙ fresh.no_authorizers)
              run.authorizers_run)

  filters_lem : t.config.do_trace_filter ≡ (o.enable_receiver_filter || o.enable_auth_filter)
  unfolding set_trace_filter modify
  filters_lem =
      let plain = plain_lem names o s run.plain run.plain_run in
      let last =
        after_flag names o flag_of s t run (λ b c l m u. refl) (λ b l u. refl)
        ∙ moved names o flag_of (set_trace_filter names) run.authorizers run.flagged run.flagged_run
            refl in
      let received =
        authorizers_flag names o (λ u. u.config.enable_rcvr_filter) s t run (λ k u. refl)
        ∙ receivers_flag names o (λ u. u.config.enable_rcvr_filter) s t run (λ k u. refl) in
      let authorized =
        authorizers_flag names o (λ u. u.config.enable_auth_filter) s t run (λ k u. refl) in
      let flag =
        authorizers_flag names o flag_of s t run (λ k u. refl)
        ∙ receivers_flag names o flag_of s t run (λ k u. refl)
        ∙ plain.3
        ∙ fresh.no_flag in
      ground arith

  no_start_lem : (t.config.interactive_mode && ltb 0 t.config.start_block_num) ≡ false
  unfolding set_trace_filter modify
  no_start_lem =
      let plain = plain_lem names o s run.plain run.plain_run in
      let last =
        after_flag names o start_of s t run (λ b c l m u. refl) (λ b l u. refl)
        ∙ moved names o start_of (set_trace_filter names) run.authorizers run.flagged
            run.flagged_run refl
        ∙ authorizers_flag names o start_of s t run (λ k u. refl)
        ∙ receivers_flag names o start_of s t run (λ k u. refl) in
      let mode = ap (λ p. p.0) last in let first = ap (λ p. p.1) last in ground arith

-- Where the options of a fresh receiver, which has no filter and no blacklist, are taken, the options
-- that are only copied (what to report and to skip, the limits of the queue, the first and the last
-- block, the deadline) have their values and the modes are as before; the blacklist of actions, the
-- filters of receivers, of authorizers and of tables and the blacklist of tables hold just what their
-- options name, a filter only if it is enabled; traces are filtered if one of the two filters of
-- theirs is enabled; and the interactive mode has no start block.
pub configure_lem :
    (names : NameReader) (o : Options) (s t : Settings)
    → IsFresh s.config
    → configure names o s ≡ (ok tt, t)
    → Configured names o s t
configure_lem names o s t fresh ran =
    let run = steps names o s t ran in
    let (copied, modes) = copied_lem names o s t run in
    record {
      copied = copied;
      modes = modes;
      blacklist = blacklist_lem names o s t run fresh;
      receivers = receivers_lem names o s t run fresh;
      authorizers = authorizers_lem names o s t run fresh;
      filters = filters_lem names o s t run fresh;
      no_start = no_start_lem names o s t run fresh;
      contracts = λ n. contracts_lem names o s t run n fresh.no_contracts;
      tables_blacklist = λ n. banned_lem names o s t run n fresh.no_tables_flag fresh.no_tables;
    }
