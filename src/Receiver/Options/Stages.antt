-- ===== src/Receiver/Options/Stages.antt =====
-- The steps of the configuration, and what each leaves alone.
use eos_chronicle.Base.{ℕ, ◌≡◌, sym, ap, ◌∙◌, Bool, true, false, ◌&&◌, List, ltb, insert, arith}
use eos_chronicle.Base.Exec.{ok, ◌>>◌, bind_ok}
use eos_chronicle.Receiver.Options.{
  Options, Settings, Setting, NameReader, set_plain, set_trace_filter, set_blacklist,
  set_tables_blacklist, receiver_stage, auth_stage, tables_stage, configure, add_receiver,
  add_authorizer, add_contract,
}
use eos_chronicle.Receiver.Options.Steps.{
  set_filter_flag, set_blacklist-Unmoved, set_tables_blacklist-Unmoved,
}

abbrev pub blacklist_of : Settings → Bool × List (ℕ × List ℕ)
blacklist_of s = (s.config.do_trace_blacklist, s.config.blacklist_actions)

abbrev pub receivers_of : Settings → Bool × List ℕ
receivers_of s = (s.config.enable_rcvr_filter, s.config.rcvr_filter)

abbrev pub authorizers_of : Settings → Bool × List ℕ
authorizers_of s = (s.config.enable_auth_filter, s.config.auth_filter)

abbrev pub flag_of : Settings → Bool
flag_of s = s.config.do_trace_filter

abbrev pub start_of : Settings → Bool × ℕ
start_of s = (s.config.interactive_mode, s.config.start_block_num)

module _ (names : NameReader) (o : Options) where
  -- The steps one after the other.
  pub record Steps (s t : Settings) : Type 0 where
    pub plain : Settings
    pub receivers : Settings
    pub authorizers : Settings
    pub flagged : Settings
    pub blacklisted : Settings
    pub contracts : Settings
    pub plain_run : set_plain o s ≡ (ok tt, plain)
    pub receivers_run : receiver_stage names o plain ≡ (ok tt, receivers)
    pub authorizers_run : auth_stage names o receivers ≡ (ok tt, authorizers)
    pub flagged_run : set_trace_filter names authorizers ≡ (ok tt, flagged)
    pub blacklisted_run : set_blacklist names o.blacklist_action flagged ≡ (ok tt, blacklisted)
    pub contracts_run : tables_stage names o blacklisted ≡ (ok tt, contracts)
    pub last_run : set_tables_blacklist names o.blacklist_tables_contract contracts ≡ (ok tt, t)

  then_ok :
      (m k : Setting) (s t : Settings)
      → (m >> k) s ≡ (ok tt, t)
      → (u : Settings) × (m s ≡ (ok tt, u)) × (k u ≡ (ok tt, t))
  then_ok m k s t run =
      let (done, u, first, second) = bind_ok m (λ v. k) s t tt run in (u, first, second)

  abbrev tables : Setting
  tables = tables_stage names o >> set_tables_blacklist names o.blacklist_tables_contract

  abbrev from_blacklist : Setting
  from_blacklist = set_blacklist names o.blacklist_action >> tables

  abbrev from_flag : Setting
  from_flag = set_trace_filter names >> from_blacklist

  abbrev from_auth : Setting
  from_auth = auth_stage names o >> from_flag

  pub steps : (s t : Settings) → configure names o s ≡ (ok tt, t) → Steps s t
  unfolding configure
  steps s t run =
      let (a, e, r) = then_ok (set_plain o) (receiver_stage names o >> from_auth) s t run in
      let (b, e', r') = then_ok (receiver_stage names o) from_auth a t r in
      let (c, e'', r'') = then_ok (auth_stage names o) from_flag b t r' in
      let (d, f, q) = then_ok (set_trace_filter names) from_blacklist c t r'' in
      let (g, f', q') = then_ok (set_blacklist names o.blacklist_action) tables d t q in
      let (h, f'', q'') =
        then_ok (tables_stage names o) (set_tables_blacklist names o.blacklist_tables_contract) g t
          q' in
      record {
        plain = a;
        receivers = b;
        authorizers = c;
        flagged = d;
        blacklisted = g;
        contracts = h;
        plain_run = e;
        receivers_run = e';
        authorizers_run = e'';
        flagged_run = f;
        blacklisted_run = f';
        contracts_run = f'';
        last_run = q'';
      }

  pub moved {ℓ} :
      {A : Type ℓ} (get : Settings → A) (m : Setting) (s t : Settings) {a : A}
      → m s ≡ (ok tt, t)
      → get (m s).1 ≡ a
      → get t ≡ a
  moved get m s t run e = ap (λ x. get x.1) (sym run) ∙ e

  -- The options of tables come last, and leave the rest alone.
  pub after_blacklist {ℓ} :
      {A : Type ℓ} (get : Settings → A) (s t : Settings) (run : Steps s t)
      → ((b c : Bool) (l m : List ℕ) (u : Settings)
          → get (record u {
            config = record u.config {
              enable_tables_filter = b;
              tables_filter = l;
              enable_tables_blacklist = c;
              tables_blacklist = m;
            };
          })
            ≡ get u)
      → get t ≡ get run.blacklisted
  after_blacklist get s t run same =
      moved get (set_tables_blacklist names o.blacklist_tables_contract) run.contracts t
        run.last_run
        (set_tables_blacklist-Unmoved get names
          (λ l u. same u.config.enable_tables_filter true u.config.tables_filter l u)
          (λ n u.
            same u.config.enable_tables_filter u.config.enable_tables_blacklist
              u.config.tables_filter (insert n u.config.tables_blacklist) u)
          o.blacklist_tables_contract run.contracts)
      ∙ moved get (tables_stage names o) run.blacklisted run.contracts run.contracts_run (
          set_filter_flag get names (add_contract names)
            (λ n u.
              same u.config.enable_tables_filter u.config.enable_tables_blacklist
                (insert n u.config.tables_filter) u.config.tables_blacklist u)
            o.enable_tables_filter (λ c. record c { enable_tables_filter = o.enable_tables_filter })
            o.include_tables_contract run.blacklisted
          ∙ same o.enable_tables_filter run.blacklisted.config.enable_tables_blacklist
              run.blacklisted.config.tables_filter run.blacklisted.config.tables_blacklist
              run.blacklisted)

  pub after_flag {ℓ} :
      {A : Type ℓ} (get : Settings → A) (s t : Settings) (run : Steps s t)
      → ((b c : Bool) (l m : List ℕ) (u : Settings)
          → get (record u {
            config = record u.config {
              enable_tables_filter = b;
              tables_filter = l;
              enable_tables_blacklist = c;
              tables_blacklist = m;
            };
          })
            ≡ get u)
      → ((b : Bool) (l : List (ℕ × List ℕ)) (u : Settings)
          → get (record u {
            config = record u.config { do_trace_blacklist = b; blacklist_actions = l };
          })
            ≡ get u)
      → get t ≡ get run.flagged
  after_flag get s t run same acts =
      after_blacklist get s t run same
      ∙ moved get (set_blacklist names o.blacklist_action) run.flagged run.blacklisted
          run.blacklisted_run
          (set_blacklist-Unmoved get names (λ l u. acts u.config.do_trace_blacklist l u)
            (λ u. acts true u.config.blacklist_actions u) o.blacklist_action run.flagged)

  pub receivers_flag {ℓ} :
      {A : Type ℓ} (get : Settings → A) (s t : Settings) (run : Steps s t)
      → ((n : ℕ) (u : Settings) → get (record u { config = add_receiver names n u.config }) ≡ get u)
      → get run.receivers
        ≡ get (record run.plain {
          config = record run.plain.config { enable_rcvr_filter = o.enable_receiver_filter };
        })
  receivers_flag get s t run same =
      moved get (receiver_stage names o) run.plain run.receivers run.receivers_run (
        set_filter_flag get names (add_receiver names) same o.enable_receiver_filter
          (λ c. record c { enable_rcvr_filter = o.enable_receiver_filter }) o.include_receiver
          run.plain)

  pub authorizers_flag {ℓ} :
      {A : Type ℓ} (get : Settings → A) (s t : Settings) (run : Steps s t)
      → ((n : ℕ) (u : Settings)
          → get (record u { config = add_authorizer names n u.config }) ≡ get u)
      → get run.authorizers
        ≡ get (record run.receivers {
          config = record run.receivers.config { enable_auth_filter = o.enable_auth_filter };
        })
  authorizers_flag get s t run same =
      moved get (auth_stage names o) run.receivers run.authorizers run.authorizers_run (
        set_filter_flag get names (add_authorizer names) same o.enable_auth_filter
          (λ c. record c { enable_auth_filter = o.enable_auth_filter }) o.include_auth
          run.receivers)

  -- The plain options with the start block refused in the interactive mode.
  pub plain_lem :
      (s t : Settings)
      → set_plain o s ≡ (ok tt, t)
      → (blacklist_of t ≡ blacklist_of s)
        × (t.config.rcvr_filter ≡ s.config.rcvr_filter)
        × (t.config.auth_filter ≡ s.config.auth_filter)
        × (t.config.do_trace_filter ≡ s.config.do_trace_filter)
        × (t.config.interactive_mode ≡ s.config.interactive_mode)
        × (t.config.start_block_num ≡ o.start_block)
        × ((s.config.interactive_mode && ltb 0 o.start_block) ≡ false)
  unfolding set_plain
  plain_lem s t run = ground arith
