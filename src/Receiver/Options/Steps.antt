-- ===== src/Receiver/Options/Steps.antt =====
-- How the steps of the configuration act on one part of the settings.
use eos_chronicle.Base.{
  ℕ, ◌≡◌, refl, sym, ap, ◌∙◌, Bool, true, false, ◌&&◌, ◌||◌, String, Option, none, some, List, [],
  ◌∷◌, ◌==◌, insert, contains, arith,
}
use eos_chronicle.Base.Exec.{Result, ok, err, lift, ◌>>=◌, ◌>>◌, continue}
use eos_chronicle.Receiver.State.{Config}
use eos_chronicle.Receiver.Options.{
  Settings, Setting, NameReader, set, include_names, set_filter, blacklist_entry, blacklist_entries,
  set_blacklist, set_tables_blacklist, add_blacklisted, add_action, insert_action,
}

module _ {ℓ} {A : Type ℓ} (get : Settings → A) where
  -- The step leaves that part alone, whether it returns or throws.
  abbrev pub Unmoved : Setting → Type ℓ
  Unmoved m = (s : Settings) → get (m s).1 ≡ get s

  continued :
      (x : Result (Unit {0}) × Settings) (k : Setting)
      → Unmoved k
      → get (continue x.0 (λ _. k) x.1).1 ≡ get x.1
  continued (ok u, s) k still = still s
  continued (err e, s) k still = refl

  pub then-Unmoved : (m k : Setting) → Unmoved m → Unmoved k → Unmoved (m >> k)
  unfolding ◌>>=◌
  then-Unmoved m k first second s = continued (m s) k second ∙ first s

  lifted-Unmoved :
      (r : Result ℕ) (k : ℕ → Setting) → ((n : ℕ) → Unmoved (k n)) → Unmoved (lift r >>= k)
  unfolding ◌>>=◌
  lifted-Unmoved (ok n) k still s = still n s
  lifted-Unmoved (err e) k still s = refl

  module _ (names : NameReader) (put : ℕ → Config → Config)
      (puts : (n : ℕ) (s : Settings) → get (record s { config = put n s.config }) ≡ get s) where
    pub include_names-Unmoved :
        (accounts : List String) → Unmoved (include_names names put accounts)
    unfolding include_names ◌>>=◌
    include_names-Unmoved [] s = refl
    include_names-Unmoved (a ∷ rest) s =
        lifted-Unmoved (names.string_to_name_strict a)
          (λ n. set (put n) >> include_names names put rest)
          (λ n.
            then-Unmoved (set (put n)) (include_names names put rest) (λ u. puts n u)
              (include_names-Unmoved rest))
          s

    -- After a filter's options that part is as the filter's flag leaves it.
    pub set_filter_flag :
        (enabled : Bool) (flag : Config → Config) (include : Option (List String)) (s : Settings)
        → get (set_filter names enabled flag put include s).1
          ≡ get (record s { config = flag s.config })
    unfolding set_filter ◌>>=◌
    set_filter_flag false flag include s = refl
    set_filter_flag true flag none s = refl
    set_filter_flag true flag (some accounts) s =
        include_names-Unmoved accounts (record s { config = flag s.config })

  module _ (names : NameReader)
      (acts : (l : List (ℕ × List ℕ)) (s : Settings)
        → get (record s { config = record s.config { blacklist_actions = l } }) ≡ get s) where
    entry-Unmoved : (parts : List String) → Unmoved (blacklist_entry names parts)
    unfolding ◌>>=◌
    entry-Unmoved [] s = refl
    entry-Unmoved (a ∷ []) s = refl
    entry-Unmoved (a ∷ b ∷ []) s =
        lifted-Unmoved (names.string_to_name_strict a)
          (λ m. lift (names.string_to_name_strict b) >>= λ n. set (add_action names m n))
          (λ m.
            lifted-Unmoved (names.string_to_name_strict b) (λ n. set (add_action names m n))
              (λ n u. acts (insert_action names m n u.config.blacklist_actions) u))
          s
    entry-Unmoved (a ∷ b ∷ c ∷ rest) s = refl

    entries-Unmoved : (entries : List String) → Unmoved (blacklist_entries names entries)
    unfolding blacklist_entries
    entries-Unmoved [] s = refl
    entries-Unmoved (entry ∷ rest) s =
        then-Unmoved (blacklist_entry names (names.split entry)) (blacklist_entries names rest)
          (entry-Unmoved (names.split entry)) (entries-Unmoved rest) s

    pub set_blacklist-Unmoved :
        ((s : Settings)
          → get (record s { config = record s.config { do_trace_blacklist = true } }) ≡ get s)
        → (o : Option (List String)) → Unmoved (set_blacklist names o)
    unfolding set_blacklist ◌>>=◌
    set_blacklist-Unmoved same none s = refl
    set_blacklist-Unmoved same (some entries) s =
        entries-Unmoved entries
          (record s { config = record s.config { do_trace_blacklist = true } })
        ∙ same s

  pub set_tables_blacklist-Unmoved :
      (names : NameReader)
      → ((l : List ℕ) (s : Settings)
          → get (record s {
            config = record s.config { enable_tables_blacklist = true; tables_blacklist = l };
          })
            ≡ get s)
      → ((n : ℕ) (s : Settings)
          → get (record s { config = add_blacklisted names n s.config }) ≡ get s)
      → (o : Option (List String)) → Unmoved (set_tables_blacklist names o)
  unfolding set_tables_blacklist ◌>>=◌
  set_tables_blacklist-Unmoved names same puts none s = refl
  set_tables_blacklist-Unmoved names same puts (some accounts) s =
      include_names-Unmoved names (add_blacklisted names) puts accounts
        (record s { config = record s.config { enable_tables_blacklist = true } })
      ∙ same s.config.tables_blacklist s

-- Whether the name is read out of one of these.
abbrev pub reads_as : ℕ → Result ℕ → Bool
reads_as n (ok m) = n == m
reads_as n (err e) = false

abbrev pub any_reads : NameReader → ℕ → List String → Bool
any_reads names n [] = false
any_reads names n (a ∷ rest) = reads_as n (names.string_to_name_strict a) || any_reads names n rest

abbrev pub any_included : NameReader → ℕ → Option (List String) → Bool
any_included names n none = false
any_included names n (some accounts) = any_reads names n accounts

pub contains-insert : (n m : ℕ) (l : List ℕ) → contains n (insert m l) ≡ (n == m || contains n l)
contains-insert n m l = ground arith

pub or_false : (b : Bool) → b ≡ (b || false)
or_false true = refl
or_false false = refl

pub swap_or : (a b c : Bool) → ((a || b) || c) ≡ (b || (a || c))
swap_or true true c = refl
swap_or true false c = refl
swap_or false b c = refl

module _ (names : NameReader) (get : Config → List ℕ) (put : ℕ → Config → Config)
    (got : (n : ℕ) (c : Config) → get (put n c) ≡ insert n (get c)) where
  -- The names of an option are those that were there and those that are read.
  pub include_names_lem :
      (accounts : List String) (s t : Settings) (n : ℕ)
      → include_names names put accounts s ≡ (ok tt, t)
      → contains n (get t.config) ≡ (contains n (get s.config) || any_reads names n accounts)
  unfolding include_names ◌>>=◌
  include_names_lem [] s t n run =
      ap (λ o. contains n (get o.1.config)) (sym run) ∙ or_false (contains n (get s.config))
  include_names_lem (a ∷ rest) s t n run =
      read (names.string_to_name_strict a)
        (λ m. include_names_lem rest (record s { config = put m s.config }) t n) run
    where
      read :
          (r : Result ℕ)
          → ((m : ℕ)
              → include_names names put rest (record s { config = put m s.config }) ≡ (ok tt, t)
              → contains n (get t.config)
                ≡ (contains n (get (put m s.config)) || any_reads names n rest))
          → (lift r >>= λ m. set (put m) >> include_names names put rest) s ≡ (ok tt, t)
          → contains n (get t.config)
            ≡ (contains n (get s.config) || (reads_as n r || any_reads names n rest))
      read (err e) later h = cc
      read (ok m) later h =
          later m h
          ∙ ap (λ b. b || any_reads names n rest)
              (ap (contains n) (got m s.config) ∙ contains-insert n m (get s.config))
          ∙ swap_or (n == m) (contains n (get s.config)) (any_reads names n rest)

  -- Where there was no name before.
  pub set_filter_lem :
      (enabled : Bool) (flag : Config → Config) (include : Option (List String)) (s t : Settings)
      (n : ℕ)
      → get (flag s.config) ≡ []
      → set_filter names enabled flag put include s ≡ (ok tt, t)
      → contains n (get t.config) ≡ (enabled && any_included names n include)
  unfolding set_filter ◌>>=◌
  set_filter_lem false flag include s t n empty run =
      ap (λ o. contains n (get o.1.config)) (sym run) ∙ ap (contains n) empty
  set_filter_lem true flag none s t n empty run = cc
  set_filter_lem true flag (some accounts) s t n empty run =
      include_names_lem accounts (record s { config = flag s.config }) t n run
      ∙ ap (λ l. contains n l || any_reads names n accounts) empty
