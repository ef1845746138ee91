-- ===== src/Receiver/Options/Blacklist.antt =====
-- The blacklist that the options give.
use eos_chronicle.Base.{
  ℕ, ◌≡◌, refl, sym, ap, ◌∙◌, Bool, true, false, ◌&&◌, ◌||◌, String, Option, none, some, List, [],
  ◌∷◌, ◌==◌, contains, arith,
}
use eos_chronicle.Base.Exec.{Result, ok, err, lift, throw, pure, ◌>>=◌, bind_ok}
use eos_chronicle.Messages.Input.{Action}
use eos_chronicle.Receiver.Traces.{blacklisted_names, is_blacklisted}
use eos_chronicle.Receiver.Options.{
  Settings, NameReader, set, blacklist_entry, blacklist_entries, set_blacklist, insert_action,
}
use eos_chronicle.Receiver.Options.Steps.{reads_as, contains-insert, or_false, swap_or}

contains-insert_action :
    (names : NameReader) (a n a' n' : ℕ) (l : List (ℕ × List ℕ))
    → contains n (blacklisted_names a (insert_action names a' n' l))
      ≡ ((a == a' && n == n') || contains n (blacklisted_names a l))
contains-insert_action names a n a' n' [] = ground arith
contains-insert_action names a n a' n' ((b, actions) ∷ rest) =
    ground (arith, contains-insert_action names a n a' n' rest, contains-insert n n' actions)

module _ (names : NameReader) (act : Action) where
  -- The entry is two names, the action's contract and its name.
  abbrev pub names_action : List String → Bool
  names_action (contract ∷ action ∷ []) =
      reads_as act.account (names.string_to_name_strict contract)
      && reads_as act.name (names.string_to_name_strict action)
  names_action _ = false

  abbrev pub any_names_action : List String → Bool
  any_names_action [] = false
  any_names_action (entry ∷ rest) = names_action (names.split entry) || any_names_action rest

  abbrev listed : Settings → Bool
  listed s = contains act.name (blacklisted_names act.account s.config.blacklist_actions)

  abbrev flagged : Settings → Bool
  flagged s = s.config.do_trace_blacklist

  entry_lem :
      (parts : List String) (s t : Settings)
      → blacklist_entry names parts s ≡ (ok tt, t)
      → (listed t ≡ (names_action parts || listed s)) × (flagged t ≡ flagged s)
  unfolding ◌>>=◌ throw
  entry_lem [] s t run = cc
  entry_lem (a ∷ []) s t run = cc
  entry_lem (a ∷ b ∷ []) s t run =
      read (names.string_to_name_strict a) (names.string_to_name_strict b) run
    where
      read :
          (x y : Result ℕ)
          → (lift x >>= λ m. lift y >>= λ n.
                set (λ c. record c {
                  blacklist_actions = insert_action names m n c.blacklist_actions;
                }))
              s
            ≡ (ok tt, t)
          → (listed t ≡ ((reads_as act.account x && reads_as act.name y) || listed s))
            × (flagged t ≡ flagged s)
      read (err e) y h = cc
      read (ok m) (err e) h = cc
      read (ok m) (ok n) h = (
        ap (λ o. listed o.1) (sym h)
            ∙ contains-insert_action names act.account act.name m n s.config.blacklist_actions,
        ap (λ o. flagged o.1) (sym h),
      )
  entry_lem (a ∷ b ∷ c ∷ rest) s t run = cc

  entries_lem :
      (entries : List String) (s t : Settings)
      → blacklist_entries names entries s ≡ (ok tt, t)
      → (listed t ≡ (listed s || any_names_action entries)) × (flagged t ≡ flagged s)
  unfolding blacklist_entries pure
  entries_lem [] s t run =
      (ap (λ o. listed o.1) (sym run) ∙ or_false (listed s), ap (λ o. flagged o.1) (sym run))
  entries_lem (entry ∷ rest) s t run =
      let (u, m, first, second) =
        bind_ok (blacklist_entry names (names.split entry)) (λ u. blacklist_entries names rest) s t
          tt run in
      let (one, flag) = entry_lem (names.split entry) s m first in
      let (more, flag') = entries_lem rest m t second in
      (
        more
            ∙ ap (λ b. b || any_names_action rest) one
            ∙ swap_or (names_action (names.split entry)) (listed s) (any_names_action rest),
        flag' ∙ flag,
      )

  abbrev pub blacklists : Option (List String) → Bool
  blacklists none = false
  blacklists (some entries) = any_names_action entries

  -- From no blacklist, the action is on it afterwards exactly when an entry names it.
  pub set_blacklist_lem :
      (o : Option (List String)) (s t : Settings)
      → set_blacklist names o s ≡ (ok tt, t)
      → s.config.do_trace_blacklist ≡ false
      → s.config.blacklist_actions ≡ []
      → is_blacklisted t.config act ≡ blacklists o
  unfolding set_blacklist is_blacklisted ◌>>=◌
  set_blacklist_lem none s t run off empty =
      ap (λ o. flagged o.1 && listed o.1) (sym run) ∙ rw off refl
  set_blacklist_lem (some entries) s t run off empty =
      let (more, flag) =
        entries_lem entries (record s { config = record s.config { do_trace_blacklist = true } }) t
          run in
      ap (λ b. b && listed t) flag
      ∙ more
      ∙ ap (λ l. contains act.name (blacklisted_names act.account l) || any_names_action entries)
          empty
