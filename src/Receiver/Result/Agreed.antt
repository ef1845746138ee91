-- ===== src/Receiver/Result/Agreed.antt =====
-- The agreement of the decoder's context with the database, and the checks of a block's position.
pub mod Received
pub mod Running
use eos_chronicle.Base.{
  ℕ, zero, suc, ◌<◌, ◌≡◌, refl, sym, ap, ◌∙◌, subst, true, false, Option, none, some, List, [], ◌∷◌,
  take, if◌then◌else◌, ltb, leb, ◌-◌, ◌==◌, ◌&&◌, not, sub32, arith, Bool, Bool-cases, inl, inr,
}
use eos_chronicle.Base.Exec.{Exec, Result, ok, err, ◌>>=◌, modify, gets, bind_ok}
use eos_chronicle.Store.Rows.{ContractAbi, Bytes}
use eos_chronicle.Messages.Input.{BlockPosition, BlocksResult}
use eos_chronicle.Receiver.State.{ReceiverOf, TablesOf, World}
use eos_chronicle.Receiver.Laws.{Laws}
use eos_chronicle.Receiver.Abi.{tables, init_contract_abi_ctxt}
use eos_chronicle.Receiver.Abi.Cache.{CacheOk, CacheOk-fresh}
use eos_chronicle.Receiver.Abi.Saving.{CacheInv, forget_imported-some}
use eos_chronicle.Receiver.Result.{
  rollback, lift_revision, with_db, clip_acked, rolled_back, fork, check_link, check_position,
  prepare,
}
use eos_chronicle.Receiver.Result.Prepared.{linked}

module _ (w : World) (l : Laws w) where
  -- The decoder accepts every ABI of the tables.
  abbrev pub Valid : TablesOf w → Type 0
  Valid t =
      (a : ℕ) (x : ContractAbi) → w.abis.find a t.abis ≡ some x → l.decoder.accepts x.abi ≡ true

  abbrev pub AllValid : List (TablesOf w) → Type 0
  AllValid [] = Unit
  AllValid (t ∷ ts) = Valid t × AllValid ts

  abbrev pub Cached : Type 0
  Cached = w.database.Db × Option w.decoder.Context × List ℕ

  abbrev pub cached : ReceiverOf w → Cached
  cached r = (r.db, r.contract_abi_ctxt, r.contract_abi_imported)

  -- Each loaded contract has its latest ABI in the context, and the decoder accepts every ABI of
  -- the table, now and in the contents that can be returned to.
  pub record AgreesAt (c : Cached) : Type 0 where
    pub cache : CacheOk w l c.1 c.2 (w.database.contents c.0).abis
    pub kept : AllValid (l.database.kept c.0)

  abbrev pub Agrees : ReceiverOf w → Type 0
  Agrees r = AgreesAt (cached r)

  abbrev ValidDb : w.database.Db → Type 0
  ValidDb d = Valid (w.database.contents d) × AllValid (l.database.kept d)

  ValidDb-undo : (d : w.database.Db) → ValidDb d → ValidDb (w.database.undo d)
  ValidDb-undo d (now, before) = go (l.database.kept d) refl
    where
      go : (ts : List (TablesOf w)) → l.database.kept d ≡ ts → ValidDb (w.database.undo d)
      go [] e = subst ValidDb (sym (l.database.undo_nothing d e)) (now, before)
      go (t ∷ ts) e =
          let (contents, rev, kept) = l.database.undo_lem d t ts e in
          let all : AllValid (t ∷ ts) = subst AllValid e before in
          (subst Valid (sym contents) all.0, subst AllValid (sym kept) all.1)

  ValidDb-rollback :
      (fuel b : ℕ) (d e : w.database.Db) → rollback w fuel b d ≡ some e → ValidDb d → ValidDb e
  unfolding rollback
  ValidDb-rollback zero b d e run valid = cc
  ValidDb-rollback (suc fuel) b d e run valid = elim (Bool-cases (leb b (w.database.revision d))) [
    | inl more ↦
        ValidDb-rollback fuel b (w.database.undo d) e (simp more at run) (ValidDb-undo d valid)
    | inr stop ↦ let same : d ≡ e = cc (simp stop at run) in subst ValidDb same valid
  ]

  clip-cached : (n : ℕ) (r : ReceiverOf w) → cached (clip_acked w n r) ≡ cached r
  clip-cached n r =
      elim (Bool-cases (r.exporter_will_ack && ltb (sub32 n 1) r.exporter_acked_block)) [
        | inl clips ↦ rw clips refl
        | inr stays ↦ rw stays refl
      ]

  clip-config : (n : ℕ) (r : ReceiverOf w) → (clip_acked w n r).config ≡ r.config
  clip-config n r =
      elim (Bool-cases (r.exporter_will_ack && ltb (sub32 n 1) r.exporter_acked_block)) [
        | inl clips ↦ rw clips refl
        | inr stays ↦ rw stays refl
      ]

  abbrev Follows : ReceiverOf w → ReceiverOf w → Type 0
  Follows r s = Agrees s × (s.config ≡ r.config)

  -- A fork makes the context anew, and returns to contents with valid ABIs.
  fork-Agrees :
      (b lir : ℕ) (r s : ReceiverOf w) → Agrees r → fork w b lir r ≡ (ok tt, s) → Follows r s
  unfolding fork init_contract_abi_ctxt
  fork-Agrees b lir r s agrees h = go (rollback w (suc (w.database.revision r.db)) b r.db) refl h
    where
      go :
          (o : Option w.database.Db)
          → rollback w (suc (w.database.revision r.db)) b r.db ≡ o
          → rolled_back w b (r.head - b) lir o (init_contract_abi_ctxt w r) ≡ (ok tt, s)
          → Follows r s
      go none e h = cc
      go (some d) e h = elim (Bool-cases (w.database.revision d == 0)) [
        | inl exhausted ↦ cc (simp exhausted at h)
        | inr found ↦
            let (valid, kept) =
              ValidDb-rollback (suc (w.database.revision r.db)) b r.db d e
                (agrees.cache.valid, agrees.kept) in
            let returned = record (init_contract_abi_ctxt w r) { db = d } in
            let after = ap (λ x. x.1) (simp found at h) in
            let fresh : AgreesAt (d, some w.decoder.create, []) = record {
              cache = record { ready = refl; current = λ a h. cc; valid = valid };
              kept = kept;
            } in
            let same : cached s ≡ (d, some w.decoder.create, []) =
              sym (ap cached after)
              ∙ clip-cached b returned
              ∙ ap (λ (n : List ℕ). (d, some w.decoder.create, n))
                  (forget_imported-some r.contract_abi_ctxt r.contract_abi_imported
                    agrees.cache.ready) in
            (
              subst AgreesAt (sym same) fresh,
              sym (ap (λ x. x.config) after) ∙ clip-config b returned,
            )
      ]

  lift-Agrees :
      (b : ℕ) (r s : ReceiverOf w) → Agrees r → lift_revision w b r ≡ (ok tt, s) → Follows r s
  unfolding lift_revision
  lift-Agrees b r s agrees h = elim (Bool-cases (ltb (w.database.revision r.db) (sub32 b 1))) [
    | inr high ↦ subst (Follows r) (ap (λ x. x.1) (simp high at h)) (agrees, refl)
    | inl low ↦
        go (w.database.set_revision (sub32 b 1) r.db) (l.database.kept r.db) refl refl
          (ground arith) (simp low at h)
  ]
    where
      go :
          (o : Option w.database.Db) (ts : List (TablesOf w))
          → w.database.set_revision (sub32 b 1) r.db ≡ o
          → l.database.kept r.db ≡ ts
          → w.database.revision r.db < sub32 b 1
          → with_db w o r ≡ (ok tt, s)
          → Follows r s
      go none ts e k low h = cc
      go (some d) (t ∷ ts) e k low h = cc (l.database.set_revision_refused (sub32 b 1) r.db t ts k)
      go (some d) [] e k low h =
          let (x, made, now, rev, left) = l.database.set_revision_lem (sub32 b 1) r.db k low in
          let same : x ≡ d = cc in
          let lifted : AgreesAt (x, r.contract_abi_ctxt, r.contract_abi_imported) = record {
            cache =
                subst
                  (λ (t : TablesOf w).
                    CacheOk w l r.contract_abi_ctxt r.contract_abi_imported t.abis)
                  (sym now) agrees.cache;
            kept = subst AllValid (sym left) tt;
          } in
          subst (Follows r) (ap (λ x. x.1) h) (
            subst (λ y. AgreesAt (y, r.contract_abi_ctxt, r.contract_abi_imported)) same lifted,
            refl,
          )

  check-Agrees :
      (b lir : ℕ) (prev : Option BlockPosition) (r s : ReceiverOf w)
      → Agrees r
      → check_position w b lir prev r ≡ (ok tt, s)
      → Follows r s
  unfolding check_position
  check-Agrees b lir prev r s agrees h = elim (Bool-cases (ltb lir b)) [
    | inr final ↦ subst (Follows r) (ap (λ x. x.1) (simp final at h)) (agrees, refl)
    | inl reversible ↦ elim (Bool-cases (ltb b r.irreversible)) [
      | inl below ↦ cc (simp (reversible, below) at h)
      | inr above ↦ elim (Bool-cases (leb b r.head)) [
        | inl forks ↦ fork-Agrees b lir r s agrees (simp (reversible, above, forks) at h)
        | inr next ↦
            subst (Follows r) (linked w l prev r s (simp (reversible, above, next) at h))
              (agrees, refl)
      ]
    ]
  ]

  -- While the receiver scans, what comes before a block keeps the agreement.
  pub prepare-Agrees :
      (b lir : ℕ) (prev : Option BlockPosition) (r s : ReceiverOf w)
      → r.config.interactive_mode ≡ false
      → Agrees r
      → prepare w b lir prev r ≡ (ok tt, s)
      → Agrees s × (s.config ≡ r.config)
  unfolding prepare
  prepare-Agrees b lir prev r s scanning agrees h =
      let (_, t, up, check) = bind_ok (lift_revision w b) _ r s tt (simp scanning at h) in
      let (lifted, config) = lift-Agrees b r t agrees up in
      let (checked, kept) = check-Agrees b lir prev t s lifted check in (checked, kept ∙ config)
