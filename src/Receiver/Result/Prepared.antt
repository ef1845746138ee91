-- ===== src/Receiver/Result/Prepared.antt =====
-- What precedes the new head while the receiver scans: the revision of the database is that of the
-- block before.
use eos_chronicle.Base.{
  ◌&&◌, not, ℕ, suc, ◌-◌, ◌<◌, ◌≤◌, ◌≡◌, refl, ◌∙◌, ap, subst, Option, none, some, List, [], ◌∷◌,
  arith, leb, ltb, ◌⊎◌, inl, inr, false, Bool-cases, u32_mod, sub32, sub32_le,
}
use eos_chronicle.Base.Exec.{ok, bind_ok}
use eos_chronicle.Messages.Input.{BlockPosition}
use eos_chronicle.Receiver.State.{ReceiverOf, TablesOf, World}
use eos_chronicle.Receiver.Laws.{Laws}
use eos_chronicle.Receiver.Abi.{init_contract_abi_ctxt}
use eos_chronicle.Receiver.Result.{
  rollback, with_db, lift_revision, rolled_back, fork, check_link, check_position, prepare,
  links_to_head,
}
use eos_chronicle.Receiver.Result.Rollback.{rollback-some}

module _ (w : World) (l : Laws w) where
  -- The revision can be set only where nothing can be undone.
  set_lem :
      (n : ℕ) (d e : w.database.Db)
      → w.database.revision d < n
      → w.database.set_revision n d ≡ some e
      → w.database.revision e ≡ n
  set_lem n d e h set = go (l.database.kept d) refl
    where
      go : (ks : List (TablesOf w)) → l.database.kept d ≡ ks → w.database.revision e ≡ n
      go [] k =
          let (x, made, now, rev, left) = l.database.set_revision_lem n d k h in
          let same : x ≡ e = cc in subst (λ y. w.database.revision y ≡ n) same rev
      go (t ∷ ts) k = cc (l.database.set_revision_refused n d t ts k)

  -- The revision was lifted to the block before, where it was lower.
  pub record Lifted (b : ℕ) (r s : ReceiverOf w) : Type 0 where
    pub only : s ≡ record r { db = s.db }
    pub enough : sub32 b 1 ≤ w.database.revision s.db
    pub origin :
        (w.database.revision s.db ≡ w.database.revision r.db)
        ⊎ (w.database.revision s.db ≡ sub32 b 1)

  pub lifted : (b : ℕ) (r s : ReceiverOf w) → lift_revision w b r ≡ (ok tt, s) → Lifted b r s
  unfolding lift_revision
  lifted b r s h = elim (Bool-cases (ltb (w.database.revision r.db) (sub32 b 1))) [
    | inr high ↦
        subst (λ x. Lifted b r x) (ap (λ x. x.1) (simp high at h))
          (record { only = refl; enough = ground arith; origin = inl refl })
    | inl low ↦ go (w.database.set_revision (sub32 b 1) r.db) refl (ground arith) (simp low at h)
  ]
    where
      go :
          (o : Option w.database.Db)
          → w.database.set_revision (sub32 b 1) r.db ≡ o
          → w.database.revision r.db < sub32 b 1
          → with_db w o r ≡ (ok tt, s)
          → Lifted b r s
      go none e low h = cc
      go (some d) e low h =
          let rev = set_lem (sub32 b 1) r.db d low e in
          subst (λ x. Lifted b r x) (ap (λ x. x.1) h)
            (record { only = refl; enough = omega (arith, rev); origin = inr rev })

  -- A fork that is followed leaves the database at the block before, and the options alone.
  forked :
      (b lir : ℕ) (r s : ReceiverOf w)
      → b ≤ suc (w.database.revision r.db)
      → fork w b lir r ≡ (ok tt, s)
      → (suc (w.database.revision s.db) ≡ b) × (s.config ≡ r.config)
  unfolding fork init_contract_abi_ctxt
  forked b lir r s enough h = go (rollback w (suc (w.database.revision r.db)) b r.db) refl h
    where
      go :
          (o : Option w.database.Db)
          → rollback w (suc (w.database.revision r.db)) b r.db ≡ o
          → rolled_back w b (r.head - b) lir o (init_contract_abi_ctxt w r) ≡ (ok tt, s)
          → (suc (w.database.revision s.db) ≡ b) × (s.config ≡ r.config)
      go none e h = cc
      go (some d) e h =
          let top = rollback-some w l (suc (w.database.revision r.db)) b r.db d enough e in
          ground arith

  pub linked :
      (prev : Option BlockPosition) (t s : ReceiverOf w) → check_link w prev t ≡ (ok tt, s) → t ≡ s
  linked prev t s h =
      elim (Bool-cases
        (ltb 0 t.head && ltb t.config.start_block_num t.head && not (links_to_head w prev t))) [
          | inl bad ↦ cc (simp bad at h)
          | inr good ↦ ap (λ x. x.1) (simp good at h)
        ]

  -- The checks of the position keep the revision at the block before, or return to it.
  checked :
      (b lir : ℕ) (prev : Option BlockPosition) (t s : ReceiverOf w)
      → b ≤ suc (w.database.revision t.db)
      → (suc (w.database.revision t.db) ≡ b) ⊎ ((lir < b) × (b ≤ t.head))
      → check_position w b lir prev t ≡ (ok tt, s)
      → (suc (w.database.revision s.db) ≡ b) × (s.config ≡ t.config)
  unfolding check_position
  checked b lir prev t s enough at_or_fork h = elim (Bool-cases (ltb lir b)) [
    | inr final ↦ let same : t ≡ s = ap (λ x. x.1) (simp final at h) in stays same (ground arith)
    | inl reversible ↦ elim (Bool-cases (ltb b t.irreversible)) [
      | inl below ↦ cc (simp (reversible, below) at h)
      | inr above ↦ elim (Bool-cases (leb b t.head)) [
        | inl fork_here ↦ forked b lir t s enough (simp (reversible, above, fork_here) at h)
        | inr next ↦ stays (linked prev t s (simp (reversible, above, next) at h)) (ground arith)
      ]
    ]
  ]
    where
      stays :
          t ≡ s
          → suc (w.database.revision t.db) ≡ b
          → (suc (w.database.revision s.db) ≡ b) × (s.config ≡ t.config)
      stays same rev =
          subst (λ (x : ReceiverOf w). (suc (w.database.revision x.db) ≡ b) × (x.config ≡ t.config))
            same (rev, refl)

  -- If preparing for block `b` returns while the receiver scans, and an irreversible block is above
  -- the head, then the database is at the block before `b`.
  pub prepared :
      (b lir : ℕ) (prev : Option BlockPosition) (r s : ReceiverOf w)
      → r.config.interactive_mode ≡ false
      → 0 < b
      → b < u32_mod
      → w.database.revision r.db ≤ r.head
      → (b ≤ lir → r.head < b)
      → prepare w b lir prev r ≡ (ok tt, s)
      → (suc (w.database.revision s.db) ≡ b) × (s.config ≡ r.config)
  unfolding prepare
  prepared b lir prev r s scanning positive small in_step above h =
      let (_, t, up, check) = bind_ok (lift_revision w b) _ r s tt (simp scanning at h) in
      let lift = lifted b r t up in
      let before = sub32_le b 1 positive small in
      let enough : b ≤ suc (w.database.revision t.db) = omega (arith, lift.enough) in
      let (rev, config) = checked b lir prev t s enough (located t lift) check in
      (rev, config ∙ ap (λ x. x.config) lift.only)
    where
      located :
          (t : ReceiverOf w)
          → Lifted b r t
          → (suc (w.database.revision t.db) ≡ b) ⊎ ((lir < b) × (b ≤ t.head))
      located t lift =
          let before = sub32_le b 1 positive small in
          let head = ap (λ x. x.head) lift.only in
          ground (arith, above, in_step, lift.enough, lift.origin, positive)
