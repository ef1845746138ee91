-- ===== src/Receiver/Result/Rollback.antt =====
-- The loop that undoes the blocks of an abandoned fork, and the branch of receive_result for a fork.
use eos_chronicle.Base.{
  subst, ℕ, zero, suc, ◌+◌, ◌-◌, ◌<◌, ◌≤◌, ◌≡◌, refl, none, some, List, [], ◌∷◌, arith, length,
  drop, leb, inl, inr, true, Bool-cases,
}
use eos_chronicle.Store.Versions.{versions, snapshot, snapshot-undone, length-undone}
use eos_chronicle.Receiver.State.{TablesOf, World}
use eos_chronicle.Receiver.Laws.{Laws}
use eos_chronicle.Receiver.Result.{rollback}

module _ (w : World) (l : Laws w) where
  stopped :
      (fuel b : ℕ) (d : w.database.Db)
      → w.database.revision d < b
      → b ≤ suc (w.database.revision d)
      → (e : w.database.Db) × (rollback w (suc fuel) b d ≡ some e)
        × (suc (w.database.revision e) ≡ b)
        × (versions w.database l.database e
            ≡ drop (suc (w.database.revision d) - b) (versions w.database l.database d))
  unfolding rollback
  stopped fuel b d low enough =
      let n : suc (w.database.revision d) - b ≡ 0 = omega arith in
      (d, ground arith, omega arith, rw n refl)

  undone :
      (fuel b : ℕ) (d : w.database.Db) (ks : List (TablesOf w))
      → l.database.kept d ≡ ks
      → w.database.revision d < b + length ks
      → b ≤ suc (w.database.revision d)
      → w.database.revision d < fuel + b
      → (e : w.database.Db) × (rollback w (suc fuel) b d ≡ some e)
        × (suc (w.database.revision e) ≡ b)
        × (versions w.database l.database e
            ≡ drop (suc (w.database.revision d) - b) (versions w.database l.database d))
  unfolding rollback
  undone zero b d ks e deep low enough = stopped zero b d (omega arith) low
  undone (suc fuel) b d [] e deep low enough = stopped (suc fuel) b d (omega arith) low
  undone (suc fuel) b d (t ∷ ts) e deep low enough =
      elim (Bool-cases (leb b (w.database.revision d))) [
        | inr stop ↦ stopped (suc fuel) b d (ground arith) low
        | inl more ↦
            let (now, rev, kept) = l.database.undo_lem d t ts e in
            let before : b ≤ w.database.revision d = ground arith in
            let (x, run, top, left) =
              undone fuel b (w.database.undo d) ts kept (omega arith) (omega arith) (omega arith) in
            let n : suc (w.database.revision d) - b
                ≡ suc (suc (w.database.revision (w.database.undo d)) - b) =
              omega arith in
            (x, simp more run, top, rw (n, e) (rw (now, kept) at left))
      ]

  -- If every block from the one before `b` on can be returned to, the loop of `rollback` ends with the
  -- database at the block before `b`, and there the contents after every earlier block are what they
  -- were.
  pub rollback_lem :
      (b : ℕ) (d : w.database.Db)
      → 0 < b
      → b ≤ suc (w.database.revision d)
      → w.database.revision d < b + length (l.database.kept d)
      → (e : w.database.Db) × (rollback w (suc (w.database.revision d)) b d ≡ some e)
        × (suc (w.database.revision e) ≡ b)
        × ((n : ℕ)
            → n < b
            → snapshot w.database l.database n e ≡ snapshot w.database l.database n d)
        × (length (l.database.kept d)
            ≡ length (l.database.kept e) + (suc (w.database.revision d) - b))
  unfolding rollback
  rollback_lem b d pos low deep =
      let rev = w.database.revision d in
      let (e, run, top, left) = undone rev b d (l.database.kept d) refl deep low (omega arith) in
      let k = suc rev - b in
      let lower : rev ≡ w.database.revision e + k = omega arith in
      (
        e,
        run,
        top,
        λ n h. snapshot-undone w.database l.database d e k left lower n (omega arith),
        omega (arith, length-undone w.database l.database d e k left lower),
      )

  -- If undoing everything leaves the revision at the block or above it, the loop of `rollback` does not
  -- end, whatever the fuel.
  pub rollback_stuck :
      (fuel b : ℕ) (d : w.database.Db)
      → b + length (l.database.kept d) ≤ w.database.revision d
      → rollback w fuel b d ≡ none
  unfolding rollback
  rollback_stuck zero b d h = refl
  rollback_stuck (suc fuel) b d h =
      let more : leb b (w.database.revision d) ≡ true = ground arith in
      simp more (stuck_below (λ u h. rollback_stuck fuel b u h) (l.database.kept d) refl)
    where
      stuck_below :
          ((u : w.database.Db)
            → b + length (l.database.kept u) ≤ w.database.revision u
            → rollback w fuel b u ≡ none)
          → (ks : List (TablesOf w)) → l.database.kept d ≡ ks
          → rollback w fuel b (w.database.undo d) ≡ none
      stuck_below next [] e = rw (l.database.undo_nothing d e) (next d h)
      stuck_below next (t ∷ ts) e =
          let u = w.database.undo d in
          let (now, rev, kept) = l.database.undo_lem d t ts e in
          let shorter : suc (length (l.database.kept u)) ≡ length (l.database.kept d) =
            rw (kept, e) refl in
          next u (omega arith)

  -- Where the loop ends, the database is at the block before.
  pub rollback-some :
      (fuel b : ℕ) (d e : w.database.Db)
      → b ≤ suc (w.database.revision d)
      → rollback w fuel b d ≡ some e
      → suc (w.database.revision e) ≡ b
  unfolding rollback
  rollback-some zero b d e low h = cc
  rollback-some (suc fuel) b d e low h = elim (Bool-cases (leb b (w.database.revision d))) [
    | inr stop ↦
        let same : d ≡ e = ground arith in
        subst (λ x. suc (w.database.revision x) ≡ b) same (ground arith)
    | inl more ↦
        let run : rollback w fuel b (w.database.undo d) ≡ some e = simp more at h in
        below (λ u k g. rollback-some fuel b u e k g) (ground arith) run (l.database.kept d) refl
  ]
    where
      below :
          ((u : w.database.Db)
            → b ≤ suc (w.database.revision u)
            → rollback w fuel b u ≡ some e
            → suc (w.database.revision e) ≡ b)
          → b ≤ w.database.revision d
          → rollback w fuel b (w.database.undo d) ≡ some e
          → (ks : List (TablesOf w)) → l.database.kept d ≡ ks
          → suc (w.database.revision e) ≡ b
      below next enough run [] k = next d (omega arith) (rw (l.database.undo_nothing d k) at run)
      below next enough run (t ∷ ts) k =
          let (now, rev, kept) = l.database.undo_lem d t ts k in
          next (w.database.undo d) (omega arith) run
