-- ===== src/Receiver/Start/Restart.antt =====
-- What a start finds in the database after the program has stopped.
use eos_chronicle.Base.{
  ℕ, zero, suc, ◌+◌, ◌-◌, ◌≤◌, ◌≡◌, refl, ◌∙◌, ap, subst, some, List, [], ◌∷◌, arith, length,
  length-take, get_elem?, ltb, leb, true, false, min, if◌then◌else◌,
}
use eos_chronicle.Store.Versions.{snapshot}
use eos_chronicle.Receiver.State.{ReceiverOf, TablesOf, World}
use eos_chronicle.Receiver.Laws.{Laws}
use eos_chronicle.Receiver.Abi.{tables}
use eos_chronicle.Receiver.Pause.{commit_rev}
use eos_chronicle.Receiver.Start.{undo_all, revert_uncommitted_revisions}
use eos_chronicle.Receiver.Result.Session.{Stored}

module _ (w : World) (l : Laws w) where
  -- Enough fuel empties the undo stack.
  undo_all_lem :
      (fuel : ℕ) (d : w.database.Db) (ks : List (TablesOf w))
      → l.database.kept d ≡ ks
      → length ks ≤ fuel
      → let e = undo_all w fuel d in
        (l.database.kept e ≡ [])
        × (w.database.revision e + length ks ≡ w.database.revision d)
        × (get_elem? (w.database.contents d ∷ ks) (length ks) ≡ some (w.database.contents e))
  unfolding undo_all
  undo_all_lem zero d [] k h = (k, omega arith, refl)
  undo_all_lem zero d (t ∷ ts) k h = absurd (omega arith)
  undo_all_lem (suc fuel) d [] k h =
      let none_left : ltb 0 (w.database.undo_depth d) ≡ false =
        rw (l.database.undo_depth_kept d, k) refl in
      simp none_left (k, omega arith, refl)
  undo_all_lem (suc fuel) d (t ∷ ts) k h =
      let more : ltb 0 (w.database.undo_depth d) ≡ true =
        rw (l.database.undo_depth_kept d, k) (ground arith) in
      let (now, rev, left) = l.database.undo_lem d t ts k in
      let (done, low, held) = undo_all_lem fuel (w.database.undo d) ts left (omega arith) in
      simp more (done, omega (arith, low, rev), rw now at held)

  -- revert_uncommitted_revisions ends with nothing to undo, at the last committed revision, with the
  -- contents after that block, and answers how many revisions it undid.
  pub revert_uncommitted_revisions_lem :
      (r : ReceiverOf w)
      → let (depth, s) = revert_uncommitted_revisions w r in
        (l.database.kept s.db ≡ [])
        × (w.database.revision s.db + depth ≡ w.database.revision r.db)
        × (depth ≡ length (l.database.kept r.db))
        × (snapshot w.database l.database (w.database.revision s.db) r.db ≡ some (tables w s))
  unfolding revert_uncommitted_revisions
  revert_uncommitted_revisions_lem r =
      let size = l.database.undo_depth_kept r.db in
      let (done, low, held) =
        undo_all_lem (w.database.undo_depth r.db) r.db (l.database.kept r.db) refl
          (omega (arith, size)) in
      let d = undo_all w (w.database.undo_depth r.db) r.db in
      let here : leb (w.database.revision d) (w.database.revision r.db) ≡ true = ground arith in
      let depth : w.database.revision r.db - w.database.revision d ≡ length (l.database.kept r.db) =
        omega (arith, low) in
      (done, omega (arith, low, size), size, simp (here, depth) held)

  restart_at_commit :
      (r s : ReceiverOf w)
      → Stored w l r s
      → commit_rev w r ≤ suc (w.database.revision r.db)
      → w.database.revision r.db ≤ commit_rev w r + length (l.database.kept r.db)
      → let (depth, t) = revert_uncommitted_revisions w s in
        (w.database.revision t.db ≡ commit_rev w r)
        × (depth ≡ suc (w.database.revision r.db) - commit_rev w r)
        × (snapshot w.database l.database (commit_rev w r) s.db ≡ some (tables w t))
        × (l.database.kept t.db ≡ [])
  restart_at_commit r s stored low deep =
      let (done, rev, depth, held) = revert_uncommitted_revisions_lem s in
      let size : length (l.database.kept s.db) ≡ suc (w.database.revision r.db) - commit_rev w r =
        ap length stored.kept
        ∙ length-take (suc (w.database.revision r.db) - commit_rev w r)
            (tables w r ∷ l.database.kept r.db)
        ∙ omega (arith, low, deep) in
      let back = (revert_uncommitted_revisions w s).1 in
      let at_commit : w.database.revision back.db ≡ commit_rev w r =
        omega (arith, rev, depth, size, stored.revision, low) in
      (
        at_commit,
        depth ∙ size,
        subst (λ (n : ℕ). snapshot w.database l.database n s.db ≡ some (tables w back)) at_commit
            held,
        done,
      )

  -- Up to where the blocks are irreversible and, with an exporter that acknowledges, acknowledged.
  abbrev pub confirmed : ReceiverOf w → ℕ
  confirmed r =
      if r.exporter_will_ack then min r.exporter_acked_block r.irreversible else r.irreversible

  commit_rev-confirmed : (r : ReceiverOf w) → commit_rev w r ≡ confirmed r
  commit_rev-confirmed r = ground arith

  -- If the program stops after a block was stored, the next start resumes at the last block that was
  -- irreversible and, with an exporter that acknowledges, acknowledged when it was stored: the lower
  -- of both numbers, provided that it is not above the stored block and that the database could
  -- return that far.
  pub restart_lem :
      (r s : ReceiverOf w)
      → Stored w l r s
      → confirmed r ≤ suc (w.database.revision r.db)
      → w.database.revision r.db ≤ confirmed r + length (l.database.kept r.db)
      → let (depth, t) = revert_uncommitted_revisions w s in
        (w.database.revision t.db ≡ confirmed r)
        × (depth ≡ suc (w.database.revision r.db) - confirmed r)
        × (snapshot w.database l.database (confirmed r) s.db ≡ some (tables w t))
        × (l.database.kept t.db ≡ [])
  restart_lem r s stored low deep =
      let same = commit_rev-confirmed r in
      subst
        (λ (n : ℕ).
          let (depth, t) = revert_uncommitted_revisions w s in
          (w.database.revision t.db ≡ n)
          × (depth ≡ suc (w.database.revision r.db) - n)
          × (snapshot w.database l.database n s.db ≡ some (tables w t))
          × (l.database.kept t.db ≡ []))
        same (restart_at_commit r s stored (omega (arith, same, low)) (omega (arith, same, deep)))
