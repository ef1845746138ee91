-- ===== src/Receiver/Result/Links.antt =====
-- Which blocks receive_result takes while the receiver scans: those that link to the head, and
-- irreversible ones unchecked.
use eos_chronicle.Base.{
  sym, subst, ℕ, suc, ◌<◌, ◌≤◌, ◌≡◌, ◌∙◌, ap, Option, none, some, arith, Bool, ltb, leb, true,
  false, Bool-cases, inl, inr, u32_mod, add32, sub32, sub32_le,
}
use eos_chronicle.Base.Exec.{ok, ◌>>=◌, bind_ok}
use eos_chronicle.Messages.Input.{BlockPosition, BlocksResult}
use eos_chronicle.Receiver.State.{ReceiverOf, World}
use eos_chronicle.Receiver.Laws.{Laws}
use eos_chronicle.Receiver.Result.{
  lift_revision, check_link, check_position, prepare, move_head, receive_position,
}
use eos_chronicle.Receiver.Result.Prepared.{Lifted, lifted}
use eos_chronicle.Receiver.Result.Received.{took, parts, body_ran}

-- The block before is the one with this id.
abbrev pub Follows : ℕ → Option BlockPosition → Type 0
Follows id none = ⊥
Follows id (some prev) = prev.block_id ≡ id

module _ (w : World) (l : Laws w) where
  link_checked :
      (prev : Option BlockPosition) (r s : ReceiverOf w)
      → 0 < r.head
      → r.config.start_block_num < r.head
      → check_link w prev r ≡ (ok tt, s)
      → Follows r.head_id prev
  link_checked none r s positive started h = ground arith
  link_checked (some prev) r s positive started h = ground arith

  position_checked :
      (b lir : ℕ) (prev : Option BlockPosition) (r s : ReceiverOf w)
      → lir < b
      → r.head < b
      → 0 < r.head
      → r.config.start_block_num < r.head
      → check_position w b lir prev r ≡ (ok tt, s)
      → Follows r.head_id prev
  unfolding check_position
  position_checked b lir prev r s reversible next positive started h =
      let not_final : ltb lir b ≡ true = ground arith in
      let not_fork : leb b r.head ≡ false = ground arith in
      elim (Bool-cases (ltb b r.irreversible)) [
        | inl below ↦ cc (simp (not_final, below) at h)
        | inr above ↦
            link_checked prev r s positive started (simp (not_final, above, not_fork) at h)
      ]

  -- What preparing for a block ran, while the receiver scans.
  scan_prepared :
      (b lir : ℕ) (prev : Option BlockPosition) (r s : ReceiverOf w)
      → r.config.interactive_mode ≡ false
      → prepare w b lir prev r ≡ (ok tt, s)
      → (t : ReceiverOf w) × (Lifted w l b r t) × (check_position w b lir prev t ≡ (ok tt, s))
  unfolding prepare
  scan_prepared b lir prev r s scanning h =
      let (_, t, up, check) =
        bind_ok (lift_revision w b) (λ u. check_position w b lir prev) r s tt
          (simp scanning at h) in
      (t, lifted w l b r t up, check)

  -- While the receiver scans, a block that is not yet irreversible and is above the head is taken only
  -- if its previous block is the head, by its id; but for the blocks up to the start block.
  pub receive_position-Follows :
      (result : BlocksResult) (block : BlockPosition) (r s : ReceiverOf w) (go : Bool)
      → r.config.interactive_mode ≡ false
      → result.last_irreversible.block_num < block.block_num
      → r.head < block.block_num
      → 0 < r.head
      → r.config.start_block_num < r.head
      → receive_position w result block r ≡ (ok go, s)
      → Follows r.head_id result.prev_block
  receive_position-Follows result block r s go scanning reversible next positive started h =
      let start = record r { received_blocks = add32 r.received_blocks 1 } in
      let (t, first, rest) =
        parts w l result block start s go (body_ran w l result block r s go h) in
      let (u, lift, check) =
        scan_prepared block.block_num result.last_irreversible.block_num result.prev_block start t
          scanning first in
      let head = ap (λ x. x.head) lift.only in
      let start_block = ap (λ x. x.config.start_block_num) lift.only in
      subst (λ (n : ℕ). Follows n result.prev_block) (ap (λ x. x.head_id) lift.only)
        (position_checked block.block_num result.last_irreversible.block_num result.prev_block u t
          reversible (omega (arith, head)) (omega (arith, head)) (omega (arith, head, start_block))
          check)

  final_unchecked :
      (b lir : ℕ) (prev : Option BlockPosition) (r s : ReceiverOf w)
      → b ≤ lir
      → sub32 b 1 ≤ w.database.revision r.db
      → r.config.interactive_mode ≡ false
      → prepare w b lir prev r ≡ (ok tt, s)
      → r ≡ s
  unfolding prepare lift_revision check_position ◌>>=◌
  final_unchecked b lir prev r s final enough scanning h =
      let no_lift : ltb (w.database.revision r.db) (sub32 b 1) ≡ false = ground arith in
      let no_check : ltb lir b ≡ false = ground arith in
      ap (λ x. x.1) (simp (scanning, no_lift, no_check) at h)

  -- While the receiver scans, an irreversible block is taken without a look at the head: one that is
  -- not above the head does not undo the abandoned blocks, and the database goes on to the revision
  -- after theirs, which is not the block's number.
  pub irreversible_fork_not_undone :
      (result : BlocksResult) (block : BlockPosition) (r s : ReceiverOf w) (go : Bool)
      → r.config.interactive_mode ≡ false
      → 0 < block.block_num
      → block.block_num < u32_mod
      → block.block_num ≤ result.last_irreversible.block_num
      → block.block_num ≤ r.head
      → w.database.revision r.db ≡ r.head
      → receive_position w result block r ≡ (ok go, s)
      → (s.head ≡ block.block_num) × (w.database.revision s.db ≡ suc r.head)
  irreversible_fork_not_undone result block r s go scanning positive small final old in_step h =
      let start = record r { received_blocks = add32 r.received_blocks 1 } in
      let (t, first, rest) =
        parts w l result block start s go (body_ran w l result block r s go h) in
      let before = sub32_le block.block_num 1 positive small in
      let same =
        final_unchecked block.block_num result.last_irreversible.block_num result.prev_block start t
          final (omega (arith, before, in_step)) scanning first in
      let (rev, state, row) =
        took w l result (move_head w block result.last_irreversible t) s go
          (ap (λ x. x.config.interactive_mode) (sym same) ∙ scanning) rest in
      (
        ap (λ x. x.head) state,
        rev ∙ ap (λ x. suc (w.database.revision x.db)) (sym same) ∙ ap suc in_step,
      )
