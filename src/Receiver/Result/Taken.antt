-- ===== src/Receiver/Result/Taken.antt =====
-- A block that follows the head is taken.
use eos_chronicle.Base.{
  ℕ, suc, ◌-◌, ◌<◌, ◌≤◌, ◌≡◌, refl, sym, ap, ◌∙◌, subst, true, false, not, ◌&&◌, none, some, Option,
  arith, ltb, leb, Bool-cases, inl, inr, u32_mod, add32, sub32, sub32_le,
}
use eos_chronicle.Base.Exec.{Exec, ok, ◌>>=◌, modify}
use eos_chronicle.Messages.Input.{BlockPosition, BlocksResult}
use eos_chronicle.Receiver.State.{ReceiverOf, World}
use eos_chronicle.Receiver.Laws.{Laws}
use eos_chronicle.Receiver.Abi.{tables}
use eos_chronicle.Receiver.Pause.{commit_db}
use eos_chronicle.Receiver.Start.{save_state}
use eos_chronicle.Receiver.Result.{
  lift_revision, check_position, check_link, links_to_head, prepare, move_head, remember_block,
  store_block, process_deltas, take_block, receive_position,
}
use eos_chronicle.Receiver.Result.Blocks.{Rising, remember_block_lem}
use eos_chronicle.Receiver.Result.Links.{Follows}
use eos_chronicle.Receiver.Result.Session.{remember_block-Framed, opened}

module _ (w : World) (l : Laws w) where
  remembered :
      (r : ReceiverOf w)
      → Rising (w.blocks.rows (tables w r).blocks)
      → w.blocks.find r.head (tables w r).blocks ≡ none
      → remember_block w r ≡ (ok tt, (remember_block w r).1)
  unfolding remember_block
  remembered r rising free = elim (Bool-cases (ltb r.irreversible r.head)) [
    | inl reversible ↦
        let (done, rows, still, from) = remember_block_lem w l r (ground arith) rising free in
        ap (λ o. (o, (remember_block w r).1)) done
    | inr final ↦ simp final refl
  ]

  bind_ran :
      {A B : Type 0} (m : Exec (ReceiverOf w) A) (f : A → Exec (ReceiverOf w) B)
      (r s : ReceiverOf w) (a : A)
      → m r ≡ (ok a, s)
      → (m >>= f) r ≡ f a s
  unfolding ◌>>=◌
  bind_ran m f r s a e = rw e refl

  abbrev closed : ReceiverOf w → ReceiverOf w
  closed v = commit_db w (record (save_state w v) { db = w.database.push (save_state w v).db })

  store_run :
      (r v : ReceiverOf w)
      → remember_block w (opened w l r) ≡ (ok tt, v)
      → store_block w none r ≡ (ok tt, closed v)
  unfolding store_block ◌>>=◌
  store_run r v e = rw e refl

  closed_aborting : (v : ReceiverOf w) → (closed v).aborting ≡ v.aborting
  unfolding commit_db save_state
  closed_aborting v = refl

  -- Without deltas the block is stored.
  store_ran :
      (r : ReceiverOf w)
      → Rising (w.blocks.rows (tables w r).blocks)
      → w.blocks.find r.head (tables w r).blocks ≡ none
      → (s : ReceiverOf w) × (store_block w none r ≡ (ok tt, s)) × (s.aborting ≡ r.aborting)
  store_ran r rising free =
      let (now, rev, kept) = l.database.start_lem r.db in
      let t = opened w l r in
      let ran =
        remembered t (subst (λ x. Rising (w.blocks.rows x.blocks)) (sym now) rising)
          (ap (λ x. w.blocks.find r.head x.blocks) now ∙ free) in
      let v = (remember_block w t).1 in
      let only = ((remember_block-Framed w l).at t).only in
      (closed v, store_run r v ran, closed_aborting v ∙ ap (λ x. x.aborting) only)

  -- What follows the new head, for a message that carries nothing.
  take_ran :
      (result : BlocksResult) (r : ReceiverOf w)
      → result.block ≡ none
      → result.traces ≡ none
      → result.deltas ≡ none
      → r.config.interactive_mode ≡ false
      → Rising (w.blocks.rows (tables w r).blocks)
      → w.blocks.find r.head (tables w r).blocks ≡ none
      → (take_block w result r).0 ≡ ok (not r.aborting)
  unfolding process_deltas ◌>>=◌
  take_ran result r no_block no_traces no_deltas scanning rising free =
      let (s, run, same) = store_ran r rising free in
      rw (no_block, no_traces, no_deltas) (simp scanning (rw run (rw same refl)))

  linked :
      (prev : Option BlockPosition) (r : ReceiverOf w)
      → Follows r.head_id prev
      → links_to_head w prev r ≡ true
  linked none r h = absurd h
  linked (some prev) r h = ground arith

  lift_ran :
      (b : ℕ) (r : ReceiverOf w)
      → sub32 b 1 ≤ w.database.revision r.db
      → lift_revision w b r ≡ (ok tt, r)
  unfolding lift_revision
  lift_ran b r enough =
      let no_lift : ltb (w.database.revision r.db) (sub32 b 1) ≡ false = ground arith in
      simp no_lift refl

  link_ran :
      (prev : Option BlockPosition) (r : ReceiverOf w)
      → Follows r.head_id prev
      → check_link w prev r ≡ (ok tt, r)
  link_ran prev r follows =
      let link = linked prev r follows in
      let fine : (ltb 0 r.head
            && ltb r.config.start_block_num r.head
            && not (links_to_head w prev r))
          ≡ false =
        ground arith in
      simp fine refl

  check_ran :
      (b lir : ℕ) (prev : Option BlockPosition) (r : ReceiverOf w)
      → b ≡ suc r.head
      → r.irreversible ≤ lir
      → Follows r.head_id prev
      → check_position w b lir prev r ≡ (ok tt, r)
  unfolding check_position
  check_ran b lir prev r next forward follows = elim (Bool-cases (ltb lir b)) [
    | inr final ↦ simp final refl
    | inl reversible ↦
        let above : ltb b r.irreversible ≡ false = ground arith in
        let no_fork : leb b r.head ≡ false = ground arith in
        simp (reversible, above, no_fork) (link_ran prev r follows)
  ]

  prepare_ran :
      (b lir : ℕ) (prev : Option BlockPosition) (r : ReceiverOf w)
      → r.config.interactive_mode ≡ false
      → b ≡ suc r.head
      → b < u32_mod
      → w.database.revision r.db ≡ r.head
      → r.irreversible ≤ lir
      → Follows r.head_id prev
      → prepare w b lir prev r ≡ (ok tt, r)
  unfolding prepare
  prepare_ran b lir prev r scanning next small in_step forward follows =
      let before : sub32 b 1 ≡ b - 1 = sub32_le b 1 (omega arith) small in
      simp scanning (
        bind_ran (lift_revision w b) (λ u. check_position w b lir prev) r r tt
          (lift_ran b r (omega (arith, before)))
        ∙ check_ran b lir prev r next forward follows)

  -- While the receiver scans, with the database at the head, a message without contents whose block
  -- has the next number and whose previous block is the head is taken, if the last irreversible
  -- block does not go back and the block is not in the table of received blocks, whose rows rise.
  -- The receiver then reads on, unless it is stopping.
  pub receive_position-Follows_taken :
      (result : BlocksResult) (block : BlockPosition) (r : ReceiverOf w)
      → r.config.interactive_mode ≡ false
      → block.block_num ≡ suc r.head
      → block.block_num < u32_mod
      → w.database.revision r.db ≡ r.head
      → r.irreversible ≤ result.last_irreversible.block_num
      → Follows r.head_id result.prev_block
      → result.block ≡ none
      → result.traces ≡ none
      → result.deltas ≡ none
      → Rising (w.blocks.rows (tables w r).blocks)
      → w.blocks.find block.block_num (tables w r).blocks ≡ none
      → (receive_position w result block r).0 ≡ ok (not r.aborting)
  unfolding receive_position modify
  receive_position-Follows_taken result block r scanning next small in_step forward follows no_block
        no_traces no_deltas rising free =
      let start = record r { received_blocks = add32 r.received_blocks 1 } in
      let taken : ltb result.last_irreversible.block_num r.irreversible ≡ false = ground arith in
      let moved = move_head w block result.last_irreversible start in
      let first =
        prepare_ran block.block_num result.last_irreversible.block_num result.prev_block start
          scanning next small in_step forward follows in
      let run =
        bind_ran (prepare w block.block_num result.last_irreversible.block_num result.prev_block)
          (λ u. modify (move_head w block result.last_irreversible) >>= λ v. take_block w result)
          start start tt first in
      simp taken (
        ap (λ x. x.0) (run ∙ second start)
        ∙ take_ran result moved no_block no_traces no_deltas scanning rising free)
    where
      second :
          (s : ReceiverOf w)
          → (modify (move_head w block result.last_irreversible) >>= λ v. take_block w result) s
            ≡ take_block w result (move_head w block result.last_irreversible s)
      second s =
          bind_ran (modify (move_head w block result.last_irreversible)) (λ v. take_block w result)
            s (move_head w block result.last_irreversible s) tt refl
