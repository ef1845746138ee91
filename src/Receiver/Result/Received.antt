-- ===== src/Receiver/Result/Received.antt =====
-- What a block that receive_result has taken leaves behind while the receiver scans.
use eos_chronicle.Base.{
  suc, ◌<◌, ◌≤◌, ◌≡◌, sym, ◌∙◌, ap, subst, Option, List, ◌∷◌, arith, Bool, ltb, false, Bool-cases,
  inl, inr, u32_mod, add32,
}
use eos_chronicle.Base.Exec.{Exec, Result, ok, ◌>>=◌, modify, gets, bind_ok}
use eos_chronicle.Store.Rows.{StateObject, Bytes}
use eos_chronicle.Messages.Input.{BlockPosition, BlocksResult}
use eos_chronicle.Receiver.State.{ReceiverOf, World}
use eos_chronicle.Receiver.Laws.{Laws}
use eos_chronicle.Receiver.Abi.{tables}
use eos_chronicle.Receiver.Start.{state_of}
use eos_chronicle.Receiver.Traces.{receive_traces}
use eos_chronicle.Receiver.Result.{
  prepare, move_head, optional, receive_block, process_deltas, finish_block, take_block,
  store_block, complete_block, receive_position,
}
use eos_chronicle.Receiver.Result.Quiet.{
  Quiet, Announced, receive_traces-Quiet, receive_block-Quiet, optional-Quiet,
}
use eos_chronicle.Receiver.Result.Session.{Stored, store_block_lem}
use eos_chronicle.Receiver.Result.Prepared.{prepared}

module _ (w : World) (l : Laws w) where
  -- The state that a block leaves: the receiver is at the block, the database has the block's number
  -- as its revision, and its state table holds what the receiver knows, so that a new start resumes
  -- here.
  pub record Received (result : BlocksResult) (block : BlockPosition) (r s : ReceiverOf w)
      : Type 0 where
    pub head : s.head ≡ block.block_num
    pub head_id : s.head_id ≡ block.block_id
    pub irreversible : s.irreversible ≡ result.last_irreversible.block_num
    pub irreversible_id : s.irreversible_id ≡ result.last_irreversible.block_id
    pub forward : r.irreversible ≤ s.irreversible
    pub revision : w.database.revision s.db ≡ s.head
    pub others : List StateObject
    pub saved : w.states.rows (tables w s).states ≡ state_of w s ∷ others

  -- What ran of a method that only announces.
  pub announced :
      (f : Bytes → Exec (ReceiverOf w) (Unit {0})) (o : Option Bytes) (r s : ReceiverOf w)
      → ((bin : Bytes) → Quiet (f bin))
      → optional w f o r ≡ (ok tt, s)
      → Announced r s
  announced f o r s quiet h =
      subst (λ (x : Result (Unit {0}) × ReceiverOf w). Announced r x.1) h
        ((optional-Quiet w f o quiet).at r)

  pub processed :
      (deltas : Option Bytes) (r s : ReceiverOf w)
      → r.config.interactive_mode ≡ false
      → process_deltas w deltas r ≡ (ok tt, s)
      → Stored w l r s
  unfolding process_deltas
  processed deltas r s scanning h = elim (store_block_lem w l deltas r) [
    | inl (e, failed, restored) ↦
        let run : store_block w deltas r ≡ (ok tt, s) = simp scanning at h in cc (ap (λ x. x.0) run)
    | inr (returned, stored) ↦
        let run : store_block w deltas r ≡ (ok tt, s) = simp scanning at h in
        subst (λ x. Stored w l r x) (ap (λ x. x.1) run) stored
  ]

  pub went_forward :
      (result : BlocksResult) (block : BlockPosition) (r s : ReceiverOf w) (go : Bool)
      → receive_position w result block r ≡ (ok go, s)
      → r.irreversible ≤ result.last_irreversible.block_num
  unfolding receive_position
  went_forward result block r s go h =
      elim (Bool-cases (ltb result.last_irreversible.block_num r.irreversible)) [
        | inl back ↦ cc (simp back at h)
        | inr forward ↦ ground arith
      ]

  -- After the state changing activities the database and the state do not change.
  finished :
      (traces : Option Bytes) (r s : ReceiverOf w) (go : Bool)
      → finish_block w traces r ≡ (ok go, s)
      → (s.db ≡ r.db) × (state_of w s ≡ state_of w r)
  unfolding modify gets ◌>>=◌
  finished traces r s go h =
      let (_, t, first, rest) = bind_ok (optional w (receive_traces w.codec) traces) _ r s go h in
      let traced =
        announced (receive_traces w.codec) traces r t (receive_traces-Quiet w.codec) first in
      let completed : complete_block w t ≡ s = ap (λ x. x.1) rest in
      (
        sym (ap (λ x. x.db) completed) ∙ ap (λ x. x.db) traced.only,
        sym (ap (λ x. state_of w x) completed) ∙ ap (λ x. state_of w x) traced.only,
      )

  -- The state table starts with this state.
  pub record SavedAs (state : StateObject) (s : ReceiverOf w) : Type 0 where
    pub others : List StateObject
    pub saved : w.states.rows (tables w s).states ≡ state ∷ others

  -- Once the head has moved, a block that is taken is stored.
  pub took :
      (result : BlocksResult) (r s : ReceiverOf w) (go : Bool)
      → r.config.interactive_mode ≡ false
      → take_block w result r ≡ (ok go, s)
      → (w.database.revision s.db ≡ suc (w.database.revision r.db))
        × (state_of w s ≡ state_of w r)
        × SavedAs (state_of w r) s
  took result r s go scanning h =
      let (_, t, first, rest) = bind_ok (optional w (receive_block w) result.block) _ r s go h in
      let (_, u, second, last) = bind_ok (process_deltas w result.deltas) _ t s go rest in
      let read = announced (receive_block w) result.block r t (receive_block-Quiet w) first in
      stored t u read
        (processed result.deltas t u (ap (λ x. x.config.interactive_mode) read.only ∙ scanning)
          second)
        (finished result.traces u s go last)
    where
      stored :
          (t u : ReceiverOf w)
          → Announced r t
          → Stored w l t u
          → (s.db ≡ u.db) × (state_of w s ≡ state_of w u)
          → (w.database.revision s.db ≡ suc (w.database.revision r.db))
            × (state_of w s ≡ state_of w r)
            × SavedAs (state_of w r) s
      stored t u read store (db, same) =
          let own = ap (λ x. state_of w x) read.only in
          (
            ap (λ x. w.database.revision x) db
                ∙ store.revision
                ∙ ap (λ x. suc (w.database.revision x.db)) read.only,
            same ∙ ap (λ x. state_of w x) store.only ∙ own,
            record {
              others = store.others;
              saved =
                  ap (λ x. w.states.rows (w.database.contents x).states) db
                  ∙ store.saved
                  ∙ ap (λ x. x ∷ store.others) own;
            },
          )

  settled :
      (result : BlocksResult) (block : BlockPosition) (r t s : ReceiverOf w) (go : Bool)
      → t.config.interactive_mode ≡ false
      → suc (w.database.revision t.db) ≡ block.block_num
      → r.irreversible ≤ result.last_irreversible.block_num
      → take_block w result (move_head w block result.last_irreversible t) ≡ (ok go, s)
      → Received result block r s
  settled result block r t s go scanning rev forward h =
      let (stored, same, row) =
        took result (move_head w block result.last_irreversible t) s go scanning h in
      let irreversible = ap (λ x. x.irreversible) same in
      record {
        head = ap (λ x. x.head) same;
        head_id = ap (λ x. x.head_id) same;
        irreversible = irreversible;
        irreversible_id = ap (λ x. x.irreversible_id) same;
        forward = omega (arith, forward, irreversible);
        revision = stored ∙ rev ∙ sym (ap (λ x. x.head) same);
        others = row.others;
        saved = row.saved ∙ ap (λ x. x ∷ row.others) (sym same);
      }

  -- The parts that ran.
  pub parts :
      (result : BlocksResult) (block : BlockPosition) (r s : ReceiverOf w) (go : Bool)
      → (prepare w block.block_num result.last_irreversible.block_num result.prev_block >>= λ u.
            modify (move_head w block result.last_irreversible) >>= λ v. take_block w result)
          r
        ≡ (ok go, s)
      → (t : ReceiverOf w) × (prepare w block.block_num result.last_irreversible.block_num
            result.prev_block r
          ≡ (ok tt, t))
        × (take_block w result (move_head w block result.last_irreversible t) ≡ (ok go, s))
  unfolding ◌>>=◌ modify
  parts result block r s go h =
      let (_, t, first, rest) =
        bind_ok (prepare w block.block_num result.last_irreversible.block_num result.prev_block) _ r
          s go h in
      (t, first, moved t rest)
    where
      moved :
          (t : ReceiverOf w)
          → (modify (move_head w block result.last_irreversible) >>= λ v. take_block w result) t
            ≡ (ok go, s)
          → take_block w result (move_head w block result.last_irreversible t) ≡ (ok go, s)
      moved t h = h

  pub body_ran :
      (result : BlocksResult) (block : BlockPosition) (r s : ReceiverOf w) (go : Bool)
      → receive_position w result block r ≡ (ok go, s)
      → (prepare w block.block_num result.last_irreversible.block_num result.prev_block >>= λ u.
            modify (move_head w block result.last_irreversible) >>= λ v. take_block w result)
          (record r { received_blocks = add32 r.received_blocks 1 })
        ≡ (ok go, s)
  unfolding receive_position
  body_ran result block r s go h =
      elim (Bool-cases (ltb result.last_irreversible.block_num r.irreversible)) [
        | inl back ↦ cc (simp back at h)
        | inr forward ↦ simp forward at h
      ]

  -- While the receiver scans, with the database not ahead of the head, every block that
  -- receive_result takes without an exception leaves the receiver at that block, the database at
  -- the revision of its number, and the same state in the state table; the last irreversible block
  -- never goes back. An irreversible block is taken to be above the head.
  pub receive_position_lem :
      (result : BlocksResult) (block : BlockPosition) (r s : ReceiverOf w) (go : Bool)
      → r.config.interactive_mode ≡ false
      → 0 < block.block_num
      → block.block_num < u32_mod
      → w.database.revision r.db ≤ r.head
      → (block.block_num ≤ result.last_irreversible.block_num → r.head < block.block_num)
      → receive_position w result block r ≡ (ok go, s)
      → Received result block r s
  receive_position_lem result block r s go scanning positive small in_step above h =
      let start = record r { received_blocks = add32 r.received_blocks 1 } in
      let (t, first, rest) = parts result block start s go (body_ran result block r s go h) in
      let (rev, config) =
        prepared w l block.block_num result.last_irreversible.block_num result.prev_block start t
          scanning positive small in_step above first in
      settled result block r t s go (ap (λ c. c.interactive_mode) config ∙ scanning) rev
        (went_forward result block r s go h) rest
