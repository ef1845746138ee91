-- ===== src/Receiver/Start/Resume.antt =====
-- Where a start resumes.
use eos_chronicle.Base.{
  ◌∙◌, ap, ℕ, ◌≡◌, refl, Bool, true, false, List, [], ◌∷◌, ◌++◌, if◌then◌else◌, ltb, leb, add32,
}
use mathlib.Core.Path.{ap₂}
use eos_chronicle.Base.Exec.{Error, Result, ok, err}
use eos_chronicle.Store.Rows.{StateObject}
use eos_chronicle.Messages.Events.{Event, restart}
use eos_chronicle.Receiver.State.{ReceiverOf, World}
use eos_chronicle.Receiver.Abi.{tables, init_contract_abi_ctxt}
use eos_chronicle.Receiver.Start.{
  settle_acks, announce_restart, check_end, revert_uncommitted_revisions, load_state,
}

module _ (w : World) where
  -- What stays of a receiver whose end is checked.
  record Ends (t : ReceiverOf w) (x : Result (Unit {0}) × ReceiverOf w) : Type 0 where
    result : x.0 ≡ (if leb t.end_block_num t.head then err Error.already_at_end else ok tt)
    db : x.1.db ≡ t.db
    head : x.1.head ≡ t.head
    head_id : x.1.head_id ≡ t.head_id
    irreversible : x.1.irreversible ≡ t.irreversible
    irreversible_id : x.1.irreversible_id ≡ t.irreversible_id
    exporter_acked_block : x.1.exporter_acked_block ≡ t.exporter_acked_block
    forked_at_block : x.1.forked_at_block ≡ t.forked_at_block
    events : x.1.events ≡ t.events

  check_end_lem : (t : ReceiverOf w) → Ends t (check_end w t)
  unfolding init_contract_abi_ctxt
  check_end_lem t = go (leb t.end_block_num t.head) refl
    where
      go :
          (b : Bool)
          → leb t.end_block_num t.head ≡ b
          → Ends t
              (if b then (err Error.already_at_end, t) else (ok tt, init_contract_abi_ctxt w t))
      go true e = record {
        result = rw e refl;
        db = refl;
        head = refl;
        head_id = refl;
        irreversible = refl;
        irreversible_id = refl;
        exporter_acked_block = refl;
        forked_at_block = refl;
        events = refl;
      }
      go false e = record {
        result = rw e refl;
        db = refl;
        head = refl;
        head_id = refl;
        irreversible = refl;
        irreversible_id = refl;
        exporter_acked_block = refl;
        forked_at_block = refl;
        events = refl;
      }

  -- The acknowledged block and the announcement of a restart.
  record Settles (depth : ℕ) (t s : ReceiverOf w) : Type 0 where
    db : s.db ≡ t.db
    head : s.head ≡ t.head
    head_id : s.head_id ≡ t.head_id
    irreversible : s.irreversible ≡ t.irreversible
    irreversible_id : s.irreversible_id ≡ t.irreversible_id
    end_block_num : s.end_block_num ≡ t.end_block_num
    acked :
        s.exporter_acked_block ≡ (if t.exporter_will_ack then t.head else t.exporter_acked_block)
    forked : s.forked_at_block ≡ (if ltb 0 depth then add32 t.head 1 else t.forked_at_block)
    announced : s.events ≡ (
        if ltb 0 depth
        then t.events
          ++ Event.forks (record {
            block_num = add32 t.head 1;
            depth = depth;
            fork_reason = restart;
            last_irreversible = t.irreversible;
          })
            ∷ []
        else t.events)

  settle_acks_lem :
      (depth : ℕ) (t : ReceiverOf w) → Settles depth t (settle_acks w (announce_restart w depth t))
  settle_acks_lem depth t = go (ltb 0 depth) t.exporter_will_ack refl refl
    where
      go :
          (b c : Bool)
          → ltb 0 depth ≡ b
          → t.exporter_will_ack ≡ c
          → Settles depth t (settle_acks w (announce_restart w depth t))
      go true true e f = record {
        db = simp (e, f) refl;
        head = simp (e, f) refl;
        head_id = simp (e, f) refl;
        irreversible = simp (e, f) refl;
        irreversible_id = simp (e, f) refl;
        end_block_num = simp (e, f) refl;
        acked = simp (e, f) refl;
        forked = simp (e, f) refl;
        announced = simp (e, f) refl;
      }
      go true false e f = record {
        db = simp (e, f) refl;
        head = simp (e, f) refl;
        head_id = simp (e, f) refl;
        irreversible = simp (e, f) refl;
        irreversible_id = simp (e, f) refl;
        end_block_num = simp (e, f) refl;
        acked = simp (e, f) refl;
        forked = simp (e, f) refl;
        announced = simp (e, f) refl;
      }
      go false true e f = record {
        db = simp (e, f) refl;
        head = simp (e, f) refl;
        head_id = simp (e, f) refl;
        irreversible = simp (e, f) refl;
        irreversible_id = simp (e, f) refl;
        end_block_num = simp (e, f) refl;
        acked = simp (e, f) refl;
        forked = simp (e, f) refl;
        announced = simp (e, f) refl;
      }
      go false false e f = record {
        db = simp (e, f) refl;
        head = simp (e, f) refl;
        head_id = simp (e, f) refl;
        irreversible = simp (e, f) refl;
        irreversible_id = simp (e, f) refl;
        end_block_num = simp (e, f) refl;
        acked = simp (e, f) refl;
        forked = simp (e, f) refl;
        announced = simp (e, f) refl;
      }

  -- With a saved state and no start block, the receiver resumes at the saved position, after the
  -- uncommitted revisions are undone; the acknowledged block of an exporter that acknowledges is
  -- the head; if Anything was undone, the restart is announced as a fork at the block after the head,
  -- which the exporter has to acknowledge. It succeeds unless the head has reached the end block.
  pub load_state_lem :
      (x : StateObject) (xs : List StateObject) (r : ReceiverOf w)
      → let (depth, t) = revert_uncommitted_revisions w r in
        w.states.rows (tables w t).states ≡ x ∷ xs
        → r.config.start_block_num ≡ 0
        → let (result, s) = load_state w r in
          (result ≡ (if leb r.end_block_num x.head then err Error.already_at_end else ok tt))
          × (s.db ≡ t.db)
          × (s.head ≡ x.head)
          × (s.head_id ≡ x.head_id)
          × (s.irreversible ≡ x.irreversible)
          × (s.irreversible_id ≡ x.irreversible_id)
          × (s.exporter_acked_block
              ≡ (if r.exporter_will_ack then x.head else r.exporter_acked_block))
          × (s.forked_at_block ≡ (if ltb 0 depth then add32 x.head 1 else r.forked_at_block))
          × (s.events ≡ (
              if ltb 0 depth
              then r.events
                ++ Event.forks (record {
                  block_num = add32 x.head 1;
                  depth = depth;
                  fork_reason = restart;
                  last_irreversible = x.irreversible;
                })
                  ∷ []
              else r.events))
  unfolding load_state revert_uncommitted_revisions init_contract_abi_ctxt
  load_state_lem x xs r rows initial =
      let (depth, t) = revert_uncommitted_revisions w r in
      let u = record t {
        head = x.head;
        head_id = x.head_id;
        irreversible = x.irreversible;
        irreversible_id = x.irreversible_id;
      } in
      let v = settle_acks w (announce_restart w depth u) in
      let e : load_state w r ≡ check_end w v = rw (load_state, rows) (simp initial refl) in
      let settles = settle_acks_lem depth u in
      let ends = check_end_lem v in
      let same : leb v.end_block_num v.head ≡ leb r.end_block_num x.head =
        ap₂ (λ (a b : ℕ). leb a b) settles.end_block_num settles.head in
      rw e (
        ends.result ∙ ap (λ b. if b then err Error.already_at_end else ok tt) same,
        ends.db ∙ settles.db,
        ends.head ∙ settles.head,
        ends.head_id ∙ settles.head_id,
        ends.irreversible ∙ settles.irreversible,
        ends.irreversible_id ∙ settles.irreversible_id,
        ends.exporter_acked_block ∙ settles.acked,
        ends.forked_at_block ∙ settles.forked,
        ends.events ∙ settles.announced,
      )
