-- ===== src/Receiver/Connection/Told.antt =====
-- What the steps before the first message leave alone: whether the receiver is ready, and its
-- requests.
use eos_chronicle.Base.{
  ℕ, ◌≡◌, refl, ◌∙◌, Bool, true, false, List, [], ◌∷◌, if◌then◌else◌, ltb, leb, sub32, arith,
}
use eos_chronicle.Base.Exec.{Error, Result, ok, err, pure, modify, lift, ◌>>=◌}
use eos_chronicle.Store.Rows.{StateObject}
use eos_chronicle.Messages.Events.{BlocksRequest, restart}
use eos_chronicle.Receiver.State.{ReceiverOf, World}
use eos_chronicle.Receiver.Abi.{tables, init_contract_abi_ctxt}
use eos_chronicle.Receiver.Stop.{callback, abort_receiver, close}
use eos_chronicle.Receiver.Acks.{ack_block, acknowledge, slowdown}
use eos_chronicle.Receiver.Start.{
  load_state, revert_uncommitted_revisions, request_blocks, resume, resumed, announce_restart,
  settle_acks, publish_fork, blocks_request,
}
use eos_chronicle.Receiver.Send.{send_request}
use eos_chronicle.Receiver.Pause.{continue_read, check_stale_head}
use eos_chronicle.Receiver.Interactive.{process_interactive_reqs}
use eos_chronicle.Receiver.Connection.{Connection, asks_first, get_going, handshaken}

module _ (w : World) where
  abbrev pub told : ReceiverOf w → Bool × List BlocksRequest
  told r = (r.receiver_ready, r.requests)

  pub abort-told : (r : ReceiverOf w) → told (abort_receiver r) ≡ told r
  unfolding abort_receiver
  abort-told r = ground arith

  pub acknowledge-told : (n : ℕ) (r : ReceiverOf w) → told (ack_block n r).1 ≡ told r
  unfolding ack_block acknowledge
  acknowledge-told n r = ground arith

  pub slowdown-told : (pause : Bool) (r : ReceiverOf w) → told (slowdown pause r) ≡ told r
  unfolding slowdown
  slowdown-told pause r = refl

  pub stale-told :
      (failed : Bool) (r : ReceiverOf w)
      → told (callback {0} failed (modify check_stale_head) r) ≡ told r
  unfolding callback check_stale_head modify
  stale-told failed r = ground arith

  pub passes-told :
      (failed : Bool) (r : ReceiverOf w) → told (callback {0} failed (pure tt) r) ≡ told r
  unfolding callback pure
  passes-told failed r = ground arith

  pub either {ℓ} :
      {A : Type 0} {B : Type ℓ} (f : A → B) (b : Bool) (x y : A) (z : B)
      → f x ≡ z
      → f y ≡ z
      → f (if b then x else y) ≡ z
  either f true x y z p q = p
  either f false x y z p q = q

  abbrev pub Outcome : Type 0
  Outcome = Result (Unit {0}) × ReceiverOf w

  pub resumed-told :
      (depth : ℕ) (x : Outcome) (z : Bool × List BlocksRequest)
      → told x.1 ≡ z
      → told (resumed w depth x).1 ≡ z
  unfolding init_contract_abi_ctxt
  resumed-told depth (err e, s) z h = h
  resumed-told depth (ok u, s) z h =
      let restarted : told (announce_restart w depth s) ≡ z =
        either told (ltb 0 depth) (publish_fork w restart depth s.irreversible s) s z h h in
      let a = announce_restart w depth s in
      let settled : told (settle_acks w a) ≡ z =
        either told a.exporter_will_ack (record a { exporter_acked_block = a.head }) a z restarted
          restarted in
      let v = settle_acks w a in
      either (λ (o : Outcome). told o.1) (leb v.end_block_num v.head) (err Error.already_at_end, v)
        (ok tt, init_contract_abi_ctxt w v) z settled settled

  pub resume-told : (xs : List StateObject) (r : ReceiverOf w) → told (resume w xs r).1 ≡ told r
  resume-told (x ∷ xs) r = ground arith
  resume-told [] r =
      either told (ltb 0 r.config.start_block_num)
        (record r { head = sub32 r.config.start_block_num 1 }) r (told r) refl refl

  pub load_state-told : (r : ReceiverOf w) → told (load_state w r).1 ≡ told r
  unfolding load_state
  load_state-told r =
      let s = (revert_uncommitted_revisions w r).1 in
      resumed-told (revert_uncommitted_revisions w r).0
        (resume w (w.states.rows (tables w s).states) s) (told r)
        (resume-told (w.states.rows (tables w s).states) s)

  pub continue_read-ready :
      (queued : ℕ) (r : ReceiverOf w) → (continue_read w queued r).receiver_ready ≡ r.receiver_ready
  unfolding continue_read
  continue_read-ready queued r = ground arith

  pub process-ready :
      (r : ReceiverOf w) → (process_interactive_reqs w r).1.receiver_ready ≡ r.receiver_ready
  unfolding process_interactive_reqs
  process-ready r = ground arith

  pub sent-ready :
      (request : BlocksRequest) (r : ReceiverOf w)
      → (send_request w request r).1.receiver_ready ≡ r.receiver_ready
  unfolding send_request
  sent-ready request r = ground arith

  pub get_going-ready :
      (queued : ℕ) (r : ReceiverOf w) → (get_going w queued r).1.receiver_ready ≡ true
  unfolding ◌>>=◌ modify request_blocks send_request
  get_going-ready queued r =
      let s = record r { receiver_ready = true } in
      read_on (asks_first w s) (
        either (λ (o : Outcome). o.1.receiver_ready) s.config.interactive_mode
          (process_interactive_reqs w s) (request_blocks w s) true (process-ready s)
          (sent-ready (blocks_request w s) s))
    where
      read_on :
          (x : Outcome)
          → x.1.receiver_ready ≡ true
          → ((lift x.0 >>= λ u. modify (continue_read w queued)) x.1).1.receiver_ready ≡ true
      read_on (ok u, s) h = continue_read-ready queued s ∙ h
      read_on (err e, s) h = h

  pub handshake-told :
      (failed : Bool) (c : Connection w) → told (handshaken w failed c).receiver ≡ told c.receiver
  unfolding handshaken
  handshake-told failed c = ground arith

  pub close-told : (r : ReceiverOf w) → told (close r) ≡ told r
  unfolding close
  close-told r = ground arith
