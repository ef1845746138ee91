-- ===== src/Receiver/Connection/Ready.antt =====
-- The receiver until it runs: when it is ready, and what it has asked of the state history endpoint.
use eos_chronicle.Base.{
  ℕ, ◌≡◌, ◌⊎◌, inl, inr, Bool-cases, refl, sym, ap, ◌∙◌, subst, Bool, true, false, List, [],
  if◌then◌else◌, String, arith,
}
use eos_chronicle.Base.Exec.{Exec, Result, ok, err, pure, lift, modify, ◌>>=◌, ◌>>◌}
use eos_chronicle.Store.Rows.{Bytes}
use eos_chronicle.Messages.Input.{AbiType}
use eos_chronicle.Messages.Events.{InteractiveRequest}
use eos_chronicle.Receiver.State.{ReceiverOf, World}
use eos_chronicle.Receiver.Stop.{callback, abort_receiver, closed_on_error}
use eos_chronicle.Receiver.Acks.{ack_block, slowdown}
use eos_chronicle.Receiver.Start.{load_state}
use eos_chronicle.Receiver.Pause.{check_stale_head}
use eos_chronicle.Receiver.Interactive.{on_block_req}
use eos_chronicle.Receiver.Connection.{
  Stage, resolving, connecting, handshaking, reading_abi, running, stopped, Connection, AbiReader,
  start, get_going, receive_abi, resolved, connected, handshaken, first_read, Step, resolves,
  connects, handshakes, reads_abi, asks, acks, slows, stale, aborts, Reach, here, next,
}
use eos_chronicle.Receiver.Connection.Told.{
  told, abort-told, acknowledge-told, slowdown-told, stale-told, passes-told, either, Outcome,
  load_state-told, get_going-ready, handshake-told, close-told,
}

module _ (w : World) where
  -- A receiver that is not ready has not asked, and before the first message it is not ready.
  abbrev IsQuiet : ReceiverOf w → Type 0
  IsQuiet r = r.receiver_ready ≡ false → r.requests ≡ []

  abbrev pub IsWaiting : Stage → ReceiverOf w → Type 0
  IsWaiting running r = Unit
  IsWaiting _ r = r.receiver_ready ≡ false

  pub record Inv (c : Connection w) : Type 0 where
    pub quiet : IsQuiet c.receiver
    pub waiting : IsWaiting c.stage c.receiver

  on_block_req-IsQuiet :
      (req : InteractiveRequest) (r : ReceiverOf w)
      → ((on_block_req w req r).1.receiver_ready ≡ r.receiver_ready)
        × (IsQuiet r → IsQuiet (on_block_req w req r).1)
  unfolding on_block_req
  on_block_req-IsQuiet req r = ground arith

  IsWaiting-same :
      (st : Stage) (r s : ReceiverOf w)
      → s.receiver_ready ≡ r.receiver_ready
      → IsWaiting st r
      → IsWaiting st s
  IsWaiting-same resolving r s e h = e ∙ h
  IsWaiting-same connecting r s e h = e ∙ h
  IsWaiting-same handshaking r s e h = e ∙ h
  IsWaiting-same reading_abi r s e h = e ∙ h
  IsWaiting-same running r s e h = h
  IsWaiting-same stopped r s e h = e ∙ h

  IsWaiting-next :
      (failed : Bool) (st : Stage) (r : ReceiverOf w)
      → IsWaiting st r
      → r.receiver_ready ≡ false
      → IsWaiting (if failed then stopped else st) r
  IsWaiting-next true st r h k = k
  IsWaiting-next false st r h k = h

  told-Inv :
      (c : Connection w) (r : ReceiverOf w)
      → told w r ≡ told w c.receiver
      → Inv c
      → Inv (record c { receiver = r })
  told-Inv c r e inv = record {
    quiet = λ n. ap (λ x. x.1) e ∙ inv.quiet (sym (ap (λ x. x.0) e) ∙ n);
    waiting = IsWaiting-same c.stage c.receiver r (ap (λ x. x.0) e) inv.waiting;
  }

  -- A step between two stages before the first message.
  next-Inv :
      (failed : Bool) (st : Stage) (r : ReceiverOf w) (c : Connection w)
      → told w r ≡ told w c.receiver
      → c.receiver.receiver_ready ≡ false
      → (r.receiver_ready ≡ false → IsWaiting st r)
      → Inv c
      → Inv (record { stage = if failed then stopped else st; receiver = r })
  next-Inv failed st r c e idle waits inv =
      let still : r.receiver_ready ≡ false = ap (λ x. x.0) e ∙ idle in
      record {
        quiet = (told-Inv c r e inv).quiet;
        waiting = IsWaiting-next failed st r (waits still) still;
      }

  abbrev first_message : AbiReader → Bytes → ℕ → Exec (ReceiverOf w) (Unit {0})
  first_message read bin queued = receive_abi w read bin >> get_going w queued

  clash : (b : Bool) → b ≡ true → b ≡ false → ⊥
  clash true h k = cc
  clash false h k = cc

  -- Whether the rest goes well or closes the receiver, it is ready.
  closed-ready :
      (x : Outcome w) → x.1.receiver_ready ≡ true → (closed_on_error x).receiver_ready ≡ true
  unfolding closed_on_error
  closed-ready (ok u, s) h = h
  closed-ready (err e, s) h = ap (λ x. x.0) (close-told w s) ∙ h

  first-IsQuiet :
      (read : AbiReader) (failed : Bool) (bin : Bytes) (queued : ℕ) (r : ReceiverOf w)
      → r.receiver_ready ≡ false
      → IsQuiet r
      → let s = callback {0} failed (first_message read bin queued) r in
        IsQuiet s × (failed ≡ true → s.receiver_ready ≡ false)
  unfolding callback receive_abi ◌>>=◌ closed_on_error
  first-IsQuiet read true bin queued r idle quiet =
      let e = passes-told w true r in
      (λ n. ap (λ x. x.1) e ∙ quiet idle, λ h. ap (λ x. x.0) e ∙ idle)
  first-IsQuiet read false bin queued r idle quiet = (parsed (read bin), λ h. cc)
    where
      parsed :
          (types : Result (List (String × AbiType)))
          → IsQuiet (
              closed_on_error (
                ((lift types >>= λ ts. modify (λ (u : ReceiverOf w). record u { abi_types = ts }))
                    >> get_going w queued)
                  r))
      parsed (err e) n = ap (λ x. x.1) (close-told w r) ∙ quiet idle
      parsed (ok types) n = absurd (
          clash
            (closed_on_error (get_going w queued (record r { abi_types = types }))).receiver_ready
            (closed-ready (get_going w queued (record r { abi_types = types }))
              (get_going-ready w queued (record r { abi_types = types })))
            n)

  ran :
      (failed : Bool) (r : ReceiverOf w)
      → (failed ≡ true → r.receiver_ready ≡ false)
      → IsWaiting (if failed then stopped else running) r
  ran true r h = h refl
  ran false r h = tt

  step-Inv : {read : AbiReader} {c d : Connection w} → Step w read c d → Inv c → Inv d
  unfolding resolved connected handshaken first_read
  step-Inv {c = c} (resolves failed at e) inv = subst Inv (sym e) (
      next-Inv failed connecting (callback {0} failed (pure tt) c.receiver) c
        (passes-told w failed c.receiver) (subst (λ st. IsWaiting st c.receiver) at inv.waiting)
        (λ h. h) inv)
  step-Inv {c = c} (connects failed at e) inv = subst Inv (sym e) (
      next-Inv failed handshaking (callback {0} failed (pure tt) c.receiver) c
        (passes-told w failed c.receiver) (subst (λ st. IsWaiting st c.receiver) at inv.waiting)
        (λ h. h) inv)
  step-Inv {c = c} (handshakes failed at e) inv = subst Inv (sym e) (
      next-Inv failed reading_abi (handshaken w failed c).receiver c (handshake-told w failed c)
        (subst (λ st. IsWaiting st c.receiver) at inv.waiting) (λ h. h) inv)
  step-Inv {read} {c} (reads_abi failed bin queued at e) inv =
      let idle = subst (λ st. IsWaiting st c.receiver) at inv.waiting in
      let r = record c.receiver { reading = false } in
      let (quiet, stops) = first-IsQuiet read failed bin queued r idle inv.quiet in
      subst Inv (sym e) (record {
        quiet = quiet;
        waiting = ran failed (callback {0} failed (first_message read bin queued) r) stops;
      })
  step-Inv {c = c} (asks req e) inv =
      let (same, quiet) = on_block_req-IsQuiet req c.receiver in
      subst Inv (sym e) (record {
        quiet = quiet inv.quiet;
        waiting =
            IsWaiting-same c.stage c.receiver ((on_block_req w req c.receiver).1) same inv.waiting;
      })
  step-Inv {c = c} (acks n e) inv =
      subst Inv (sym e)
        (told-Inv c (ack_block n c.receiver).1 (acknowledge-told w n c.receiver) inv)
  step-Inv {c = c} (slows pause e) inv =
      subst Inv (sym e)
        (told-Inv c (slowdown pause c.receiver) (slowdown-told w pause c.receiver) inv)
  step-Inv {c = c} (stale failed at e) inv = subst Inv (sym e) (
      told-Inv c (callback {0} failed (modify check_stale_head) c.receiver)
        (stale-told w failed c.receiver) inv)
  step-Inv {c = c} (aborts e) inv =
      subst Inv (sym e) (told-Inv c (abort_receiver c.receiver) (abort-told w c.receiver) inv)

  Reach-Inv : {read : AbiReader} {c d : Connection w} → Inv c → Reach w read c d → Inv d
  Reach-Inv inv here = inv
  Reach-Inv inv (next r st) = step-Inv st (Reach-Inv inv r)

  started-Inv :
      (x : Outcome w)
      → told w x.1 ≡ (false, [])
      → Inv (record { stage = elim x.0 [ ok u ↦ resolving | err e ↦ stopped ]; receiver = x.1 })
  started-Inv (ok u, s) e = record { quiet = λ n. ap (λ x. x.1) e; waiting = ap (λ x. x.0) e }
  started-Inv (err u, s) e = record { quiet = λ n. ap (λ x. x.1) e; waiting = ap (λ x. x.0) e }

  -- From a start that succeeds on a receiver that has not yet asked for anything, whatever happens
  -- until the receiver runs, well or not: no request is sent before the receiver is ready, and it
  -- is not ready before the first message was read.
  pub start-Reach :
      (read : AbiReader) (r : ReceiverOf w) (c d : Connection w)
      → r.receiver_ready ≡ false
      → r.requests ≡ []
      → start w r ≡ (ok tt, c)
      → Reach w read c d
      → ((d.receiver.receiver_ready ≡ true) ⊎ (d.receiver.requests ≡ []))
        × IsWaiting d.stage d.receiver
  unfolding start
  start-Reach read r c d idle none_sent started reach =
      let untold : told w r ≡ (false, []) = λ i. (idle i, none_sent i) in
      let inv : Inv c = subst Inv (ap (λ x. x.1) started) (
        started-Inv (if r.config.interactive_mode then (ok tt, r) else load_state w r) (
          either w (λ (x : Outcome w). told w x.1) r.config.interactive_mode (ok tt, r)
            (load_state w r) (false, []) untold (load_state-told w r ∙ untold))) in
      let end = Reach-Inv inv reach in
      (
        elim (Bool-cases d.receiver.receiver_ready) [
          | inl ready ↦ inl ready
          | inr waits ↦ inr (end.quiet waits)
        ],
        end.waiting,
      )
