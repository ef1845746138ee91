-- ===== src/ExpWs/Queue/Drain.antt =====
-- How the queue lets the receiver go on.
use eos_chronicle.Base.{
  subst, sym, ℕ, zero, suc, ◌*◌, ◌/◌, ◌%◌, ◌≤◌, ◌<◌, ◌≡◌, refl, ap, true, false, List, [], ◌∷◌,
  arith, length, u32_mod,
}
use eos_chronicle.Base.Exec.{ok}
use eos_chronicle.Store.Rows.{Bytes}
use eos_chronicle.ExpWs.Queue.{
  push_msg, Exporter, set_limits, async_send_events, write_done, send_from, told,
}
use eos_chronicle.ExpWs.Queue.Order.{Happening, pushes, writes, timer_fires, happen, run}

-- `n` writes that end well, one after the other.
unfoldable pub write_all : ℕ → Exporter → Exporter
write_all zero x = x
write_all (suc n) x = write_all n (write_done false x)

drained :
    (queue : List Bytes) (x : Exporter)
    → x.async_queue ≡ queue
    → 0 < length queue
    → 1 < x.queue_lwm
    → x.queue_lwm ≤ x.queue_hwm
    → let y = write_all (length queue) x in (y.slowdown ≡ false) × (y.async_queue ≡ [])
unfolding write_all write_done async_send_events
drained [] x e some_msg lwm hwm = absurd (omega arith)
drained (msg ∷ []) x e some_msg lwm hwm = rw e (ground arith)
drained (msg ∷ next ∷ rest) x e some_msg lwm hwm =
    subst
      (λ (y : Exporter).
        ((write_all (suc (length rest)) y).slowdown ≡ false)
        × ((write_all (suc (length rest)) y).async_queue ≡ []))
      (ap (λ q. send_from q x) (sym e))
      (drained (next ∷ rest) (send_from (msg ∷ next ∷ rest) x) refl (omega arith) lwm hwm)

-- With the limits of a queue of more than two messages and below 2^32 / 3, once every message that
-- waits is written, the receiver was told to go on.
pub write_all-set_limits :
    (maxunack maxqueue : ℕ) (x y : Exporter)
    → set_limits maxunack maxqueue x ≡ ok y
    → 2 < maxqueue
    → maxqueue * 3 < u32_mod
    → 0 < length y.async_queue
    → let z = write_all (length y.async_queue) y in (z.slowdown ≡ false) × (z.async_queue ≡ [])
unfolding set_limits
write_all-set_limits maxunack maxqueue x y h more small waits =
    let hwm : y.queue_hwm ≡ maxqueue = ground arith in
    let lwm : y.queue_lwm ≡ (maxqueue * 3) % u32_mod / 4 = ground arith in
    drained y.async_queue y refl waits (omega arith) (omega arith)

told_again :
    (q : List Bytes) (x : Exporter)
    → x.async_queue ≡ q
    → 0 < length q
    → x.queue_lwm ≤ 1
    → x.slowdown ≡ true
    → told x ≡ true
told_again q x e waits low slow = rw e (ground arith)

sends_slow :
    (q : List Bytes) (x : Exporter)
    → x.async_queue ≡ q
    → x.queue_lwm ≤ 1
    → x.slowdown ≡ true
    → ((send_from q x).queue_lwm ≡ x.queue_lwm) × ((send_from q x).slowdown ≡ true)
sends_slow [] x e low slow = (refl, slow)
sends_slow (msg ∷ rest) x e low slow = (refl, told_again (msg ∷ rest) x e (omega arith) low slow)

stays :
    (h : Happening) (x : Exporter)
    → x.queue_lwm ≤ 1
    → x.slowdown ≡ true
    → ((happen h x).queue_lwm ≡ x.queue_lwm) × ((happen h x).slowdown ≡ true)
unfolding push_msg write_done async_send_events
stays (pushes msg) x low slow = (refl, slow)
stays writes x low slow = sends_slow x.async_queue x refl low slow
stays timer_fires x low slow = sends_slow x.async_queue x refl low slow

run_slow :
    (hs : List Happening) (x : Exporter)
    → x.queue_lwm ≤ 1
    → x.slowdown ≡ true
    → (run hs x).slowdown ≡ true
unfolding run
run_slow [] x low slow = slow
run_slow (h ∷ hs) x low slow =
    let (same, still) = stays h x low slow in run_slow hs (happen h x) (omega (arith, same)) still

-- With the limits of a queue of one or two messages, a receiver that was told to slow down is never
-- told to go on, whatever happens.
pub run-small_queue :
    (maxunack maxqueue : ℕ) (x y : Exporter) (hs : List Happening)
    → set_limits maxunack maxqueue x ≡ ok y
    → maxqueue ≤ 2
    → y.slowdown ≡ true
    → (run hs y).slowdown ≡ true
unfolding set_limits
run-small_queue maxunack maxqueue x y hs h few slow =
    let lwm : y.queue_lwm ≡ (maxqueue * 3) % u32_mod / 4 = ground arith in
    run_slow hs y (omega arith) slow
