-- ===== src/ExpWs/Queue/Order.antt =====
-- Every message is written once, in the order in which it was pushed.
use mathlib.Core.List.{append-nil, append_assoc}
use eos_chronicle.Base.{◌≡◌, refl, sym, ap, ◌∙◌, false, List, [], ◌∷◌, ◌++◌}
use eos_chronicle.Store.Rows.{Bytes}
use eos_chronicle.ExpWs.Queue.{Exporter, async_send_events, send_from, write_done, push_msg}

-- What happens to the exporter: an event is pushed, a write ends well, or the timer's handler runs.
pub data Happening : Type 0 where
  pushes : Bytes → Happening
  writes timer_fires : Happening

abbrev pub happen : Happening → Exporter → Exporter
happen (pushes msg) = push_msg msg
happen writes = write_done false
happen timer_fires = async_send_events

-- A sequence of them.
unfoldable pub run : List Happening → Exporter → Exporter
run [] x = x
run (h ∷ hs) x = run hs (happen h x)

-- The messages that a sequence pushes.
abbrev pub pushed : List Happening → List Bytes
pushed [] = []
pushed (pushes msg ∷ hs) = msg ∷ pushed hs
pushed (writes ∷ hs) = pushed hs
pushed (timer_fires ∷ hs) = pushed hs

-- What was written and what waits, in order.
abbrev pub stream : Exporter → List Bytes
stream x = x.written ++ x.async_queue

sent-stream :
    (queue : List Bytes) (x : Exporter)
    → x.async_queue ≡ queue
    → stream (send_from queue x) ≡ stream x
sent-stream [] x e = refl
sent-stream (msg ∷ rest) x e =
    append_assoc x.written (msg ∷ []) rest ∙ ap (λ q. x.written ++ q) (sym e)

-- Whatever happens, what was written and what still waits is, in order, what was written and waited
-- before and then what was pushed: no message is lost, doubled or overtaken.
pub run_lem : (hs : List Happening) (x : Exporter) → stream (run hs x) ≡ stream x ++ pushed hs
unfolding run push_msg write_done async_send_events
run_lem [] x = sym (append-nil (stream x))
run_lem (pushes msg ∷ hs) x =
    run_lem hs (push_msg msg x)
    ∙ ap (λ s. s ++ pushed hs) (sym (append_assoc x.written x.async_queue (msg ∷ [])))
    ∙ append_assoc (stream x) (msg ∷ []) (pushed hs)
run_lem (writes ∷ hs) x =
    run_lem hs (write_done false x) ∙ ap (λ s. s ++ pushed hs) (sent-stream x.async_queue x refl)
run_lem (timer_fires ∷ hs) x =
    run_lem hs (async_send_events x) ∙ ap (λ s. s ++ pushed hs) (sent-stream x.async_queue x refl)
