-- ===== src/Examples/Exporting.antt =====
-- The websocket exporter at concrete inputs.
use eos_chronicle.Base.{◌≡◌, refl, false, true, none, some, [], ◌∷◌, ◌++◌, arith}
use eos_chronicle.ExpWs.Queue.{Exporter, set_limits}
use eos_chronicle.ExpWs.Queue.Order.{pushes, writes, timer_fires, run, pushed, stream, run_lem}
use eos_chronicle.ExpWs.Queue.Drain.{write_all, write_all-set_limits}
use eos_chronicle.ExpWs.Message.{bin_message}
use eos_chronicle.ExpWs.Message.RoundTrip.{consume, consume-bin_message}

-- Three messages wait, and the receiver was told to slow down.
abbrev pub busy_exporter : Exporter
busy_exporter = record {
  maxunack = 1000;
  async_queue = (1 ∷ []) ∷ (2 ∷ []) ∷ (3 ∷ []) ∷ [];
  async_msg = none;
  queue_hwm = 3;
  queue_lwm = 2;
  pause_time_msec = 0;
  msg_report_counter = 1000;
  written = [];
  writing = true;
  timer = none;
  timer_cancelled = false;
  slowdown = true;
  closed = false;
}

run_example :
    stream (run (writes ∷ pushes (4 ∷ []) ∷ timer_fires ∷ writes ∷ []) busy_exporter)
    ≡ stream busy_exporter ++ pushed (writes ∷ pushes (4 ∷ []) ∷ timer_fires ∷ writes ∷ [])
run_example = run_lem (writes ∷ pushes (4 ∷ []) ∷ timer_fires ∷ writes ∷ []) busy_exporter

drain_example :
    ((write_all 3 busy_exporter).slowdown ≡ false) × ((write_all 3 busy_exporter).async_queue ≡ [])
unfolding set_limits
drain_example =
    write_all-set_limits 1000 3 busy_exporter busy_exporter refl (omega arith) (omega arith)
      (omega arith)

bin_message_example : consume (bin_message 1001 0 (123 ∷ 125 ∷ [])) ≡ some (1001, 0, 123 ∷ 125 ∷ [])
bin_message_example = consume-bin_message 1001 0 (123 ∷ 125 ∷ []) (omega arith) (omega arith)
