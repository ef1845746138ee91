-- ===== src/ExpWs/Queue.antt =====
-- The queue of the exporter: async_send_events, push_msg and the handler of a write of
-- exp_ws_plugin_impl, and the limits that plugin_initialize sets. The websocket and the timer are
-- the effects: what was written, whether a write or the timer is pending, and what the receiver was
-- told by slowdown_receiver.
pub mod Order
pub mod Drain
use eos_chronicle.Base.{
  ℕ, ◌*◌, ◌/◌, ◌%◌, Bool, true, false, Option, none, some, List, [], ◌∷◌, ◌++◌, length,
  if◌then◌else◌, ltb, leb, ◌==◌, sub32, u32_mod,
}
use eos_chronicle.Base.Exec.{Error, Result, ok, err}
use eos_chronicle.Store.Rows.{Bytes}

pub record Exporter : Type 0 where
  pub maxunack : ℕ
  pub async_queue : List Bytes
  pub async_msg : Option Bytes
  pub queue_hwm : ℕ
  pub queue_lwm : ℕ
  pub pause_time_msec : ℕ
  pub msg_report_counter : ℕ
  -- The effects.
  pub written : List Bytes
  pub writing : Bool
  pub timer : Option ℕ
  pub timer_cancelled : Bool
  pub slowdown : Bool
  pub closed : Bool

-- The limits that plugin_initialize takes from exp-ws-max-unack and exp-ws-max-queue.
unfoldable pub set_limits : ℕ → ℕ → Exporter → Result Exporter
set_limits maxunack maxqueue x =
    if maxunack == 0
    then err Error.bad_option
    else if maxqueue == 0
    then err Error.bad_option
    else ok (record x {
      maxunack = maxunack;
      queue_hwm = maxqueue;
      queue_lwm = (maxqueue * 3) % u32_mod / 4;
    })

-- 5, 10, … up to 320 ms.
unfoldable pub next_idle : ℕ → ℕ
next_idle msec = if msec == 0 then 5 else if ltb msec 256 then msec * 2 else msec

abbrev pub told : Exporter → Bool
told x =
    if leb x.queue_hwm (length x.async_queue)
    then true
    else if ltb (length x.async_queue) x.queue_lwm
    then false
    else x.slowdown

abbrev pub send_from : List Bytes → Exporter → Exporter
send_from [] x =
    let msec = next_idle x.pause_time_msec in
    record x { pause_time_msec = msec; timer = some msec; timer_cancelled = false; writing = false }
send_from (msg ∷ rest) x = record x {
  pause_time_msec = 0;
  timer = none;
  slowdown = told x;
  async_queue = rest;
  async_msg = some msg;
  written = x.written ++ msg ∷ [];
  writing = true;
}

-- The next message is written, or the timer armed if there is none.
unfoldable pub async_send_events : Exporter → Exporter
unfolding next_idle
async_send_events x = send_from x.async_queue x

-- The handler of a write: on an error the connection is closed.
unfoldable pub write_done : Bool → Exporter → Exporter
unfolding async_send_events
write_done failed x =
    if failed then record x { closed = true; writing = false } else async_send_events x

abbrev count_down : ℕ → ℕ
count_down n = let m = sub32 n 1 in if m == 0 then 10000 else m

-- A message is queued; a waiting timer is cancelled, so that its handler runs.
unfoldable pub push_msg : Bytes → Exporter → Exporter
push_msg msg x = record x {
  async_queue = x.async_queue ++ msg ∷ [];
  timer_cancelled = if ltb 0 x.pause_time_msec then true else x.timer_cancelled;
  msg_report_counter = count_down x.msg_report_counter;
}
