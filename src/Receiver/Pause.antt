-- ===== src/Receiver/Pause.antt =====
-- The flow of the receiver: check_pause, continue_read, check_stale_head and commit_db of
-- receiver_plugin_impl. `queued` is the size of the application's priority queue.
pub mod Flow
use eos_chronicle.Base.{
  ℕ, ◌+◌, ◌≡◌, refl, Bool, true, false, not, ◌&&◌, ◌||◌, Option, none, some, arith, ltb, leb, ◌==◌,
  if◌then◌else◌, sub32,
}
use eos_chronicle.Messages.Events.{Event}
use eos_chronicle.Receiver.State.{Receiver, ReceiverOf, World, publish}
use eos_chronicle.Receiver.Stop.{abort_receiver}

-- 50, 100, … up to 500 ms.
unfoldable pub next_pause : ℕ → ℕ
next_pause msec = if msec == 0 then 50 else if ltb msec 500 then msec + 50 else msec

module _ {Db Context : Type 0} where
  -- The exporter is too far behind.
  abbrev pub must_wait_for_ack : Receiver Db Context → Bool
  must_wait_for_ack r =
      r.exporter_will_ack
      && (ltb 0 r.forked_at_block
          || leb r.exporter_max_unconfirmed (sub32 r.head r.exporter_acked_block))

  abbrev pub must_pause : ℕ → Receiver Db Context → Bool
  must_pause queued r =
      r.slowdown_requested
      || must_wait_for_ack r
      || ltb r.config.max_queue_size queued
      || (not r.config.interactive_mode && r.head == sub32 r.end_block_num 1)

  -- The last block before the end is irreversible and acknowledged.
  abbrev pub reached_end : Receiver Db Context → Bool
  reached_end r =
      r.head == sub32 r.end_block_num 1
      && leb r.head r.irreversible
      && (not r.exporter_will_ack || r.exporter_acked_block == r.head)

  -- The receiver waits for its timer, a bit longer each time.
  unfoldable pub pause : Receiver Db Context → Receiver Db Context
  pause r =
      let msec = next_pause r.pause_time_msec in
      let e =
        Event.receiver_pauses (record { head = r.head; acknowledged = r.exporter_acked_block }) in
      publish e (record r { pause_time_msec = msec; pause_timer = some msec })

  -- The stale timer: without a new block since the last time the receiver gives up.
  unfoldable pub check_stale_head : Receiver Db Context → Receiver Db Context
  unfolding abort_receiver
  check_stale_head r =
      if r.stale_check_last_head == r.head && r.pause_time_msec == 0 && ltb 0 r.received_blocks
      then abort_receiver r
      else record r {
        stale_check_last_head = r.head;
        stale_timer = some r.config.stale_check_deadline_msec;
      }

module _ (w : World) where
  -- The revision that the database may commit: only what is irreversible and confirmed.
  abbrev pub commit_rev : ReceiverOf w → ℕ
  commit_rev r =
      if r.exporter_will_ack && ltb r.exporter_acked_block r.irreversible
      then r.exporter_acked_block
      else r.irreversible

  unfoldable pub commit_db : ReceiverOf w → ReceiverOf w
  commit_db r = record r { db = w.database.commit (commit_rev r) r.db }

  -- Whether the receiver goes on reading.
  unfoldable pub check_pause : ℕ → ReceiverOf w → Bool × ReceiverOf w
  unfolding pause commit_db abort_receiver
  check_pause queued r =
      if must_pause queued r
      then (if reached_end r then (false, abort_receiver (commit_db r)) else (false, pause r))
      else (true, r)

  unfoldable pub continue_read : ℕ → ReceiverOf w → ReceiverOf w
  unfolding check_pause
  continue_read queued r =
      let (go, s) = check_pause queued r in
      if go then record s { pause_time_msec = 0; reading = true } else s
