-- ===== src/Receiver/Pause/Flow.antt =====
-- What the pauses guarantee: the window of unacknowledged blocks, the length of a pause, and that
-- the receiver always goes on in some way.
use eos_chronicle.Base.{
  ℕ, ◌+◌, ◌-◌, ◌%◌, ◌≤◌, ◌<◌, ◌≡◌, ◌⊎◌, true, false, some, arith, sub32, u32_mod,
}
use eos_chronicle.Receiver.State.{ReceiverOf, World}
use eos_chronicle.Receiver.Pause.{next_pause, continue_read}

module _ (w : World) where
  -- If the receiver was not reading and goes on to read while the exporter acknowledges, and the
  -- acknowledged block is not above the head, then fewer blocks than the exporter's window are
  -- unacknowledged, no fork waits for its acknowledgement, the exporter did not ask to slow down, and
  -- the application's queue is not above its limit.
  pub continue_read_window :
      (queued : ℕ) (r : ReceiverOf w)
      → r.reading ≡ false
      → (continue_read w queued r).reading ≡ true
      → r.exporter_will_ack ≡ true
      → r.exporter_acked_block ≤ r.head
      → r.head < u32_mod
      → (r.head - r.exporter_acked_block < r.exporter_max_unconfirmed)
        × (r.forked_at_block ≡ 0)
        × (r.slowdown_requested ≡ false)
        × (queued ≤ r.config.max_queue_size)
  unfolding continue_read
  continue_read_window queued r idle reads acks below small = ground arith

  -- With a pause of at most 500 ms that is a multiple of 50 so far, the receiver either reads, and its
  -- pause is reset; or quits, and then the last block before the end is irreversible; or has armed
  -- its timer for 50 to 500 ms, a multiple of 50, and for 50 ms more than the last time unless that was
  -- 500 ms.
  pub continue_read_goes_on :
      (queued : ℕ) (r : ReceiverOf w)
      → r.pause_time_msec ≤ 500
      → r.pause_time_msec % 50 ≡ 0
      → let s = continue_read w queued r in
        ((s.reading ≡ true) × (s.pause_time_msec ≡ 0))
        ⊎ ((s.quit ≡ true) × (r.head ≡ sub32 r.end_block_num 1) × (r.head ≤ r.irreversible))
        ⊎ ((s.pause_timer ≡ some s.pause_time_msec)
            × (50 ≤ s.pause_time_msec)
            × (s.pause_time_msec ≤ 500)
            × (s.pause_time_msec % 50 ≡ 0)
            × ((r.pause_time_msec ≡ 500) ⊎ (s.pause_time_msec ≡ r.pause_time_msec + 50)))
  unfolding continue_read next_pause
  continue_read_goes_on queued r h k = ground arith

  -- If the exporter acknowledges and the acknowledged block is above the head, by no more than what
  -- the window leaves of 2^32, the unsigned difference wraps, and a receiver that was not reading
  -- neither reads nor quits.
  pub acked_above_head_pauses :
      (queued : ℕ) (r : ReceiverOf w)
      → r.reading ≡ false
      → r.exporter_will_ack ≡ true
      → r.head < r.exporter_acked_block
      → r.exporter_acked_block < u32_mod
      → r.exporter_acked_block + r.exporter_max_unconfirmed ≤ r.head + u32_mod
      → ((continue_read w queued r).reading ≡ false) × ((continue_read w queued r).quit ≡ r.quit)
  unfolding continue_read
  acked_above_head_pauses queued r idle acks above small window = ground arith
