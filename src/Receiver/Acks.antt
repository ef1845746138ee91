-- ===== src/Receiver/Acks.antt =====
-- The acknowledgements of the exporter: exporter_will_ack_blocks, ack_block and slowdown of
-- receiver_plugin.
pub mod AfterFork
use eos_chronicle.Base.{
  ℕ, ◌+◌, ◌-◌, ◌≤◌, ◌<◌, ◌≡◌, refl, ◌≢◌, Bool, true, false, not, List, [], ◌∷◌, arith, ltb, ◌==◌,
  if◌then◌else◌,
}
use eos_chronicle.Base.Exec.{Exec, Error, Result, ok, err, pure, throw, modify, ◌>>=◌, ◌>>◌}
use eos_chronicle.Receiver.State.{Receiver}
use eos_chronicle.Receiver.Stop.{abort_receiver}

module _ {Db Context : Type 0} where
  -- The two asserts stop a debug build.
  unfoldable pub exporter_will_ack_blocks : ℕ → Exec (Receiver Db Context) (Unit {0})
  exporter_will_ack_blocks max_unconfirmed r =
      if r.exporter_will_ack
      then (err Error.assertion_failed, r)
      else if max_unconfirmed == 0
      then (err Error.assertion_failed, r)
      else if r.config.interactive_mode
      then (err Error.interactive_ack, r)
      else if r.config.noexport_mode
      then (err Error.noexport_ack, r)
      else (
        ok tt,
        record r { exporter_will_ack = true; exporter_max_unconfirmed = max_unconfirmed },
      )

  -- The block is acknowledged, unless a fork waits for a lower one or it goes backwards.
  unfoldable pub acknowledge : ℕ → Receiver Db Context → Receiver Db Context
  unfolding abort_receiver
  acknowledge block_num r =
      if ltb 0 r.forked_at_block
      then (let wait_for_ack = r.forked_at_block - 1 in
          if ltb wait_for_ack block_num
          then r
          else if block_num == wait_for_ack
          then record r { forked_at_block = 0; exporter_acked_block = block_num }
          else record r { exporter_acked_block = block_num })
      else if ltb block_num r.exporter_acked_block
      then abort_receiver r
      else record r { exporter_acked_block = block_num }

  unfoldable pub ack_block : ℕ → Exec (Receiver Db Context) (Unit {0})
  ack_block block_num r =
      if r.exporter_will_ack
      then (ok tt, acknowledge block_num r)
      else (err Error.assertion_failed, r)

  unfoldable pub slowdown : Bool → Receiver Db Context → Receiver Db Context
  slowdown pause r = record r { slowdown_requested = pause }
