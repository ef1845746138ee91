-- ===== src/Receiver/Stop.antt =====
-- How the receiver stops: close, on_fail, catch_and_close and callback of receiver_plugin_impl, and
-- both functions called abort_receiver. The log is left out.
use eos_chronicle.Base.{Bool, true, false, not, ◌&&◌, if◌then◌else◌}
use eos_chronicle.Base.Exec.{Exec, Result, ok, err}
use eos_chronicle.Receiver.State.{Receiver}

module _ {Db Context : Type 0} where
  -- close, and the member abort_receiver, which only calls it.
  unfoldable pub close : Receiver Db Context → Receiver Db Context
  close r =
      if not r.aborting && r.stream_open
      then record r { stream_open = false; aborting = true }
      else r

  -- The global abort_receiver: it also makes the application quit.
  unfoldable pub abort_receiver : Receiver Db Context → Receiver Db Context
  unfolding close
  abort_receiver r = let s = close r in record s { quit = true }

  -- An error of the socket.
  unfoldable pub on_fail : Receiver Db Context → Receiver Db Context
  unfolding abort_receiver
  on_fail r = abort_receiver (close r)

  -- What an exception leaves is closed.
  unfoldable pub closed_on_error {ℓ} :
      {A : Type ℓ} → Result A × Receiver Db Context → Receiver Db Context
  closed_on_error (ok a, r) = r
  closed_on_error (err e, r) = close r

  -- A callback of the socket or of a timer: `failed` is the error code.
  unfoldable pub callback {ℓ} :
      {A : Type 0} → Bool → Exec (Receiver Db Context) A → Receiver Db Context → Receiver Db Context
  unfolding on_fail closed_on_error
  callback failed f r = if failed then on_fail r else closed_on_error (f r)
