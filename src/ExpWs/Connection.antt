-- ===== src/ExpWs/Connection.antt =====
-- The connection of the exporter: start, stop and close_ws of exp_ws_plugin_impl and the handlers
-- of its websocket, with the calls of the receiver that they make. The websocket's work is left
-- out but for whether it fails.
pub mod Acknowledged
use eos_chronicle.Base.{ℕ, Bool, true, false, Option, none, some, if◌then◌else◌}
use eos_chronicle.Base.Exec.{Exec, Error, Result, ok, err}
use eos_chronicle.Store.Rows.{Bytes}
use eos_chronicle.Messages.Events.{InteractiveRequest}
use eos_chronicle.Receiver.State.{ReceiverOf, World}
use eos_chronicle.Receiver.Stop.{abort_receiver}
use eos_chronicle.Receiver.Acks.{exporter_will_ack_blocks, ack_block, slowdown}
use eos_chronicle.Receiver.Interactive.{on_block_req}
use eos_chronicle.ExpWs.Queue.{Exporter, async_send_events, write_done}
use eos_chronicle.ExpWs.Request.{read_ack, read_interactive_req}

-- What is read from the consumer.
pub data Awaited : Type 0 where
  acknowledgement interactive_request : Awaited

pub record Session (w : World) : Type 0 where
  pub exporter : Exporter
  pub receiver : ReceiverOf w
  pub is_open : Bool
  pub closing : Bool
  pub reading : Option Awaited

module _ (w : World) where
  -- The receiver is told to slow down or to go on as async_send_events says: the exporter's field
  -- is what the receiver was told last.
  abbrev tell : Exporter → Session w → Session w
  tell x s = record s { exporter = x; receiver = slowdown x.slowdown s.receiver }

  unfoldable pub send_events : Session w → Session w
  unfolding async_send_events slowdown
  send_events s = tell (async_send_events s.exporter) s

  -- A websocket that is open is closed in the background, and then the receiver is stopped.
  unfoldable pub close_ws : Session w → Session w
  unfolding abort_receiver
  close_ws s =
      if s.is_open
      then record s { is_open = false; closing = true; reading = none }
      else record s { receiver = abort_receiver s.receiver }

  -- The handler of the close, whether it failed or not.
  unfoldable pub closed : Session w → Session w
  unfolding abort_receiver
  closed s = record s { closing = false; receiver = abort_receiver s.receiver }

  -- The first read: of requests in the interactive mode, else of acknowledgements.
  abbrev listen : Session w → Session w
  listen s = record s {
    reading =
        some (if s.receiver.config.interactive_mode then interactive_request else acknowledgement);
  }

  abbrev promise : Exec (ReceiverOf w) (Unit {0}) → Exec (Session w) (Unit {0})
  promise m s = let (result, r) = m s.receiver in (result, record s { receiver = r })

  abbrev connect : Bool → Result (Unit {0}) × Session w → Result (Unit {0}) × Session w
  connect failed (err e, s) = (err e, s)
  connect failed (ok u, s) =
      if failed
      then (err Error.malformed, s)
      else (ok tt, send_events (listen (record s { is_open = true })))

  unfoldable pub start : Bool → Exec (Session w) (Unit {0})
  unfolding exporter_will_ack_blocks send_events
  start failed s = connect failed (
      if s.receiver.config.interactive_mode
      then (ok tt, s)
      else promise (exporter_will_ack_blocks s.exporter.maxunack) s)

  unfoldable pub stop : Session w → Session w
  unfolding close_ws
  stop s = close_ws s

  abbrev acknowledges : Result ℕ → Exec (Session w) (Unit {0})
  acknowledges (err e) s = (err e, s)
  acknowledges (ok ack) s =
      let (result, r) = ack_block ack s.receiver in
      (
        result,
        record s {
          receiver = r;
          reading = elim result [ ok u ↦ some acknowledgement | err e ↦ none ];
        },
      )

  -- The handler of async_read_acks. An exception is not caught: it ends the program.
  unfoldable pub acks_read : Bool → Bytes → Exec (Session w) (Unit {0})
  unfolding close_ws read_ack ack_block
  acks_read failed in_data s =
      let t = record s { reading = none } in
      if failed then (ok tt, close_ws t) else acknowledges (read_ack in_data) t

  abbrev asks : Result InteractiveRequest → Exec (Session w) (Unit {0})
  asks (err e) s = (err e, s)
  asks (ok req) s = (
    ok tt,
    record s { receiver = (on_block_req w req s.receiver).1; reading = some interactive_request },
  )

  -- The handler of async_read_interactive_reqs. The request is published, so that what the
  -- receiver's handler throws does not come back here; the queue between the two is left out, and the
  -- receiver gets it at once.
  unfoldable pub interactive_reqs_read : Bool → Bytes → Exec (Session w) (Unit {0})
  unfolding close_ws read_interactive_req on_block_req
  interactive_reqs_read failed in_data s =
      let t = record s { reading = none } in
      if failed then (ok tt, close_ws t) else asks (read_interactive_req in_data) t

  -- The handler of a write.
  unfoldable pub written : Bool → Session w → Session w
  unfolding close_ws write_done slowdown
  written failed s =
      if failed
      then close_ws (record s { exporter = write_done true s.exporter })
      else tell (write_done false s.exporter) s
