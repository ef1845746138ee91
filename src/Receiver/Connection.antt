-- ===== src/Receiver/Connection.antt =====
-- How the receiver connects: start, start_read and receive_abi of receiver_plugin_impl, and
-- start_after_dependencies of receiver_plugin. Each asynchronous step is a function of whether it
-- failed; `stage` says which one is pending.
mod Told
pub mod Ready
pub mod Asked
pub mod Dependencies
use eos_chronicle.Base.{ℕ, Bool, true, false, ◌≡◌, String, Option, none, some, List, if◌then◌else◌}
use eos_chronicle.Base.Exec.{Exec, Result, ok, err, modify, lift, pure, ◌>>=◌, ◌>>◌}
use eos_chronicle.Store.Rows.{Bytes}
use eos_chronicle.Messages.Input.{AbiType}
use eos_chronicle.Messages.Events.{InteractiveRequest}
use eos_chronicle.Receiver.State.{ReceiverOf, World}
use eos_chronicle.Receiver.Stop.{callback, abort_receiver}
use eos_chronicle.Receiver.Acks.{ack_block, slowdown}
use eos_chronicle.Receiver.Start.{load_state, request_blocks}
use eos_chronicle.Receiver.Pause.{continue_read, check_stale_head}
use eos_chronicle.Receiver.Interactive.{process_interactive_reqs, on_block_req}

pub data Stage : Type 0 where
  resolving connecting handshaking reading_abi running stopped : Stage

pub record Connection (w : World) : Type 0 where
  pub stage : Stage
  pub receiver : ReceiverOf w

-- The protocol's ABI out of the first message: from_json of abieos, its check of the version and
-- its conversion, which are not part of the repository.
abbrev pub AbiReader : Type 0
AbiReader = Bytes → Result (List (String × AbiType))

module _ (w : World) where
  abbrev nothing_more : Exec (ReceiverOf w) (Unit {0})
  nothing_more = pure tt

  -- The resolver is started, in the scanning modes after the saved state was loaded.
  unfoldable pub start : ReceiverOf w → Result (Unit {0}) × Connection w
  unfolding load_state
  start r =
      let (result, s) = if r.config.interactive_mode then (ok tt, r) else load_state w r in
      (result, record { stage = elim result [ ok u ↦ resolving | err e ↦ stopped ]; receiver = s })

  -- An asynchronous step that only starts the next one.
  abbrev passes : Bool → Stage → Connection w → Connection w
  passes failed next c = record {
    stage = if failed then stopped else next;
    receiver = callback {0} failed nothing_more c.receiver;
  }

  unfoldable pub resolved : Bool → Connection w → Connection w
  unfolding callback
  resolved failed c = passes failed connecting c

  unfoldable pub connected : Bool → Connection w → Connection w
  unfolding callback
  connected failed c = passes failed handshaking c

  -- The first message is awaited, and the stale timer armed.
  unfoldable pub start_read : ReceiverOf w → ReceiverOf w
  start_read r = record r {
    reading = true;
    stale_check_last_head = r.head;
    stale_timer = some r.config.stale_check_deadline_msec;
  }

  unfoldable pub handshaken : Bool → Connection w → Connection w
  unfolding callback start_read modify
  handshaken failed c = record {
    stage = if failed then stopped else reading_abi;
    receiver =
        callback {0} failed (modify (λ r. start_read (record r { stream_open = true }))) c.receiver;
  }

  unfoldable pub receive_abi : AbiReader → Bytes → Exec (ReceiverOf w) (Unit {0})
  unfolding lift modify ◌>>=◌
  receive_abi read bin =
      lift (read bin) >>= λ types. modify (λ (r : ReceiverOf w). record r { abi_types = types })

  -- After the ABI the receiver is ready, and asks for blocks.
  abbrev pub asks_first : Exec (ReceiverOf w) (Unit {0})
  asks_first r =
      if r.config.interactive_mode then process_interactive_reqs w r else request_blocks w r

  abbrev pub get_going : ℕ → Exec (ReceiverOf w) (Unit {0})
  get_going queued r =
      (asks_first >>= λ u. modify (continue_read w queued)) (record r { receiver_ready = true })

  -- The handler of the first read.
  unfoldable pub first_read : AbiReader → Bool → Bytes → ℕ → Connection w → Connection w
  unfolding callback receive_abi process_interactive_reqs request_blocks continue_read modify ◌>>=◌
  first_read read failed bin queued c = record {
    stage = if failed then stopped else running;
    receiver =
        callback {0} failed (receive_abi read bin >> get_going queued)
          (record c.receiver { reading = false });
  }

  -- What can happen to a receiver until it runs: the pending step ends, well or not, or another
  -- plugin calls.
  pub data Step (read : AbiReader) (c d : Connection w) : Type 0 where
    resolves : (failed : Bool) → c.stage ≡ resolving → d ≡ resolved failed c → Step read c d
    connects : (failed : Bool) → c.stage ≡ connecting → d ≡ connected failed c → Step read c d
    handshakes : (failed : Bool) → c.stage ≡ handshaking → d ≡ handshaken failed c → Step read c d
    reads_abi :
        (failed : Bool) (bin : Bytes) (queued : ℕ)
        → c.stage ≡ reading_abi
        → d ≡ first_read read failed bin queued c
        → Step read c d
    asks :
        (req : InteractiveRequest)
        → d ≡ record c { receiver = (on_block_req w req c.receiver).1 }
        → Step read c d
    acks : (n : ℕ) → d ≡ record c { receiver = (ack_block n c.receiver).1 } → Step read c d
    slows : (pause : Bool) → d ≡ record c { receiver = slowdown pause c.receiver } → Step read c d
    stale :
        (failed : Bool)
        → c.stage ≡ reading_abi
        → d ≡ record c { receiver = callback {0} failed (modify check_stale_head) c.receiver }
        → Step read c d
    aborts : d ≡ record c { receiver = abort_receiver c.receiver } → Step read c d

  pub data Reach (read : AbiReader) (c : Connection w) : Connection w → Type 0 where
    here : Reach read c c
    next : {d e : Connection w} → Reach read c d → Step read d e → Reach read c e
