-- ===== src/Examples/Flow.antt =====
-- The acknowledgements, the pauses and the filters at concrete inputs.
use eos_chronicle.Base.{
  ℕ, ◌+◌, ◌-◌, ◌%◌, ◌≤◌, ◌<◌, ◌≡◌, refl, ◌⊎◌, true, false, some, List, [], ◌∷◌, ◌++◌, arith, sub32,
}
use eos_chronicle.Base.Exec.{ok}
use eos_chronicle.Messages.Input.{Action, ActionTrace, v0, v1, Trace}
use eos_chronicle.Receiver.State.{ReceiverOf}
use eos_chronicle.Receiver.Pause.{continue_read}
use eos_chronicle.Receiver.Pause.Flow.{continue_read_window, continue_read_goes_on}
use eos_chronicle.Receiver.Acks.AfterFork.{
  acknowledge_all, acknowledge_all-still_waiting, acknowledge_all-resumes,
}
use eos_chronicle.Receiver.Traces.{
  receive_traces_from, match_actions, is_blacklisted, is_received, is_authorized,
}
use eos_chronicle.Receiver.Traces.Filters.{
  verdict, filter_hits, blacklist_hits, settles, filters_only, first_match_decides,
  exported_settles,
}
use eos_chronicle.Receiver.Traces.Published.{exported, published, receive_traces_from_lem}
use eos_chronicle.Examples.World.{list_world, byte_codec, trace_of}
use eos_chronicle.Examples.State.{receiver_at_10, scan_config, filter_config}

-- A fork at block 10 waits for block 9.
abbrev forked_receiver : ReceiverOf list_world
forked_receiver = record receiver_at_10 { forked_at_block = 10; exporter_acked_block = 9 }

still_waiting_example :
    let s = acknowledge_all (12 ∷ 7 ∷ 11 ∷ []) forked_receiver in
    (s.forked_at_block ≡ 10) × (s.exporter_acked_block < 10) × (s.quit ≡ false)
still_waiting_example =
    acknowledge_all-still_waiting (12 ∷ 7 ∷ 11 ∷ []) forked_receiver (omega arith) (omega arith)
      refl

resumes_example :
    let s = acknowledge_all ((12 ∷ 7 ∷ []) ++ 9 ∷ []) forked_receiver in
    (s.forked_at_block ≡ 0) × (s.exporter_acked_block ≡ 9) × (s.quit ≡ false)
resumes_example = acknowledge_all-resumes (12 ∷ 7 ∷ []) forked_receiver (omega arith) refl

window_example :
    (receiver_at_10.head - receiver_at_10.exporter_acked_block
      < receiver_at_10.exporter_max_unconfirmed)
    × (receiver_at_10.forked_at_block ≡ 0)
    × (receiver_at_10.slowdown_requested ≡ false)
    × (3 ≤ receiver_at_10.config.max_queue_size)
unfolding continue_read
window_example =
    continue_read_window list_world 3 receiver_at_10 refl refl refl (omega arith) (omega arith)

-- A receiver that has to wait for the exporter.
abbrev slow_receiver : ReceiverOf list_world
slow_receiver = record receiver_at_10 { exporter_max_unconfirmed = 1; pause_time_msec = 50 }

goes_on_example :
    let s = continue_read list_world 3 slow_receiver in
    ((s.reading ≡ true) × (s.pause_time_msec ≡ 0))
    ⊎ ((s.quit ≡ true) × (slow_receiver.head ≡ sub32 4294967295 1) × (10 ≤ 8))
    ⊎ ((s.pause_timer ≡ some s.pause_time_msec)
        × (50 ≤ s.pause_time_msec)
        × (s.pause_time_msec ≤ 500)
        × (s.pause_time_msec % 50 ≡ 0)
        × ((slow_receiver.pause_time_msec ≡ 500) ⊎ (s.pause_time_msec ≡ 50 + 50)))
goes_on_example = continue_read_goes_on list_world 3 slow_receiver (omega arith) refl

abbrev act : ℕ → Action
act n = record { account = n; name = 1; authorization = [] }

-- An action that account 7 receives, then one of the blacklist.
abbrev mixed_trace : Trace
mixed_trace = record { action_traces = v0 7 (act 7) ∷ v1 5 (act 66) ∷ []; rest = [] }

filters_only_example :
    verdict (record filter_config { do_trace_blacklist = false }) mixed_trace
    ≡ ok (
        filter_hits (record filter_config { do_trace_blacklist = false }) mixed_trace.action_traces)
filters_only_example =
    filters_only (record filter_config { do_trace_blacklist = false }) mixed_trace tt refl refl

first_match_example : verdict filter_config mixed_trace ≡ ok true
unfolding is_blacklisted is_received
first_match_example =
    first_match_decides filter_config mixed_trace [] (v1 5 (act 66) ∷ []) (v0 7 (act 7)) refl tt
      refl refl refl

exports_mixed : verdict filter_config mixed_trace ≡ ok true
unfolding match_actions is_blacklisted is_received is_authorized
exports_mixed = refl

exported_settles_example :
    (before : List ActionTrace) × (a : ActionTrace) × (after : List ActionTrace)
    × (mixed_trace.action_traces ≡ before ++ a ∷ after)
    × (blacklist_hits filter_config before ≡ false)
    × (settles filter_config a ≡ true)
exported_settles_example = exported_settles filter_config mixed_trace refl exports_mixed

receive_traces_from_example :
    receive_traces_from byte_codec 2 (7 ∷ 66 ∷ []) receiver_at_10
    ≡ (ok tt, published (exported scan_config (trace_of 7 ∷ trace_of 66 ∷ [])) receiver_at_10)
unfolding match_actions is_blacklisted is_received is_authorized
receive_traces_from_example =
    receive_traces_from_lem byte_codec 2 (7 ∷ 66 ∷ []) (trace_of 7 ∷ trace_of 66 ∷ [])
      receiver_at_10 ((66 ∷ []), refl, ([], refl, tt)) (((true, refl), ((false, refl), tt)))
