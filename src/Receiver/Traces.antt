-- ===== src/Receiver/Traces.antt =====
-- receive_traces of receiver_plugin_impl: the transaction traces of a block, with the filters by
-- receiver and by authorizer and the blacklist of actions.
pub mod Filters
pub mod Published
use eos_chronicle.Base.{
  ℕ, zero, suc, ◌≡◌, Bool, true, false, not, ◌&&◌, ◌||◌, Option, none, some, List, [], ◌∷◌,
  if◌then◌else◌, contains, ◌==◌,
}
use eos_chronicle.Base.Exec.{
  Exec, Error, Result, ok, err, throw, pure, lift, gets, modify, ◌>>=◌, ◌>>◌,
}
use eos_chronicle.Store.Rows.{Bytes}
use eos_chronicle.Messages.Input.{Action, ActionTrace, v0, v1, other, Trace, parsed, Codec}
use eos_chronicle.Messages.Events.{Event}
use eos_chronicle.Receiver.State.{Config, Receiver, ReceiverOf, World, publish}

-- The local flags of the loop over the actions: at most one is set.
pub record Matched : Type 0 where
  pub blacklist : Bool
  pub rcvr_filter : Bool
  pub auth_filter : Bool

abbrev pub nothing_matched : Matched
nothing_matched = record { blacklist = false; rcvr_filter = false; auth_filter = false }

-- The set of actions that blacklist_actions keeps for a contract.
abbrev pub blacklisted_names : ℕ → List (ℕ × List ℕ) → List ℕ
blacklisted_names account [] = []
blacklisted_names account ((a, names) ∷ rest) =
    if a == account then names else blacklisted_names account rest

unfoldable pub is_blacklisted : Config → Action → Bool
is_blacklisted c act =
    c.do_trace_blacklist && contains act.name (blacklisted_names act.account c.blacklist_actions)

unfoldable pub is_received : Config → ℕ → Bool
is_received c receiver = c.enable_rcvr_filter && contains receiver c.rcvr_filter

abbrev pub any_in : List ℕ → List ℕ → Bool
any_in names [] = false
any_in names (a ∷ rest) = contains a names || any_in names rest

unfoldable pub is_authorized : Config → Action → Bool
is_authorized c act = c.enable_auth_filter && any_in c.auth_filter act.authorization

-- One action: a match ends the loop.
abbrev pub match_action : Config → ℕ → Action → Result Matched → Result Matched
match_action c receiver act rest =
    if is_blacklisted c act
    then ok (record nothing_matched { blacklist = true })
    else if is_received c receiver
    then ok (record nothing_matched { rcvr_filter = true })
    else if is_authorized c act
    then ok (record nothing_matched { auth_filter = true })
    else rest

-- The loop over the actions of a trace.
unfoldable pub match_actions : Config → List ActionTrace → Result Matched
match_actions c [] = ok nothing_matched
match_actions c (v0 receiver act ∷ rest) = match_action c receiver act (match_actions c rest)
match_actions c (v1 receiver act ∷ rest) = match_action c receiver act (match_actions c rest)
match_actions c (other index ∷ rest) = err Error.invalid_action_trace

abbrev pub passes : Config → Matched → Bool
passes c m =
    not m.blacklist
    && (not c.do_trace_filter
        || c.enable_rcvr_filter && m.rcvr_filter
        || c.enable_auth_filter && m.auth_filter)

abbrev pub matched_of : Config → Trace → Result Matched
matched_of c t =
    if c.do_trace_filter || c.do_trace_blacklist
    then match_actions c t.action_traces
    else ok nothing_matched

module _ {Db Context : Type 0} where
  abbrev pub publish_trace : Trace → Receiver Db Context → Receiver Db Context
  publish_trace t r =
      publish
        (Event.transaction_traces
          (record { block_num = r.head; block_timestamp = r.block_header.timestamp; trace = t }))
        r

  -- The body of the loop over the traces, after the trace was read.
  unfoldable pub receive_trace : Trace → Exec (Receiver Db Context) (Unit {0})
  unfolding match_actions ◌>>=◌
  receive_trace t r =
      (lift (matched_of r.config t) >>= λ m.
      modify (λ s. if passes s.config m then publish_trace t s else s))
        r

  -- `num` traces are read, one after the other.
  unfoldable pub receive_traces_from : Codec → ℕ → Bytes → Exec (Receiver Db Context) (Unit {0})
  unfolding ◌>>=◌
  receive_traces_from codec zero bin = pure tt
  receive_traces_from codec (suc num) bin = lift (parsed (codec.trace_from_bin bin)) >>= λ read.
      receive_trace read.0 >>= λ u. receive_traces_from codec num read.1

  unfoldable pub receive_traces : Codec → Bytes → Exec (Receiver Db Context) (Unit {0})
  unfolding receive_traces_from receive_trace
  receive_traces codec bin r =
      if r.subscribers.transaction_traces
      then (lift (parsed (codec.varuint32_from_bin bin)) >>= λ read.
            receive_traces_from codec read.0 read.1)
          r
      else (ok tt, r)
