-- ===== src/Receiver/Traces/Filters.antt =====
-- When a trace passes the filters.
use eos_chronicle.Base.{
  ◌≡◌, refl, ap, Bool, true, false, not, ◌&&◌, ◌||◌, List, [], ◌∷◌, ◌++◌, arith, Bool-cases, inl,
  inr,
}
use eos_chronicle.Base.Exec.{Result, ok, err}
use eos_chronicle.Messages.Input.{ActionTrace, v0, v1, other, Trace}
use eos_chronicle.Receiver.State.{Config}
use eos_chronicle.Receiver.Traces.{
  Matched, is_blacklisted, is_received, is_authorized, match_actions, passes, matched_of,
}

abbrev pub with_flags : Config → Result Matched → Result Bool
with_flags c (ok m) = ok (passes c m)
with_flags c (err e) = err e

-- Whether a trace is exported, or the exception.
abbrev pub verdict : Config → Trace → Result Bool
verdict c t = with_flags c (matched_of c t)

-- Every action is of a known variant.
abbrev pub AllKnown : List ActionTrace → Type 0
AllKnown [] = Unit {0}
AllKnown (v0 receiver act ∷ rest) = AllKnown rest
AllKnown (v1 receiver act ∷ rest) = AllKnown rest
AllKnown (other index ∷ rest) = ⊥

abbrev pub blacklist_hits : Config → List ActionTrace → Bool
blacklist_hits c [] = false
blacklist_hits c (v0 receiver act ∷ rest) = is_blacklisted c act || blacklist_hits c rest
blacklist_hits c (v1 receiver act ∷ rest) = is_blacklisted c act || blacklist_hits c rest
blacklist_hits c (other index ∷ rest) = blacklist_hits c rest

abbrev pub filter_hits : Config → List ActionTrace → Bool
filter_hits c [] = false
filter_hits c (v0 receiver act ∷ rest) =
    is_received c receiver || is_authorized c act || filter_hits c rest
filter_hits c (v1 receiver act ∷ rest) =
    is_received c receiver || is_authorized c act || filter_hits c rest
filter_hits c (other index ∷ rest) = filter_hits c rest

-- plugin_initialize sets do_trace_filter so.
abbrev pub FilterFlag : Config → Type 0
FilterFlag c = c.do_trace_filter ≡ (c.enable_rcvr_filter || c.enable_auth_filter)

filtered :
    (c : Config) (acts : List ActionTrace)
    → AllKnown acts
    → c.do_trace_filter ≡ true
    → c.do_trace_blacklist ≡ false
    → with_flags c (match_actions c acts) ≡ ok (filter_hits c acts)
unfolding match_actions is_blacklisted is_received is_authorized
filtered c [] known on off = ground arith
filtered c (v0 receiver act ∷ rest) known on off = ground (arith, filtered c rest known on off)
filtered c (v1 receiver act ∷ rest) known on off = ground (arith, filtered c rest known on off)
filtered c (other index ∷ rest) known on off = absurd known

-- With filters and no blacklist, a trace whose actions are all of known variants is exported exactly when one of its actions was received
-- or authorized by a listed account.
pub filters_only :
    (c : Config) (t : Trace)
    → AllKnown t.action_traces
    → c.do_trace_filter ≡ true
    → c.do_trace_blacklist ≡ false
    → verdict c t ≡ ok (filter_hits c t.action_traces)
filters_only c t known on off = ground (arith, filtered c t.action_traces known on off)

unfiltered :
    (c : Config) (acts : List ActionTrace)
    → AllKnown acts
    → FilterFlag c
    → c.do_trace_filter ≡ false
    → with_flags c (match_actions c acts) ≡ ok (not (blacklist_hits c acts))
unfolding match_actions is_received is_authorized
unfiltered c [] known flag off = ground arith
unfiltered c (v0 receiver act ∷ rest) known flag off =
    ground (arith, unfiltered c rest known flag off)
unfiltered c (v1 receiver act ∷ rest) known flag off =
    ground (arith, unfiltered c rest known flag off)
unfiltered c (other index ∷ rest) known flag off = absurd known

-- With a blacklist and no filters, of the traces whose actions are all of known variants exactly those
-- with a blacklisted action are dropped.
pub blacklist_only :
    (c : Config) (t : Trace)
    → AllKnown t.action_traces
    → FilterFlag c
    → c.do_trace_filter ≡ false
    → c.do_trace_blacklist ≡ true
    → verdict c t ≡ ok (not (blacklist_hits c t.action_traces))
blacklist_only c t known flag off on = ground (arith, unfiltered c t.action_traces known flag off)

-- An action that a filter matches and the blacklist does not.
abbrev pub settles : Config → ActionTrace → Bool
settles c (v0 receiver act) =
    not (is_blacklisted c act) && (is_received c receiver || is_authorized c act)
settles c (v1 receiver act) =
    not (is_blacklisted c act) && (is_received c receiver || is_authorized c act)
settles c (other index) = false

settled :
    (c : Config) (before after : List ActionTrace) (a : ActionTrace)
    → AllKnown before
    → blacklist_hits c before ≡ false
    → settles c a ≡ true
    → c.do_trace_filter ≡ true
    → with_flags c (match_actions c (before ++ a ∷ after)) ≡ ok true
unfolding match_actions is_received is_authorized
settled c [] after (v0 receiver act) known clean match on = ground arith
settled c [] after (v1 receiver act) known clean match on = ground arith
settled c [] after (other index) known clean match on = cc
settled c (v0 receiver act ∷ rest) after a known clean match on =
    ground (arith, settled c rest after a known)
settled c (v1 receiver act ∷ rest) after a known clean match on =
    ground (arith, settled c rest after a known)
settled c (other index ∷ rest) after a known clean match on = absurd known

-- With filters, a trace is exported if one of its actions is matched by a filter and not by the
-- blacklist, and no action before that one is blacklisted, whatever actions follow: blacklisted
-- ones too.
pub first_match_decides :
    (c : Config) (t : Trace) (before after : List ActionTrace) (a : ActionTrace)
    → t.action_traces ≡ before ++ a ∷ after
    → AllKnown before
    → blacklist_hits c before ≡ false
    → settles c a ≡ true
    → c.do_trace_filter ≡ true
    → verdict c t ≡ ok true
first_match_decides c t before after a e known clean match on =
    simp on (rw e (settled c before after a known clean match on))

unsettled :
    (c : Config) (acts : List ActionTrace)
    → c.do_trace_filter ≡ true
    → with_flags c (match_actions c acts) ≡ ok true
    → (before : List ActionTrace) × (a : ActionTrace) × (after : List ActionTrace) × (acts
        ≡ before ++ a ∷ after)
      × (blacklist_hits c before ≡ false)
      × (settles c a ≡ true)
unfolding match_actions
unsettled c [] on h = absurd (ground arith)
unsettled c (v0 receiver act ∷ rest) on h = elim (Bool-cases (settles c (v0 receiver act))) [
  | inl yes_match ↦ ([], v0 receiver act, rest, refl, refl, yes_match)
  | inr no_match ↦
      let (before, a, after, e, clean, match) = unsettled c rest on (ground arith) in
      (v0 receiver act ∷ before, a, after, ap (◌∷◌ (v0 receiver act)) e, ground arith, match)
]
unsettled c (v1 receiver act ∷ rest) on h = elim (Bool-cases (settles c (v1 receiver act))) [
  | inl yes_match ↦ ([], v1 receiver act, rest, refl, refl, yes_match)
  | inr no_match ↦
      let (before, a, after, e, clean, match) = unsettled c rest on (ground arith) in
      (v1 receiver act ∷ before, a, after, ap (◌∷◌ (v1 receiver act)) e, ground arith, match)
]
unsettled c (other index ∷ rest) on h = cc

-- With filters, an exported trace has an action that a filter matches and the blacklist does not, and
-- no action before it is blacklisted.
pub exported_settles :
    (c : Config) (t : Trace)
    → c.do_trace_filter ≡ true
    → verdict c t ≡ ok true
    → (before : List ActionTrace) × (a : ActionTrace) × (after : List ActionTrace)
      × (t.action_traces ≡ before ++ a ∷ after)
      × (blacklist_hits c before ≡ false)
      × (settles c a ≡ true)
exported_settles c t on h = unsettled c t.action_traces on (simp on at h)
