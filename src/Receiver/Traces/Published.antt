-- ===== src/Receiver/Traces/Published.antt =====
-- Which traces of a block are published, and in what order.
use mathlib.Core.List.{append-nil, append_assoc}
use eos_chronicle.Base.{
  ℕ, zero, suc, ◌≡◌, sym, ap, ◌∙◌, Bool, true, false, some, List, [], ◌∷◌, ◌++◌, map, if◌then◌else◌,
}
use eos_chronicle.Base.Exec.{Result, ok, err, lift, modify, ◌>>=◌}
use eos_chronicle.Store.Rows.{Bytes}
use eos_chronicle.Messages.Input.{Trace, Codec}
use eos_chronicle.Messages.Events.{Event}
use eos_chronicle.Receiver.State.{Config, Receiver}
use eos_chronicle.Receiver.Traces.{
  Matched, receive_trace, receive_traces_from, publish_trace, matched_of, passes,
}
use eos_chronicle.Receiver.Traces.Filters.{with_flags, verdict}

-- The traces that a message holds.
abbrev pub Reads : Codec → ℕ → Bytes → List Trace → Type 0
Reads codec zero bin [] = Unit {0}
Reads codec zero bin (t ∷ ts) = ⊥
Reads codec (suc n) bin [] = ⊥
Reads codec (suc n) bin (t ∷ ts) =
    (rest : Bytes) × (codec.trace_from_bin bin ≡ some (t, rest)) × Reads codec n rest ts

-- No trace makes the filters throw.
abbrev pub AllDecided : Config → List Trace → Type 0
AllDecided c [] = Unit {0}
AllDecided c (t ∷ ts) = ((answer : Bool) × (verdict c t ≡ ok answer)) × AllDecided c ts

abbrev pub is_exported : Result Bool → Bool
is_exported (ok answer) = answer
is_exported (err e) = false

abbrev pub exported : Config → List Trace → List Trace
exported c [] = []
exported c (t ∷ ts) =
    let rest = exported c ts in if is_exported (verdict c t) then t ∷ rest else rest

module _ {Db Context : Type 0} where
  abbrev pub trace_event : Receiver Db Context → Trace → Event
  trace_event r t =
      Event.transaction_traces
        (record { block_num = r.head; block_timestamp = r.block_header.timestamp; trace = t })

  abbrev pub published : List Trace → Receiver Db Context → Receiver Db Context
  published ts r = record r { events = r.events ++ map (trace_event r) ts }

  decided_lem :
      (t : Trace) (r : Receiver Db Context) (answer : Bool) (o : Result Matched)
      → with_flags r.config o ≡ ok answer
      → (lift o >>= λ m. modify (λ s. if passes s.config m then publish_trace t s else s)) r
        ≡ (ok tt, if answer then publish_trace t r else r)
  unfolding ◌>>=◌
  decided_lem t r answer (ok m) h =
      let e : passes r.config m ≡ answer = cc in
      ap (λ b. (ok tt, if b then publish_trace t r else r)) e
  decided_lem t r answer (err x) h = cc

  receive_trace_lem :
      (t : Trace) (r : Receiver Db Context) (answer : Bool)
      → verdict r.config t ≡ ok answer
      → receive_trace t r ≡ (ok tt, if answer then publish_trace t r else r)
  unfolding receive_trace
  receive_trace_lem t r answer h = decided_lem t r answer (matched_of r.config t) h

  -- One event after the other is the list of them.
  published-cons :
      (t : Trace) (ts : List Trace) (r : Receiver Db Context)
      → published ts (publish_trace t r) ≡ published (t ∷ ts) r
  published-cons t ts r =
      ap (λ es. record r { events = es })
        (append_assoc r.events (trace_event r t ∷ []) (map (trace_event r) ts))

  -- If the message holds the traces `ts` and the filters decide about each, the receiver publishes
  -- exactly those that they export, in their order, and changes nothing else.
  pub receive_traces_from_lem :
      (codec : Codec) (n : ℕ) (bin : Bytes) (ts : List Trace) (r : Receiver Db Context)
      → Reads codec n bin ts
      → AllDecided r.config ts
      → receive_traces_from codec n bin r ≡ (ok tt, published (exported r.config ts) r)
  unfolding receive_traces_from
  receive_traces_from_lem codec zero bin [] r h d =
      ap (λ es. (ok tt, record r { events = es })) (sym (append-nil r.events))
  receive_traces_from_lem codec zero bin (t ∷ ts) r h d = absurd h
  receive_traces_from_lem codec (suc n) bin [] r h d = absurd h
  receive_traces_from_lem codec (suc n) bin (t ∷ ts) r h d =
      let (rest, read, more) = h in
      let ((answer, v), ds) = d in
      rw (read, receive_trace_lem t r answer v, v)
        (go answer rest (λ s k. receive_traces_from_lem codec n rest ts s more k) ds)
    where
      go :
          (answer : Bool) (rest : Bytes)
          → ((s : Receiver Db Context)
              → AllDecided s.config ts
              → receive_traces_from codec n rest s ≡ (ok tt, published (exported s.config ts) s))
          → AllDecided r.config ts
          → receive_traces_from codec n rest (if answer then publish_trace t r else r) ≡ (
            ok tt,
            published (if answer then t ∷ exported r.config ts else exported r.config ts) r,
          )
      go true rest next ds =
          next (publish_trace t r) ds
          ∙ ap (λ s. (ok tt, s)) (published-cons t (exported r.config ts) r)
      go false rest next ds = next r ds
