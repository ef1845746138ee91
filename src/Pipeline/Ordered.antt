-- ===== src/Pipeline/Ordered.antt =====
-- Sequences of events: export_all, and the messages that the exporter queues for them.
use mathlib.Core.List.{append-nil, append_assoc}
use eos_chronicle.Base.{
  ℕ, ◌≡◌, refl, sym, ap, ◌∙◌, Bool, Option, none, some, List, [], ◌∷◌, ◌++◌, map, String,
}
use eos_chronicle.Base.Exec.{ok}
use eos_chronicle.Store.Rows.{Bytes}
use eos_chronicle.Messages.Events.{Event}
use eos_chronicle.Receiver.State.{World}
use eos_chronicle.Decoder.Json.{Native}
use eos_chronicle.Decoder.Json.Trees.{Json, tokens, Shows}
use eos_chronicle.Decoder.Json.Written.{Anything}
use eos_chronicle.Decoder.Handlers.{JsChannel, Decoder, Library}
use eos_chronicle.Decoder.Handlers.Published.{Reports}
use eos_chronicle.ExpWs.Queue.{Exporter}
use eos_chronicle.Pipeline.{export, export_all, described}
use eos_chronicle.Pipeline.Exported.{message_of, Exports, KnownValue, export_lem}

abbrev pub joined : List (List Bytes) → List Bytes
joined [] = []
joined (g ∷ gs) = g ++ joined gs

module _ (w : World) (lib : Library w) where
  -- The messages that an event makes: none, or the JSON form of the event and then what is reported.
  abbrev pub MessagesOf :
      Bool → Option (JsChannel × Native × Option (List (String × Bytes))) → List Bytes → Type 0
  MessagesOf b none g = g ≡ []
  MessagesOf b (some (channel, v, attrs)) g =
      (j : Json) × (n : ℕ) × (reports : List (JsChannel × Bytes)) × (g
        ≡ message_of b (channel, lib.get_string (tokens j)) ∷ map (message_of b) reports)
      × Shows w lib.print (Anything w lib.print) v j n
      × Reports w lib attrs n reports

  -- One group of messages for each event, in the same order.
  abbrev pub InOrder : Bool → List Event → List (List Bytes) → Type 0
  InOrder b [] [] = Unit
  InOrder b [] (g ∷ gs) = ⊥
  InOrder b (e ∷ es) [] = ⊥
  InOrder b (e ∷ es) (g ∷ gs) = MessagesOf b (described w lib e) g × InOrder b es gs

  abbrev pub AllKnown : List Event → Type 0
  AllKnown [] = Unit
  AllKnown (e ∷ es) = KnownValue w lib (described w lib e) × AllKnown es

  grouped :
      (b : Bool) (e : Event) (d : Decoder w) (x : Exporter)
      (o : Option (JsChannel × Native × Option (List (String × Bytes))))
      → Exports w lib b e d x o
      → (g : List Bytes) × (let (result, t, y) = export w lib b e d x in
          (result ≡ ok tt) × (y.async_queue ≡ x.async_queue ++ g) × MessagesOf b o g)
  grouped b e d x none (run, same) = ([], (run, same ∙ sym (append-nil x.async_queue), refl))
  grouped b e d x (some (channel, v, attrs)) (j, n, reports, run, queue, shows, reported) = (
    message_of b (channel, lib.get_string (tokens j)) ∷ map (message_of b) reports,
    (run, queue, (j, n, reports, refl, shows, reported)),
  )

  -- When the exporter and then the decoder have subscribed, a sequence of events of the receiver with
  -- no unknown variant in them is exported without an exception, and the exporter queues a group of
  -- messages for each event, in the order of the events, behind what it had queued. The group of table
  -- deltas is empty; that of another event is the message of its channel's type with the JSON form of
  -- the event, and one report of all fields of a trace or a row that an ABI should have decoded and did
  -- not, if there are any.
  pub export_all_lem :
      (b : Bool) (es : List Event) (d : Decoder w) (x : Exporter)
      → AllKnown es
      → (gs : List (List Bytes)) × (let (result, t, y) = export_all w lib b es d x in
          (result ≡ ok tt) × (y.async_queue ≡ x.async_queue ++ joined gs) × InOrder b es gs)
  unfolding export_all
  export_all_lem b [] d x known = ([], (refl, sym (append-nil x.async_queue), tt))
  export_all_lem b (e ∷ es) d x known =
      let (g, (run, queue, messages)) =
        grouped b e d x (described w lib e) (export_lem w lib b e d x known.0) in
      let t = (export w lib b e d x).1 in
      let y = (export w lib b e d x).2 in
      let (gs, (rest, later, order)) = export_all_lem b es t y known.1 in
      let step : export_all w lib b (e ∷ es) d x ≡ export_all w lib b es t y = rw run refl in
      (
        g ∷ gs,
        (
          ap (λ z. z.0) step ∙ rest,
          ap (λ z. z.2.async_queue) step
              ∙ later
              ∙ ap (λ q. q ++ joined gs) queue
              ∙ append_assoc x.async_queue g (joined gs),
          (messages, order),
        ),
      )
