-- ===== src/Pipeline/Exported.antt =====
-- One event: export, and the messages that the exporter queues for it.
use mathlib.Core.List.{append-nil, append_assoc}
use eos_chronicle.Base.{
  ℕ, ◌≡◌, refl, sym, ap, ◌∙◌, Bool, true, false, Option, none, some, List, [], ◌∷◌, ◌++◌, map,
  if◌then◌else◌, String,
}
use eos_chronicle.Base.Exec.{Exec, ok, pure}
use eos_chronicle.Store.Rows.{Bytes}
use eos_chronicle.Messages.Events.{
  Event, forks, block_started, blocks, block_table_deltas, transaction_traces, abi_updates,
  abi_removals, abi_errors, table_row_updates, permission_updates, permission_link_updates,
  account_metadata_updates, receiver_pauses, block_completed,
}
use eos_chronicle.Receiver.State.{World}
use eos_chronicle.Decoder.Writer.{codes}
use eos_chronicle.Decoder.Json.{Native}
use eos_chronicle.Decoder.Json.Trees.{Json, tokens, Known, Shows}
use eos_chronicle.Decoder.Json.Written.{Anything}
use eos_chronicle.Decoder.Handlers.{JsChannel, Decoder, Library, trace_attrs, row_attrs}
use eos_chronicle.Decoder.Handlers.Published.{
  Reports, Publishes, publish_value-Publishes, publish_reporting-Publishes,
}
use eos_chronicle.Decoder.Subscriptions.{start, deliver}
use eos_chronicle.ExpWs.Queue.{Exporter, push_msg}
use eos_chronicle.ExpWs.Message.{bin_message, json_message}
use eos_chronicle.ExpWs.Channels.{msgtype, msgtype_name, on_js_event, on_js_events, has_subscribers}
use eos_chronicle.Pipeline.{export, described}

-- The message for an event of the decoder.
abbrev pub message_of : Bool → JsChannel × Bytes → Bytes
message_of use_bin_headers (channel, event) =
    if use_bin_headers
    then bin_message (msgtype channel) 0 event
    else json_message (codes (msgtype_name channel)) event

queued :
    (b : Bool) (e : JsChannel × Bytes) (x : Exporter)
    → (on_js_event b e x).async_queue ≡ x.async_queue ++ message_of b e ∷ []
unfolding on_js_event push_msg bin_message json_message
queued true (channel, event) x = refl
queued false (channel, event) x = refl

all_queued :
    (b : Bool) (es : List (JsChannel × Bytes)) (x : Exporter)
    → (on_js_events b es x).async_queue ≡ x.async_queue ++ map (message_of b) es
unfolding on_js_events
all_queued b [] x = sym (append-nil x.async_queue)
all_queued b (e ∷ es) x =
    all_queued b es (on_js_event b e x)
    ∙ ap (λ q. q ++ map (message_of b) es) (queued b e x)
    ∙ append_assoc x.async_queue (message_of b e ∷ []) (map (message_of b) es)

module _ (w : World) (lib : Library w) where
  -- The exporter gets the JSON form of the value and then what is reported of it.
  abbrev pub Exports :
      Bool
      → Event
      → Decoder w
      → Exporter
      → Option (JsChannel × Native × Option (List (String × Bytes)))
      → Type 0
  Exports b e d x none =
      let (result, t, y) = export w lib b e d x in
      (result ≡ ok tt) × (y.async_queue ≡ x.async_queue)
  Exports b e d x (some (channel, v, attrs)) =
      let (result, t, y) = export w lib b e d x in
      (j : Json) × (n : ℕ) × (reports : List (JsChannel × Bytes)) × (result ≡ ok tt)
      × (y.async_queue
          ≡ x.async_queue
            ++ message_of b (channel, lib.get_string (tokens j)) ∷ map (message_of b) reports)
      × Shows w lib.print (Anything w lib.print) v j n
      × Reports w lib attrs n reports

  abbrev pub KnownValue : Option (JsChannel × Native × Option (List (String × Bytes))) → Type 0
  KnownValue none = Unit
  KnownValue (some (channel, v, attrs)) = Known v

  exports :
      (m : Exec (Decoder w) (Unit {0})) (b : Bool) (e : Event) (d : Decoder w) (x : Exporter)
      (channel : JsChannel) (v : Native) (attrs : Option (List (String × Bytes)))
      → (deliver w lib (start has_subscribers) e (record d { published = [] })
          ≡ m (record d { published = [] }))
      → Publishes w lib m channel v attrs
      → Exports b e d x (some (channel, v, attrs))
  unfolding export
  exports m b e d x channel v attrs same publishes =
      let (j, n, t, reports, run, published, shows, reported) =
        publishes (record d { published = [] }) in
      let all =
        all_queued b
          (deliver w lib (start has_subscribers) e (record d { published = [] })).1.published x in
      (
        j,
        n,
        reports,
        ap (λ o. o.0) (same ∙ run),
        all
            ∙ ap (λ z. x.async_queue ++ map (message_of b) z)
                (ap (λ o. o.1.published) (same ∙ run) ∙ published),
        shows,
        reported,
      )

  -- When the exporter and then the decoder have subscribed, an event of the receiver with no unknown
  -- variant in it makes the exporter queue one message, of the type of the event's channel, with
  -- the JSON form of the event; after it comes one report of all fields of a trace or a row that an
  -- ABI should have decoded and did not, if there are any; table deltas make no message.
  pub export_lem :
      (b : Bool) (e : Event) (d : Decoder w) (x : Exporter)
      → KnownValue (described w lib e)
      → Exports b e d x (described w lib e)
  unfolding export pure
  export_lem b (block_table_deltas e) d x known = (refl, refl)
  export_lem b (transaction_traces e) d x known =
      exports _ b (transaction_traces e) d x _ _ (some (trace_attrs w lib e)) refl
        (publish_reporting-Publishes w lib _ _ _ known)
  export_lem b (table_row_updates e) d x known =
      exports _ b (table_row_updates e) d x _ _ (some (row_attrs w lib e)) refl
        (publish_reporting-Publishes w lib _ _ _ known)
  export_lem b (forks e) d x known =
      exports _ b (forks e) d x _ _ none refl (publish_value-Publishes w lib _ _ known)
  export_lem b (block_started e) d x known =
      exports _ b (block_started e) d x _ _ none refl (publish_value-Publishes w lib _ _ known)
  export_lem b (blocks e) d x known =
      exports _ b (blocks e) d x _ _ none refl (publish_value-Publishes w lib _ _ known)
  export_lem b (abi_updates e) d x known =
      exports _ b (abi_updates e) d x _ _ none refl (publish_value-Publishes w lib _ _ known)
  export_lem b (abi_removals e) d x known =
      exports _ b (abi_removals e) d x _ _ none refl (publish_value-Publishes w lib _ _ known)
  export_lem b (abi_errors e) d x known =
      exports _ b (abi_errors e) d x _ _ none refl (publish_value-Publishes w lib _ _ known)
  export_lem b (permission_updates e) d x known =
      exports _ b (permission_updates e) d x _ _ none refl (publish_value-Publishes w lib _ _ known)
  export_lem b (permission_link_updates e) d x known =
      exports _ b (permission_link_updates e) d x _ _ none refl
        (publish_value-Publishes w lib _ _ known)
  export_lem b (account_metadata_updates e) d x known =
      exports _ b (account_metadata_updates e) d x _ _ none refl
        (publish_value-Publishes w lib _ _ known)
  export_lem b (receiver_pauses e) d x known =
      exports _ b (receiver_pauses e) d x _ _ none refl (publish_value-Publishes w lib _ _ known)
  export_lem b (block_completed e) d x known =
      exports _ b (block_completed e) d x _ _ none refl (publish_value-Publishes w lib _ _ known)
