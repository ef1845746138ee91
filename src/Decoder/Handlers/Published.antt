-- ===== src/Decoder/Handlers/Published.antt =====
-- What the handlers publish.
use eos_chronicle.Base.{
  ℕ, ◌%◌, ◌<◌, ◌≡◌, ◌⊎◌, inl, inr, refl, sym, ap, ◌∙◌, String, Option, none, some, List, [], ◌∷◌,
  ◌++◌, length, arith,
}
use mathlib.Core.List.{append_assoc}
use eos_chronicle.Base.Exec.{Exec, ok}
use eos_chronicle.Store.Rows.{Bytes}
use eos_chronicle.Messages.Events.{TableRowUpdate}
use eos_chronicle.Receiver.State.{World}
use eos_chronicle.Decoder.Json.{Native, JsonState, native_to_json}
use eos_chronicle.Decoder.Json.Trees.{Json, tokens, Known, Shows}
use eos_chronicle.Decoder.Json.Written.{Anything, native_to_json_lem}
use eos_chronicle.Decoder.Handlers.{
  JsChannel, js_abi_decoder_errors, Decoder, Library, report_tokens, row_attrs, publish_value,
  publish_reporting,
}

module _ (w : World) (lib : Library w) where
  -- The reports of `n` errors: one with all of them, if errors are reported and there are any.
  abbrev pub Reports : Option (List (String × Bytes)) → ℕ → List (JsChannel × Bytes) → Type 0
  Reports none n reports = reports ≡ []
  Reports (some attrs) n reports =
      ((n ≡ 0) × (reports ≡ []))
      ⊎ ((0 < n)
          × ((errors : List Bytes) × (length errors ≡ n)
              × (reports
                  ≡ (js_abi_decoder_errors, lib.get_string (report_tokens attrs errors)) ∷ [])))

  -- `m` publishes the JSON form of the value on the channel, and then what is to be reported.
  abbrev pub Publishes :
      Exec (Decoder w) (Unit {0}) → JsChannel → Native → Option (List (String × Bytes)) → Type 0
  Publishes m channel v attrs =
      (d : Decoder w)
      → (j : Json) × (n : ℕ) × (t : Decoder w) × (reports : List (JsChannel × Bytes)) × (m d
          ≡ (ok tt, t))
        × (t.published ≡ d.published ++ (channel, lib.get_string (tokens j)) ∷ reports)
        × Shows w lib.print (Anything w lib.print) v j n
        × Reports attrs n reports

  pub publish_value-Publishes :
      (channel : JsChannel) (v : Native)
      → Known v
      → Publishes (publish_value w lib channel v) channel v none
  unfolding publish_value
  publish_value-Publishes channel v known d =
      let (j, n, t, run, shows, wrote, grew) =
        native_to_json_lem w lib.print v
          (record { writer = []; encoder_errors = none; receiver = d.receiver }) known in
      (
        j,
        n,
        record {
          receiver = t.receiver;
          published = d.published ++ (channel, lib.get_string t.writer) ∷ [];
        },
        [],
        rw run refl,
        ap (λ z. d.published ++ (channel, lib.get_string z) ∷ []) wrote,
        shows,
        refl,
      )

  reporting :
      (channel : JsChannel) (v : Native) (attrs : List (String × Bytes)) (d : Decoder w) (j : Json)
      (n : ℕ) (t : JsonState w) (es : List Bytes)
      → native_to_json w lib.print v
          (record { writer = []; encoder_errors = some []; receiver = d.receiver })
        ≡ (ok tt, t)
      → t.writer ≡ tokens j
      → t.encoder_errors ≡ some es
      → length es ≡ n
      → (u : Decoder w) × (reports : List (JsChannel × Bytes)) × (publish_reporting w lib channel v
            attrs d
          ≡ (ok tt, u))
        × (u.published ≡ d.published ++ (channel, lib.get_string (tokens j)) ∷ reports)
        × Reports (some attrs) n reports
  unfolding publish_reporting
  reporting channel v attrs d j n t [] run wrote errors count = (
    record {
      receiver = t.receiver;
      published = d.published ++ (channel, lib.get_string t.writer) ∷ [];
    },
    [],
    rw run (rw errors refl),
    ap (λ z. d.published ++ (channel, lib.get_string z) ∷ []) wrote,
    inl (sym count, refl),
  )
  reporting channel v attrs d j n t (e ∷ es) run wrote errors count =
      let report : JsChannel × Bytes =
        (js_abi_decoder_errors, lib.get_string (report_tokens attrs (e ∷ es))) in
      (
        record {
          receiver = t.receiver;
          published = (d.published ++ (channel, lib.get_string t.writer) ∷ []) ++ report ∷ [];
        },
        report ∷ [],
        rw run (rw errors refl),
        append_assoc d.published ((channel, lib.get_string t.writer) ∷ []) (report ∷ [])
            ∙ ap (λ z. d.published ++ (channel, lib.get_string z) ∷ report ∷ []) wrote,
        inr (omega (arith, count), (e ∷ es, count, refl)),
      )

  pub publish_reporting-Publishes :
      (channel : JsChannel) (v : Native) (attrs : List (String × Bytes))
      → Known v
      → Publishes (publish_reporting w lib channel v attrs) channel v (some attrs)
  unfolding publish_reporting
  publish_reporting-Publishes channel v attrs known d =
      let (j, n, t, run, shows, wrote, (more, errors, count)) =
        native_to_json_lem w lib.print v
          (record { writer = []; encoder_errors = some []; receiver = d.receiver }) known in
      let (u, reports, ran, published, reported) =
        reporting channel v attrs d j n t more run wrote errors count in
      (j, n, u, reports, ran, published, shows, reported)

  -- Rows whose primary keys differ by a multiple of 256 and agree else are reported alike.
  row_attrs-primary_key :
      (e : TableRowUpdate) (k : ℕ)
      → k % 256 ≡ e.kvo.primary_key % 256
      → row_attrs w lib (record e { kvo = record e.kvo { primary_key = k } }) ≡ row_attrs w lib e
  row_attrs-primary_key e k same = rw same refl
