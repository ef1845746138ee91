-- ===== src/Decoder/Json/Written.antt =====
-- What native_to_json writes.
use mathlib.Core.List.{append-nil}
use eos_chronicle.Base.{
  ℕ, ◌+◌, ◌≡◌, refl, sym, ap, ◌∙◌, subst, Bool, true, false, String, Option, none, some, List, [],
  ◌∷◌, ◌++◌, if◌then◌else◌, str_eq, arith, ltb, ◌==◌,
}
use eos_chronicle.Base.Exec.{Exec, Error, ok, throw, ◌>>=◌, ◌>>◌}
use eos_chronicle.Messages.Events.{fork_reason_to_string}
use eos_chronicle.Receiver.State.{World, ReceiverOf}
use eos_chronicle.Receiver.Abi.{get_contract_abi_ready}
use eos_chronicle.Decoder.Writer.{Token, codes, to_string, signed_to_string}
use eos_chronicle.Decoder.Json.{
  Printers, Coded, Native, Natives, Fields, text, optional_text, unsigned, signed, boolean,
  fork_reason, checksum256, status, name, input_stream, block_timestamp, time_point, public_key,
  signature, vector, nullopt, optional, pair, object, coded, first_alternative, action_trace,
  nothing, element, no_more, field, coded_field, JsonState, optional_string, put, encode,
  write_field, native_to_json, elements_to_json, fields_to_json,
}
use eos_chronicle.Decoder.Json.Trees.{
  Json, Items, Members, null, array, members, no_items, item, no_members, member, tokens,
  item_tokens, member_tokens, Known, AllKnown, FieldsKnown, ShowsField, ShowsCoded, Shows, ShowsAll,
  ShowsFields, Grew,
}
use eos_chronicle.Decoder.Json.Writes.{
  Writes, Form, put-Writes, pure-Writes, then-Writes, good-Writes, wrapped-Writes, string-Writes,
  coded-Writes,
}

module _ (w : World) (print : Printers w.decoder.Context) (P : ReceiverOf w → Type 0)
    (Q : ℕ → Option w.decoder.Context → Type 0)
    (keep : (a : ℕ) (r : ReceiverOf w)
      → let t = (get_contract_abi_ready w a r).1 in P r → P t × Q a t.contract_abi_ctxt) where
  abbrev Runs : Exec (JsonState w) (Unit {0}) → (List Token → ℕ → Type 0) → Type 0
  Runs m Good = Writes w print P Q keep m Good

  abbrev Keyed : String → (Json → ℕ → Type 0) → List Token → ℕ → Type 0
  Keyed k A out n = (j : Json) × (out ≡ Token.key (codes k) ∷ tokens j) × A j n

  key-Writes :
      (k : String) (m : Exec (JsonState w) (Unit {0})) (A : Json → ℕ → Type 0)
      → Runs m (λ out n. (j : Json) × (out ≡ tokens j) × A j n)
      → Runs (put w print (Token.key (codes k)) >> m) (Keyed k A)
  key-Writes k m A f =
      good-Writes w print P Q keep (put w print (Token.key (codes k)) >> m) _ _
        (then-Writes w print P Q keep (put w print (Token.key (codes k))) m _ _
          (put-Writes w print P Q keep (Token.key (codes k))) f)
        λ out n (x, y, a, b, whole, count, (kx, za), last). (
          last.0,
          whole ∙ ap (λ z. z ++ y) kx ∙ ap (λ z. Token.key (codes k) ∷ z) last.1,
          subst (A last.0) (omega (arith, count, za)) last.2,
        )

  chosen-Writes :
      (t : Bool) (c : Coded) (m : Exec (JsonState w) (Unit {0})) (A : Json → ℕ → Type 0)
      → Runs m (λ out n. (j : Json) × (out ≡ tokens j) × A j n)
      → Runs (if t then encode w print c else m) (λ out n.
        (j : Json) × (out ≡ tokens j) × (if t then ShowsCoded w print Q c j n else A j n))
  chosen-Writes true c m A f = coded-Writes w print P Q keep c
  chosen-Writes false c m A f = f

  field-Writes :
      (c : Option Coded) (k : String) (m : Exec (JsonState w) (Unit {0})) (A : Json → ℕ → Type 0)
      → Runs m (λ out n. (j : Json) × (out ≡ tokens j) × A j n)
      → Runs (write_field w print c k m) (Keyed k (λ j n. ShowsField w print Q c k (A j n) j n))
  field-Writes none k m A f = key-Writes k m A f
  field-Writes (some c) k m A f =
      key-Writes k (if str_eq (coded_field c) k then encode w print c else m) _
        (chosen-Writes (str_eq (coded_field c) k) c m A f)

  pair-Writes :
      (m k : Exec (JsonState w) (Unit {0})) (A B : Json → ℕ → Type 0)
      → Runs m (λ out n. (j : Json) × (out ≡ tokens j) × A j n)
      → Runs k (λ out n. (j : Json) × (out ≡ tokens j) × B j n)
      → Runs (put w print Token.start_array >> m >> k >> put w print Token.end_array) (λ out n.
        (x : Json) × (y : Json) × (a : ℕ) × (b : ℕ) × (out
          ≡ tokens (array (item x (item y no_items))))
        × (n ≡ a + b)
        × A x a
        × B y b)
  unfolding put ◌>>=◌ tokens
  pair-Writes m k A B f g =
      wrapped-Writes w print P Q keep Token.start_array Token.end_array (m >> k) _ _
        (then-Writes w print P Q keep m k _ _ f g)
        λ out n (o, c, a, b, whole, count, first, second). (
          first.0,
          second.0,
          a,
          b,
          ap (λ z. Token.start_array ∷ (z ++ Token.end_array ∷ []))
              (whole
                ∙ ap (λ z. z ++ c) first.1
                ∙ ap (λ z. tokens first.0 ++ z) (second.1 ∙ sym (append-nil (tokens second.0)))),
          count,
          first.2,
          second.2,
        )

  alternative-Writes :
      (t : Bool) (m : Exec (JsonState w) (Unit {0})) (e : Error) (Good : List Token → ℕ → Type 0)
      → t ≡ true
      → Runs m Good
      → Runs (elim t [ true ↦ m | false ↦ throw e ]) Good
  alternative-Writes true m e Good h f = f
  alternative-Writes false m e Good h f = cc

  mutual
    unfolding native_to_json Known tokens Shows

    pub native-Writes :
        (v : Native) → Known v → Runs (native_to_json w print v) (Form w print P Q keep v)
    native-Writes (text b) h = string-Writes w print P Q keep b
    native-Writes (optional_text b) h = string-Writes w print P Q keep (optional_string w print b)
    native-Writes (unsigned v) h = string-Writes w print P Q keep (to_string v)
    native-Writes (signed v) h = string-Writes w print P Q keep (signed_to_string v)
    native-Writes (boolean b) h =
        string-Writes w print P Q keep (codes (if b then "true" else "false"))
    native-Writes (fork_reason x) h =
        string-Writes w print P Q keep (codes (fork_reason_to_string x))
    native-Writes (checksum256 x) h =
        string-Writes w print P Q keep (print.to_hex (print.checksum_bytes x))
    native-Writes (status x) h = string-Writes w print P Q keep (print.status_to_string x)
    native-Writes (name x) h = string-Writes w print P Q keep (print.name_to_string x)
    native-Writes (input_stream x) h = string-Writes w print P Q keep (print.to_hex x)
    native-Writes (block_timestamp x) h =
        string-Writes w print P Q keep (print.microseconds_to_str (print.timestamp_microseconds x))
    native-Writes (time_point x) h = string-Writes w print P Q keep (print.microseconds_to_str x)
    native-Writes (public_key x) h = string-Writes w print P Q keep (print.public_key_to_string x)
    native-Writes (signature x) h = string-Writes w print P Q keep (print.signature_to_string x)
    native-Writes nullopt h =
        good-Writes w print P Q keep (put w print Token.null) _ _
          (put-Writes w print P Q keep Token.null)
          λ out n (one, zero_errors). (null, one, (refl, zero_errors))
    native-Writes (vector vs) h =
        wrapped-Writes w print P Q keep Token.start_array Token.end_array
          (elements_to_json w print vs) _ _ (elements-Writes vs h)
          λ out n (xs, e, shows). (
            array xs,
            ap (λ z. Token.start_array ∷ (z ++ Token.end_array ∷ [])) e,
            (xs, refl, shows),
          )
    native-Writes (optional v) h = native-Writes v h
    native-Writes (pair v u) h =
        good-Writes w print P Q keep (native_to_json w print (pair v u)) _ _
          (pair-Writes (native_to_json w print v) (native_to_json w print u) (Shows w print Q v)
            (Shows w print Q u) (native-Writes v h.0) (native-Writes u h.1))
          λ out n (x, y, a, b, e, count, first, second).
            (array (item x (item y no_items)), e, (x, y, a, b, refl, count, first, second))
    native-Writes (object fs) h =
        wrapped-Writes w print P Q keep Token.start_object Token.end_object
          (fields_to_json w print none fs) _ _ (fields-Writes none fs h)
          λ out n (ms, e, shows). (
            members ms,
            ap (λ z. Token.start_object ∷ (z ++ Token.end_object ∷ [])) e,
            (ms, refl, shows),
          )
    native-Writes (coded c fs) h =
        wrapped-Writes w print P Q keep Token.start_object Token.end_object
          (fields_to_json w print (some c) fs) _ _ (fields-Writes (some c) fs h)
          λ out n (ms, e, shows). (
            members ms,
            ap (λ z. Token.start_object ∷ (z ++ Token.end_object ∷ [])) e,
            (ms, refl, shows),
          )
    native-Writes (first_alternative index v) h =
        alternative-Writes (index == 0) (native_to_json w print v) Error.bad_variant
          (Form w print P Q keep v) (ground arith) (native-Writes v h.1)
    native-Writes (action_trace index v) h =
        alternative-Writes (ltb index 2) (native_to_json w print v) Error.invalid_action_trace
          (Form w print P Q keep v) (ground arith) (native-Writes v h.1)

    elements-Writes :
        (vs : Natives)
        → AllKnown vs
        → Runs
            (elements_to_json w print vs)
            (λ out n. (xs : Items) × (out ≡ item_tokens xs) × ShowsAll w print Q vs xs n)
    elements-Writes nothing h =
        good-Writes w print P Q keep _ _ _ (pure-Writes w print P Q keep)
          λ out n (e, z). (no_items, e, (refl, z))
    elements-Writes (element v vs) h =
        good-Writes w print P Q keep (native_to_json w print v >> elements_to_json w print vs) _ _
          (then-Writes w print P Q keep (native_to_json w print v) (elements_to_json w print vs) _ _
            (native-Writes v h.0) (elements-Writes vs h.1))
          λ out n (o, c, a, b, whole, count, first, second). (
            item first.0 second.0,
            whole ∙ ap (λ z. z ++ c) first.1 ∙ ap (λ z. tokens first.0 ++ z) second.1,
            (first.0, second.0, a, b, refl, count, first.2, second.2),
          )

    fields-Writes :
        (c : Option Coded) (fs : Fields)
        → FieldsKnown fs
        → Runs
            (fields_to_json w print c fs)
            (λ out n. (ms : Members) × (out ≡ member_tokens ms) × ShowsFields w print Q c fs ms n)
    fields-Writes c no_more h =
        good-Writes w print P Q keep _ _ _ (pure-Writes w print P Q keep)
          λ out n (e, z). (no_members, e, (refl, z))
    fields-Writes c (field k v fs) h =
        good-Writes w print P Q keep
          (write_field w print c k (native_to_json w print v) >> fields_to_json w print c fs) _ _
          (then-Writes w print P Q keep (write_field w print c k (native_to_json w print v))
            (fields_to_json w print c fs) _ _
            (field-Writes c k (native_to_json w print v) (Shows w print Q v) (native-Writes v h.0))
            (fields-Writes c fs h.1))
          λ out n (o, c, a, b, whole, count, first, second). (
            member (codes k) first.0 second.0,
            whole
                ∙ ap (λ z. z ++ c) first.1
                ∙ ap (λ z. (Token.key (codes k) ∷ tokens first.0) ++ z) second.1,
            (first.0, second.0, a, b, refl, count, first.2, second.2),
          )

module _ (w : World) (print : Printers w.decoder.Context) where
  abbrev pub Anything : ℕ → Option w.decoder.Context → Type 0
  Anything a ctxt = Unit

  -- For a value whose variants the program knows, `native_to_json` returns. What it writes is one
  -- JSON value, the form of the native value, in which some fields that an ABI should have decoded
  -- are their bytes in hexadecimal; and where errors are collected there are as many new ones as
  -- such fields, after the old ones.
  pub native_to_json_lem :
      (v : Native) (s : JsonState w)
      → Known v
      → (j : Json) × (n : ℕ) × (t : JsonState w) × (native_to_json w print v s ≡ (ok tt, t))
        × Shows w print Anything v j n
        × (t.writer ≡ s.writer ++ tokens j)
        × Grew s.encoder_errors t.encoder_errors n
  native_to_json_lem v s known =
      let (out, n, t, run, (j, e, shows), wrote, grew, u) =
        native-Writes w print (λ r. Unit) Anything (λ a r h. (tt, tt)) v known s tt in
      (j, n, t, run, shows, wrote ∙ ap (λ z. s.writer ++ z) e, grew)
