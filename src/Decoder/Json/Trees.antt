-- ===== src/Decoder/Json/Trees.antt =====
-- JSON values as trees, and which trees are the JSON form of a native value.
use eos_chronicle.Base.{
  ℕ, ◌+◌, ◌<◌, ◌≡◌, ◌⊎◌, String, Option, none, some, List, [], ◌∷◌, ◌++◌, if◌then◌else◌, str_eq,
  length,
}
use eos_chronicle.Store.Rows.{Bytes}
use eos_chronicle.Messages.Events.{fork_reason_to_string}
use eos_chronicle.Receiver.State.{World}
use eos_chronicle.Decoder.Writer.{Token, codes, to_string, signed_to_string}
use eos_chronicle.Decoder.Json.{
  Printers, Coded, Native, Natives, Fields, text, optional_text, unsigned, signed, boolean,
  fork_reason, checksum256, status, name, input_stream, block_timestamp, time_point, public_key,
  signature, vector, nullopt, optional, pair, object, coded, first_alternative, action_trace,
  nothing, element, no_more, field, coded_field, coded_bytes, coded_account, type_of,
  optional_string,
}

-- `embedded` is a piece of JSON that is written as it is.
mutual
  pub data Json : Type 0 where
    null : Json
    string embedded : Bytes → Json
    array : Items → Json
    members : Members → Json

  pub data Items : Type 0 where
    no_items : Items
    item : Json → Items → Items

  pub data Members : Type 0 where
    no_members : Members
    member : Bytes → Json → Members → Members

-- The calls of the writer that write a tree.
unfoldable mutual
  pub tokens : Json → List Token
  tokens null = Token.null ∷ []
  tokens (string b) = Token.string b ∷ []
  tokens (embedded b) = Token.raw_value b ∷ []
  tokens (array xs) = Token.start_array ∷ (item_tokens xs ++ Token.end_array ∷ [])
  tokens (members ms) = Token.start_object ∷ (member_tokens ms ++ Token.end_object ∷ [])

  pub item_tokens : Items → List Token
  item_tokens no_items = []
  item_tokens (item j xs) = tokens j ++ item_tokens xs

  pub member_tokens : Members → List Token
  member_tokens no_members = []
  member_tokens (member k j ms) = Token.key k ∷ (tokens j ++ member_tokens ms)

-- The variants in a value have an alternative that the program knows.
unfoldable mutual
  pub Known : Native → Type 0
  Known (vector vs) = AllKnown vs
  Known (optional v) = Known v
  Known (pair v u) = Known v × Known u
  Known (object fs) = FieldsKnown fs
  Known (coded c fs) = FieldsKnown fs
  Known (first_alternative index v) = (index ≡ 0) × Known v
  Known (action_trace index v) = (index < 2) × Known v
  Known _ = Unit

  pub AllKnown : Natives → Type 0
  AllKnown nothing = Unit
  AllKnown (element v vs) = Known v × AllKnown vs

  pub FieldsKnown : Fields → Type 0
  FieldsKnown no_more = Unit
  FieldsKnown (field k v fs) = Known v × FieldsKnown fs

-- `Q` says of a contract what holds of a context that decodes for it.
module _ (w : World) (print : Printers w.decoder.Context)
    (Q : ℕ → Option w.decoder.Context → Type 0) where
  abbrev pub Plainly : Bytes → Json → ℕ → Type 0
  Plainly b j n = (j ≡ string b) × (n ≡ 0)

  abbrev decodes : Coded → Option w.decoder.Context → Option Bytes
  decodes c ctxt = print.bin_to_json ctxt (coded_account c) (type_of w print ctxt c) (coded_bytes c)

  -- What a context decodes, or the bytes where that context does not decode them.
  abbrev pub ShowsCoded : Coded → Json → ℕ → Type 0
  ShowsCoded c j n =
      (ctxt : Option w.decoder.Context) × Q (coded_account c) ctxt
      × (((js : Bytes) × (decodes c ctxt ≡ some js) × (j ≡ embedded js) × (n ≡ 0))
          ⊎ ((decodes c ctxt ≡ none) × (j ≡ string (print.to_hex (coded_bytes c))) × (n ≡ 1)))

  -- The field that the ABI encodes, or another.
  abbrev pub ShowsField : Option Coded → String → Type 0 → Json → ℕ → Type 0
  ShowsField none k plain j n = plain
  ShowsField (some c) k plain j n = if str_eq (coded_field c) k then ShowsCoded c j n else plain

  -- The tree is the JSON form of the value, in which `n` fields that an ABI should have decoded are
  -- their bytes in hexadecimal.
  unfoldable mutual
    pub Shows : Native → Json → ℕ → Type 0
    Shows (text b) j n = Plainly b j n
    Shows (optional_text b) j n = Plainly (optional_string w print b) j n
    Shows (unsigned v) j n = Plainly (to_string v) j n
    Shows (signed v) j n = Plainly (signed_to_string v) j n
    Shows (boolean b) j n = Plainly (codes (if b then "true" else "false")) j n
    Shows (fork_reason x) j n = Plainly (codes (fork_reason_to_string x)) j n
    Shows (checksum256 x) j n = Plainly (print.to_hex (print.checksum_bytes x)) j n
    Shows (status x) j n = Plainly (print.status_to_string x) j n
    Shows (name x) j n = Plainly (print.name_to_string x) j n
    Shows (input_stream x) j n = Plainly (print.to_hex x) j n
    Shows (block_timestamp x) j n =
        Plainly (print.microseconds_to_str (print.timestamp_microseconds x)) j n
    Shows (time_point x) j n = Plainly (print.microseconds_to_str x) j n
    Shows (public_key x) j n = Plainly (print.public_key_to_string x) j n
    Shows (signature x) j n = Plainly (print.signature_to_string x) j n
    Shows (vector vs) j n = (xs : Items) × (j ≡ array xs) × ShowsAll vs xs n
    Shows nullopt j n = (j ≡ null) × (n ≡ 0)
    Shows (optional v) j n = Shows v j n
    Shows (pair v u) j n =
        (x : Json) × (y : Json) × (a : ℕ) × (b : ℕ) × (j ≡ array (item x (item y no_items)))
        × (n ≡ a + b)
        × Shows v x a
        × Shows u y b
    Shows (object fs) j n = (ms : Members) × (j ≡ members ms) × ShowsFields none fs ms n
    Shows (coded c fs) j n = (ms : Members) × (j ≡ members ms) × ShowsFields (some c) fs ms n
    Shows (first_alternative index v) j n = Shows v j n
    Shows (action_trace index v) j n = Shows v j n

    pub ShowsAll : Natives → Items → ℕ → Type 0
    ShowsAll nothing xs n = (xs ≡ no_items) × (n ≡ 0)
    ShowsAll (element v vs) xs n =
        (j : Json) × (rest : Items) × (a : ℕ) × (b : ℕ) × (xs ≡ item j rest)
        × (n ≡ a + b)
        × Shows v j a
        × ShowsAll vs rest b

    pub ShowsFields : Option Coded → Fields → Members → ℕ → Type 0
    ShowsFields c no_more ms n = (ms ≡ no_members) × (n ≡ 0)
    ShowsFields c (field k v fs) ms n =
        (j : Json) × (rest : Members) × (a : ℕ) × (b : ℕ) × (ms ≡ member (codes k) j rest)
        × (n ≡ a + b)
        × ShowsField c k (Shows v j a) j a
        × ShowsFields c fs rest b

-- The errors that are collected grow by `n`, if they are collected.
abbrev pub Grew : Option (List Bytes) → Option (List Bytes) → ℕ → Type 0
Grew none after n = after ≡ none
Grew (some es) after n = (more : List Bytes) × (after ≡ some (es ++ more)) × (length more ≡ n)
