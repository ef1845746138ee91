-- ===== src/Decoder/Json.antt =====
-- native_to_json of namespace json_encoder in decoder_plugin.cpp: the JSON form of the native types
-- of the state history protocol. The reflection of abieos (for_each_field) gives a struct's fields in
-- order; here they are a list of names and values.
pub mod Trees
pub mod Writes
pub mod Written
pub mod Abis
use eos_chronicle.Base.{
  ℕ, Bool, true, false, String, Option, none, some, List, [], ◌∷◌, ◌++◌, if◌then◌else◌, str_eq, ltb,
  ◌==◌,
}
use eos_chronicle.Base.Exec.{Exec, Error, pure, throw, modify, ◌>>=◌, ◌>>◌}
use eos_chronicle.Store.Rows.{Bytes}
use eos_chronicle.Messages.Events.{ForkReason, fork_reason_to_string}
use eos_chronicle.Receiver.State.{ReceiverOf, World}
use eos_chronicle.Receiver.Abi.{get_contract_abi_ready}
use eos_chronicle.Decoder.Writer.{Token, codes, to_string, ℤ, signed_to_string}

-- What abieos and fc print, which are not part of the repository. The functions that take the
-- decoder's context take a null one too.
pub record Printers (Context : Type 0) : Type 0 where
  pub name_to_string : ℕ → Bytes
  pub to_hex : Bytes → Bytes
  pub checksum_bytes : ℕ → Bytes
  pub status_to_string : ℕ → Bytes
  pub timestamp_microseconds : ℕ → ℕ
  pub microseconds_to_str : ℕ → Bytes
  pub public_key_to_string : Bytes → Bytes
  pub signature_to_string : Bytes → Bytes
  pub context_name : Option Context → ℕ → Bytes
  pub type_for_action : Option Context → ℕ → ℕ → Option Bytes
  pub type_for_table : Option Context → ℕ → ℕ → Option Bytes
  -- abieos_bin_to_json, and abieos_get_error after it gave a null pointer.
  pub bin_to_json : Option Context → ℕ → Bytes → Bytes → Option Bytes
  pub bin_to_json_error : Option Context → ℕ → Bytes → Bytes → Bytes

-- What is encoded by the ABI of a contract: the data of an action, with the account, the action's
-- name and the bytes; and the value of a table's row, with the code and the table.
pub data Coded : Type 0 where
  action_data row_value : ℕ → ℕ → Bytes → Coded

-- The native types, one constructor for each overload of native_to_json. The other integer types go
-- with their signedness, and what only passes its content on (varuint32, might_not_exist,
-- recurse_transaction_trace and a std::variant that std::visit opens) is its content.
mutual
  pub data Native : Type 0 where
    text : Bytes → Native
    optional_text : Option Bytes → Native
    unsigned : ℕ → Native
    signed : ℤ → Native
    boolean : Bool → Native
    fork_reason : ForkReason → Native
    checksum256 : ℕ → Native
    status : ℕ → Native
    name : ℕ → Native
    input_stream : Bytes → Native
    block_timestamp : ℕ → Native
    time_point : ℕ → Native
    public_key : Bytes → Native
    signature : Bytes → Native
    vector : Natives → Native
    nullopt : Native
    optional : Native → Native
    pair : Native → Native → Native
    object : Fields → Native
    -- A struct with one field that an ABI encodes: an action or a contract_row_v0.
    coded : Coded → Fields → Native
    -- A variant read by std::get of its first alternative, and an action_trace: the index first.
    first_alternative : ℕ → Native → Native
    action_trace : ℕ → Native → Native

  pub data Natives : Type 0 where
    nothing : Natives
    element : Native → Natives → Natives

  pub data Fields : Type 0 where
    no_more : Fields
    field : String → Native → Fields → Fields

-- native_to_json_state, with the receiver whose context decodes. `none`: no errors are collected.
pub record JsonState (w : World) : Type 0 where
  pub writer : List Token
  pub encoder_errors : Option (List Bytes)
  pub receiver : ReceiverOf w

-- The field that the ABI encodes.
abbrev pub coded_field : Coded → String
coded_field (action_data account act bin) = "data"
coded_field (row_value code table bin) = "value"

abbrev pub coded_bytes : Coded → Bytes
coded_bytes (action_data account act bin) = bin
coded_bytes (row_value code table bin) = bin

abbrev pub coded_account : Coded → ℕ
coded_account (action_data account act bin) = account
coded_account (row_value code table bin) = code

module _ (w : World) (print : Printers w.decoder.Context) where
  unfoldable pub put : Token → Exec (JsonState w) (Unit {0})
  put t = modify (λ (s : JsonState w). record s { writer = s.writer ++ t ∷ [] })

  abbrev pub put_string : Bytes → Exec (JsonState w) (Unit {0})
  put_string b = put (Token.string b)

  abbrev pub or_else : Option Bytes → Bytes → Bytes
  or_else none b = b
  or_else (some a) b = a

  -- The type that the ABI names, or else the name of the action or the table.
  abbrev pub type_of : Option w.decoder.Context → Coded → Bytes
  type_of ctxt (action_data account act bin) =
      or_else (print.type_for_action ctxt account act) (print.context_name ctxt act)
  type_of ctxt (row_value code table bin) =
      or_else (print.type_for_table ctxt code table) (print.context_name ctxt table)

  abbrev pub what_failed : Option w.decoder.Context → Coded → Bytes
  what_failed ctxt (action_data account act bin) =
      codes "Cannot decode action data for "
      ++ print.context_name ctxt account
      ++ codes ": "
      ++ print.context_name ctxt act
  what_failed ctxt (row_value code table bin) =
      codes "Cannot decode table row for "
      ++ print.context_name ctxt code
      ++ codes ": "
      ++ print.context_name ctxt table

  abbrev pub add_error : Bytes → Option (List Bytes) → Option (List Bytes)
  add_error e none = none
  add_error e (some es) = some (es ++ e ∷ [])

  -- The text of an error.
  abbrev pub failure : Option w.decoder.Context → Coded → Bytes
  failure ctxt c =
      what_failed ctxt c
      ++ codes " - "
      ++ print.bin_to_json_error ctxt (coded_account c) (type_of ctxt c) (coded_bytes c)

  -- The body of the try block and its catch block: the value as the ABI decodes it or, with an
  -- error, its bytes in hexadecimal.
  abbrev pub decoded :
      Option Bytes → Option w.decoder.Context → Coded → Exec (JsonState w) (Unit {0})
  decoded (some js) ctxt c = put (Token.raw_value js)
  decoded none ctxt c =
      modify (λ (s : JsonState w). record s {
        encoder_errors = add_error (failure ctxt c) s.encoder_errors;
      })
      >> put_string (print.to_hex (coded_bytes c))

  -- The context that get_contract_abi_ctxt gives decodes the field.
  unfoldable pub encode : Coded → Exec (JsonState w) (Unit {0})
  unfolding put get_contract_abi_ready ◌>>=◌
  encode c s =
      let r = (get_contract_abi_ready w (coded_account c) s.receiver).1 in
      let ctxt = r.contract_abi_ctxt in
      decoded (print.bin_to_json ctxt (coded_account c) (type_of ctxt c) (coded_bytes c)) ctxt c
        (record s { receiver = r })

  -- A field of a struct: its name, and its value unless the ABI encodes it.
  abbrev pub write_field :
      Option Coded → String → Exec (JsonState w) (Unit {0}) → Exec (JsonState w) (Unit {0})
  write_field none key plain = put (Token.key (codes key)) >> plain
  write_field (some c) key plain =
      put (Token.key (codes key)) >> (if str_eq (coded_field c) key then encode c else plain)

  abbrev pub optional_string : Option Bytes → Bytes
  optional_string none = []
  optional_string (some b) = b

  -- Every overload of native_to_json; a vector's elements and a struct's fields are loops.
  unfoldable mutual
    unfolding put encode ◌>>=◌ to_string signed_to_string fork_reason_to_string

    pub native_to_json : Native → Exec (JsonState w) (Unit {0})
    native_to_json (text str) = put_string str
    native_to_json (optional_text str) = put_string (optional_string str)
    native_to_json (unsigned v) = put_string (to_string v)
    native_to_json (signed v) = put_string (signed_to_string v)
    native_to_json (boolean obj) = put_string (codes (if obj then "true" else "false"))
    native_to_json (fork_reason obj) = put_string (codes (fork_reason_to_string obj))
    native_to_json (checksum256 obj) = put_string (print.to_hex (print.checksum_bytes obj))
    native_to_json (status obj) = put_string (print.status_to_string obj)
    native_to_json (name obj) = put_string (print.name_to_string obj)
    native_to_json (input_stream obj) = put_string (print.to_hex obj)
    native_to_json (block_timestamp obj) =
        put_string (print.microseconds_to_str (print.timestamp_microseconds obj))
    native_to_json (time_point obj) = put_string (print.microseconds_to_str obj)
    native_to_json (public_key obj) = put_string (print.public_key_to_string obj)
    native_to_json (signature obj) = put_string (print.signature_to_string obj)
    native_to_json (vector obj) =
        put Token.start_array >> elements_to_json obj >> put Token.end_array
    native_to_json nullopt = put Token.null
    native_to_json (optional obj) = native_to_json obj
    native_to_json (pair first second) =
        put Token.start_array
        >> native_to_json first
        >> native_to_json second
        >> put Token.end_array
    native_to_json (object obj) =
        put Token.start_object >> fields_to_json none obj >> put Token.end_object
    native_to_json (coded c obj) =
        put Token.start_object >> fields_to_json (some c) obj >> put Token.end_object
    native_to_json (first_alternative index obj) = elim (index == 0) [
      | true ↦ native_to_json obj
      | false ↦ throw Error.bad_variant
    ]
    native_to_json (action_trace index obj) = elim (ltb index 2) [
      | true ↦ native_to_json obj
      | false ↦ throw Error.invalid_action_trace
    ]

    pub elements_to_json : Natives → Exec (JsonState w) (Unit {0})
    elements_to_json nothing = pure tt
    elements_to_json (element v vs) = native_to_json v >> elements_to_json vs

    pub fields_to_json : Option Coded → Fields → Exec (JsonState w) (Unit {0})
    fields_to_json c no_more = pure tt
    fields_to_json c (field key v rest) =
        write_field c key (native_to_json v) >> fields_to_json c rest
