-- ===== src/Examples/Decoding.antt =====
-- The decoder and its way to the exporter at concrete inputs.
use eos_chronicle.Base.{ℕ, ◌≡◌, refl, arith, true, none, some, List, [], ◌∷◌, ◌++◌, Option}
use eos_chronicle.Base.Exec.{ok}
use eos_chronicle.Store.Rows.{Bytes}
use eos_chronicle.Store.Keyed.{find_row}
use eos_chronicle.Messages.Events.{Event, network}
use eos_chronicle.Receiver.Abi.Saving.{CacheInv}
use eos_chronicle.Decoder.Writer.{Token, codes}
use eos_chronicle.Decoder.Json.{
  Printers, Native, action_data, name, input_stream, coded, field, no_more, JsonState,
  native_to_json,
}
use eos_chronicle.Decoder.Json.Trees.{Json, tokens, Known, Shows, Grew}
use eos_chronicle.Decoder.Json.Written.{Anything, native_to_json_lem}
use eos_chronicle.Decoder.Json.Abis.{HoldsAbi, native_to_json-HoldsAbi}
use eos_chronicle.Decoder.Values.{Reflection}
use eos_chronicle.Decoder.Handlers.{Decoder, Library}
use eos_chronicle.Pipeline.{export_all}
use eos_chronicle.Pipeline.Ordered.{joined, InOrder, export_all_lem}
use eos_chronicle.Examples.World.{list_world, list_laws, list_decoder-DecoderLaws, lookup}
use eos_chronicle.Examples.State.{receiver_at_10}
use eos_chronicle.Examples.Exporting.{busy_exporter}

-- An ABI decodes everything as an empty object, and a name is one byte.
abbrev as_object : Option Bytes → Option Bytes
as_object none = none
as_object (some abi) = some (codes "{}")

abbrev decode : Option (List (ℕ × Bytes)) → ℕ → Option Bytes
decode none account = none
decode (some c) account = as_object (lookup c account)

abbrev simple_print : Printers (List (ℕ × Bytes))
simple_print = record {
  name_to_string = λ n. n ∷ [];
  to_hex = λ b. b;
  checksum_bytes = λ n. n ∷ [];
  status_to_string = λ n. n ∷ [];
  timestamp_microseconds = λ n. n;
  microseconds_to_str = λ n. n ∷ [];
  public_key_to_string = λ b. b;
  signature_to_string = λ b. b;
  context_name = λ c n. n ∷ [];
  type_for_action = λ c account act. none;
  type_for_table = λ c code table. none;
  bin_to_json = λ c account t bin. decode c account;
  bin_to_json_error = λ c account t bin. codes "no ABI";
}

-- An action of contract 7, which has an ABI.
abbrev action_value : Native
action_value =
    coded (action_data 7 1 (5 ∷ []))
      (field "account" (name 7) (field "data" (input_stream (5 ∷ [])) no_more))

action_value-Known : Known action_value
unfolding Known
action_value-Known = (tt, (tt, tt))

abbrev new_state : JsonState list_world
new_state = record { writer = []; encoder_errors = some []; receiver = receiver_at_10 }

native_to_json_example :
    (j : Json) × (n : ℕ) × (t : JsonState list_world) × (native_to_json list_world simple_print
        action_value new_state
      ≡ (ok tt, t))
    × Shows list_world simple_print (Anything list_world simple_print) action_value j n
    × (t.writer ≡ [] ++ tokens j)
    × Grew (some []) t.encoder_errors n
native_to_json_example =
    native_to_json_lem list_world simple_print action_value new_state action_value-Known

-- Nothing is loaded yet, and the only ABI of the table is valid.
new_state-CacheInv : CacheInv list_world list_laws receiver_at_10
unfolding find_row list_decoder-DecoderLaws
new_state-CacheInv = record { ready = refl; current = λ a h. cc; valid = λ a x h. ground arith }

HoldsAbi-example :
    (j : Json) × (n : ℕ) × (t : JsonState list_world) × (native_to_json list_world simple_print
        action_value new_state
      ≡ (ok tt, t))
    × Shows list_world simple_print
        (HoldsAbi list_world list_laws simple_print receiver_at_10)
        action_value
        j
        n
    × (t.writer ≡ [] ++ tokens j)
    × (t.receiver.db ≡ receiver_at_10.db)
    × CacheInv list_world list_laws t.receiver
HoldsAbi-example =
    native_to_json-HoldsAbi list_world list_laws simple_print action_value new_state
      action_value-Known refl new_state-CacheInv

-- Nothing of the reflection is used by a fork.
abbrev no_reflection : Reflection
no_reflection = record {
  signed_block = λ x. Native.nullopt;
  table_delta = λ x. Native.nullopt;
  trace_index = λ x. 0;
  transaction_trace_v0 = λ x. Native.nullopt;
  abi_def = λ x. Native.nullopt;
  permission = λ x. Native.nullopt;
  permission_link = λ x. Native.nullopt;
  account_metadata = λ x. Native.nullopt;
  contract_row = λ x. no_more;
  trx_id = λ x. [];
  error_text = λ x. [];
}

-- The buffer is one byte for each call of the writer.
abbrev one_byte_each : List Token → Bytes
one_byte_each [] = []
one_byte_each (t ∷ ts) = 32 ∷ one_byte_each ts

abbrev simple_library : Library list_world
simple_library = record {
  print = simple_print;
  reflection = no_reflection;
  get_string = one_byte_each;
}

abbrev new_decoder : Decoder list_world
new_decoder = record { receiver = receiver_at_10; published = [] }

abbrev fork_at_9 : Event
fork_at_9 =
    Event.forks (record { block_num = 9; depth = 1; fork_reason = network; last_irreversible = 8 })

abbrev pause_at_10 : Event
pause_at_10 = Event.receiver_pauses (record { head = 10; acknowledged = 9 })

export_example :
    (gs : List (List Bytes)) × (let (result, t, y) =
        export_all list_world simple_library true
          (fork_at_9 ∷ pause_at_10 ∷ [])
          new_decoder
          busy_exporter in
      (result ≡ ok tt)
      × (y.async_queue ≡ busy_exporter.async_queue ++ joined gs)
      × InOrder list_world simple_library true (fork_at_9 ∷ pause_at_10 ∷ []) gs)
unfolding Known
export_example =
    export_all_lem list_world simple_library true (fork_at_9 ∷ pause_at_10 ∷ []) new_decoder
      busy_exporter ((tt, (tt, (tt, (tt, tt)))), ((tt, (tt, tt)), tt))
