-- ===== src/Decoder/Handlers.antt =====
-- The handlers of decoder_plugin_impl: each publishes the JSON form of an event of the receiver on
-- the channel of decoder_plugin.hpp that goes with it; traces and rows also report what could not
-- be decoded. An exception leaves a handler before it publishes.
pub mod Published
use eos_chronicle.Base.{ℕ, ◌%◌, String, Option, none, some, List, [], ◌∷◌, ◌++◌, if◌then◌else◌}
use eos_chronicle.Base.Exec.{Exec, Result, ok, err, ◌>>=◌, ◌>>◌, pure, modify}
use eos_chronicle.Store.Rows.{Bytes}
use eos_chronicle.Messages.Events.{
  ForkEvent, BlockBegins, Block, TransactionTrace, AbiUpdate, AbiRemoval, AbiError, TableRowUpdate,
  PermissionUpdate, MetadataUpdate, ReceiverPause, BlockFinished,
}
use eos_chronicle.Receiver.State.{ReceiverOf, World}
use eos_chronicle.Decoder.Writer.{Token, codes, c_str, to_string}
use eos_chronicle.Decoder.Json.{Printers, Native, JsonState, native_to_json}
use eos_chronicle.Decoder.Values.{
  Reflection, fork_value, block_begins_value, block_value, transaction_trace_value,
  abi_update_value, abi_removal_value, abi_error_value, table_row_value, permission_value,
  permission_link_value, metadata_value, receiver_pause_value, block_finished_value,
}

-- The channels of decoder_plugin.hpp.
pub data JsChannel : Type 0 where
  js_forks js_block_started js_blocks js_transaction_traces js_abi_updates : JsChannel
  js_abi_removals js_abi_errors js_table_row_updates js_permission_updates : JsChannel
  js_permission_link_updates js_account_metadata_updates js_abi_decoder_errors : JsChannel
  js_receiver_pauses js_block_completed : JsChannel

pub record Decoder (w : World) : Type 0 where
  pub receiver : ReceiverOf w
  -- What was published, oldest first.
  pub published : List (JsChannel × Bytes)

-- The libraries of the decoder; `get_string` is what the buffer holds after these calls of the
-- writer.
pub record Library (w : World) : Type 0 where
  pub print : Printers w.decoder.Context
  pub reflection : Reflection
  pub get_string : List Token → Bytes

-- The attributes of a report, as the std::map is walked: by their names.
abbrev pub attrs_tokens : List (String × Bytes) → List Token
attrs_tokens [] = []
attrs_tokens ((k, v) ∷ rest) =
    Token.key (c_str (codes k)) ∷ Token.string (c_str v) ∷ attrs_tokens rest

abbrev pub errors_tokens : List Bytes → List Token
errors_tokens [] = []
errors_tokens (e ∷ es) = Token.string (c_str e) ∷ errors_tokens es

abbrev pub report_tokens : List (String × Bytes) → List Bytes → List Token
report_tokens attrs errors =
    Token.start_object
    ∷ (attrs_tokens attrs
        ++ Token.key (codes "errors")
          ∷ Token.start_array
          ∷ (errors_tokens errors ++ Token.end_array ∷ Token.end_object ∷ []))

abbrev errors_of : Option (List Bytes) → List Bytes
errors_of none = []
errors_of (some es) = es

module _ (w : World) (lib : Library w) where
  unfoldable pub publish_js : JsChannel → Bytes → Exec (Decoder w) (Unit {0})
  publish_js channel output =
      modify (λ (d : Decoder w). record d { published = d.published ++ (channel, output) ∷ [] })

  abbrev written : Result (Unit {0}) × JsonState w → Exec (Decoder w) (Bytes × List Bytes)
  written (ok u, t) d =
      (ok (lib.get_string t.writer, errors_of t.encoder_errors), record d { receiver = t.receiver })
  written (err e, t) d = (err e, record d { receiver = t.receiver })

  -- The writer starts anew. The output, and the errors that were collected.
  unfoldable pub impl_native_to_json :
      Native → Option (List Bytes) → Exec (Decoder w) (Bytes × List Bytes)
  unfolding native_to_json
  impl_native_to_json v encoder_errors d =
      written
        (native_to_json w lib.print v
          (record { writer = []; encoder_errors = encoder_errors; receiver = d.receiver }))
        d

  unfoldable pub report_encoder_errors :
      List Bytes → List (String × Bytes) → Exec (Decoder w) (Unit {0})
  unfolding publish_js
  report_encoder_errors encoder_errors attrs =
      publish_js js_abi_decoder_errors (lib.get_string (report_tokens attrs encoder_errors))

  abbrev report_if_any : List Bytes → List (String × Bytes) → Exec (Decoder w) (Unit {0})
  report_if_any [] attrs = pure tt
  report_if_any (e ∷ es) attrs = report_encoder_errors (e ∷ es) attrs

  -- What every handler does.
  unfoldable pub publish_value : JsChannel → Native → Exec (Decoder w) (Unit {0})
  unfolding impl_native_to_json publish_js ◌>>=◌
  publish_value channel v = impl_native_to_json v none >>= λ output. publish_js channel output.0

  -- A handler that collects errors and reports them.
  unfoldable pub publish_reporting :
      JsChannel → Native → List (String × Bytes) → Exec (Decoder w) (Unit {0})
  unfolding impl_native_to_json publish_js report_encoder_errors ◌>>=◌
  publish_reporting channel v attrs = impl_native_to_json v (some []) >>= λ output.
      publish_js channel output.0 >> report_if_any output.1 attrs

  abbrev pub timestamp_text : ℕ → Bytes
  timestamp_text t = lib.print.microseconds_to_str (lib.print.timestamp_microseconds t)

  abbrev pub trace_attrs : TransactionTrace → List (String × Bytes)
  trace_attrs e =
      ("block_num", to_string e.block_num)
      ∷ ("block_timestamp", timestamp_text e.block_timestamp)
      ∷ ("trx_id", lib.print.to_hex (lib.reflection.trx_id e.trace))
      ∷ ("where", codes "transaction_trace")
      ∷ []

  -- The primary key is assigned to a string as a number, which makes it one character.
  abbrev pub row_attrs : TableRowUpdate → List (String × Bytes)
  row_attrs e =
      ("added", codes (if e.added then "true" else "false"))
      ∷ ("block_num", to_string e.block_num)
      ∷ ("block_timestamp", timestamp_text e.block_timestamp)
      ∷ ("code", lib.print.name_to_string e.kvo.code)
      ∷ ("primary_key", e.kvo.primary_key % 256 ∷ [])
      ∷ ("scope", lib.print.name_to_string e.kvo.scope)
      ∷ ("table", lib.print.name_to_string e.kvo.table)
      ∷ ("where", codes "table_row_update")
      ∷ []

  abbrev pub on_fork : ForkEvent → Exec (Decoder w) (Unit {0})
  on_fork fe = publish_value js_forks (fork_value fe)

  abbrev pub on_block_started : BlockBegins → Exec (Decoder w) (Unit {0})
  on_block_started bb = publish_value js_block_started (block_begins_value bb)

  abbrev pub on_block : Block → Exec (Decoder w) (Unit {0})
  on_block b = publish_value js_blocks (block_value lib.reflection b)

  abbrev pub on_transaction_trace : TransactionTrace → Exec (Decoder w) (Unit {0})
  on_transaction_trace tr =
      publish_reporting js_transaction_traces (transaction_trace_value lib.reflection tr)
        (trace_attrs tr)

  abbrev pub on_abi_update : AbiUpdate → Exec (Decoder w) (Unit {0})
  on_abi_update u = publish_value js_abi_updates (abi_update_value lib.reflection u)

  abbrev pub on_abi_removal : AbiRemoval → Exec (Decoder w) (Unit {0})
  on_abi_removal ar = publish_value js_abi_removals (abi_removal_value ar)

  abbrev pub on_abi_error : AbiError → Exec (Decoder w) (Unit {0})
  on_abi_error e = publish_value js_abi_errors (abi_error_value lib.reflection e)

  abbrev pub on_table_row_update : TableRowUpdate → Exec (Decoder w) (Unit {0})
  on_table_row_update u =
      publish_reporting js_table_row_updates (table_row_value lib.reflection u) (row_attrs u)

  abbrev pub on_permission_update : PermissionUpdate → Exec (Decoder w) (Unit {0})
  on_permission_update u = publish_value js_permission_updates (permission_value lib.reflection u)

  abbrev pub on_permission_link_update : PermissionUpdate → Exec (Decoder w) (Unit {0})
  on_permission_link_update u =
      publish_value js_permission_link_updates (permission_link_value lib.reflection u)

  abbrev pub on_account_metadata_update : MetadataUpdate → Exec (Decoder w) (Unit {0})
  on_account_metadata_update u =
      publish_value js_account_metadata_updates (metadata_value lib.reflection u)

  abbrev pub on_receiver_pause : ReceiverPause → Exec (Decoder w) (Unit {0})
  on_receiver_pause rp = publish_value js_receiver_pauses (receiver_pause_value rp)

  abbrev pub on_block_completed : BlockFinished → Exec (Decoder w) (Unit {0})
  on_block_completed bf = publish_value js_block_completed (block_finished_value bf)
