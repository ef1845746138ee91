-- ===== src/Pipeline.antt =====
-- The way of an event from the receiver through decoder_plugin.cpp to exp_ws_plugin.cpp: both
-- plugins at work, with the subscriptions that init and start make. The queue of the application
-- that carries the events between them is left out: an event is handled to its end at once.
pub mod Exported
pub mod Ordered
use eos_chronicle.Base.{Bool, Option, none, some, List, [], ◌∷◌, String}
use eos_chronicle.Base.Exec.{Result, ok, err}
use eos_chronicle.Store.Rows.{Bytes}
use eos_chronicle.Messages.Events.{
  Event, forks, block_started, blocks, block_table_deltas, transaction_traces, abi_updates,
  abi_removals, abi_errors, table_row_updates, permission_updates, permission_link_updates,
  account_metadata_updates, receiver_pauses, block_completed,
}
use eos_chronicle.Receiver.State.{World}
use eos_chronicle.Decoder.Json.{Native}
use eos_chronicle.Decoder.Values.{
  fork_value, block_begins_value, block_value, transaction_trace_value, abi_update_value,
  abi_removal_value, abi_error_value, table_row_value, permission_value, permission_link_value,
  metadata_value, receiver_pause_value, block_finished_value,
}
use eos_chronicle.Decoder.Handlers.{
  JsChannel, js_forks, js_block_started, js_blocks, js_transaction_traces, js_abi_updates,
  js_abi_removals, js_abi_errors, js_table_row_updates, js_permission_updates,
  js_permission_link_updates, js_account_metadata_updates, js_receiver_pauses, js_block_completed,
  Decoder, Library, trace_attrs, row_attrs,
}
use eos_chronicle.Decoder.Subscriptions.{start, deliver}
use eos_chronicle.ExpWs.Queue.{Exporter}
use eos_chronicle.ExpWs.Channels.{has_subscribers, on_js_events}

module _ (w : World) (lib : Library w) where
  -- What the decoder publishes of the event goes to the exporter.
  unfoldable pub export :
      Bool → Event → Decoder w → Exporter → Result (Unit {0}) × Decoder w × Exporter
  unfolding start deliver on_js_events
  export use_bin_headers e d x =
      let (result, t) = deliver w lib (start has_subscribers) e (record d { published = [] }) in
      (result, t, on_js_events use_bin_headers t.published x)

  abbrev then_export :
      Result (Unit {0})
      → Result (Unit {0}) × Decoder w × Exporter
      → Decoder w
      → Exporter
      → Result (Unit {0}) × Decoder w × Exporter
  then_export (ok u) rest t y = rest
  then_export (err e) rest t y = (err e, t, y)

  -- Events one after the other, up to the first exception.
  unfoldable pub export_all :
      Bool → List Event → Decoder w → Exporter → Result (Unit {0}) × Decoder w × Exporter
  unfolding export
  export_all use_bin_headers [] d x = (ok tt, d, x)
  export_all use_bin_headers (e ∷ es) d x =
      let (result, t, y) = export use_bin_headers e d x in
      then_export result (export_all use_bin_headers es t y) t y

  -- The channel on which the decoder publishes an event, the value that it publishes there, and
  -- the attributes of a report of what it could not decode, where it makes one.
  abbrev pub described : Event → Option (JsChannel × Native × Option (List (String × Bytes)))
  described (forks e) = some (js_forks, fork_value e, none)
  described (block_started e) = some (js_block_started, block_begins_value e, none)
  described (blocks e) = some (js_blocks, block_value lib.reflection e, none)
  described (block_table_deltas e) = none
  described (transaction_traces e) =
      some (
        js_transaction_traces,
        transaction_trace_value lib.reflection e,
        some (trace_attrs w lib e),
      )
  described (abi_updates e) = some (js_abi_updates, abi_update_value lib.reflection e, none)
  described (abi_removals e) = some (js_abi_removals, abi_removal_value e, none)
  described (abi_errors e) = some (js_abi_errors, abi_error_value lib.reflection e, none)
  described (table_row_updates e) =
      some (js_table_row_updates, table_row_value lib.reflection e, some (row_attrs w lib e))
  described (permission_updates e) =
      some (js_permission_updates, permission_value lib.reflection e, none)
  described (permission_link_updates e) =
      some (js_permission_link_updates, permission_link_value lib.reflection e, none)
  described (account_metadata_updates e) =
      some (js_account_metadata_updates, metadata_value lib.reflection e, none)
  described (receiver_pauses e) = some (js_receiver_pauses, receiver_pause_value e, none)
  described (block_completed e) = some (js_block_completed, block_finished_value e, none)
