-- ===== src/Decoder/Subscriptions.antt =====
-- start of decoder_plugin_impl: the decoder takes the events of a channel of the receiver if
-- somebody takes its own events of the channel that goes with it.
use eos_chronicle.Base.{Bool, if◌then◌else◌}
use eos_chronicle.Base.Exec.{Exec, pure}
use eos_chronicle.Messages.Events.{
  Event, forks, block_started, blocks, block_table_deltas, transaction_traces, abi_updates,
  abi_removals, abi_errors, table_row_updates, permission_updates, permission_link_updates,
  account_metadata_updates, receiver_pauses, block_completed,
}
use eos_chronicle.Receiver.State.{World}
use eos_chronicle.Decoder.Handlers.{
  JsChannel, js_forks, js_block_started, js_blocks, js_transaction_traces, js_abi_updates,
  js_abi_removals, js_abi_errors, js_table_row_updates, js_permission_updates,
  js_permission_link_updates, js_account_metadata_updates, js_receiver_pauses, js_block_completed,
  Decoder, Library, on_fork, on_block_started, on_block, on_transaction_trace, on_abi_update,
  on_abi_removal, on_abi_error, on_table_row_update, on_permission_update,
  on_permission_link_update, on_account_metadata_update, on_receiver_pause, on_block_completed,
}

-- The receiver's channels that the decoder subscribed to: one handle for each.
pub record Subscriptions : Type 0 where
  pub forks : Bool
  pub block_started : Bool
  pub blocks : Bool
  pub transaction_traces : Bool
  pub abi_updates : Bool
  pub abi_removals : Bool
  pub abi_errors : Bool
  pub table_row_updates : Bool
  pub permission_updates : Bool
  pub permission_link_updates : Bool
  pub account_metadata_updates : Bool
  pub receiver_pauses : Bool
  pub block_completed : Bool

-- `has_subscribers` of the channels of decoder_plugin.hpp.
unfoldable pub start : (JsChannel → Bool) → Subscriptions
start has_subscribers = record {
  forks = has_subscribers js_forks;
  block_started = has_subscribers js_block_started;
  blocks = has_subscribers js_blocks;
  transaction_traces = has_subscribers js_transaction_traces;
  abi_updates = has_subscribers js_abi_updates;
  abi_removals = has_subscribers js_abi_removals;
  abi_errors = has_subscribers js_abi_errors;
  table_row_updates = has_subscribers js_table_row_updates;
  permission_updates = has_subscribers js_permission_updates;
  permission_link_updates = has_subscribers js_permission_link_updates;
  account_metadata_updates = has_subscribers js_account_metadata_updates;
  receiver_pauses = has_subscribers js_receiver_pauses;
  block_completed = has_subscribers js_block_completed;
}

module _ (w : World) (lib : Library w) where
  abbrev when : Bool → Exec (Decoder w) (Unit {0}) → Exec (Decoder w) (Unit {0})
  when subscribed handler = if subscribed then handler else pure tt

  -- An event of the receiver reaches its handler. The decoder has none for table deltas.
  unfoldable pub deliver : Subscriptions → Event → Exec (Decoder w) (Unit {0})
  deliver s (forks e) = when s.forks (on_fork w lib e)
  deliver s (block_started e) = when s.block_started (on_block_started w lib e)
  deliver s (blocks e) = when s.blocks (on_block w lib e)
  deliver s (block_table_deltas e) = pure tt
  deliver s (transaction_traces e) = when s.transaction_traces (on_transaction_trace w lib e)
  deliver s (abi_updates e) = when s.abi_updates (on_abi_update w lib e)
  deliver s (abi_removals e) = when s.abi_removals (on_abi_removal w lib e)
  deliver s (abi_errors e) = when s.abi_errors (on_abi_error w lib e)
  deliver s (table_row_updates e) = when s.table_row_updates (on_table_row_update w lib e)
  deliver s (permission_updates e) = when s.permission_updates (on_permission_update w lib e)
  deliver s (permission_link_updates e) =
      when s.permission_link_updates (on_permission_link_update w lib e)
  deliver s (account_metadata_updates e) =
      when s.account_metadata_updates (on_account_metadata_update w lib e)
  deliver s (receiver_pauses e) = when s.receiver_pauses (on_receiver_pause w lib e)
  deliver s (block_completed e) = when s.block_completed (on_block_completed w lib e)
