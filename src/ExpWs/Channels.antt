-- ===== src/ExpWs/Channels.antt =====
-- init of exp_ws_plugin_impl: the exporter takes the decoder's events of every channel, and the
-- types of its messages from chronicle_msgtypes.h.
use eos_chronicle.Base.{
  ℕ, ◌≡◌, ◌<◌, ◌==◌, refl, Bool, true, String, arith, if◌then◌else◌, List, [], ◌∷◌,
}
use eos_chronicle.Store.Rows.{Bytes}
use eos_chronicle.Decoder.Writer.{codes}
use eos_chronicle.Decoder.Handlers.{
  JsChannel, js_forks, js_block_started, js_blocks, js_transaction_traces, js_abi_updates,
  js_abi_removals, js_abi_errors, js_table_row_updates, js_permission_updates,
  js_permission_link_updates, js_account_metadata_updates, js_abi_decoder_errors,
  js_receiver_pauses, js_block_completed,
}
use eos_chronicle.ExpWs.Queue.{Exporter}
use eos_chronicle.ExpWs.Message.{on_event_bin, on_event_json}

-- CHRONICLE_MSGTYPE_FORK and so on.
unfoldable pub msgtype : JsChannel → ℕ
msgtype js_forks = 1001
msgtype js_blocks = 1002
msgtype js_transaction_traces = 1003
msgtype js_abi_updates = 1004
msgtype js_abi_removals = 1005
msgtype js_abi_errors = 1006
msgtype js_table_row_updates = 1007
msgtype js_abi_decoder_errors = 1008
msgtype js_receiver_pauses = 1009
msgtype js_block_completed = 1010
msgtype js_permission_updates = 1011
msgtype js_permission_link_updates = 1012
msgtype js_account_metadata_updates = 1013
msgtype js_block_started = 1014

unfoldable pub msgtype_name : JsChannel → String
msgtype_name js_forks = "FORK"
msgtype_name js_block_started = "BLOCK_STARTED"
msgtype_name js_blocks = "BLOCK"
msgtype_name js_transaction_traces = "TX_TRACE"
msgtype_name js_abi_updates = "ABI_UPD"
msgtype_name js_abi_removals = "ABI_REM"
msgtype_name js_abi_errors = "ABI_ERR"
msgtype_name js_table_row_updates = "TBL_ROW"
msgtype_name js_permission_updates = "PERMISSION"
msgtype_name js_permission_link_updates = "PERMISSION_LINK"
msgtype_name js_account_metadata_updates = "ACC_METADATA"
msgtype_name js_receiver_pauses = "RCVR_PAUSE"
msgtype_name js_block_completed = "BLOCK_COMPLETED"
msgtype_name js_abi_decoder_errors = "ENCODER_ERR"

-- The exporter subscribes to each channel.
abbrev pub has_subscribers : JsChannel → Bool
has_subscribers channel = true

-- What the subscription of a channel does, by exp-ws-bin-header.
unfoldable pub on_js_event : Bool → JsChannel × Bytes → Exporter → Exporter
unfolding on_event_bin on_event_json msgtype msgtype_name
on_js_event use_bin_headers (channel, event) x =
    if use_bin_headers
    then on_event_bin (msgtype channel) 0 event x
    else on_event_json (codes (msgtype_name channel)) event x

-- The events of the decoder, one after the other.
unfoldable pub on_js_events : Bool → List (JsChannel × Bytes) → Exporter → Exporter
unfolding on_js_event
on_js_events use_bin_headers [] x = x
on_js_events use_bin_headers (e ∷ es) x =
    on_js_events use_bin_headers es (on_js_event use_bin_headers e x)

-- The channel that a consumer reads out of a message's type.
abbrev pub channel_of : ℕ → JsChannel
channel_of n =
    if n == 1001
    then js_forks
    else if n == 1002
    then js_blocks
    else if n == 1003
    then js_transaction_traces
    else if n == 1004
    then js_abi_updates
    else if n == 1005
    then js_abi_removals
    else if n == 1006
    then js_abi_errors
    else if n == 1007
    then js_table_row_updates
    else if n == 1008
    then js_abi_decoder_errors
    else if n == 1009
    then js_receiver_pauses
    else if n == 1010
    then js_block_completed
    else if n == 1011
    then js_permission_updates
    else if n == 1012
    then js_permission_link_updates
    else if n == 1013
    then js_account_metadata_updates
    else js_block_started

pub channel_of-msgtype : (c : JsChannel) → channel_of (msgtype c) ≡ c
unfolding msgtype
channel_of-msgtype js_forks = refl
channel_of-msgtype _ = refl

pub msgtype-lt : (c : JsChannel) → msgtype c < 4294967296
unfolding msgtype
msgtype-lt js_forks = omega arith
msgtype-lt _ = omega arith
