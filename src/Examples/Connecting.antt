-- ===== src/Examples/Connecting.antt =====
-- The start of the receiver and of the exporter at concrete inputs.
use eos_chronicle.Base.{
  ◌≡◌, ◌<◌, ◌%◌, ◌⊎◌, refl, true, false, some, none, [], ◌∷◌, ◌==◌, ltb, leb, ◌++◌, arith,
  if◌then◌else◌,
}
use eos_chronicle.Base.Exec.{Error, ok, err}
use eos_chronicle.Messages.Input.{AbiType}
use eos_chronicle.Receiver.State.{ReceiverOf}
use eos_chronicle.Receiver.Types.{get_type}
use eos_chronicle.Receiver.Acks.{acknowledge}
use eos_chronicle.Receiver.Start.{load_state, undo_all}
use eos_chronicle.Receiver.Abi.{init_contract_abi_ctxt}
use eos_chronicle.Receiver.Connection.{
  AbiReader, running, start, resolved, connected, resolves, connects, here, next,
}
use eos_chronicle.Receiver.Connection.Ready.{IsWaiting, start-Reach}
use eos_chronicle.Receiver.Connection.Asked.{connect, wanted, connect-request_blocks}
use eos_chronicle.Receiver.Connection.Dependencies.{
  Launch, still_waiting, start_after_dependencies, calls, AllSeen, calls-AllSeen,
}
use eos_chronicle.Receiver.Interactive.{on_block_req}
use eos_chronicle.ExpWs.Options.{ExporterOptions, Plugins, initialize_exporter}
use eos_chronicle.ExpWs.Connection.{
  Session, acknowledgement, interactive_request, acks_read, interactive_reqs_read,
}
use eos_chronicle.ExpWs.Connection
use eos_chronicle.ExpWs.Connection.Acknowledged.{
  initialize_exporter-start, acks_read-decimal, interactive_reqs_read-range,
}
use eos_chronicle.ExpWs.Request.RoundTrip.{decimal}
use eos_chronicle.Examples.World.{list_world}
use eos_chronicle.Examples.State.{receiver_at_10}
use eos_chronicle.Examples.Options.{scan_options}
use eos_chronicle.Examples.Exporting.{busy_exporter}

-- A receiver that has not yet connected.
abbrev stopped_receiver : ReceiverOf list_world
stopped_receiver = record receiver_at_10 {
  receiver_ready = false;
  stream_open = false;
  exporter_will_ack = false;
}

abbrev any_abi : AbiReader
any_abi bin = ok []

-- The address is resolved, and the connection fails.
start-Reach_example :
    let d =
      connected list_world true (resolved list_world false (start list_world stopped_receiver).1) in
    ((d.receiver.receiver_ready ≡ true) ⊎ (d.receiver.requests ≡ []))
    × IsWaiting list_world d.stage d.receiver
unfolding start undo_all resolved
start-Reach_example =
    start-Reach list_world any_abi stopped_receiver (start list_world stopped_receiver).1
      (connected list_world true (resolved list_world false (start list_world stopped_receiver).1))
      refl refl refl (next (next here (resolves false refl refl)) (connects true refl refl))

-- The endpoint's ABI has the type of a request.
abbrev request_type : AbiType
request_type = record { name = "request"; alternatives = some [] }

abbrev request_abi : AbiReader
request_abi bin = ok (("request", request_type) ∷ [])

abbrev loaded : ReceiverOf list_world
loaded = (load_state list_world stopped_receiver).1

connect_example :
    let d = connect list_world request_abi (123 ∷ []) 0 (start list_world stopped_receiver).1 in
    (d.stage ≡ running)
    × (d.receiver.receiver_ready ≡ true)
    × (d.receiver.requests ≡ loaded.requests ++ wanted list_world loaded ∷ [])
    × (d.receiver.head ≡ loaded.head)
    × (d.receiver.reading ≡ true)
unfolding load_state undo_all init_contract_abi_ctxt get_type
connect_example =
    connect-request_blocks list_world request_abi stopped_receiver loaded (123 ∷ []) []
      (("request", request_type) ∷ []) request_type 0 refl refl refl refl refl refl
      ((refl, tt), (tt, tt)) refl

-- The receiver waits for two plugins, the second of which starts later.
abbrev two_plugins : Launch
two_plugins = record {
  dependent_plugins = (1, "decoder_plugin") ∷ (2, "exp_ws_plugin") ∷ [];
  pause_timer = none;
  launched = false;
}

calls_example : AllSeen ((λ n. n == 1) ∷ (λ n. n == 2) ∷ []) two_plugins.dependent_plugins
unfolding calls still_waiting start_after_dependencies
calls_example = calls-AllSeen ((λ n. n == 1) ∷ (λ n. n == 2) ∷ []) two_plugins refl refl

abbrev exporter_options : ExporterOptions
exporter_options = record {
  host = some "localhost";
  port = some "8800";
  path = "/";
  max_unack = 100;
  max_queue = 10;
  bin_header = true;
}

abbrev new_plugins : Plugins
new_plugins = record {
  exporter = record busy_exporter { async_queue = []; writing = false; slowdown = false };
  ws_host = "";
  ws_port = "";
  ws_path = "";
  use_bin_headers = false;
  subscribed = false;
  dependent_plugins = [];
  have_exporter = false;
}

abbrev initialized : Plugins
initialized = (initialize_exporter scan_options exporter_options new_plugins).1

abbrev new_session : Session list_world
new_session = record {
  exporter = initialized.exporter;
  receiver = stopped_receiver;
  is_open = false;
  closing = false;
  reading = none;
}

exporter_start_example :
    let (result, t) = Connection.start list_world false new_session in
    (result ≡ ok tt)
    × (t.receiver.exporter_will_ack ≡ true)
    × (t.receiver.exporter_max_unconfirmed ≡ 100)
    × (0 < 100)
    × (t.reading ≡ some acknowledgement)
    × (t.is_open ≡ true)
    × (initialized.dependent_plugins ≡ "decoder_plugin" ∷ "exp_ws_plugin" ∷ [])
unfolding initialize_exporter
exporter_start_example =
    initialize_exporter-start list_world scan_options exporter_options new_plugins initialized
      new_session refl refl refl refl refl refl

-- The exporter has connected.
abbrev open_session : Session list_world
open_session = record {
  exporter = busy_exporter;
  receiver = receiver_at_10;
  is_open = true;
  closing = false;
  reading = some acknowledgement;
}

acks_read_example :
    let (result, t) = acks_read list_world false (decimal 1 10) open_session in
    if ltb 4294967295 10
    then (result ≡ err Error.ack_out_of_range) × (t.receiver ≡ receiver_at_10)
    else (result ≡ ok tt)
      × (t.receiver ≡ acknowledge 10 receiver_at_10)
      × (t.reading ≡ some acknowledgement)
acks_read_example = acks_read-decimal list_world 1 10 open_session (omega arith) (omega arith) refl

-- The second number is 5 above 2 ^ 32.
range_read_example :
    let (result, t) =
      interactive_reqs_read list_world false
        (decimal 0 2 ++ 45 ∷ decimal 9 4294967301)
        open_session in
    if leb (4294967301 % 4294967296) (2 % 4294967296)
    then (result ≡ err Error.end_not_above_start) × (t.receiver ≡ receiver_at_10)
    else (result ≡ ok tt)
      × (t.receiver
          ≡ (on_block_req list_world
              (record { block_num_start = 2 % 4294967296; block_num_end = 4294967301 % 4294967296 })
              receiver_at_10).1)
      × (t.reading ≡ some interactive_request)
range_read_example =
    interactive_reqs_read-range list_world 0 9 2 4294967301 open_session (omega arith) (omega arith)
      (omega arith) (omega arith)
