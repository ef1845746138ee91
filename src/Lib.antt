-- ===== src/Lib.antt =====
-- A verification library for the receiver of eos-chronicle.
--
-- Chronicle reads the state history of an EOSIO node over a websocket, keeps what it needs of the
-- chain in a database with revisions, and hands blocks, traces and table rows to an exporter. The
-- receiver plugin (chronicle-receiver/receiver_plugin.cpp, class receiver_plugin_impl) is the core:
-- it asks for blocks, follows forks, keeps the contracts' ABIs, filters, and stops reading while the
-- exporter is behind. This library models it as functions on a record of its fields.
--
-- The files:
--   Base       tests on numbers, lists, uint32_t arithmetic, and the monad of methods that may throw
--   Store      the rows of the state database (namespace chronicle); the interfaces of the chainbase
--              tables and revisions, with their laws; lists that meet the laws
--   Messages   what is read of the state history protocol, and the events of receiver_plugin.hpp
--   Receiver/State        the fields of the class; World, the libraries that it runs on
--   Receiver/Laws         what is relied on of these libraries
--   Receiver/Result       receive_result and receive_block; below it the rollback of a fork, the undo
--                         session, the table of received blocks, what a block leaves behind, and
--                         the agreement of the loaded ABIs with the tables (Agreed)
--   Receiver/Start        revert_uncommitted_revisions, load_state, save_state, request_blocks
--   Receiver/Send         send_request, with json_to_bin as a parameter
--   Receiver/Abi          init_contract_abi_ctxt, save_contract_abi, clear_contract_abi,
--                         save_contract_abi_history, get_contract_abi_ready
--   Receiver/Deltas       receive_deltas; Receiver/Types get_type and check_variant
--   Receiver/Traces       receive_traces with its filters and blacklist
--   Receiver/Acks         exporter_will_ack_blocks, ack_block, slowdown
--   Receiver/Pause        check_pause, continue_read, check_stale_head, commit_db
--   Receiver/Interactive  on_block_req, process_interactive_reqs
--   Receiver/Stop         callback, catch_and_close, on_fail, close, abort_receiver
--   Receiver/Options      plugin_initialize with the modes, filters and blacklists; is_noexport_opt;
--                         Receiver/Options/Initialize the whole of it with the snapshots
--   Receiver/Connection   start, start_read, receive_abi as a state machine of the asynchronous
--                         steps; below it start_after_dependencies
--   Receiver/Frame        the part of the state that deltas and traces leave alone
--   Decoder/Json          native_to_json (chronicle-receiver/decoder_plugin.cpp);
--                         Decoder/Writer the calls of the JSON writer, Decoder/Values the reflected
--                         fields of the events, Decoder/Handlers the handlers of decoder_plugin_impl
--                         and the channels of decoder_plugin.hpp, Decoder/Subscriptions its start
--   ExpWs/Queue           async_send_events, push_msg and the write handler of exp_ws_plugin_impl
--                         (chronicle-receiver/exp_ws_plugin.cpp), with the limits of its options
--   ExpWs/Message         on_event_bin, on_event_json; ExpWs/Request the handlers of
--                         async_read_acks and async_read_interactive_reqs, with std::stoul
--   ExpWs/Channels        init: the subscriptions and the message types of chronicle_msgtypes.h
--   ExpWs/Options         plugin_initialize of exp_ws_plugin and of decoder_plugin
--   ExpWs/Connection      start, stop, close_ws and the handlers of the websocket
--   Pipeline              an event's way from the receiver through the decoder to the exporter
--   Snapshot              write_snapshot, read_snapshot and the rows of
--                         chronicle-receiver/chronicle_portable_state.hpp
--   Examples   a concrete world and receiver, and the theorems at concrete inputs
--
-- How the state corresponds. A method of the class is a function of the same name from a receiver to
-- a receiver; one that may throw is an Exec, which gives the result or the exception beside the
-- state as it was then. The database is a value: its contents and, for the theorems, the contents
-- before every revision that can still be undone (the field `kept` of RevisionLaws). Timers, reads,
-- requests and published events are fields that record what was asked for. uint32_t arithmetic
-- wraps where the source computes a difference or a sum (Base/Word).
--
-- Fuel: the loop of `rollback` gets one more than the revision, which suffices where the undo stack
-- reaches down to the block; that of `undo_all` gets the size of the undo stack, and that of
-- `truncate` one more than the number of rows. Each step lowers that number. The loop of
-- `to_string` gets twenty, the digits of 2^64.
--
-- Not modelled: the deserialisers, json_to_bin, the ABI decoder, the reflection and the printers of
-- abieos, the text that rapidjson writes, boost::split, chainbase, appbase and the sockets, which
-- are not part of the repository and are parameters; mutexes, log messages and the priorities of
-- the application's queue; the packing of snapshots; the lock file and the opening of files and of
-- the database; the main program and the example plugin, which only call the libraries.
pub mod Base
pub mod Store
pub mod Messages
pub mod Receiver
pub mod Decoder
pub mod Examples
pub mod ExpWs
pub mod Pipeline
pub mod Snapshot
