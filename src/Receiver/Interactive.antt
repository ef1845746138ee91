-- ===== src/Receiver/Interactive.antt =====
-- The requests of the interactive mode: on_block_req and process_interactive_reqs of
-- receiver_plugin_impl.
pub mod Queue
use eos_chronicle.Base.{true, false, not, ◌&&◌, List, [], ◌∷◌, ◌++◌, if◌then◌else◌, ltb}
use eos_chronicle.Base.Exec.{Exec, ok}
use eos_chronicle.Store.Rows.{StateObject}
use eos_chronicle.Messages.Events.{InteractiveRequest, BlocksRequest}
use eos_chronicle.Receiver.State.{ReceiverOf, World}
use eos_chronicle.Receiver.Send.{send_request}
use eos_chronicle.Receiver.Abi.{tables, init_contract_abi_ctxt}

module _ (w : World) where
  abbrev pub interactive_blocks_request : InteractiveRequest → ReceiverOf w → BlocksRequest
  interactive_blocks_request req r = record {
    start_block_num = req.block_num_start;
    end_block_num = req.block_num_end;
    have_positions = [];
    irreversible_only = false;
    fetch_block = true;
    fetch_traces = not r.config.skip_traces;
    fetch_deltas = not r.config.skip_table_deltas;
  }

  -- Where the request cannot be encoded, it has left the queue and counts as pending.
  abbrev pub send_interactive : InteractiveRequest → Exec (ReceiverOf w) (Unit {0})
  send_interactive req r =
      let s = init_contract_abi_ctxt w (record r { end_block_num = req.block_num_end }) in
      send_request w (interactive_blocks_request req r)
        (record s { interactive_req_pending = true })

  abbrev pub send_next : List InteractiveRequest → Exec (ReceiverOf w) (Unit {0})
  send_next [] r = (ok tt, r)
  send_next (req ∷ rest) r = send_interactive req (record r { interactive_req_queue = rest })

  -- The next request is sent if none is pending.
  unfoldable pub process_interactive_reqs : Exec (ReceiverOf w) (Unit {0})
  unfolding init_contract_abi_ctxt send_request
  process_interactive_reqs r =
      if r.receiver_ready && not r.interactive_req_pending
      then send_next r.interactive_req_queue r
      else (ok tt, r)

  abbrev admit : List StateObject → InteractiveRequest → Exec (ReceiverOf w) (Unit {0})
  admit [] req r = (ok tt, r)
  admit (x ∷ xs) req r =
      if ltb x.head req.block_num_start
      then (ok tt, r)
      else if ltb x.head req.block_num_end
      then (ok tt, r)
      else process_interactive_reqs
          (record r { interactive_req_queue = r.interactive_req_queue ++ req ∷ [] })

  -- A request that reaches above the head of the state database is dropped. Whether its blocks are
  -- irreversible is not looked at.
  unfoldable pub on_block_req : InteractiveRequest → Exec (ReceiverOf w) (Unit {0})
  unfolding process_interactive_reqs
  on_block_req req r = admit (w.states.rows (tables w r).states) req r
