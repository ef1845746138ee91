-- ===== src/Receiver/Start.antt =====
-- How the receiver starts and what it keeps of itself: revert_uncommitted_revisions, load_state,
-- save_state and request_blocks of receiver_plugin_impl.
pub mod Restart
pub mod Resume
use eos_chronicle.Base.{
  ℕ, zero, suc, true, not, ◌||◌, List, [], ◌∷◌, ◌++◌, if◌then◌else◌, ltb, leb, add32, sub32,
}
use eos_chronicle.Base.Exec.{Exec, Error, Result, ok, err}
use eos_chronicle.Store.Rows.{StateObject, ReceivedBlock}
use eos_chronicle.Messages.Input.{BlockPosition}
use eos_chronicle.Messages.Events.{Event, ForkReason, restart, resync, BlocksRequest}
use eos_chronicle.Receiver.State.{ReceiverOf, World, publish}
use eos_chronicle.Receiver.Send.{send_request}
use eos_chronicle.Receiver.Abi.{tables, set_tables, init_contract_abi_ctxt}

module _ (w : World) where
  -- `while (index.has_undo_session()) db->undo()`, at most `fuel` times.
  unfoldable pub undo_all : ℕ → w.database.Db → w.database.Db
  undo_all zero d = d
  undo_all (suc fuel) d =
      let next = undo_all fuel (w.database.undo d) in
      if ltb 0 (w.database.undo_depth d) then next else d

  -- The depth that was reverted, and the database at its last committed revision.
  unfoldable pub revert_uncommitted_revisions : ReceiverOf w → ℕ × ReceiverOf w
  revert_uncommitted_revisions r =
      let depth = w.database.undo_depth r.db in (depth, record r { db = undo_all depth r.db })

  abbrev pub state_of : ReceiverOf w → StateObject
  state_of r = record {
    head = r.head;
    head_id = r.head_id;
    irreversible = r.irreversible;
    irreversible_id = r.irreversible_id;
  }

  abbrev pub write_state : List StateObject → StateObject → w.states.Table → w.states.Table
  write_state [] row t = w.states.create row t
  write_state (x ∷ xs) row t = w.states.modify_first row t

  unfoldable pub save_state : ReceiverOf w → ReceiverOf w
  save_state r =
      let t = tables w r in
      set_tables w
        (record t { states = write_state (w.states.rows t.states) (state_of r) t.states }) r

  -- An explicit fork event, which the exporter has to acknowledge.
  abbrev pub publish_fork : ForkReason → ℕ → ℕ → ReceiverOf w → ReceiverOf w
  publish_fork reason depth last_irreversible r =
      let block_num = add32 r.head 1 in
      publish
        (Event.forks (record {
          block_num = block_num;
          depth = depth;
          fork_reason = reason;
          last_irreversible = last_irreversible;
        }))
        (record r { forked_at_block = block_num })

  -- With a saved state the receiver resumes there; start-block is for the first start only.
  abbrev pub resume : List StateObject → Exec (ReceiverOf w) (Unit {0})
  resume (x ∷ xs) r =
      let s = record r {
        head = x.head;
        head_id = x.head_id;
        irreversible = x.irreversible;
        irreversible_id = x.irreversible_id;
      } in
      if ltb 0 r.config.start_block_num then (err Error.start_block_not_initial, s) else (ok tt, s)
  resume [] r =
      let s : ReceiverOf w =
        if ltb 0 r.config.start_block_num
        then record r { head = sub32 r.config.start_block_num 1 }
        else r in
      (ok tt, publish_fork resync 0 0 s)

  abbrev pub announce_restart : ℕ → ReceiverOf w → ReceiverOf w
  announce_restart depth r = if ltb 0 depth then publish_fork restart depth r.irreversible r else r

  abbrev pub settle_acks : ReceiverOf w → ReceiverOf w
  settle_acks r = if r.exporter_will_ack then record r { exporter_acked_block = r.head } else r

  abbrev pub check_end : Exec (ReceiverOf w) (Unit {0})
  check_end r =
      if leb r.end_block_num r.head
      then (err Error.already_at_end, r)
      else (ok tt, init_contract_abi_ctxt w r)

  abbrev pub resumed : ℕ → Result (Unit {0}) × ReceiverOf w → Result (Unit {0}) × ReceiverOf w
  resumed depth (err e, r) = (err e, r)
  resumed depth (ok u, r) = check_end (settle_acks (announce_restart depth r))

  unfoldable pub load_state : Exec (ReceiverOf w) (Unit {0})
  unfolding revert_uncommitted_revisions
  load_state r =
      let (depth, s) = revert_uncommitted_revisions r in
      resumed depth (resume (w.states.rows (tables w s).states) s)

  -- The received blocks from lower_bound(irreversible) on, as long as they are not above the head.
  abbrev pub from_irreversible : ℕ → List ReceivedBlock → List ReceivedBlock
  from_irreversible n [] = []
  from_irreversible n (x ∷ xs) = if ltb x.block_index n then from_irreversible n xs else x ∷ xs

  abbrev pub up_to_head : ℕ → List ReceivedBlock → List BlockPosition
  up_to_head head [] = []
  up_to_head head (x ∷ xs) =
      let rest = up_to_head head xs in
      if leb x.block_index head
      then record { block_num = x.block_index; block_id = x.block_id } ∷ rest
      else []

  abbrev pub blocks_request : ReceiverOf w → BlocksRequest
  blocks_request r = record {
    start_block_num = add32 r.head 1;
    end_block_num = r.end_block_num;
    have_positions =
        up_to_head r.head (from_irreversible r.irreversible (w.blocks.rows (tables w r).blocks));
    irreversible_only = r.config.irreversible_only;
    fetch_block = not r.config.noexport_mode;
    fetch_traces = not (r.config.skip_traces || r.config.noexport_mode);
    fetch_deltas = true;
  }

  unfoldable pub request_blocks : Exec (ReceiverOf w) (Unit {0})
  unfolding send_request
  request_blocks r = send_request w (blocks_request r) r
