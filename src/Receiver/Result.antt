-- ===== src/Receiver/Result.antt =====
-- receive_result and receive_block of receiver_plugin_impl: one message of the state history
-- endpoint. The log is left out; the parts of the function are separate definitions in its order.
pub mod Rollback
pub mod Fork
pub mod Session
pub mod Quiet
pub mod Prepared
pub mod Received
pub mod Blocks
pub mod Links
pub mod Taken
pub mod Agreed
use eos_chronicle.Base.{
  ℕ, zero, suc, Bool, true, false, not, ◌&&◌, Option, none, some, [], ◌∷◌, length, ◌-◌,
  if◌then◌else◌, ltb, leb, ◌==◌, sub32, add32,
}
use eos_chronicle.Base.Exec.{Exec, Error, Result, ok, err, pure, lift, gets, modify, ◌>>=◌}
use eos_chronicle.Store.Rows.{Bytes, ReceivedBlock}
use eos_chronicle.Messages.Input.{BlockPosition, BlocksResult, SignedBlock, parsed}
use eos_chronicle.Messages.Events.{Event, network}
use eos_chronicle.Receiver.State.{ReceiverOf, World, publish}
use eos_chronicle.Receiver.Pause.{commit_db}
use eos_chronicle.Receiver.Abi.{tables, set_tables, init_contract_abi_ctxt}
use eos_chronicle.Receiver.Types.{get_type, check_variant_name}
use eos_chronicle.Receiver.Deltas.{receive_deltas}
use eos_chronicle.Receiver.Traces.{receive_traces}
use eos_chronicle.Receiver.Start.{save_state}
use eos_chronicle.Receiver.Interactive.{process_interactive_reqs}

module _ (w : World) where
  abbrev with_db : Option w.database.Db → Exec (ReceiverOf w) (Unit {0})
  with_db none r = (err Error.store_refused, r)
  with_db (some d) r = (ok tt, record r { db = d })

  -- The revision of the database is lifted to the block before this one.
  unfoldable pub lift_revision : ℕ → Exec (ReceiverOf w) (Unit {0})
  lift_revision block_num r =
      let newrev = sub32 block_num 1 in
      if ltb (w.database.revision r.db) newrev
      then with_db (w.database.set_revision newrev r.db) r
      else (ok tt, r)

  -- `while (db->revision() >= block_num) db->undo()`, with fuel: nothing where it does not suffice.
  unfoldable pub rollback : ℕ → ℕ → w.database.Db → Option w.database.Db
  rollback zero block_num d = none
  rollback (suc fuel) block_num d =
      let rest = rollback fuel block_num (w.database.undo d) in
      if leb block_num (w.database.revision d) then rest else some d

  abbrev clip_acked : ℕ → ReceiverOf w → ReceiverOf w
  clip_acked block_num r =
      let last = sub32 block_num 1 in
      if r.exporter_will_ack && ltb last r.exporter_acked_block
      then record r { exporter_acked_block = last }
      else r

  abbrev announce_fork : ℕ → ℕ → ℕ → ReceiverOf w → ReceiverOf w
  announce_fork block_num depth last_irreversible r =
      publish
        (Event.forks (record {
          block_num = block_num;
          depth = depth;
          fork_reason = network;
          last_irreversible = last_irreversible;
        }))
        (record r { forked_at_block = block_num })

  abbrev rolled_back : ℕ → ℕ → ℕ → Option w.database.Db → Exec (ReceiverOf w) (Unit {0})
  rolled_back block_num depth last_irreversible none r = (err Error.out_of_fuel, r)
  rolled_back block_num depth last_irreversible (some d) r =
      let s = record r { db = d } in
      if w.database.revision d == 0
      then (err Error.no_undo_stack, s)
      else (ok tt, announce_fork block_num depth last_irreversible (clip_acked block_num s))

  -- A block that is not above the head: the chain forked.
  unfoldable pub fork : ℕ → ℕ → Exec (ReceiverOf w) (Unit {0})
  unfolding rollback
  fork block_num last_irreversible r =
      let s = init_contract_abi_ctxt w r in
      let fuel = suc (w.database.revision s.db) in
      rolled_back block_num (s.head - block_num) last_irreversible (rollback fuel block_num s.db) s

  abbrev links_to_head : Option BlockPosition → ReceiverOf w → Bool
  links_to_head none r = false
  links_to_head (some prev) r = prev.block_id == r.head_id

  abbrev check_link : Option BlockPosition → Exec (ReceiverOf w) (Unit {0})
  check_link prev r =
      if ltb 0 r.head && ltb r.config.start_block_num r.head && not (links_to_head prev r)
      then (err Error.prev_block_mismatch, r)
      else (ok tt, r)

  -- A block that is not yet irreversible is checked against the head.
  unfoldable pub check_position : ℕ → ℕ → Option BlockPosition → Exec (ReceiverOf w) (Unit {0})
  unfolding fork
  check_position block_num last_irreversible prev r =
      if not (ltb last_irreversible block_num)
      then (ok tt, r)
      else if ltb block_num r.irreversible
      then (err Error.block_below_irreversible, r)
      else if leb block_num r.head
      then fork block_num last_irreversible r
      else check_link prev r

  -- What precedes the new head: in the interactive mode the end of a request, otherwise the checks.
  unfoldable pub prepare : ℕ → ℕ → Option BlockPosition → Exec (ReceiverOf w) (Unit {0})
  unfolding lift_revision check_position
  prepare block_num last_irreversible prev r =
      if r.config.interactive_mode
      then (if block_num == sub32 r.end_block_num 1
          then process_interactive_reqs w (record r { interactive_req_pending = false })
          else (ok tt, r))
      else (lift_revision block_num >>= λ u. check_position block_num last_irreversible prev) r

  abbrev pub move_head : BlockPosition → BlockPosition → ReceiverOf w → ReceiverOf w
  move_head block last_irreversible r = record r {
    head = block.block_num;
    head_id = block.block_id;
    irreversible = last_irreversible.block_num;
    irreversible_id = last_irreversible.block_id;
  }

  abbrev begin_block : ReceiverOf w → ReceiverOf w
  begin_block r =
      if r.subscribers.block_started
      then publish
          (Event.block_started (record {
            block_num = r.head;
            block_id = r.head_id;
            block_timestamp = r.block_header.timestamp;
            last_irreversible = r.irreversible;
          }))
          r
      else r

  abbrev publish_block : SignedBlock → ReceiverOf w → ReceiverOf w
  publish_block b r =
      if r.config.skip_block_events
      then r
      else publish
          (Event.blocks (record {
            block_num = r.head;
            block_id = r.head_id;
            last_irreversible = r.irreversible;
            block = b;
          }))
          r

  unfoldable pub receive_block : Bytes → Exec (ReceiverOf w) (Unit {0})
  receive_block bin = lift (parsed (w.codec.block_from_bin bin)) >>= λ b. modify (λ r.
      publish_block b
        (begin_block (record r { block_header = b.header; trx_count = length b.transactions })))

  abbrev optional :
      (Bytes → Exec (ReceiverOf w) (Unit {0})) → Option Bytes → Exec (ReceiverOf w) (Unit {0})
  optional f none = pure tt
  optional f (some bin) = f bin

  -- `while (itr->block_index < irreversible && itr != idx.end())`: the iterator is read before it is
  -- compared with the end.
  unfoldable pub truncate : ℕ → ℕ → w.blocks.Table → Result w.blocks.Table
  truncate zero irreversible t = err Error.out_of_fuel
  truncate (suc fuel) irreversible t = elim (w.blocks.rows t) [
    | [] ↦ err Error.undefined_read
    | x ∷ xs ↦
        let rest = truncate fuel irreversible (w.blocks.remove x t) in
        if ltb x.block_index irreversible then rest else ok t
  ]

  abbrev truncated : Result w.blocks.Table → Exec (ReceiverOf w) (Unit {0})
  truncated (err e) r = (err e, r)
  truncated (ok t) r = (ok tt, set_tables w (record (tables w r) { blocks = t }) r)

  abbrev added : Option w.blocks.Table → Exec (ReceiverOf w) (Unit {0})
  added none r = (err Error.store_refused, r)
  added (some t) r =
      let s = set_tables w (record (tables w r) { blocks = t }) r in
      truncated (truncate (suc (length (w.blocks.rows t))) r.irreversible t) s

  -- A block that may still be forked out is added to the received ones, and old ones are removed.
  unfoldable pub remember_block : Exec (ReceiverOf w) (Unit {0})
  unfolding truncate
  remember_block r =
      let row : ReceivedBlock = record { block_index = r.head; block_id = r.head_id } in
      if ltb r.irreversible r.head
      then added (w.blocks.create row (tables w r).blocks) r
      else (ok tt, r)

  -- An undo session that is pushed at the end, and undone by its destructor on an exception.
  abbrev close_session : Result (Unit {0}) × ReceiverOf w → Result (Unit {0}) × ReceiverOf w
  close_session (ok u, r) = (ok tt, record r { db = w.database.push r.db })
  close_session (err e, r) = (err e, record r { db = w.database.undo r.db })

  unfoldable pub in_session : Exec (ReceiverOf w) (Unit {0}) → Exec (ReceiverOf w) (Unit {0})
  in_session m r = close_session (m (record r { db = w.database.start_undo_session r.db }))

  -- The state changing activities.
  abbrev pub session_body : Option Bytes → Exec (ReceiverOf w) (Unit {0})
  session_body deltas =
      remember_block >>= λ u. optional (receive_deltas w) deltas >>= λ v. modify (save_state w)

  unfoldable pub store_block : Option Bytes → Exec (ReceiverOf w) (Unit {0})
  unfolding remember_block in_session
  store_block deltas = in_session (session_body deltas) >>= λ u. modify (commit_db w)

  unfoldable pub process_deltas : Option Bytes → Exec (ReceiverOf w) (Unit {0})
  unfolding store_block
  process_deltas deltas r =
      if r.config.interactive_mode
      then optional (receive_deltas w) deltas r
      else store_block deltas r

  abbrev complete_block : ReceiverOf w → ReceiverOf w
  complete_block r =
      publish
        (Event.block_completed (record {
          block_num = r.head;
          block_id = r.head_id;
          header = r.block_header;
          trx_count = r.trx_count;
          last_irreversible = r.irreversible;
        }))
        r

  -- What follows the state changing activities; whether the receiver goes on reading.
  abbrev pub finish_block : Option Bytes → Exec (ReceiverOf w) Bool
  finish_block traces = optional (receive_traces w.codec) traces >>= λ z.
      modify complete_block >>= λ t. gets (λ q. not q.aborting)

  -- What follows the new head.
  abbrev pub take_block : BlocksResult → Exec (ReceiverOf w) Bool
  take_block result = optional receive_block result.block >>= λ x.
      process_deltas result.deltas >>= λ y. finish_block result.traces

  -- A message with a block.
  unfoldable pub receive_position : BlocksResult → BlockPosition → Exec (ReceiverOf w) Bool
  unfolding prepare receive_block process_deltas
  receive_position result block r =
      let s = record r { received_blocks = add32 r.received_blocks 1 } in
      if ltb result.last_irreversible.block_num r.irreversible
      then (err Error.irreversible_went_back, s)
      else (prepare block.block_num result.last_irreversible.block_num result.prev_block >>= λ u.
            modify (move_head block result.last_irreversible) >>= λ v. take_block result)
          s

  abbrev receive_parsed : BlocksResult → Option BlockPosition → Exec (ReceiverOf w) Bool
  receive_parsed result none = pure true
  receive_parsed result (some block) = receive_position result block

  unfoldable pub receive_result : Bytes → Exec (ReceiverOf w) Bool
  unfolding receive_position
  receive_result bin = gets (λ r. r.abi_types) >>= λ types.
      lift (get_type "result" types) >>= λ type.
      lift (check_variant_name w.codec bin type "get_blocks_result_v0") >>= λ rest.
      lift (parsed (w.codec.result_from_bin rest)) >>= λ result.
      receive_parsed result result.this_block
