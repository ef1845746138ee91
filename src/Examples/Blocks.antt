-- ===== src/Examples/Blocks.antt =====
-- Blocks, forks and restarts at concrete inputs.
use eos_chronicle.Base.{
  inl, inr, ℕ, suc, ◌+◌, ◌-◌, ◌<◌, ◌≡◌, refl, ◌⊎◌, true, false, ◌&&◌, not, none, some, [], ◌∷◌,
  ◌++◌, if◌then◌else◌, arith, ltb, leb, add32, min, length,
}
use eos_chronicle.Base.Exec.{◌>>=◌, Error, ok, err}
use eos_chronicle.Store.Keyed.{by_number, find_row, place, erase}
use eos_chronicle.Store.Rows.{ReceivedBlock}
use eos_chronicle.Store.Lists.{Stack, stack_revisions-RevisionLaws}
use eos_chronicle.Store.Versions.{snapshot}
use eos_chronicle.Messages.Input.{BlocksResult}
use eos_chronicle.Messages.Events.{Event, network, restart}
use eos_chronicle.Receiver.State.{ReceiverOf, TablesOf}
use eos_chronicle.Receiver.Abi.{tables}
use eos_chronicle.Receiver.Pause.{commit_db}
use eos_chronicle.Receiver.Start.{
  undo_all, save_state, revert_uncommitted_revisions, load_state, from_irreversible,
}
use eos_chronicle.Receiver.Start.Restart.{restart_lem}
use eos_chronicle.Receiver.Start.Resume.{load_state_lem}
use eos_chronicle.Receiver.Interactive.{on_block_req}
use eos_chronicle.Receiver.Interactive.Queue.{ranges, Asked, Unsent, on_block_req_lem}
use eos_chronicle.Receiver.Result.{rollback, fork, remember_block, store_block, receive_position}
use eos_chronicle.Receiver.Result.Rollback.{rollback_lem}
use eos_chronicle.Receiver.Result.Fork.{fork_lem}
use eos_chronicle.Receiver.Result.Session.{Restored, Stored, store_block_lem}
use eos_chronicle.Receiver.Result.Blocks.{index_of, Rising, AllFrom, remember_block_lem}
use eos_chronicle.Receiver.Result.Received.{Received, receive_position_lem}
use eos_chronicle.Receiver.Result.Links.{Follows, receive_position-Follows}
use eos_chronicle.Receiver.Result.Taken.{receive_position-Follows_taken}
use eos_chronicle.Examples.World.{list_world, list_laws}
use eos_chronicle.Examples.State.{receiver_at_10, stack_at_10, position, message}

-- Block 11 on the head.
abbrev next_message : BlocksResult
next_message = message 9 (position 11 110) (position 10 100)

abbrev after_11 : ReceiverOf list_world
after_11 = (receive_position list_world next_message (position 11 110) receiver_at_10).1

takes_11 :
    receive_position list_world next_message (position 11 110) receiver_at_10 ≡ (ok true, after_11)
unfolding receive_position ◌>>=◌ find_row place erase commit_db save_state
takes_11 = refl

receive_position_example :
    Received list_world list_laws next_message (position 11 110) receiver_at_10 after_11
receive_position_example =
    receive_position_lem list_world list_laws next_message (position 11 110) receiver_at_10 after_11
      true refl (omega arith) (omega arith) (omega arith) (λ h. omega (arith, h)) takes_11

Follows-example : Follows 100 next_message.prev_block
Follows-example =
    receive_position-Follows list_world list_laws next_message (position 11 110) receiver_at_10
      after_11 true refl (omega arith) (omega arith) (omega arith) (omega arith) takes_11

Follows_taken-example :
    (receive_position list_world next_message (position 11 110) receiver_at_10).0 ≡ ok true
unfolding find_row
Follows_taken-example =
    receive_position-Follows_taken list_world list_laws next_message (position 11 110)
      receiver_at_10 refl refl (omega arith) refl (omega arith) refl refl refl refl
      ((refl, tt), (tt, tt)) refl

store_block_example :
    let (result, s) = store_block list_world none receiver_at_10 in
    ((e : Error) × (result ≡ err e) × Restored list_world list_laws receiver_at_10 s)
    ⊎ ((result ≡ ok tt) × Stored list_world list_laws receiver_at_10 s)
store_block_example = store_block_lem list_world list_laws none receiver_at_10

-- A fork back to block 10.
fork_example :
    let (result, s) = fork list_world 10 8 receiver_at_10 in
    (result ≡ ok tt)
    × (suc (list_world.database.revision s.db) ≡ 10)
    × ((n : ℕ)
        → n < 10
        → snapshot list_world.database list_laws.database n s.db
          ≡ snapshot list_world.database list_laws.database n receiver_at_10.db)
    × (s.exporter_acked_block ≡ min 9 (10 - 1))
    × (s.forked_at_block ≡ 10)
    × (s.events
        ≡ Event.forks (record {
          block_num = 10;
          depth = 10 - 10;
          fork_reason = network;
          last_irreversible = 8;
        })
          ∷ [])
    × (s.contract_abi_ctxt ≡ some [])
    × (s.head ≡ receiver_at_10.head)
unfolding stack_revisions-RevisionLaws
fork_example =
    fork_lem list_world list_laws 10 8 receiver_at_10 (omega arith) (omega arith) (omega arith)
      (omega arith)

rollback_example :
    (e : Stack (TablesOf list_world)) × (rollback list_world 11 9 stack_at_10 ≡ some e)
    × (suc (list_world.database.revision e) ≡ 9)
    × ((n : ℕ)
        → n < 9
        → snapshot list_world.database list_laws.database n e
          ≡ snapshot list_world.database list_laws.database n stack_at_10)
    × (2 ≡ length (list_laws.database.kept e) + (11 - 9))
unfolding stack_revisions-RevisionLaws
rollback_example =
    rollback_lem list_world list_laws 9 stack_at_10 (omega arith) (omega arith) (omega arith)

remember_block_example :
    let (result, s) = remember_block list_world receiver_at_10 in
    let row : ReceivedBlock = record { block_index = 10; block_id = 100 } in
    let rows = list_world.blocks.rows (tables list_world s).blocks in
    (result ≡ ok tt)
    × (rows
        ≡ from_irreversible list_world 8 (
            place by_number index_of row
              (list_world.blocks.rows (tables list_world receiver_at_10).blocks)))
    × Rising rows
    × AllFrom 8 rows
unfolding find_row
remember_block_example =
    remember_block_lem list_world list_laws receiver_at_10 (omega arith) (((refl, tt)), (tt, tt))
      refl

load_state_example :
    let (depth, t) = revert_uncommitted_revisions list_world receiver_at_10 in
    let (result, s) = load_state list_world receiver_at_10 in
    (result ≡ (if leb 4294967295 8 then err Error.already_at_end else ok tt))
    × (s.db ≡ t.db)
    × (s.head ≡ 8)
    × (s.head_id ≡ 100)
    × (s.irreversible ≡ 8)
    × (s.irreversible_id ≡ 80)
    × (s.exporter_acked_block ≡ 8)
    × (s.forked_at_block ≡ (if ltb 0 depth then add32 8 1 else 0))
    × (s.events ≡ (
        if ltb 0 depth
        then []
          ++ Event.forks (record {
            block_num = add32 8 1;
            depth = depth;
            fork_reason = restart;
            last_irreversible = 8;
          })
            ∷ []
        else []))
unfolding revert_uncommitted_revisions undo_all
load_state_example =
    load_state_lem list_world
      (record { head = 8; head_id = 100; irreversible = 8; irreversible_id = 80 }) [] receiver_at_10
      refl refl

-- An endpoint whose ABI has the type of a request.
abbrev asking : ReceiverOf list_world
asking = record receiver_at_10 {
  abi_types = ("request", record { name = "request"; alternatives = some [] }) ∷ [];
}

block_req_example :
    let (result, s) =
      on_block_req list_world (record { block_num_start = 2; block_num_end = 5 }) asking in
    let sends = (leb 2 10 && leb 5 10) && (true && not false) in
    ((result ≡ ok tt)
      × (ranges list_world s ≡ (
          if leb 2 10 && leb 5 10
          then ranges list_world asking ++ (2, 5) ∷ []
          else ranges list_world asking))
      × (if sends
          then Asked list_world asking s
          else (s.requests ≡ asking.requests)
            × (s.interactive_req_pending ≡ asking.interactive_req_pending)))
    ⊎ ((e : Error) × (result ≡ err e)
        × (sends ≡ true)
        × Unsent list_world asking ([] ++ (2, 5) ∷ []) e s)
block_req_example =
    on_block_req_lem list_world (record { block_num_start = 2; block_num_end = 5 })
      (record { head = 10; head_id = 100; irreversible = 8; irreversible_id = 80 }) [] asking refl

abbrev after_store : ReceiverOf list_world
after_store = (store_block list_world none receiver_at_10).1

stores : (store_block list_world none receiver_at_10).0 ≡ ok tt
unfolding store_block ◌>>=◌ find_row place erase commit_db save_state
stores = refl

stored : Stored list_world list_laws receiver_at_10 after_store
stored = elim (store_block_lem list_world list_laws none receiver_at_10) [
  | inl (e, failed, restored) ↦ cc stores
  | inr (returned, done) ↦ done
]

restart_example :
    let (depth, t) = revert_uncommitted_revisions list_world after_store in
    (list_world.database.revision t.db ≡ 8)
    × (depth ≡ suc 10 - 8)
    × (snapshot list_world.database list_laws.database 8 after_store.db
        ≡ some (tables list_world t))
    × (list_laws.database.kept t.db ≡ [])
unfolding stack_revisions-RevisionLaws
restart_example =
    restart_lem list_world list_laws receiver_at_10 after_store stored (omega arith) (omega arith)
