-- ===== src/Examples/Agreeing.antt =====
-- The agreement of the context with the database, over a fork.
use eos_chronicle.Base.{◌≡◌, refl, arith, true, false, some, [], ◌∷◌}
use eos_chronicle.Base.Exec.{◌>>=◌, ok}
use eos_chronicle.Store.Keyed.{find_row, place, erase}
use eos_chronicle.Store.Lists.{stack_revisions-RevisionLaws}
use eos_chronicle.Messages.Input.{BlocksResult}
use eos_chronicle.Receiver.State.{ReceiverOf}
use eos_chronicle.Receiver.Abi.{init_contract_abi_ctxt, get_contract_abi_ready}
use eos_chronicle.Receiver.Pause.{commit_db}
use eos_chronicle.Receiver.Start.{save_state}
use eos_chronicle.Receiver.Result.{rollback, receive_position}
use eos_chronicle.Receiver.Result.Agreed.{Agrees}
use eos_chronicle.Receiver.Acks.{ack_block}
use eos_chronicle.Receiver.Result.Agreed.Running.{takes, acks, decodes, here, next, Run-Agrees}
use eos_chronicle.Examples.World.{list_world, list_laws, list_decoder-DecoderLaws}
use eos_chronicle.Examples.State.{receiver_at_10, position, message}

-- The ABI of contract 7 was loaded.
abbrev loaded_receiver : ReceiverOf list_world
loaded_receiver = record receiver_at_10 {
  contract_abi_ctxt = some ((7, 1 ∷ []) ∷ []);
  contract_abi_imported = 7 ∷ [];
}

loaded_receiver-Agrees : Agrees list_world list_laws loaded_receiver
unfolding find_row list_decoder-DecoderLaws stack_revisions-RevisionLaws
loaded_receiver-Agrees = record {
  cache = record {
    ready = refl;
    current = λ a h. (record { account = 7; abi = 1 ∷ [] }, ground arith, ground arith);
    valid = λ a x h. ground arith;
  };
  kept = (λ a x h. ground arith, (λ a x h. ground arith, tt));
}

-- Another block 10 after block 9.
abbrev fork_message : BlocksResult
fork_message = message 8 (position 10 101) (position 9 90)

abbrev after_fork : ReceiverOf list_world
after_fork = (receive_position list_world fork_message (position 10 101) loaded_receiver).1

takes_fork :
    receive_position list_world fork_message (position 10 101) loaded_receiver
    ≡ (ok true, after_fork)
unfolding receive_position rollback init_contract_abi_ctxt ◌>>=◌ find_row place erase commit_db
    save_state
takes_fork = refl

-- The fork is taken, its acknowledgement awaited, and the decoder asks for the ABI of contract 7.
abbrev acknowledged : ReceiverOf list_world
acknowledged = (ack_block 9 after_fork).1

abbrev after_all : ReceiverOf list_world
after_all = (get_contract_abi_ready list_world 7 acknowledged).1

Agrees-example : Agrees list_world list_laws after_all × (after_all.config.interactive_mode ≡ false)
Agrees-example =
    Run-Agrees list_world list_laws loaded_receiver after_all refl loaded_receiver-Agrees (
      next (next (next here (takes fork_message (position 10 101) true takes_fork)) (acks 9 refl))
        (decodes 7 refl))
