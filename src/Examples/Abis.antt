-- ===== src/Examples/Abis.antt =====
-- The handling of ABIs at concrete inputs.
use eos_chronicle.Base.{
  ℕ, ◌≤◌, ◌≡◌, ◌≢◌, refl, true, ◌&&◌, none, some, [], ◌∷◌, ◌==◌, if◌then◌else◌, is_some, arith,
}
use eos_chronicle.Base.Exec.{ok}
use eos_chronicle.Store.Keyed.{by_name_and_block, find_row}
use eos_chronicle.Store.Rows.{ContractAbi, AbiHistory}
use eos_chronicle.Receiver.State.{ReceiverOf}
use eos_chronicle.Receiver.Laws.{history_key}
use eos_chronicle.Receiver.Abi.{
  tables, save_contract_abi, clear_contract_abi, get_contract_abi_ready,
}
use eos_chronicle.Receiver.Abi.Cache.{loaded_in}
use eos_chronicle.Receiver.Abi.Saving.{CacheInv}
use eos_chronicle.Receiver.Abi.Agreement.{
  save_contract_abi_lem, clear_contract_abi_lem, get_contract_abi_ready_lem,
}
use eos_chronicle.Receiver.Abi.Versions.{interactive_version, interactive_foreign_abi}
use eos_chronicle.Receiver.Deltas.{receive_deltas}
use eos_chronicle.Receiver.Deltas.Cached.{Scans, receive_deltas-Scans}
use eos_chronicle.Examples.World.{list_world, list_laws, list_decoder-DecoderLaws}
use eos_chronicle.Examples.State.{receiver_at_10, scan_config}

-- Nothing is loaded yet, and the only ABI of the table is valid.
cache_example : CacheInv list_world list_laws receiver_at_10
unfolding find_row list_decoder-DecoderLaws
cache_example = record { ready = refl; current = λ a h. cc; valid = λ a x h. ground arith }

-- The ABI of contract 7 was loaded.
abbrev loaded_receiver : ReceiverOf list_world
loaded_receiver = record receiver_at_10 {
  contract_abi_ctxt = some ((7, 1 ∷ []) ∷ []);
  contract_abi_imported = 7 ∷ [];
}

loaded_cache_example : CacheInv list_world list_laws loaded_receiver
unfolding find_row list_decoder-DecoderLaws
loaded_cache_example = record {
  ready = refl;
  current = λ a h. (record { account = 7; abi = 1 ∷ [] }, ground arith, ground arith);
  valid = λ a x h. ground arith;
}

save_contract_abi_example :
    let (result, s) = save_contract_abi list_world 7 (3 ∷ []) loaded_receiver in
    CacheInv list_world list_laws s
    × (result ≡ ok tt)
    × ((k : ℕ)
        → list_world.abis.find k (tables list_world s).abis ≡ (
            if k == 7
            then (if list_laws.decoder.accepts (3 ∷ [])
                then some (record { account = 7; abi = 3 ∷ [] })
                else list_world.abis.find k (tables list_world loaded_receiver).abis)
            else list_world.abis.find k (tables list_world loaded_receiver).abis))
    × ((k : ℕ × ℕ)
        → list_world.history.find k (tables list_world s).history ≡ (
            if by_name_and_block.same k (7, 10)
            then some (record { account = 7; block_index = 10; abi = 3 ∷ [] })
            else list_world.history.find k (tables list_world loaded_receiver).history))
save_contract_abi_example =
    save_contract_abi_lem list_world list_laws 7 (3 ∷ []) loaded_receiver loaded_cache_example

clear_contract_abi_example :
    let (result, s) = clear_contract_abi list_world 7 loaded_receiver in
    CacheInv list_world list_laws s
    × (result ≡ ok tt)
    × ((k : ℕ)
        → list_world.abis.find k (tables list_world s).abis ≡ (
            if k == 7
            then none
            else list_world.abis.find k (tables list_world loaded_receiver).abis))
    × ((k : ℕ × ℕ)
        → list_world.history.find k (tables list_world s).history ≡ (
            if is_some (list_world.abis.find 7 (tables list_world loaded_receiver).abis)
              && by_name_and_block.same k (7, 10)
            then some (record { account = 7; block_index = 10; abi = [] })
            else list_world.history.find k (tables list_world loaded_receiver).history))
clear_contract_abi_example =
    clear_contract_abi_lem list_world list_laws 7 loaded_receiver loaded_cache_example

get_contract_abi_ready_example :
    let (ready, s) = get_contract_abi_ready list_world 7 receiver_at_10 in
    CacheInv list_world list_laws s
    × (ready ≡ is_some (list_world.abis.find 7 (tables list_world receiver_at_10).abis))
    × (s.db ≡ receiver_at_10.db)
    × ((x : ContractAbi)
        → list_world.abis.find 7 (tables list_world receiver_at_10).abis ≡ some x
        → loaded_in list_world list_laws s.contract_abi_ctxt 7 ≡ some x.abi)
get_contract_abi_ready_example =
    get_contract_abi_ready_lem list_world list_laws 7 receiver_at_10 refl cache_example

-- The interactive mode.
abbrev interactive_receiver : ReceiverOf list_world
interactive_receiver = record receiver_at_10 {
  config = record scan_config { interactive_mode = true };
}

valid_history :
    (k : ℕ × ℕ) (x : AbiHistory)
    → list_world.history.find k (tables list_world interactive_receiver).history ≡ some x
    → list_laws.decoder.accepts x.abi ≡ true
unfolding find_row list_decoder-DecoderLaws
valid_history k x h = ground arith

found_7 :
    list_world.history.find (7, 5) (tables list_world interactive_receiver).history
    ≡ some (record { account = 7; block_index = 5; abi = 1 ∷ [] })
unfolding find_row
found_7 = refl

found_9 :
    list_world.history.find (9, 3) (tables list_world interactive_receiver).history
    ≡ some (record { account = 9; block_index = 3; abi = 2 ∷ [] })
unfolding find_row
found_9 = refl

none_of_8 :
    (n : ℕ)
    → n ≤ 10
    → list_world.history.find (8, n) (tables list_world interactive_receiver).history ≡ none
unfolding find_row
none_of_8 n h = refl

interactive_version_example :
    (x : AbiHistory) × (list_world.history.find
        (7, x.block_index)
        (tables list_world interactive_receiver).history
      ≡ some x)
    × (5 ≤ x.block_index)
    × (x.block_index ≤ 10)
    × ((get_contract_abi_ready list_world 7 interactive_receiver).0 ≡ true)
    × (loaded_in list_world list_laws
          (get_contract_abi_ready list_world 7 interactive_receiver).1.contract_abi_ctxt
          7
        ≡ some x.abi)
interactive_version_example =
    interactive_version list_world list_laws 7 interactive_receiver refl refl refl valid_history 5
      (record { account = 7; block_index = 5; abi = 1 ∷ [] }) found_7 (omega arith)

foreign_abi_example :
    (x : AbiHistory) × (x.account ≢ 8)
    × (list_world.history.find (history_key x) (tables list_world interactive_receiver).history
        ≡ some x)
    × ((get_contract_abi_ready list_world 8 interactive_receiver).0 ≡ true)
    × (loaded_in list_world list_laws
          (get_contract_abi_ready list_world 8 interactive_receiver).1.contract_abi_ctxt
          8
        ≡ some x.abi)
foreign_abi_example =
    interactive_foreign_abi list_world list_laws 8 interactive_receiver refl refl refl valid_history
      9 3 (record { account = 9; block_index = 3; abi = 2 ∷ [] }) found_9 (omega arith) none_of_8

deltas_example : Scans list_world list_laws (receive_deltas list_world (0 ∷ []))
deltas_example = receive_deltas-Scans list_world list_laws (0 ∷ [])
