-- ===== src/Receiver/Abi.antt =====
-- The ABIs of the contracts: init_contract_abi_ctxt, clear_contract_abi, save_contract_abi,
-- save_contract_abi_history and get_contract_abi_ready of receiver_plugin_impl. The tables keep the
-- serialised ABIs, the decoder's context those that were loaded, and contract_abi_imported names
-- the loaded ones. Taking the mutex and logging are left out.
pub mod Tables
pub mod Cache
pub mod Saving
pub mod Agreement
pub mod Versions
pub mod Framed
use eos_chronicle.Base.{
  ℕ, Bool, true, false, Option, none, some, List, [], if◌then◌else◌, contains, insert,
}
use eos_chronicle.Base.Exec.{Exec, Error, Result, ok, err, ◌>>=◌, ◌>>◌}
use eos_chronicle.Store.Rows.{Bytes, ContractAbi, AbiHistory}
use eos_chronicle.Messages.Events.{Event}
use eos_chronicle.Receiver.State.{ReceiverOf, TablesOf, World, publish}

module _ {Context : Type 0} where
  abbrev forget_imported : Option Context → List ℕ → List ℕ
  forget_imported none names = names
  forget_imported (some c) names = []

module _ (w : World) where
  -- What the tables hold, and the receiver with other contents.
  abbrev pub tables : ReceiverOf w → TablesOf w
  tables r = w.database.contents r.db

  abbrev pub set_tables : TablesOf w → ReceiverOf w → ReceiverOf w
  set_tables t r = record r { db = w.database.update t r.db }

  unfoldable pub init_contract_abi_ctxt : ReceiverOf w → ReceiverOf w
  init_contract_abi_ctxt r = record r {
    contract_abi_ctxt = some w.decoder.create;
    contract_abi_imported = forget_imported r.contract_abi_ctxt r.contract_abi_imported;
  }

  -- abieos_set_abi_bin on the receiver's context; a null context is refused.
  abbrev set_in : Option w.decoder.Context → ℕ → Bytes → Bool × Option w.decoder.Context
  set_in none account abi = (false, none)
  set_in (some c) account abi =
      let (done, d) = w.decoder.set_abi_bin c account abi in (done, some d)

  unfoldable pub set_abi_bin : ℕ → Bytes → ReceiverOf w → Bool × ReceiverOf w
  set_abi_bin account abi r =
      let (done, c) = set_in r.contract_abi_ctxt account abi in
      (done, record r { contract_abi_ctxt = c })

  -- A row that a table refuses is an exception.
  abbrev pub stored : Option (TablesOf w) → ReceiverOf w → Result (Unit {0}) × ReceiverOf w
  stored none r = (err Error.store_refused, r)
  stored (some t) r = (ok tt, set_tables t r)

  abbrev with_history : Option w.history.Table → ReceiverOf w → Result (Unit {0}) × ReceiverOf w
  with_history none r = (err Error.store_refused, r)
  with_history (some h) r = (ok tt, set_tables (record (tables r) { history = h }) r)

  abbrev with_abis : Option w.abis.Table → ReceiverOf w → Result (Unit {0}) × ReceiverOf w
  with_abis none r = (err Error.store_refused, r)
  with_abis (some h) r = (ok tt, set_tables (record (tables r) { abis = h }) r)

  -- The version of this block is replaced if there is one.
  abbrev history_with : Option AbiHistory → AbiHistory → w.history.Table → Option w.history.Table
  history_with (some x) row t = some (w.history.modify row t)
  history_with none row t = w.history.create row t

  unfoldable pub save_contract_abi_history : ℕ → Bytes → Exec (ReceiverOf w) (Unit {0})
  save_contract_abi_history account abi r =
      let t = (tables r).history in
      let row : AbiHistory = record { account = account; block_index = r.head; abi = abi } in
      with_history (history_with (w.history.find (account, r.head) t) row t) r

  -- The context cannot drop one contract, so it is made anew.
  abbrev drop_imported : ℕ → ReceiverOf w → ReceiverOf w
  drop_imported account r =
      if contains account r.contract_abi_imported then init_contract_abi_ctxt r else r

  abbrev clear_row : ℕ → Option ContractAbi → Exec (ReceiverOf w) (Unit {0})
  clear_row account none r = (ok tt, r)
  clear_row account (some x) r =
      let t = tables r in
      let s = set_tables (record t { abis = w.abis.remove x t.abis }) r in
      let e = Event.abi_removals (record {
        block_num = s.head;
        block_timestamp = s.block_header.timestamp;
        account = account;
      }) in
      save_contract_abi_history account [] (publish e s)

  unfoldable pub clear_contract_abi : ℕ → Exec (ReceiverOf w) (Unit {0})
  unfolding init_contract_abi_ctxt save_contract_abi_history
  clear_contract_abi account r =
      let s = drop_imported account r in clear_row account (w.abis.find account (tables s).abis) s

  abbrev abis_with : Option ContractAbi → ContractAbi → w.abis.Table → Option w.abis.Table
  abis_with (some x) row t = some (w.abis.modify row t)
  abis_with none row t = w.abis.create row t

  abbrev save_row : ℕ → Bytes → Exec (ReceiverOf w) (Unit {0})
  save_row account abi r =
      let t = (tables r).abis in
      let row : ContractAbi = record { account = account; abi = abi } in
      with_abis (abis_with (w.abis.find account t) row t) r

  abbrev publish_abi_update : ℕ → Bytes → Option Bytes → Exec (ReceiverOf w) (Unit {0})
  publish_abi_update account abi none r = (err Error.malformed, r)
  publish_abi_update account abi (some definition) r =
      let e = Event.abi_updates (record {
        block_num = r.head;
        block_timestamp = r.block_header.timestamp;
        account = account;
        abi = definition;
        binary = abi;
      }) in
      (ok tt, publish e r)

  -- The body of the try block.
  unfoldable pub use_abi : ℕ → Bytes → Exec (ReceiverOf w) (Unit {0})
  unfolding set_abi_bin ◌>>=◌
  use_abi account abi r =
      let (done, s) = set_abi_bin account abi r in
      if done
      then (let u = record s { contract_abi_imported = insert account s.contract_abi_imported } in
          (save_row account abi >> λ v.
          if v.subscribers.abi_updates
          then publish_abi_update account abi (w.codec.abi_def_from_bin abi) v
          else (ok tt, v))
            u)
      else (err Error.abi_refused, s)

  -- The catch block.
  abbrev report_abi_error : ℕ → Result (Unit {0}) × ReceiverOf w → ReceiverOf w
  report_abi_error account (ok u, r) = r
  report_abi_error account (err e, r) =
      publish
        (Event.abi_errors (record {
          block_num = r.head;
          block_timestamp = r.block_header.timestamp;
          account = account;
          error = e;
        }))
        r

  unfoldable pub save_contract_abi : ℕ → Bytes → Exec (ReceiverOf w) (Unit {0})
  unfolding init_contract_abi_ctxt use_abi save_contract_abi_history
  save_contract_abi account abi r =
      save_contract_abi_history account abi
        (report_abi_error account (use_abi account abi (drop_imported account r)))

  -- Loads the ABI that was found; whether the decoder accepts it is not looked at.
  abbrev load_abi : ℕ → Option Bytes → ReceiverOf w → Bool × ReceiverOf w
  load_abi account none r = (false, r)
  load_abi account (some abi) r =
      let s = (set_abi_bin account abi r).1 in
      (true, record s { contract_abi_imported = insert account s.contract_abi_imported })

  abbrev history_abi : Option AbiHistory → Option Bytes
  history_abi none = none
  history_abi (some x) = some x.abi

  abbrev latest_abi : Option ContractAbi → Option Bytes
  latest_abi none = none
  latest_abi (some x) = some x.abi

  unfoldable pub get_contract_abi_ready : ℕ → ReceiverOf w → Bool × ReceiverOf w
  unfolding set_abi_bin
  get_contract_abi_ready account r =
      if contains account r.contract_abi_imported
      then (true, r)
      else if r.config.interactive_mode
      then load_abi account (history_abi (w.lower_bound_rev (account, r.head) (tables r).history)) r
      else load_abi account (latest_abi (w.abis.find account (tables r).abis)) r
