-- ===== src/Receiver/Abi/Framed.antt =====
-- The operations on ABIs stay in the frame.
use eos_chronicle.Base.{
  ℕ, refl, Bool, true, false, Option, none, some, List, [], if◌then◌else◌, contains, insert,
}
use eos_chronicle.Base.Exec.{Error, Result, ok, err, ◌>>=◌}
use eos_chronicle.Store.Rows.{Bytes, ContractAbi}
use eos_chronicle.Receiver.State.{ReceiverOf, World}
use eos_chronicle.Receiver.Laws.{Laws}
use eos_chronicle.Receiver.Abi.{
  tables, with_history, with_abis, init_contract_abi_ctxt, set_abi_bin, drop_imported, save_row,
  clear_row, use_abi, publish_abi_update, report_abi_error, load_abi, latest_abi, history_abi,
  save_contract_abi_history, clear_contract_abi, save_contract_abi, get_contract_abi_ready,
}
use eos_chronicle.Receiver.Frame.{
  Frame, Framed, Frame-refl, Frame-trans, Frame-set_tables, Frame-publish, Frame-if, Framed-bind,
}

module _ (w : World) (l : Laws w) where
  -- A change of the context and of the names of loaded contracts alone.
  context-Frame :
      (r : ReceiverOf w) (c : Option w.decoder.Context) (names : List ℕ)
      → Frame w l r (record r { contract_abi_ctxt = c; contract_abi_imported = names })
  context-Frame r c names = record { only = refl; revision = refl; kept = refl }

  with_history-Frame :
      (h : Option w.history.Table) (r : ReceiverOf w) → Frame w l r (with_history w h r).1
  with_history-Frame none r = Frame-refl w l r
  with_history-Frame (some h) r = Frame-set_tables w l _ r

  with_abis-Frame : (t : Option w.abis.Table) (r : ReceiverOf w) → Frame w l r (with_abis w t r).1
  with_abis-Frame none r = Frame-refl w l r
  with_abis-Frame (some h) r = Frame-set_tables w l _ r

  history_frame : (account : ℕ) (abi : Bytes) → Framed w l (save_contract_abi_history w account abi)
  unfolding save_contract_abi_history
  history_frame account abi = record { at = λ r. with_history-Frame _ r }

  drop-Frame : (account : ℕ) (r : ReceiverOf w) → Frame w l r (drop_imported w account r)
  unfolding init_contract_abi_ctxt
  drop-Frame account r =
      Frame-if w l (contains account r.contract_abi_imported) _ _ (context-Frame r _ _)
        (Frame-refl w l r)

  clear_row_frame : (account : ℕ) (o : Option ContractAbi) → Framed w l (clear_row w account o)
  clear_row_frame account none = record { at = Frame-refl w l }
  clear_row_frame account (some x) = record {
    at = λ r.
        Frame-trans w l (Frame-set_tables w l _ r)
          (Frame-trans w l (Frame-publish w l _ _) ((history_frame account []).at _));
  }

  pub clear_contract_abi-Framed : (account : ℕ) → Framed w l (clear_contract_abi w account)
  unfolding clear_contract_abi
  clear_contract_abi-Framed account = record {
    at = λ r. Frame-trans w l (drop-Frame account r) ((clear_row_frame account _).at _);
  }

  publish_abi_frame :
      (account : ℕ) (abi : Bytes) (o : Option Bytes)
      → Framed w l (publish_abi_update w account abi o)
  publish_abi_frame account abi none = record { at = Frame-refl w l }
  publish_abi_frame account abi (some d) = record { at = λ r. Frame-publish w l _ r }

  report-Frame :
      (account : ℕ) (r : ReceiverOf w) (o : Result (Unit {0})) (s : ReceiverOf w)
      → Frame w l r s
      → Frame w l r (report_abi_error w account (o, s))
  report-Frame account r (ok u) s h = h
  report-Frame account r (err e) s h = Frame-trans w l h (Frame-publish w l _ s)

  save_row_frame : (account : ℕ) (abi : Bytes) → Framed w l (save_row w account abi)
  save_row_frame account abi = record { at = λ r. with_abis-Frame _ r }

  announced :
      (account : ℕ) (abi : Bytes)
      → Framed w l (λ v.
        if v.subscribers.abi_updates
        then publish_abi_update w account abi (w.codec.abi_def_from_bin abi) v
        else (ok tt, v))
  announced account abi = record { at = λ v. split v v.subscribers.abi_updates }
    where
      split :
          (v : ReceiverOf w) (b : Bool)
          → Frame w l v
              (if b
                then publish_abi_update w account abi (w.codec.abi_def_from_bin abi) v
                else (ok tt, v)).1
      split v true = (publish_abi_frame account abi _).at v
      split v false = Frame-refl w l v

  use_abi-Framed : (account : ℕ) (abi : Bytes) → Framed w l (use_abi w account abi)
  unfolding use_abi
  use_abi-Framed account abi = record { at = λ r. split r (set_abi_bin w account abi r).0 }
    where
      split :
          (r : ReceiverOf w) (b : Bool)
          → let s = (set_abi_bin w account abi r).1 in
            Frame w l r
              (if b
                then ((save_row w account abi >>= λ u v.
                      if v.subscribers.abi_updates
                      then publish_abi_update w account abi (w.codec.abi_def_from_bin abi) v
                      else (ok tt, v))
                    (record s { contract_abi_imported = insert account s.contract_abi_imported }))
                else (err Error.abi_refused, s)).1
      split r true =
          Frame-trans w l (context-Frame r _ _)
            ((Framed-bind w l _ _ (save_row_frame account abi) (λ u. announced account abi)).at _)
      split r false = context-Frame r _ _

  pub save_contract_abi-Framed :
      (account : ℕ) (abi : Bytes) → Framed w l (save_contract_abi w account abi)
  unfolding save_contract_abi
  save_contract_abi-Framed account abi = record {
    at = λ r.
        Frame-trans w l
          (report-Frame account r _ _
            (Frame-trans w l (drop-Frame account r) ((use_abi-Framed account abi).at _)))
          ((history_frame account abi).at _);
  }

  load-Frame :
      (account : ℕ) (o : Option Bytes) (r : ReceiverOf w) → Frame w l r (load_abi w account o r).1
  unfolding set_abi_bin
  load-Frame account none r = Frame-refl w l r
  load-Frame account (some abi) r = context-Frame r _ _

  pub get_contract_abi_ready-Frame :
      (account : ℕ) (r : ReceiverOf w) → Frame w l r (get_contract_abi_ready w account r).1
  unfolding get_contract_abi_ready
  get_contract_abi_ready-Frame account r =
      split (contains account r.contract_abi_imported) r.config.interactive_mode
    where
      split :
          (a b : Bool)
          → Frame w l r
              (if a
                then (true, r)
                else if b
                then load_abi w account
                    (history_abi w (w.lower_bound_rev (account, r.head) (tables w r).history))
                    r
                else load_abi w account (latest_abi w (w.abis.find account (tables w r).abis)) r).1
      split true b = Frame-refl w l r
      split false true = load-Frame account _ r
      split false false = load-Frame account _ r
