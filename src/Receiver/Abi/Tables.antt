-- ===== src/Receiver/Abi/Tables.antt =====
-- What the writers of the ABI tables leave in them.
use eos_chronicle.Base.{ℕ, ◌≡◌, refl, some, if◌then◌else◌, Option-cases, inl, inr, ◌==◌}
use eos_chronicle.Base.Exec.{ok}
use eos_chronicle.Store.Rows.{Bytes, ContractAbi, AbiHistory}
use eos_chronicle.Store.Keyed.{by_number, by_name_and_block}
use eos_chronicle.Store.Keyed.Find.{by_number-OrderLaws, by_name_and_block-OrderLaws}
use eos_chronicle.Store.Find.{find-create, find-modify}
use eos_chronicle.Receiver.State.{ReceiverOf, TablesOf, World}
use eos_chronicle.Receiver.Laws.{Laws, history_key}
use eos_chronicle.Receiver.Abi.{
  tables, set_tables, history_with, abis_with, save_row, save_contract_abi_history,
}

module _ (w : World) (l : Laws w) where
  -- The tables of a receiver whose tables were set.
  pub tables-set_tables : (t : TablesOf w) (r : ReceiverOf w) → tables w (set_tables w t r) ≡ t
  tables-set_tables t r = (l.database.update_lem t r.db).0

  -- The row of a version is written, whether there was one or not.
  pub history_with_lem :
      (row : AbiHistory) (t : w.history.Table)
      → (u : w.history.Table) × (history_with w (w.history.find (history_key row) t) row t ≡ some u)
        × ((k : ℕ × ℕ)
            → w.history.find k u ≡ (
                if by_name_and_block.same k (history_key row)
                then some row
                else w.history.find k t))
  history_with_lem row t = elim (Option-cases (w.history.find (history_key row) t)) [
    | inl e ↦
        let (u, made, finds) =
          find-create by_name_and_block history_key w.history by_name_and_block-OrderLaws l.history
            row t e in
        (u, rw e made, finds)
    | inr (x, e) ↦ (
      w.history.modify row t,
      rw e refl,
      λ k.
          find-modify by_name_and_block history_key w.history by_name_and_block-OrderLaws l.history
            k row t (rw e refl),
    )
  ]

  pub abis_with_lem :
      (row : ContractAbi) (t : w.abis.Table)
      → (u : w.abis.Table) × (abis_with w (w.abis.find row.account t) row t ≡ some u)
        × ((k : ℕ) → w.abis.find k u ≡ (if k == row.account then some row else w.abis.find k t))
  abis_with_lem row t = elim (Option-cases (w.abis.find row.account t)) [
    | inl e ↦
        let (u, made, finds) =
          find-create by_number (λ x. x.account) w.abis by_number-OrderLaws l.abis row t e in
        (u, rw e made, finds)
    | inr (x, e) ↦ (
      w.abis.modify row t,
      rw e refl,
      λ k.
          find-modify by_number (λ x. x.account) w.abis by_number-OrderLaws l.abis k row t
            (rw e refl),
    )
  ]

  -- A version is written for the account at the head, and nothing else changes.
  pub save_contract_abi_history_lem :
      (account : ℕ) (abi : Bytes) (r : ReceiverOf w)
      → (h : w.history.Table) × (save_contract_abi_history w account abi r
          ≡ (ok tt, set_tables w (record (tables w r) { history = h }) r))
        × ((k : ℕ × ℕ)
            → w.history.find k h ≡ (
                if by_name_and_block.same k (account, r.head)
                then some (record { account = account; block_index = r.head; abi = abi })
                else w.history.find k (tables w r).history))
  unfolding save_contract_abi_history
  save_contract_abi_history_lem account abi r =
      let row : AbiHistory = record { account = account; block_index = r.head; abi = abi } in
      let (u, made, finds) = history_with_lem row (tables w r).history in (u, rw made refl, finds)

  -- The same for the latest ABI.
  pub save_row_lem :
      (account : ℕ) (abi : Bytes) (r : ReceiverOf w)
      → (t : w.abis.Table) × (save_row w account abi r
          ≡ (ok tt, set_tables w (record (tables w r) { abis = t }) r))
        × ((k : ℕ)
            → w.abis.find k t ≡ (
                if k == account
                then some (record { account = account; abi = abi })
                else w.abis.find k (tables w r).abis))
  save_row_lem account abi r =
      let row : ContractAbi = record { account = account; abi = abi } in
      let (u, made, finds) = abis_with_lem row (tables w r).abis in (u, rw made refl, finds)
