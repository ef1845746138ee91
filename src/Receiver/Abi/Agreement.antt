-- ===== src/Receiver/Abi/Agreement.antt =====
-- The operations on ABIs keep the decoder's context in agreement with the table, and what each of
-- them leaves in the tables.
use eos_chronicle.Base.{
  ℕ, ◌≡◌, refl, ap, sym, ◌∙◌, subst, false, Option, none, some, [], if◌then◌else◌, ◌&&◌, contains,
  Bool-cases, inl, inr, is_some, ◌==◌, ==_iff, ==_refl,
}
use eos_chronicle.Base.Exec.{ok}
use eos_chronicle.Store.Rows.{Bytes, ContractAbi}
use eos_chronicle.Store.Keyed.{by_number, by_name_and_block}
use eos_chronicle.Store.Keyed.Find.{by_number-OrderLaws}
use eos_chronicle.Store.Find.{find-remove, find-same}
use mathlib.Core.Path.{ap₂}
use eos_chronicle.Messages.Events.{Event}
use eos_chronicle.Receiver.State.{ReceiverOf, TablesOf, World, publish}
use eos_chronicle.Receiver.Laws.{Laws}
use eos_chronicle.Receiver.Abi.{
  tables, set_tables, set_in, drop_imported, clear_row, load_abi, set_abi_bin, save_contract_abi,
  clear_contract_abi, get_contract_abi_ready, latest_abi,
}
use eos_chronicle.Receiver.Abi.Tables.{tables-set_tables, save_contract_abi_history_lem}
use eos_chronicle.Receiver.Abi.Cache.{loaded_in, set_in_accepted, CacheOk-loaded, CacheOk-removed}
use eos_chronicle.Receiver.Abi.Saving.{
  CacheInv, CacheOk-of, drop_imported_lem, after_try, after_try_lem,
}

module _ (w : World) (l : Laws w) where
  -- Where the context agrees with the table of latest ABIs, save_contract_abi does not fail, keeps the
  -- agreement, writes the ABI there exactly where the decoder accepts it and leaves
  -- every other contract, and records the bytes in the history at the head in any case.
  pub save_contract_abi_lem :
      (a : ℕ) (abi : Bytes) (r : ReceiverOf w)
      → CacheInv w l r
      → let (result, s) = save_contract_abi w a abi r in
        CacheInv w l s
        × (result ≡ ok tt)
        × ((k : ℕ)
            → w.abis.find k (tables w s).abis ≡ (
                if k == a
                then (if l.decoder.accepts abi
                    then some (record { account = a; abi = abi })
                    else w.abis.find k (tables w r).abis)
                else w.abis.find k (tables w r).abis))
        × ((k : ℕ × ℕ)
            → w.history.find k (tables w s).history ≡ (
                if by_name_and_block.same k (a, r.head)
                then some (record { account = a; block_index = r.head; abi = abi })
                else w.history.find k (tables w r).history))
  unfolding save_contract_abi
  save_contract_abi_lem a abi r inv =
      let s = after_try w l a abi r in
      let (kept, head, history, finds) = after_try_lem w l a abi r inv in
      let (h, saved, versions) = save_contract_abi_history_lem w l a abi s in
      let now = tables-set_tables w l (record (tables w s) { history = h }) s in
      rw saved (
        CacheOk-of w l refl refl (ap (λ x. x.abis) now) kept,
        refl,
        λ k. ap (λ x. w.abis.find k x.abis) now ∙ finds k,
        λ k.
            ap (λ x. w.history.find k x.history) now
            ∙ subst
                (λ (n : ℕ). w.history.find k h ≡ (
                  if by_name_and_block.same k (a, n)
                  then some (record { account = a; block_index = n; abi = abi })
                  else w.history.find k (tables w r).history))
                head
                (versions k
                  ∙ ap
                      (λ t.
                        if by_name_and_block.same k (a, s.head)
                        then some (record { account = a; block_index = s.head; abi = abi })
                        else w.history.find k t)
                      history),
      )

  cleared :
      (a : ℕ) (o : Option ContractAbi) (s : ReceiverOf w)
      → w.abis.find a (tables w s).abis ≡ o
      → CacheInv w l s
      → contains a s.contract_abi_imported ≡ false
      → let (result, u) = clear_row w a o s in
        CacheInv w l u
        × (result ≡ ok tt)
        × ((k : ℕ)
            → w.abis.find k (tables w u).abis
              ≡ (if k == a then none else w.abis.find k (tables w s).abis))
        × ((k : ℕ × ℕ)
            → w.history.find k (tables w u).history ≡ (
                if is_some o && by_name_and_block.same k (a, s.head)
                then some (record { account = a; block_index = s.head; abi = [] })
                else w.history.find k (tables w s).history))
  cleared a none s e inv out = (
    inv,
    refl,
    λ k. elim (Bool-cases (k == a)) [
      | inl same ↦ rw same (rw ((==_iff k a).0 same) e)
      | inr n ↦ rw n
    ],
    λ k. refl,
  )
  cleared a (some x) s e inv out =
      let t = record (tables w s) { abis = w.abis.remove x (tables w s).abis } in
      let u = set_tables w t s in
      let removal =
        Event.abi_removals (record {
          block_num = s.head;
          block_timestamp = s.block_header.timestamp;
          account = a;
        }) in
      let v = publish removal u in
      let (h, saved, versions) = save_contract_abi_history_lem w l a [] v in
      let first = tables-set_tables w l t s in
      let now = tables-set_tables w l (record (tables w v) { history = h }) v in
      let key = find-same by_number (λ y. y.account) w.abis by_number-OrderLaws l.abis a x _ e in
      let gone : (k : ℕ)
          → w.abis.find k t.abis ≡ (if k == a then none else w.abis.find k (tables w s).abis) =
        λ k.
          subst
            (λ (n : ℕ).
              w.abis.find k t.abis ≡ (if k == n then none else w.abis.find k (tables w s).abis))
            (sym ((==_iff a x.account).0 key))
            (find-remove by_number (λ y. y.account) w.abis by_number-OrderLaws l.abis k x
              (tables w s).abis) in
      let abis = ap (λ y. y.abis) now ∙ ap (λ y. y.abis) first in
      rw saved (
        CacheOk-of w l refl refl abis (CacheOk-removed w l inv a _ out gone),
        refl,
        λ k. ap (λ y. w.abis.find k y) abis ∙ gone k,
        λ k.
            ap (λ y. w.history.find k y.history) now
            ∙ versions k
            ∙ ap
                (λ y.
                  if by_name_and_block.same k (a, s.head)
                  then some (record { account = a; block_index = s.head; abi = [] })
                  else w.history.find k y.history)
                first,
      )

  -- Where the context agrees with the table of latest ABIs, clear_contract_abi does not fail, keeps the
  -- agreement, removes the contract's row and no other, and records an empty version at the head
  -- exactly where there was a row.
  pub clear_contract_abi_lem :
      (a : ℕ) (r : ReceiverOf w)
      → CacheInv w l r
      → let (result, s) = clear_contract_abi w a r in
        CacheInv w l s
        × (result ≡ ok tt)
        × ((k : ℕ)
            → w.abis.find k (tables w s).abis
              ≡ (if k == a then none else w.abis.find k (tables w r).abis))
        × ((k : ℕ × ℕ)
            → w.history.find k (tables w s).history ≡ (
                if is_some (w.abis.find a (tables w r).abis) && by_name_and_block.same k (a, r.head)
                then some (record { account = a; block_index = r.head; abi = [] })
                else w.history.find k (tables w r).history))
  unfolding clear_contract_abi
  clear_contract_abi_lem a r inv =
      let (kept, out, db, head) = drop_imported_lem w l a r inv in
      let s = drop_imported w a r in
      let before = ap (λ x. w.database.contents x) db in
      let found = w.abis.find a (tables w s).abis in
      let (done, result, latest, versions) = cleared a found s refl kept out in
      (
        done,
        result,
        λ k. latest k ∙ ap (λ y. if k == a then none else w.abis.find k y.abis) before,
        λ k.
            versions k
            ∙ ap₂
                (λ (y : TablesOf w) n.
                  if is_some (w.abis.find a y.abis) && by_name_and_block.same k (a, n)
                  then some (record { account = a; block_index = n; abi = [] })
                  else w.history.find k y.history)
                before head,
      )

  loaded :
      (a : ℕ) (o : Option ContractAbi) (r : ReceiverOf w)
      → w.abis.find a (tables w r).abis ≡ o
      → CacheInv w l r
      → let (ready, s) = load_abi w a (latest_abi w o) r in
        CacheInv w l s
        × (ready ≡ is_some o)
        × (s.db ≡ r.db)
        × ((x : ContractAbi) → o ≡ some x → loaded_in w l s.contract_abi_ctxt a ≡ some x.abi)
  unfolding set_abi_bin
  loaded a none r e inv = (inv, refl, refl, λ x h. cc)
  loaded a (some x) r e inv = (
    CacheOk-loaded w l inv a x (tables w r).abis (inv.valid a x e) (λ k.
        elim (Bool-cases (k == a)) [
          | inl same ↦ rw same (rw ((==_iff k a).0 same) e)
          | inr n ↦ rw n
        ]),
    refl,
    refl,
    λ y h.
        let held : loaded_in w l (set_in w r.contract_abi_ctxt a x.abi).1 a ≡ some x.abi =
          set_in_accepted w l r.contract_abi_ctxt a a x.abi inv.ready (inv.valid a x e)
          ∙ (rw (==_refl a) refl) in
        cc,
  )

  -- In a scanning mode where the context agrees with the table, get_contract_abi_ready answers whether the table has an ABI for the contract,
  -- and then the context holds that ABI; the database does not change and the agreement is kept.
  pub get_contract_abi_ready_lem :
      (a : ℕ) (r : ReceiverOf w)
      → r.config.interactive_mode ≡ false
      → CacheInv w l r
      → let (ready, s) = get_contract_abi_ready w a r in
        CacheInv w l s
        × (ready ≡ is_some (w.abis.find a (tables w r).abis))
        × (s.db ≡ r.db)
        × ((x : ContractAbi)
            → w.abis.find a (tables w r).abis ≡ some x
            → loaded_in w l s.contract_abi_ctxt a ≡ some x.abi)
  unfolding get_contract_abi_ready
  get_contract_abi_ready_lem a r scanning inv =
      elim (Bool-cases (contains a r.contract_abi_imported)) [
        | inl old ↦
            let (x, found, held) = inv.current a old in rw old (inv, rw found, refl, λ y h. cc)
        | inr new ↦ simp (new, scanning) (loaded a (w.abis.find a (tables w r).abis) r refl inv)
      ]
