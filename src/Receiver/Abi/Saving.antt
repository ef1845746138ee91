-- ===== src/Receiver/Abi/Saving.antt =====
-- save_contract_abi, clear_contract_abi and get_contract_abi_ready keep the context in agreement
-- with the table, and what they leave in the tables.
use eos_chronicle.Base.{
  ℕ, ◌≡◌, refl, ap, ◌∙◌, true, false, Option, none, some, List, [], if◌then◌else◌, contains, insert,
  Option-cases, Bool-cases, inl, inr, is_some, arith, ◌==◌,
}
use eos_chronicle.Base.Exec.{Error, Result, ok, err}
use eos_chronicle.Store.Rows.{Bytes, ContractAbi}
use eos_chronicle.Receiver.State.{ReceiverOf, World}
use eos_chronicle.Receiver.Laws.{Laws}
use eos_chronicle.Receiver.Abi.{
  tables, set_in, drop_imported, forget_imported, init_contract_abi_ctxt, use_abi, report_abi_error,
}
use eos_chronicle.Receiver.Abi.Tables.{tables-set_tables, save_row_lem}
use eos_chronicle.Receiver.Abi.Cache.{
  CacheOk, set_in_lem, CacheOk-fresh, CacheOk-refused, CacheOk-loaded,
}

pub forget_imported-some :
    {C : Type 0} (c : Option C) (names : List ℕ) → is_some c ≡ true → forget_imported c names ≡ []
forget_imported-some none names h = cc
forget_imported-some (some c) names h = refl

module _ (w : World) (l : Laws w) where
  abbrev pub CacheInv : ReceiverOf w → Type 0
  CacheInv r = CacheOk w l r.contract_abi_ctxt r.contract_abi_imported (tables w r).abis

  -- The context is dropped where it holds the contract.
  pub drop_imported_lem :
      (a : ℕ) (r : ReceiverOf w)
      → CacheInv r
      → let s = drop_imported w a r in
        CacheInv s
        × (contains a s.contract_abi_imported ≡ false)
        × (s.db ≡ r.db)
        × (s.head ≡ r.head)
  unfolding init_contract_abi_ctxt
  drop_imported_lem a r inv = elim (Bool-cases (contains a r.contract_abi_imported)) [
    | inl e ↦
        rw (e, forget_imported-some r.contract_abi_ctxt r.contract_abi_imported inv.ready)
          (CacheOk-fresh w l inv, refl, refl, refl)
    | inr e ↦ rw e (inv, e, refl, refl)
  ]

  use_abi_accepted :
      (a : ℕ) (abi : Bytes) (r : ReceiverOf w)
      → is_some r.contract_abi_ctxt ≡ true
      → l.decoder.accepts abi ≡ true
      → (t : w.abis.Table) × ((k : ℕ)
          → w.abis.find k t ≡ (
              if k == a
              then some (record { account = a; abi = abi })
              else w.abis.find k (tables w r).abis))
        × (let s = (use_abi w a abi r).1 in
            (tables w s ≡ record (tables w r) { abis = t })
            × (s.contract_abi_ctxt ≡ (set_in w r.contract_abi_ctxt a abi).1)
            × (s.contract_abi_imported ≡ insert a r.contract_abi_imported)
            × (s.head ≡ r.head))
  unfolding use_abi
  use_abi_accepted a abi r ready v =
      let c = (set_in w r.contract_abi_ctxt a abi).1 in
      let u = record r {
        contract_abi_ctxt = c;
        contract_abi_imported = insert a r.contract_abi_imported;
      } in
      let (t, saved, finds) = save_row_lem w l a abi u in
      (
        t,
        finds,
        rw ((set_in_lem w l r.contract_abi_ctxt a abi ready).0, v, saved)
            (elim (Bool-cases r.subscribers.abi_updates) [
              | inr e ↦ rw e (tables-set_tables w l _ u, refl, refl, refl)
              | inl e ↦ rw e (elim (Option-cases (w.codec.abi_def_from_bin abi)) [
                | inl n ↦ rw n (tables-set_tables w l _ u, refl, refl, refl)
                | inr (d, n) ↦ rw n (tables-set_tables w l _ u, refl, refl, refl)
              ])
            ]),
      )

  use_abi_refused :
      (a : ℕ) (abi : Bytes) (r : ReceiverOf w)
      → is_some r.contract_abi_ctxt ≡ true
      → l.decoder.accepts abi ≡ false
      → let (result, s) = use_abi w a abi r in
        (s ≡ record r { contract_abi_ctxt = (set_in w r.contract_abi_ctxt a abi).1 })
        × (result ≡ err Error.abi_refused)
  unfolding use_abi
  use_abi_refused a abi r ready v =
      rw ((set_in_lem w l r.contract_abi_ctxt a abi ready).0, v) (refl, refl)

  -- The catch block only publishes.
  report_abi_error_lem :
      (a : ℕ) (o : Result (Unit {0}) × ReceiverOf w)
      → let s = report_abi_error w a o in
        (s.db ≡ o.1.db)
        × (s.contract_abi_ctxt ≡ o.1.contract_abi_ctxt)
        × (s.contract_abi_imported ≡ o.1.contract_abi_imported)
        × (s.head ≡ o.1.head)
  report_abi_error_lem a (ok u, r) = (refl, refl, refl, refl)
  report_abi_error_lem a (err e, r) = (refl, refl, refl, refl)

  pub CacheOk-of :
      {c d : Option w.decoder.Context} {ns ms : List ℕ} {t u : w.abis.Table}
      → c ≡ d
      → ns ≡ ms
      → t ≡ u
      → CacheOk w l d ms u
      → CacheOk w l c ns t
  CacheOk-of p q e kept = rw (p, q, e) kept

  -- The part of save_contract_abi before the history, in one statement.
  abbrev pub after_try : ℕ → Bytes → ReceiverOf w → ReceiverOf w
  after_try a abi r = report_abi_error w a (use_abi w a abi (drop_imported w a r))

  pub after_try_lem :
      (a : ℕ) (abi : Bytes) (r : ReceiverOf w)
      → CacheInv r
      → let s = after_try a abi r in
        CacheInv s
        × (s.head ≡ r.head)
        × ((tables w s).history ≡ (tables w r).history)
        × ((k : ℕ)
            → w.abis.find k (tables w s).abis ≡ (
                if k == a
                then (if l.decoder.accepts abi
                    then some (record { account = a; abi = abi })
                    else w.abis.find k (tables w r).abis)
                else w.abis.find k (tables w r).abis))
  after_try_lem a abi r inv =
      let d = drop_imported w a r in
      let (kept, out, same_db, same_head) = drop_imported_lem a r inv in
      let o = use_abi w a abi d in
      let (db, context, names, head) = report_abi_error_lem a o in
      let before = ap (λ x. w.database.contents x) same_db in
      elim (Bool-cases (l.decoder.accepts abi)) [
        | inl v ↦
            let (t, finds, s) = use_abi_accepted a abi d kept.ready v in
            let now = ap (λ x. w.database.contents x) db ∙ s.0 in
            let row : ContractAbi = record { account = a; abi = abi } in
            (
              CacheOk-of (context ∙ s.1) (names ∙ s.2) (ap (λ x. x.abis) now)
                  (CacheOk-loaded w l kept a row t v finds),
              head ∙ s.3 ∙ same_head,
              ap (λ x. x.history) now ∙ ap (λ x. x.history) before,
              λ k. rw (v, ap (λ x. x.abis) now, finds k, ap (λ x. x.abis) before) refl,
            )
        | inr v ↦
            let (s, failed) = use_abi_refused a abi d kept.ready v in
            let now = ap (λ x. w.database.contents x) (db ∙ ap (λ x. x.db) s) in
            (
              CacheOk-of (context ∙ ap (λ x. x.contract_abi_ctxt) s)
                  (names ∙ ap (λ x. x.contract_abi_imported) s) (ap (λ x. x.abis) now)
                  (CacheOk-refused w l kept a abi out v),
              head ∙ ap (λ x. x.head) s ∙ same_head,
              ap (λ x. x.history) now ∙ ap (λ x. x.history) before,
              λ k. rw (v, ap (λ x. x.abis) now, ap (λ x. x.abis) before) (ground arith),
            )
      ]
