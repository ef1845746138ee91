-- ===== src/Receiver/Abi/Versions.antt =====
-- Which version of an ABI the interactive mode loads.
use eos_chronicle.Base.{
  ℕ, ◌≤◌, ◌<◌, ◌≡◌, ◌≢◌, refl, ◌∙◌, true, false, none, some, contains, Option-cases, inl, inr,
  is_some, arith, ==_refl,
}
use eos_chronicle.Store.Rows.{AbiHistory}
use eos_chronicle.Receiver.State.{ReceiverOf, World}
use eos_chronicle.Receiver.Laws.{Laws, history_key}
use eos_chronicle.Receiver.Abi.{tables, set_abi_bin, get_contract_abi_ready, load_abi, history_abi}
use eos_chronicle.Receiver.Abi.Cache.{loaded_in, set_in_accepted}

module _ (w : World) (l : Laws w) where
  -- The row at lower_bound is a version of the account where there is one up to the block, and then
  -- the last such.
  lower_bound_version :
      (a head b : ℕ) (y : AbiHistory) (t : w.history.Table)
      → w.history.find (a, b) t ≡ some y
      → b ≤ head
      → (x : AbiHistory) × (w.lower_bound_rev (a, head) t ≡ some x)
        × (w.history.find (a, x.block_index) t ≡ some x)
        × (x.account ≡ a)
        × (b ≤ x.block_index)
        × (x.block_index ≤ head)
  lower_bound_version a head b y t found below =
      elim (Option-cases (w.lower_bound_rev (a, head) t)) [
        | inl e ↦
            let before = l.lower_bound.lower_bound_none (a, head) t e (a, b) y found in
            absurd (ground arith)
        | inr (x, e) ↦
            let (stored, above, first) = l.lower_bound.lower_bound_some (a, head) t x e in
            let later = first (a, b) y found in
            let same : x.account ≡ a = ground arith in
            (x, e, rw (← same) stored, same, ground arith, ground arith)
      ]

  -- Past the versions of the account up to the block, lower_bound gives a row of another account.
  lower_bound_other :
      (a head c b : ℕ) (y : AbiHistory) (t : w.history.Table)
      → w.history.find (c, b) t ≡ some y
      → a < c
      → ((n : ℕ) → n ≤ head → w.history.find (a, n) t ≡ none)
      → (x : AbiHistory) × (w.lower_bound_rev (a, head) t ≡ some x) × (x.account ≢ a)
  lower_bound_other a head c b y t found later no_version =
      elim (Option-cases (w.lower_bound_rev (a, head) t)) [
        | inl e ↦
            let before = l.lower_bound.lower_bound_none (a, head) t e (c, b) y found in
            absurd (ground arith)
        | inr (x, e) ↦
            let (stored, above, first) = l.lower_bound.lower_bound_some (a, head) t x e in
            (
              x,
              e,
              λ same.
                  let low : x.block_index ≤ head = ground arith in
                  cc (no_version x.block_index low, rw same at stored),
            )
      ]

  loaded_version :
      (a : ℕ) (x : AbiHistory) (r : ReceiverOf w)
      → is_some r.contract_abi_ctxt ≡ true
      → l.decoder.accepts x.abi ≡ true
      → let (ready, s) = load_abi w a (history_abi w (some x)) r in
        (ready ≡ true) × (loaded_in w l s.contract_abi_ctxt a ≡ some x.abi)
  unfolding set_abi_bin
  loaded_version a x r ready v =
      (refl, set_in_accepted w l r.contract_abi_ctxt a a x.abi ready v ∙ (rw (==_refl a) refl))

  module _ (a : ℕ) (r : ReceiverOf w) (interactive : r.config.interactive_mode ≡ true)
      (new : contains a r.contract_abi_imported ≡ false)
      (ready : is_some r.contract_abi_ctxt ≡ true)
      (valid : (k : ℕ × ℕ) (x : AbiHistory)
        → w.history.find k (tables w r).history ≡ some x
        → l.decoder.accepts x.abi ≡ true) where
    -- In the interactive mode, with a context that has not loaded the contract and a history of ABIs that
    -- the decoder accepts: if the contract has a version up to the head, that of the
    -- head's own block included, get_contract_abi_ready loads one that is not older and not above the
    -- head; it can be the version of the head's own block.
    pub interactive_version :
        (b : ℕ) (y : AbiHistory)
        → w.history.find (a, b) (tables w r).history ≡ some y
        → b ≤ r.head
        → (x : AbiHistory) × (w.history.find (a, x.block_index) (tables w r).history ≡ some x)
          × (b ≤ x.block_index)
          × (x.block_index ≤ r.head)
          × ((get_contract_abi_ready w a r).0 ≡ true)
          × (loaded_in w l (get_contract_abi_ready w a r).1.contract_abi_ctxt a ≡ some x.abi)
    unfolding get_contract_abi_ready
    interactive_version b y found below =
        let (x, bound, stored, same, above, low) =
          lower_bound_version a r.head b y (tables w r).history found below in
        let (go, held) = loaded_version a x r ready (valid (a, x.block_index) x stored) in
        (
          x,
          stored,
          above,
          low,
          simp (new, interactive, bound) go,
          simp (new, interactive, bound) held,
        )

    -- In the same situation, if the contract has no version up to the head and a contract with a greater
    -- name has one, get_contract_abi_ready answers that the ABI is ready and has loaded an ABI of
    -- another contract.
    pub interactive_foreign_abi :
        (c b : ℕ) (y : AbiHistory)
        → w.history.find (c, b) (tables w r).history ≡ some y
        → a < c
        → ((n : ℕ) → n ≤ r.head → w.history.find (a, n) (tables w r).history ≡ none)
        → (x : AbiHistory) × (x.account ≢ a)
          × (w.history.find (history_key x) (tables w r).history ≡ some x)
          × ((get_contract_abi_ready w a r).0 ≡ true)
          × (loaded_in w l (get_contract_abi_ready w a r).1.contract_abi_ctxt a ≡ some x.abi)
    unfolding get_contract_abi_ready
    interactive_foreign_abi c b y found later no_version =
        let (x, bound, other) =
          lower_bound_other a r.head c b y (tables w r).history found later no_version in
        let stored = (l.lower_bound.lower_bound_some (a, r.head) (tables w r).history x bound).0 in
        let (go, held) = loaded_version a x r ready (valid (history_key x) x stored) in
        (x, other, stored, simp (new, interactive, bound) go, simp (new, interactive, bound) held)
