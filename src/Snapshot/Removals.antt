-- ===== src/Snapshot/Removals.antt =====
-- What a snapshot loses.
use eos_chronicle.Base.{
  ℕ, ◌≡◌, refl, sym, ap, ◌∙◌, subst, false, none, some, List, [], ◌∷◌, arith, Bool-cases, inl, inr,
}
use eos_chronicle.Store.Rows.{StateObject, AbiHistory}
use eos_chronicle.Store.Keyed.{by_name_and_block, find_row, AllAbove, Ascending}
use eos_chronicle.Receiver.State.{TablesOf, World}
use eos_chronicle.Receiver.Laws.{Laws, history_key}
use eos_chronicle.Snapshot.{has_bytes, versions_with_abi}
use eos_chronicle.Snapshot.RoundTrip.{Sorted, Copied, AllAbove-versions_with_abi}

module _ (w : World) (l : Laws w) where
  not_above :
      (k : ℕ × ℕ) (xs : List AbiHistory)
      → AllAbove by_name_and_block history_key k xs
      → find_row by_name_and_block history_key k xs ≡ none
  unfolding find_row
  not_above k [] a = refl
  not_above k (x ∷ xs) (h, a) =
      let other : by_name_and_block.same k (history_key x) ≡ false = ground arith in
      ground (arith, not_above k xs a)

  without_empty :
      (k : ℕ × ℕ) (y : AbiHistory) (xs : List AbiHistory)
      → Ascending by_name_and_block history_key xs
      → find_row by_name_and_block history_key k xs ≡ some y
      → y.abi ≡ []
      → find_row by_name_and_block history_key k (versions_with_abi xs) ≡ none
  unfolding find_row
  without_empty k y [] a f e = cc
  without_empty k y (x ∷ xs) (h, a) f e =
      elim (Bool-cases (by_name_and_block.same k (history_key x))) [
        | inl here ↦
            let same : x ≡ y = ground arith in
            let bare : has_bytes x.abi ≡ false = rw (same, e) refl in
            let key : k ≡ history_key x = ground arith in
            simp bare (
              subst
                (λ (j : ℕ × ℕ).
                  find_row by_name_and_block history_key j (versions_with_abi xs) ≡ none)
                (sym key)
                (not_above (history_key x) (versions_with_abi xs)
                  (AllAbove-versions_with_abi (history_key x) xs h)))
        | inr later ↦
            let rest = without_empty k y xs a (simp later at f) e in
            elim (Bool-cases (has_bytes x.abi)) [
              | inl full ↦ simp full (simp later rest)
              | inr bare ↦ simp bare rest
            ]
      ]

  -- A version without bytes, which records that the contract's ABI was removed, is not in a database
  -- that was restored from a snapshot.
  pub Copied-removal :
      (x : StateObject) (t u : TablesOf w) (k : ℕ × ℕ) (y : AbiHistory)
      → Sorted w l t
      → Copied w l x t u
      → w.history.find k t.history ≡ some y
      → y.abi ≡ []
      → w.history.find k u.history ≡ none
  Copied-removal x t u k y sorted copied found removed =
      l.history.find_rows k u.history
      ∙ ap (find_row by_name_and_block history_key k) copied.history
      ∙ without_empty k y (w.history.rows t.history) sorted.history
          (sym (l.history.find_rows k t.history) ∙ found) removed
