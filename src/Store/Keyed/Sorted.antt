-- ===== src/Store/Keyed/Sorted.antt =====
-- Rows whose keys rise, under numbers: what place and erase do to them.
use eos_chronicle.Base.{
  ℕ, ◌<◌, ◌≤◌, ◌≡◌, refl, ap, false, none, List, [], ◌∷◌, arith, ltb, ◌==◌, Bool-cases, inl, inr,
}
use eos_chronicle.Store.Keyed.{by_number, find_row, place, erase, AllAbove, Ascending}

module _ {Row : Type 0} (key : Row → ℕ) where
  pub AllAbove-below :
      (j k : ℕ) (xs : List Row) → j ≤ k → AllAbove by_number key k xs → AllAbove by_number key j xs
  AllAbove-below j k [] h a = tt
  AllAbove-below j k (x ∷ xs) h a = (ground arith, AllAbove-below j k xs h a.1)

  -- A row below the others is not among them.
  pub erase-above :
      (r : Row) (xs : List Row) → AllAbove by_number key (key r) xs → erase by_number key r xs ≡ xs
  unfolding erase
  erase-above r [] a = refl
  erase-above r (x ∷ xs) a =
      let other : (key r == key x) ≡ false = ground arith in
      simp other (ap (◌∷◌ x) (erase-above r xs a.1))

  AllAbove-place :
      (k : ℕ) (r : Row) (xs : List Row)
      → k < key r
      → AllAbove by_number key k xs
      → AllAbove by_number key k (place by_number key r xs)
  unfolding place
  AllAbove-place k r [] h a = (ground arith, tt)
  AllAbove-place k r (x ∷ xs) h a = elim (Bool-cases (ltb (key r) (key x))) [
    | inl here ↦ simp here (ground arith, a)
    | inr later ↦ simp later (a.0, AllAbove-place k r xs h a.1)
  ]

  -- A new row takes its place.
  pub Ascending-place :
      (r : Row) (xs : List Row)
      → find_row by_number key (key r) xs ≡ none
      → Ascending by_number key xs
      → Ascending by_number key (place by_number key r xs)
  unfolding place find_row
  Ascending-place r [] free a = (tt, tt)
  Ascending-place r (x ∷ xs) free (above, rest) = elim (Bool-cases (ltb (key r) (key x))) [
    | inl here ↦
        simp here
          ((ground arith, AllAbove-below (key r) (key x) xs (ground arith) above), (above, rest))
    | inr later ↦
        let other : (key r == key x) ≡ false = ground arith in
        simp later (
          AllAbove-place (key x) r xs (ground arith) above,
          Ascending-place r xs (simp other at free) rest,
        )
  ]
