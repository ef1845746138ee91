-- ===== src/Store/Keyed.antt =====
-- Lists of rows under a key: the vocabulary in which the laws of an ordered unique index are stated.
pub mod Find
pub mod Sorted
use eos_chronicle.Base.{
  ℕ, ◌≡◌, Bool, true, ◌&&◌, ◌||◌, Option, none, some, List, [], ◌∷◌, ltb, ◌==◌, if◌then◌else◌,
}

-- The order of an index's key.
pub record Order (Key : Type 0) : Type 0 where
  pub same : Key → Key → Bool
  pub less : Key → Key → Bool

abbrev pub by_number : Order ℕ
by_number = record { same = ◌==◌; less = ltb }

-- composite_key of the account and the block: lexicographic.
abbrev pub by_name_and_block : Order (ℕ × ℕ)
by_name_and_block = record {
  same = λ a b. a.0 == b.0 && a.1 == b.1;
  less = λ a b. ltb a.0 b.0 || (a.0 == b.0 && ltb a.1 b.1);
}

-- The same with the block descending (composite_key_compare<less, greater>).
abbrev pub by_name_and_block_rev : Order (ℕ × ℕ)
by_name_and_block_rev = record {
  same = λ a b. a.0 == b.0 && a.1 == b.1;
  less = λ a b. ltb a.0 b.0 || (a.0 == b.0 && ltb b.1 a.1);
}

module _ {Row Key : Type 0} (order : Order Key) (key : Row → Key) where
  -- The row with a key.
  unfoldable pub find_row : Key → List Row → Option Row
  find_row k [] = none
  find_row k (r ∷ rs) = if order.same k (key r) then some r else find_row k rs

  -- The rows with a new one in its place.
  unfoldable pub place : Row → List Row → List Row
  place r [] = r ∷ []
  place r (x ∷ xs) = if order.less (key r) (key x) then r ∷ x ∷ xs else x ∷ place r xs

  -- The rows with a new version of one.
  pub replace : Row → List Row → List Row
  replace r [] = []
  replace r (x ∷ xs) = if order.same (key r) (key x) then r ∷ xs else x ∷ replace r xs

  -- The rows without one.
  unfoldable pub erase : Row → List Row → List Row
  erase r [] = []
  erase r (x ∷ xs) = let rest = erase r xs in if order.same (key r) (key x) then rest else x ∷ rest

  -- Every key of the list is above `k`.
  abbrev pub AllAbove : Key → List Row → Type 0
  AllAbove k [] = Unit {0}
  AllAbove k (x ∷ xs) = (order.less k (key x) ≡ true) × AllAbove k xs

  -- The keys rise.
  abbrev pub Ascending : List Row → Type 0
  Ascending [] = Unit {0}
  Ascending (x ∷ xs) = AllAbove (key x) xs × Ascending xs
