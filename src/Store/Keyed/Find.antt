-- ===== src/Store/Keyed/Find.antt =====
-- find_row after place, replace and erase.
use eos_chronicle.Base.{◌≡◌, refl, true, none, some, List, [], ◌∷◌, arith, if◌then◌else◌, is_some}
use eos_chronicle.Store.Keyed.{Order, by_number, by_name_and_block, find_row, place, replace, erase}

-- The test for equal keys: two keys that are the same key are the same, and it is reflexive.
pub record OrderLaws {Key : Type 0} (order : Order Key) : Type 0 where
  pub same_refl : (k : Key) → order.same k k ≡ true
  pub same_euclid :
      (k a b : Key) → order.same k a ≡ true → order.same k b ≡ true → order.same b a ≡ true
  pub same_join :
      (k a b : Key) → order.same a k ≡ true → order.same b k ≡ true → order.same a b ≡ true

pub by_number-OrderLaws : OrderLaws by_number
by_number-OrderLaws = record {
  same_refl = λ k. ground arith;
  same_euclid = λ k a b h g. ground arith;
  same_join = λ k a b h g. ground arith;
}

pub by_name_and_block-OrderLaws : OrderLaws by_name_and_block
by_name_and_block-OrderLaws = record {
  same_refl = λ k. ground arith;
  same_euclid = λ k a b h g. ground arith;
  same_join = λ k a b h g. ground arith;
}

module _ {Row Key : Type 0} (order : Order Key) (laws : OrderLaws order) (key : Row → Key) where
  pub find_row-place :
      (k : Key) (r : Row) (xs : List Row)
      → find_row order key (key r) xs ≡ none
      → find_row order key k (place order key r xs)
        ≡ (if order.same k (key r) then some r else find_row order key k xs)
  unfolding find_row place
  find_row-place k r [] h = refl
  find_row-place k r (x ∷ xs) h =
      ground (arith, find_row-place k r xs, laws.same_euclid k (key x) (key r))

  pub find_row-replace :
      (k : Key) (r : Row) (xs : List Row)
      → is_some (find_row order key (key r) xs) ≡ true
      → find_row order key k (replace order key r xs)
        ≡ (if order.same k (key r) then some r else find_row order key k xs)
  unfolding find_row replace
  find_row-replace k r [] h = ground arith
  find_row-replace k r (x ∷ xs) h = ground (
    arith,
    find_row-replace k r xs,
    laws.same_euclid k (key x) (key r),
    laws.same_join (key x) k (key r),
  )

  pub find_row-erase :
      (k : Key) (r : Row) (xs : List Row)
      → find_row order key k (erase order key r xs)
        ≡ (if order.same k (key r) then none else find_row order key k xs)
  unfolding find_row erase
  find_row-erase k r [] = ground arith
  find_row-erase k r (x ∷ xs) = ground (
    arith,
    find_row-erase k r xs,
    laws.same_euclid k (key x) (key r),
    laws.same_join (key x) k (key r),
  )

module _ {Row Key : Type 0} (order : Order Key) (key : Row → Key) where
  -- What is found has the key.
  pub find_row-same :
      (k : Key) (x : Row) (xs : List Row)
      → find_row order key k xs ≡ some x
      → order.same k (key x) ≡ true
  unfolding find_row
  find_row-same k x [] h = cc
  find_row-same k x (y ∷ xs) h = ground (arith, find_row-same k x xs)
