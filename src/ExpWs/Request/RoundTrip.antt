-- ===== src/ExpWs/Request/RoundTrip.antt =====
-- What a consumer writes in decimal digits is read as the number that it means.
use eos_chronicle.Base.{
  ℕ, zero, suc, ◌+◌, ◌*◌, ◌/◌, ◌%◌, ◌-◌, ◌<◌, ◌≡◌, refl, ◌∙◌, true, false, none, some, [], ◌∷◌,
  ◌++◌, arith, if◌then◌else◌, ltb, leb, ◌==◌, u32_mod, add32, Bool-cases, inl, inr, length,
  length-append,
}
use eos_chronicle.Base.Exec.{Error, ok, err}
use eos_chronicle.Store.Rows.{Bytes}
use eos_chronicle.ExpWs.Request.{
  is_digit, read_digits, stoul, read_ack, split_dash, read_interactive_req,
}

-- A number in decimal digits; the fuel bounds their number.
abbrev pub decimal : ℕ → ℕ → Bytes
decimal zero n = (48 + n % 10) ∷ []
decimal (suc fuel) n =
    let front = decimal fuel (n / 10) in
    if ltb n 10 then (48 + n) ∷ [] else front ++ (48 + n % 10) ∷ []

-- Digits only.
abbrev AllDigits : Bytes → Type 0
AllDigits [] = Unit {0}
AllDigits (c ∷ cs) = (is_digit c ≡ true) × AllDigits cs

AllDigits-append :
    (xs : Bytes) (c : ℕ) → AllDigits xs → is_digit c ≡ true → AllDigits (xs ++ c ∷ [])
AllDigits-append [] c a h = (h, tt)
AllDigits-append (x ∷ xs) c (d, ds) h = (d, AllDigits-append xs c ds h)

decimal-AllDigits : (fuel n : ℕ) → AllDigits (decimal fuel n)
decimal-AllDigits zero n = (ground arith, tt)
decimal-AllDigits (suc fuel) n = elim (Bool-cases (ltb n 10)) [
  | inl low ↦ simp low (ground arith, tt)
  | inr high ↦ simp high (
      AllDigits-append (decimal fuel (n / 10)) (48 + n % 10) (decimal-AllDigits fuel (n / 10))
        (ground arith))
]

-- One more digit at the end.
read_digits-append :
    (n : ℕ) (xs : Bytes) (c : ℕ)
    → AllDigits xs
    → is_digit c ≡ true
    → read_digits n (xs ++ c ∷ []) ≡ read_digits n xs * 10 + (c - 48)
unfolding read_digits
read_digits-append n [] c a h = simp h refl
read_digits-append n (x ∷ xs) c (d, ds) h =
    simp d (read_digits-append (n * 10 + (x - 48)) xs c ds h)

-- Enough digits for the number.
abbrev pub power10 : ℕ → ℕ
power10 zero = 1
power10 (suc k) = 10 * power10 k

read_digits-decimal : (fuel n : ℕ) → n < power10 (suc fuel) → read_digits 0 (decimal fuel n) ≡ n
unfolding read_digits
read_digits-decimal zero n h = ground arith
read_digits-decimal (suc fuel) n h = elim (Bool-cases (ltb n 10)) [
  | inl low ↦ simp low (ground arith)
  | inr high ↦
      let front = read_digits-decimal fuel (n / 10) (omega arith) in
      let last : is_digit (48 + n % 10) ≡ true = ground arith in
      simp high (
        read_digits-append 0 (decimal fuel (n / 10)) (48 + n % 10) (decimal-AllDigits fuel (n / 10))
          last
        ∙ omega (arith, front))
]

-- A nonempty text of digits is read by stoul as its digits.
digits_read :
    (cs : Bytes) (n : ℕ)
    → AllDigits cs
    → 0 < length cs
    → read_digits 0 cs ≡ n
    → n < 18446744073709551616
    → stoul cs ≡ ok n
unfolding stoul
digits_read [] n a some_digit e h = absurd (omega arith)
digits_read (c ∷ cs) n (d, ds) some_digit e h = ground arith

decimal-positive : (fuel n : ℕ) → 0 < length (decimal fuel n)
decimal-positive zero n = omega arith
decimal-positive (suc fuel) n = elim (Bool-cases (ltb n 10)) [
  | inl low ↦ simp low (omega arith)
  | inr high ↦ simp high (omega (arith, length-append (decimal fuel (n / 10)) ((48 + n % 10) ∷ [])))
]

decimal_read :
    (fuel n : ℕ) → n < power10 (suc fuel) → n < 18446744073709551616 → stoul (decimal fuel n) ≡ ok n
decimal_read fuel n few small =
    digits_read (decimal fuel n) n (decimal-AllDigits fuel n) (decimal-positive fuel n)
      (read_digits-decimal fuel n few) small

-- With enough digits for a number below 2^64, its decimal digits are read by read_ack as that number
-- if it is below 2^32, and refused otherwise.
pub read_ack-decimal :
    (fuel n : ℕ)
    → n < power10 (suc fuel)
    → n < 18446744073709551616
    → read_ack (decimal fuel n) ≡ (if ltb 4294967295 n then err Error.ack_out_of_range else ok n)
unfolding read_ack
read_ack-decimal fuel n few small = rw (decimal_read fuel n few small) refl

split_digits : (xs ys : Bytes) → AllDigits xs → split_dash (xs ++ 45 ∷ ys) ≡ (xs, some ys)
split_digits [] ys a = refl
split_digits (c ∷ cs) ys (d, ds) =
    let other : (c == 45) ≡ false = ground arith in rw (split_digits cs ys ds) (simp other refl)

split_none : (xs : Bytes) → AllDigits xs → split_dash xs ≡ (xs, none)
split_none [] a = refl
split_none (c ∷ cs) (d, ds) =
    let other : (c == 45) ≡ false = ground arith in rw (split_none cs ds) (simp other refl)

-- A range of two numbers below 2^64, with enough digits for each, is read by read_interactive_req as
-- their remainders modulo 2^32 if that of the end is above that of the start, and refused otherwise.
pub read_interactive_req-range :
    (fuel more a b : ℕ)
    → a < power10 (suc fuel)
    → b < power10 (suc more)
    → a < 18446744073709551616
    → b < 18446744073709551616
    → read_interactive_req (decimal fuel a ++ 45 ∷ decimal more b) ≡ (
        if leb (b % u32_mod) (a % u32_mod)
        then err Error.end_not_above_start
        else ok (record { block_num_start = a % u32_mod; block_num_end = b % u32_mod }))
unfolding read_interactive_req
read_interactive_req-range fuel more a b few_a few_b small_a small_b =
    rw
      (
        split_digits (decimal fuel a) (decimal more b) (decimal-AllDigits fuel a),
        decimal_read fuel a few_a small_a,
        decimal_read more b few_b small_b,
      )
      refl

-- A single number below 2^32 - 1, with enough digits, asks for that block alone.
pub read_interactive_req-single :
    (fuel a : ℕ)
    → a < power10 (suc fuel)
    → suc a < u32_mod
    → read_interactive_req (decimal fuel a)
      ≡ ok (record { block_num_start = a; block_num_end = suc a })
unfolding read_interactive_req
read_interactive_req-single fuel a few small =
    let start : a % u32_mod ≡ a = omega arith in
    let next : add32 a 1 ≡ suc a = omega arith in
    let above : leb (suc a) a ≡ false = ground arith in
    rw
      (
        split_none (decimal fuel a) (decimal-AllDigits fuel a),
        decimal_read fuel a few (omega arith),
      )
      (simp (start, next, above) refl)
