-- ===== src/ExpWs/Message/RoundTrip.antt =====
-- A consumer that knows the format of the binary messages gets back what was exported.
use eos_chronicle.Base.{ℕ, ◌+◌, ◌*◌, ◌/◌, ◌%◌, ◌<◌, ◌≡◌, refl, Option, none, some, ◌∷◌, arith}
use eos_chronicle.Store.Rows.{Bytes}
use eos_chronicle.ExpWs.Message.{bin_message}

-- What a consumer does: two numbers of 32 bits, the lowest byte first, then the data.
abbrev pub consume : Bytes → Option (ℕ × ℕ × Bytes)
consume (a ∷ b ∷ c ∷ d ∷ e ∷ f ∷ g ∷ h ∷ body) =
    some (a + 256 * b + 65536 * c + 16777216 * d, e + 256 * f + 65536 * g + 16777216 * h, body)
consume _ = none

number_lem :
    (n : ℕ)
    → n < 4294967296
    → n % 256 + 256 * (n / 256 % 256) + 65536 * (n / 65536 % 256) + 16777216 * (n / 16777216 % 256)
      ≡ n
number_lem n h = omega arith

-- A message of a type and options below 2^32 is read back by the consumer as it was exported.
pub consume-bin_message :
    (msgtype msgopts : ℕ) (event : Bytes)
    → msgtype < 4294967296
    → msgopts < 4294967296
    → consume (bin_message msgtype msgopts event) ≡ some (msgtype, msgopts, event)
unfolding bin_message
consume-bin_message msgtype msgopts event h k = rw (number_lem msgtype h, number_lem msgopts k) refl
