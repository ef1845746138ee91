-- ===== src/ExpWs/Request.antt =====
-- What the exporter reads from its consumer: the handlers of async_read_acks and
-- async_read_interactive_reqs of exp_ws_plugin_impl. Characters are their bytes.
pub mod RoundTrip
use eos_chronicle.Base.{
  ℕ, ◌+◌, ◌*◌, ◌-◌, ◌%◌, Bool, true, false, not, ◌&&◌, ◌||◌, Option, none, some, List, [], ◌∷◌,
  if◌then◌else◌, ltb, leb, ◌==◌, add32, u32_mod,
}
use eos_chronicle.Base.Exec.{Error, Result, ok, err}
use eos_chronicle.Store.Rows.{Bytes}
use eos_chronicle.Messages.Events.{InteractiveRequest}

abbrev pub is_digit : ℕ → Bool
is_digit c = leb 48 c && leb c 57

abbrev is_space : ℕ → Bool
is_space c = c == 32 || leb 9 c && leb c 13

-- The digits at the front, after those that gave `n`.
pub read_digits : ℕ → Bytes → ℕ
read_digits n [] = n
read_digits n (c ∷ cs) =
    let more = read_digits (n * 10 + (c - 48)) cs in if is_digit c then more else n

abbrev in_range : ℕ → Result ℕ
in_range n = if ltb n 18446744073709551616 then ok n else err Error.ack_out_of_range

-- strtoul negates the value of a number with a minus sign, in 64 bits.
abbrev negated : Result ℕ → Result ℕ
negated (ok n) = ok ((18446744073709551616 - n) % 18446744073709551616)
negated (err e) = err e

abbrev unsigned : Bytes → Result ℕ
unsigned [] = err Error.bad_number
unsigned (c ∷ cs) = if is_digit c then in_range (read_digits 0 (c ∷ cs)) else err Error.bad_number

abbrev signed : Bytes → Result ℕ
signed [] = err Error.bad_number
signed (c ∷ cs) =
    if c == 43 then unsigned cs else if c == 45 then negated (unsigned cs) else unsigned (c ∷ cs)

-- std::stoul: spaces, a sign, and digits, whatever follows; an exception without a digit or above
-- 64 bits.
unfoldable pub stoul : Bytes → Result ℕ
unfolding read_digits
stoul [] = err Error.bad_number
stoul (c ∷ cs) = let rest = stoul cs in if is_space c then rest else signed (c ∷ cs)

abbrev acked : Result ℕ → Result ℕ
acked (err e) = err e
acked (ok n) = if ltb 4294967295 n then err Error.ack_out_of_range else ok n

-- The block number that is passed to ack_block, or the exception.
unfoldable pub read_ack : Bytes → Result ℕ
unfolding stoul
read_ack in_data = acked (stoul in_data)

-- What stands before the first '-' and, where there is one, after it.
abbrev split_dash : Bytes → Bytes × Option Bytes
split_dash [] = ([], none)
split_dash (c ∷ cs) =
    let (before, after) = split_dash cs in if c == 45 then ([], some cs) else (c ∷ before, after)

abbrev above_start : ℕ → ℕ → Result InteractiveRequest
above_start start end =
    if leb end start
    then err Error.end_not_above_start
    else ok (record { block_num_start = start; block_num_end = end })

abbrev one_block : Result ℕ → Result InteractiveRequest
one_block (err e) = err e
one_block (ok n) = above_start (n % u32_mod) (add32 (n % u32_mod) 1)

abbrev to_end : ℕ → Result ℕ → Result InteractiveRequest
to_end start (err e) = err e
to_end start (ok n) = above_start (start % u32_mod) (n % u32_mod)

abbrev from_start : Result ℕ → Bytes → Result InteractiveRequest
from_start (err e) rest = err e
from_start (ok n) rest = to_end n (stoul rest)

abbrev request_of : Bytes → Bytes × Option Bytes → Result InteractiveRequest
request_of all (before, none) = one_block (stoul all)
request_of all (before, some after) = from_start (stoul before) after

-- "n" asks for one block, "a-b" for the blocks from a up to and without b.
unfoldable pub read_interactive_req : Bytes → Result InteractiveRequest
unfolding stoul
read_interactive_req reqstr = request_of reqstr (split_dash reqstr)
