-- ===== src/Decoder/Writer.antt =====
-- The JSON writer of rapidjson as namespace json_encoder of decoder_plugin.cpp uses it: the calls of
-- rapidjson::Writer, in order. Characters are their bytes.
use Prim.Native.Char.{code}
use eos_chronicle.Base.{ℕ, zero, suc, ◌+◌, ◌/◌, ◌%◌, ◌==◌, String, [], ◌∷◌, if◌then◌else◌, ltb}
use eos_chronicle.Store.Rows.{Bytes}

-- The bytes of a text literal.
abbrev pub codes : String → Bytes
codes String.[] = []
codes (String.◌∷◌ c s) = code c ∷ codes s

-- A call of the writer.
pub data Token : Type 0 where
  start_object end_object start_array end_array null : Token
  key string raw_value : Bytes → Token

-- std::to_string of an unsigned number: its decimal digits, the last first, before `acc`.
pub digits : ℕ → ℕ → Bytes → Bytes
digits zero n acc = acc
digits (suc fuel) n acc =
    let more = digits fuel (n / 10) ((48 + n % 10) ∷ acc) in
    if ltb n 10 then (48 + n % 10) ∷ acc else more

-- Twenty digits are enough for 64 bits.
unfoldable pub to_string : ℕ → Bytes
unfolding digits
to_string n = digits 20 n []

-- A signed number: `negsuc n` is -(n + 1).
pub data ℤ : Type 0 where
  pos negsuc : ℕ → ℤ

unfoldable pub signed_to_string : ℤ → Bytes
unfolding to_string
signed_to_string (pos n) = to_string n
signed_to_string (negsuc n) = 45 ∷ to_string (suc n)

-- What a text passed on as a C string keeps: nothing from its first zero byte on.
abbrev pub c_str : Bytes → Bytes
c_str [] = []
c_str (c ∷ cs) = let rest = c_str cs in if c == 0 then [] else c ∷ rest
