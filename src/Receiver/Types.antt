-- ===== src/Receiver/Types.antt =====
-- The types of the state history protocol at run time: get_type and both check_variant of
-- receiver_plugin_impl.
use eos_chronicle.Base.{
  ℕ, Bool, false, String, Option, none, some, List, [], ◌∷◌, if◌then◌else◌, leb, ◌==◌, str_eq,
  length, get_elem?,
}
use eos_chronicle.Base.Exec.{Error, Result, ok, err}
use eos_chronicle.Store.Rows.{Bytes}
use eos_chronicle.Messages.Input.{AbiType, Codec}

unfoldable pub get_type : String → List (String × AbiType) → Result AbiType
get_type name [] = err Error.unknown_type
get_type name ((n, t) ∷ rest) = if str_eq n name then ok t else get_type name rest

-- The alternatives against the index that was read: the input behind it, or an exception.
abbrev pub at_index : ℕ → ℕ → Bytes → Option (List (String × Bool)) → Result Bytes
at_index expected index rest none = err Error.not_a_variant
at_index expected index rest (some alternatives) =
    if leb (length alternatives) index
    then err Error.wrong_alternative
    else if index == expected
    then ok rest
    else err Error.wrong_alternative

abbrev pub has_name : String → Option (String × Bool) → Bool
has_name expected none = false
has_name expected (some (n, is_struct)) = str_eq n expected

abbrev pub at_name : String → ℕ → Bytes → Option (List (String × Bool)) → Result Bytes
at_name expected index rest none = err Error.not_a_variant
at_name expected index rest (some alternatives) =
    if leb (length alternatives) index
    then err Error.wrong_alternative
    else if has_name expected (get_elem? alternatives index)
    then ok rest
    else err Error.wrong_alternative

abbrev pub read_index : (ℕ → Bytes → Result Bytes) → Option (ℕ × Bytes) → Result Bytes
read_index f none = err Error.malformed
read_index f (some (index, rest)) = f index rest

-- check_variant by index.
pub check_variant_index : Codec → Bytes → AbiType → ℕ → Result Bytes
check_variant_index codec bin type expected =
    read_index (λ index rest. at_index expected index rest type.alternatives)
      (codec.varuint32_from_bin bin)

-- check_variant by name.
pub check_variant_name : Codec → Bytes → AbiType → String → Result Bytes
check_variant_name codec bin type expected =
    read_index (λ index rest. at_name expected index rest type.alternatives)
      (codec.varuint32_from_bin bin)

-- Whether the first alternative is a struct, as receive_deltas demands of a table's type.
abbrev pub first_is_struct : Option (List (String × Bool)) → Bool
first_is_struct none = false
first_is_struct (some []) = false
first_is_struct (some ((n, is_struct) ∷ rest)) = is_struct
