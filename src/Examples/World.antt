-- ===== src/Examples/World.antt =====
-- A concrete world: sorted lists for the tables, a stack of contents for the database, a decoder
-- that takes every ABI but an empty one, and a format in which one byte is one trace.
use eos_chronicle.Base.{
  ℕ, ◌≡◌, refl, Bool, true, false, Option, none, some, List, [], ◌∷◌, ◌==◌, if◌then◌else◌, is_some,
  arith, Bool-cases, Option-cases, inl, inr, subst,
}
use eos_chronicle.Store.Rows.{Bytes, AbiHistory}
use eos_chronicle.Store.Keyed.{by_number, by_name_and_block, by_name_and_block_rev, find_row}
use eos_chronicle.Store.Keyed.Find.{find_row-same}
use eos_chronicle.Store.Lists.{
  list_index, list_index-IndexLaws, list_log, list_log-LogLaws, stack_revisions,
  stack_revisions-RevisionLaws,
}
use eos_chronicle.Messages.Input.{Codec, v0, Trace}
use eos_chronicle.Receiver.State.{AbiDecoder, World}
use eos_chronicle.Receiver.Laws.{DecoderLaws, LowerBoundLaws, Laws, history_key}

abbrev rev_less : ℕ × ℕ → ℕ × ℕ → Bool
rev_less j k = by_name_and_block_rev.less j k

abbrev nearer : AbiHistory → Option (ℕ × ℕ) → ℕ × ℕ
nearer x none = history_key x
nearer x (some j) = if rev_less j (history_key x) then j else history_key x

-- The first key in the reverse order that does not come before `k`.
abbrev pub first_from : ℕ × ℕ → List AbiHistory → Option (ℕ × ℕ)
first_from k [] = none
first_from k (x ∷ xs) =
    let rest = first_from k xs in if rev_less (history_key x) k then rest else some (nearer x rest)

abbrev row_at : Option (ℕ × ℕ) → List AbiHistory → Option AbiHistory
row_at none t = none
row_at (some j) t = find_row by_name_and_block history_key j t

abbrev pub list_lower_bound : ℕ × ℕ → List AbiHistory → Option AbiHistory
list_lower_bound k t = row_at (first_from k t) t

first_from-none :
    (k : ℕ × ℕ) (t : List AbiHistory) (i : ℕ × ℕ) (x : AbiHistory)
    → first_from k t ≡ none
    → find_row by_name_and_block history_key i t ≡ some x
    → rev_less i k ≡ true
unfolding find_row
first_from-none k [] i x e f = ground arith
first_from-none k (y ∷ ys) i x e f = ground (arith, first_from-none k ys i x)

first_from-some :
    (k j : ℕ × ℕ) (t : List AbiHistory)
    → first_from k t ≡ some j
    → (rev_less j k ≡ false)
      × (is_some (find_row by_name_and_block history_key j t) ≡ true)
      × ((i : ℕ × ℕ) (x : AbiHistory)
          → find_row by_name_and_block history_key i t ≡ some x
          → rev_less i j ≡ true
          → rev_less i k ≡ true)
unfolding find_row
first_from-some k j [] e = ground arith
first_from-some k j (y ∷ ys) e = elim (Bool-cases (rev_less (history_key y) k)) [
  | inl before ↦
      let (after, found, first) = first_from-some k j ys (simp before at e) in
      (after, ground arith, λ i x f h. ground (arith, first i x))
  | inr from ↦ elim (Option-cases (first_from k ys)) [
    | inl last ↦
        let here : history_key y ≡ j = ground arith in
        (ground arith, ground arith, λ i x f h. ground (arith, first_from-none k ys i x last))
    | inr (n, later) ↦
        let (after, found, first) = first_from-some k n ys later in
        elim (Bool-cases (rev_less n (history_key y))) [
          | inl nearest ↦
              let there : n ≡ j = ground arith in
              (ground arith, ground arith, λ i x f h. ground (arith, first i x))
          | inr no_nearer ↦
              let here : history_key y ≡ j = ground arith in
              (ground arith, ground arith, λ i x f h. ground (arith, first i x))
        ]
  ]
]

pub list_lower_bound-LowerBoundLaws :
    LowerBoundLaws (list_index by_name_and_block history_key) list_lower_bound
list_lower_bound-LowerBoundLaws = record {
  lower_bound_some = λ k t r h. elim (Option-cases (first_from k t)) [
    | inl e ↦ cc (simp e at h)
    | inr (j, e) ↦
        let (after, found, first) = first_from-some k j t e in
        let row : find_row by_name_and_block history_key j t ≡ some r = simp e at h in
        let key : j ≡ history_key r =
          ground (arith, find_row-same by_name_and_block history_key j r t row) in
        subst
          (λ (i : ℕ × ℕ).
            (find_row by_name_and_block history_key i t ≡ some r)
            × (rev_less i k ≡ false)
            × ((m : ℕ × ℕ) (x : AbiHistory)
                → find_row by_name_and_block history_key m t ≡ some x
                → rev_less m i ≡ true
                → rev_less m k ≡ true))
          key (row, after, first)
  ];
  lower_bound_none = λ k t h j x f. elim (Option-cases (first_from k t)) [
    | inl e ↦ first_from-none k t j x e f
    | inr (i, e) ↦
        let (after, found, first) = first_from-some k i t e in
        let missing : find_row by_name_and_block history_key i t ≡ none = simp e at h in cc
  ];
}

-- The decoder's context: the ABIs that were set, newest first.
abbrev pub accepts_nonempty : Bytes → Bool
accepts_nonempty [] = false
accepts_nonempty (b ∷ bs) = true

abbrev pub lookup : List (ℕ × Bytes) → ℕ → Option Bytes
lookup [] a = none
lookup ((b, abi) ∷ rest) a = if a == b then some abi else lookup rest a

abbrev set_abi : List (ℕ × Bytes) → ℕ → Bytes → Bool × List (ℕ × Bytes)
set_abi c a abi = if accepts_nonempty abi then (true, (a, abi) ∷ c) else (false, c)

abbrev list_decoder : AbiDecoder
list_decoder = record { Context = List (ℕ × Bytes); create = []; set_abi_bin = set_abi }

unfoldable pub list_decoder-DecoderLaws : DecoderLaws list_decoder
list_decoder-DecoderLaws = record {
  accepts = accepts_nonempty;
  loaded = lookup;
  loaded-create = λ a. refl;
  set_abi_bin_lem = λ c a abi. ground arith;
  loaded_accepted = λ c a b abi h. simp h refl;
  loaded_refused = λ c a b abi h other. simp h refl;
}

abbrev read_number : Bytes → Option (ℕ × Bytes)
read_number [] = none
read_number (n ∷ rest) = some (n, rest)

-- One byte is a trace of one action, received by the account of that number.
abbrev pub trace_of : ℕ → Trace
trace_of n = record {
  action_traces = v0 n (record { account = n; name = 1; authorization = [] }) ∷ [];
  rest = [];
}

abbrev read_trace : Bytes → Option (Trace × Bytes)
read_trace [] = none
read_trace (n ∷ rest) = some (trace_of n, rest)

abbrev pub byte_codec : Codec
byte_codec = record {
  varuint32_from_bin = read_number;
  result_from_bin = λ bin. none;
  block_from_bin = λ bin. none;
  delta_from_bin = λ bin. none;
  account_from_bin = λ bin. none;
  row_from_bin = λ bin. none;
  permission_from_bin = λ bin. some (bin, []);
  permission_link_from_bin = λ bin. some (bin, []);
  metadata_from_bin = λ bin. some (bin, []);
  abi_def_from_bin = λ bin. some bin;
  trace_from_bin = read_trace;
}

abbrev pub list_world : World
list_world = record {
  states = list_log;
  blocks = list_index by_number (λ r. r.block_index);
  abis = list_index by_number (λ r. r.account);
  history = list_index by_name_and_block history_key;
  lower_bound_rev = list_lower_bound;
  database = stack_revisions;
  decoder = list_decoder;
  codec = byte_codec;
  request_to_bin = λ type request. some [];
}

abbrev pub list_laws : Laws list_world
list_laws = record {
  states = list_log-LogLaws;
  blocks = list_index-IndexLaws by_number (λ r. r.block_index);
  abis = list_index-IndexLaws by_number (λ r. r.account);
  history = list_index-IndexLaws by_name_and_block history_key;
  lower_bound = list_lower_bound-LowerBoundLaws;
  database = stack_revisions-RevisionLaws;
  decoder = list_decoder-DecoderLaws;
}
