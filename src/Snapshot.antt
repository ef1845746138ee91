-- ===== src/Snapshot.antt =====
-- The portable snapshots: write_snapshot and read_snapshot of receiver_plugin_impl and the rows of
-- chronicle_portable_state.hpp. The file is the values that are packed into it, in order: fc::raw,
-- which packs them, is not part of the repository. A file that ends early is an exception of its
-- reader. The counts that are logged are left out.
pub mod Restored
pub mod RoundTrip
pub mod Removals
use eos_chronicle.Base.{
  ℕ, Bool, true, false, Option, none, some, List, [], ◌∷◌, ◌++◌, map, if◌then◌else◌, ltb, ◌==◌,
  ◌||◌,
}
use eos_chronicle.Base.Exec.{Exec, Error, Result, ok, err, pure, ◌>>=◌}
use eos_chronicle.Store.Rows.{Bytes, StateObject, ReceivedBlock, ContractAbi, AbiHistory}
use eos_chronicle.Receiver.State.{ReceiverOf, TablesOf, World}
use eos_chronicle.Receiver.Abi.{tables, set_tables, stored}
use eos_chronicle.Receiver.Start.{revert_uncommitted_revisions}

abbrev pub magic_number : ℕ
magic_number = 7478175697106392769

pub data Row : Type 0 where
  state_object : StateObject → Row
  received_block_object : ReceivedBlock → Row
  contract_abi_object : ContractAbi → Row
  contract_abi_history : AbiHistory → Row
  stream_end : ℕ → Row

pub record File : Type 0 where
  pub magic : ℕ
  pub format_version : ℕ
  pub rows : List Row

abbrev has_bytes : Bytes → Bool
has_bytes [] = false
has_bytes (b ∷ bs) = true

-- The rows with an ABI of at least one byte.
abbrev pub with_abi : List ContractAbi → List ContractAbi
with_abi [] = []
with_abi (x ∷ xs) = let rest = with_abi xs in if has_bytes x.abi then x ∷ rest else rest

abbrev pub versions_with_abi : List AbiHistory → List AbiHistory
versions_with_abi [] = []
versions_with_abi (x ∷ xs) =
    let rest = versions_with_abi xs in if has_bytes x.abi then x ∷ rest else rest

module _ (w : World) where
  abbrev file_of : StateObject → TablesOf w → File
  file_of x t = record {
    magic = magic_number;
    format_version = 0;
    rows =
        state_object x
        ∷ (map received_block_object (w.blocks.rows t.blocks)
            ++ (map contract_abi_object (with_abi (w.abis.rows t.abis))
                ++ (map contract_abi_history (versions_with_abi (w.history.rows t.history))
                    ++ (stream_end magic_number ∷ []))));
  }

  abbrev write_tables : List StateObject → ReceiverOf w → Result File × ReceiverOf w
  write_tables [] r = (err Error.state_missing, r)
  write_tables (x ∷ xs) r = (ok (file_of x (tables w r)), r)

  unfoldable pub write_snapshot : Exec (ReceiverOf w) File
  unfolding revert_uncommitted_revisions
  write_snapshot r =
      let (depth, s) = revert_uncommitted_revisions w r in
      write_tables (w.states.rows (tables w s).states) s

  abbrev with_blocks : Option w.blocks.Table → ReceiverOf w → Option (TablesOf w)
  with_blocks none r = none
  with_blocks (some u) r = some (record (tables w r) { blocks = u })

  abbrev with_abis : Option w.abis.Table → ReceiverOf w → Option (TablesOf w)
  with_abis none r = none
  with_abis (some u) r = some (record (tables w r) { abis = u })

  abbrev with_history : Option w.history.Table → ReceiverOf w → Option (TablesOf w)
  with_history none r = none
  with_history (some u) r = some (record (tables w r) { history = u })

  -- db->create for a row; the end of the stream creates nothing.
  abbrev pub created : Row → ReceiverOf w → Option (TablesOf w)
  created (state_object x) r =
      some (record (tables w r) { states = w.states.create x (tables w r).states })
  created (received_block_object x) r = with_blocks (w.blocks.create x (tables w r).blocks) r
  created (contract_abi_object x) r = with_abis (w.abis.create x (tables w r).abis) r
  created (contract_abi_history x) r = with_history (w.history.create x (tables w r).history) r
  created (stream_end n) r = some (tables w r)

  -- The loop over the rows, up to the end of the stream.
  unfoldable pub read_rows : List Row → Exec (ReceiverOf w) (Unit {0})
  unfolding ◌>>=◌
  read_rows [] r = (err Error.malformed, r)
  read_rows (stream_end n ∷ rows) r =
      if n == magic_number then (ok tt, r) else (err Error.wrong_end_magic, r)
  read_rows (state_object x ∷ rows) r =
      (stored w (created (state_object x) r) >>= λ u. read_rows rows) r
  read_rows (received_block_object x ∷ rows) r =
      (stored w (created (received_block_object x) r) >>= λ u. read_rows rows) r
  read_rows (contract_abi_object x ∷ rows) r =
      (stored w (created (contract_abi_object x) r) >>= λ u. read_rows rows) r
  read_rows (contract_abi_history x ∷ rows) r =
      (stored w (created (contract_abi_history x) r) >>= λ u. read_rows rows) r

  abbrev read_into : List StateObject → List Row → Exec (ReceiverOf w) (Unit {0})
  read_into [] rows r = read_rows rows r
  read_into (x ∷ xs) rows r = (err Error.state_present, r)

  -- The only supported version is 0.
  unfoldable pub read_snapshot : File → Exec (ReceiverOf w) (Unit {0})
  unfolding read_rows
  read_snapshot file r =
      if file.magic == magic_number
      then (if ltb 0 file.format_version
          then (err Error.unsupported_version, r)
          else read_into (w.states.rows (tables w r).states) file.rows r)
      else (err Error.wrong_magic, r)
