-- ===== src/Receiver/Laws.antt =====
-- What the receiver relies on of its libraries: the tables, the revisions, the ABI decoder.
use eos_chronicle.Base.{ℕ, ◌≡◌, Bool, true, false, Option, none, some, if◌then◌else◌, ◌==◌}
use eos_chronicle.Store.Rows.{Bytes, AbiHistory}
use eos_chronicle.Store.Keyed.{by_number, by_name_and_block, by_name_and_block_rev}
use eos_chronicle.Store.Index.{Index, IndexLaws, LogLaws}
use eos_chronicle.Store.Revisions.{RevisionLaws}
use eos_chronicle.Receiver.State.{World, AbiDecoder}

abbrev pub history_key : AbiHistory → ℕ × ℕ
history_key r = (r.account, r.block_index)

-- The decoder accepts an ABI by its bytes alone. `loaded` is what the context holds for a contract:
-- a new context nothing, an accepted ABI its contract's, and no call touches another contract.
pub record DecoderLaws (d : AbiDecoder) : Type 0 where
  pub accepts : Bytes → Bool
  pub loaded : d.Context → ℕ → Option Bytes
  pub loaded-create : (a : ℕ) → loaded d.create a ≡ none
  pub set_abi_bin_lem :
      (c : d.Context) (a : ℕ) (abi : Bytes) → (d.set_abi_bin c a abi).0 ≡ accepts abi
  pub loaded_accepted :
      (c : d.Context) (a b : ℕ) (abi : Bytes)
      → accepts abi ≡ true
      → loaded (d.set_abi_bin c a abi).1 b ≡ (if b == a then some abi else loaded c b)
  pub loaded_refused :
      (c : d.Context) (a b : ℕ) (abi : Bytes)
      → accepts abi ≡ false
      → (b == a) ≡ false
      → loaded (d.set_abi_bin c a abi).1 b ≡ loaded c b

-- lower_bound of by_name_and_block_rev: the first row that does not come before the key.
pub record LowerBoundLaws (ix : Index AbiHistory (ℕ × ℕ))
    (lower_bound : ℕ × ℕ → ix.Table → Option AbiHistory) : Type 0 where
  pub lower_bound_some :
      (k : ℕ × ℕ) (t : ix.Table) (r : AbiHistory)
      → lower_bound k t ≡ some r
      → (ix.find (history_key r) t ≡ some r)
        × (by_name_and_block_rev.less (history_key r) k ≡ false)
        × ((j : ℕ × ℕ) (x : AbiHistory)
            → ix.find j t ≡ some x
            → by_name_and_block_rev.less j (history_key r) ≡ true
            → by_name_and_block_rev.less j k ≡ true)
  pub lower_bound_none :
      (k : ℕ × ℕ) (t : ix.Table)
      → lower_bound k t ≡ none
      → (j : ℕ × ℕ) (x : AbiHistory) → ix.find j t ≡ some x
      → by_name_and_block_rev.less j k ≡ true

pub record Laws (w : World) : Type 0 where
  pub states : LogLaws w.states
  pub blocks : IndexLaws by_number (λ r. r.block_index) w.blocks
  pub abis : IndexLaws by_number (λ r. r.account) w.abis
  pub history : IndexLaws by_name_and_block history_key w.history
  pub lower_bound : LowerBoundLaws w.history w.lower_bound_rev
  pub database : RevisionLaws w.database
  pub decoder : DecoderLaws w.decoder
