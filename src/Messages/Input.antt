-- ===== src/Messages/Input.antt =====
-- What the receiver reads out of the state history protocol (eosio::ship_protocol of abieos, which
-- is not part of the repository): the fields that the program looks at. An object that is only
-- passed on is the bytes that it was read from.
use eos_chronicle.Base.{ℕ, Bool, String, Option, none, some, List}
use eos_chronicle.Base.Exec.{Result, ok, err, Error}
use eos_chronicle.Store.Rows.{Bytes}

pub record BlockPosition : Type 0 where
  pub block_num : ℕ
  pub block_id : ℕ

-- get_blocks_result_v0.
pub record BlocksResult : Type 0 where
  pub last_irreversible : BlockPosition
  pub this_block : Option BlockPosition
  pub prev_block : Option BlockPosition
  pub block : Option Bytes
  pub traces : Option Bytes
  pub deltas : Option Bytes

pub record BlockHeader : Type 0 where
  pub timestamp : ℕ
  pub producer : ℕ
  pub previous : ℕ
  pub transaction_mroot : ℕ
  pub action_mroot : ℕ

pub record SignedBlock : Type 0 where
  pub header : BlockHeader
  pub transactions : List Bytes

-- A row of a table delta: `present` is false for a removed one.
pub record DeltaRow : Type 0 where
  pub present : Bool
  pub payload : Bytes

pub record TableDelta : Type 0 where
  pub name : String
  pub rows : List DeltaRow

pub record Account : Type 0 where
  pub name : ℕ
  pub abi : Bytes

pub record ContractRow : Type 0 where
  pub code : ℕ
  pub scope : ℕ
  pub table : ℕ
  pub primary_key : ℕ
  pub value : Bytes

pub record Action : Type 0 where
  pub account : ℕ
  pub name : ℕ
  -- The actors of the authorizations.
  pub authorization : List ℕ

-- A variant: `other` stands for an index that the program does not know.
pub data ActionTrace : Type 0 where
  v0 v1 : ℕ → Action → ActionTrace
  other : ℕ → ActionTrace

pub record Trace : Type 0 where
  pub action_traces : List ActionTrace
  pub rest : Bytes

-- An abieos::abi_type: its alternatives if it is a variant, each with its name and whether its type
-- is a struct.
pub record AbiType : Type 0 where
  pub name : String
  pub alternatives : Option (List (String × Bool))

-- The deserialisers of abieos: nothing where they throw, and the rest of the input where the
-- program reads on.
pub record Codec : Type 0 where
  pub varuint32_from_bin : Bytes → Option (ℕ × Bytes)
  pub result_from_bin : Bytes → Option BlocksResult
  pub block_from_bin : Bytes → Option SignedBlock
  pub delta_from_bin : Bytes → Option (TableDelta × Bytes)
  pub account_from_bin : Bytes → Option (Account × Bytes)
  pub row_from_bin : Bytes → Option (ContractRow × Bytes)
  pub permission_from_bin : Bytes → Option (Bytes × Bytes)
  pub permission_link_from_bin : Bytes → Option (Bytes × Bytes)
  pub metadata_from_bin : Bytes → Option (Bytes × Bytes)
  pub abi_def_from_bin : Bytes → Option Bytes
  pub trace_from_bin : Bytes → Option (Trace × Bytes)

-- What a deserialiser gives, or its exception.
abbrev pub parsed {ℓ} : {A : Type ℓ} → Option A → Result A
parsed none = err Error.malformed
parsed (some a) = ok a
