-- ===== src/Store/Rows.antt =====
-- The rows of the state database (namespace chronicle in receiver_plugin.cpp). A checksum256 is the
-- number that its 256 bits write, a name is its uint64_t, and an ABI is the list of its bytes. The
-- row ids that chainbase assigns are left out: the program never reads them.
use eos_chronicle.Base.{ℕ, List}

abbrev pub Bytes : Type 0
Bytes = List ℕ

-- The singleton that keeps the state of the receiver.
pub record StateObject : Type 0 where
  pub head : ℕ
  pub head_id : ℕ
  pub irreversible : ℕ
  pub irreversible_id : ℕ

-- A received block, kept while it may still be forked out.
pub record ReceivedBlock : Type 0 where
  pub block_index : ℕ
  pub block_id : ℕ

-- The latest ABI of a contract.
pub record ContractAbi : Type 0 where
  pub account : ℕ
  pub abi : Bytes

-- One version of a contract's ABI, from the block that set it on. No bytes: the ABI was cleared.
pub record AbiHistory : Type 0 where
  pub account : ℕ
  pub block_index : ℕ
  pub abi : Bytes

-- The four tables, each of the type that its index has.
pub record Tables (States Blocks Abis History : Type 0) : Type 0 where
  pub states : States
  pub blocks : Blocks
  pub abis : Abis
  pub history : History
