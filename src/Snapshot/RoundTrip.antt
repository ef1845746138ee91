-- ===== src/Snapshot/RoundTrip.antt =====
-- A snapshot that was written is read back.
use eos_chronicle.Base.{ℕ, ◌≡◌, refl, ap, ◌∙◌, some, List, [], ◌∷◌, ◌++◌, map, Bool-cases, inl, inr}
use eos_chronicle.Base.Exec.{ok}
use eos_chronicle.Store.Rows.{StateObject, ReceivedBlock, ContractAbi, AbiHistory}
use eos_chronicle.Store.Keyed.{by_number, by_name_and_block, AllAbove, Ascending}
use eos_chronicle.Receiver.State.{ReceiverOf, TablesOf, World}
use eos_chronicle.Receiver.Laws.{Laws, history_key}
use eos_chronicle.Receiver.Abi.{tables, set_tables}
use eos_chronicle.Receiver.Abi.Tables.{tables-set_tables}
use eos_chronicle.Receiver.Start.{revert_uncommitted_revisions}
use eos_chronicle.Snapshot.{
  Row, received_block_object, contract_abi_object, contract_abi_history, stream_end, magic_number,
  File, has_bytes, with_abi, versions_with_abi, file_of, write_snapshot, read_rows, read_snapshot,
}
use eos_chronicle.Snapshot.Restored.{by_number-Strict, by_name_and_block-Strict, Part, segment}

abbrev block_key : ReceivedBlock → ℕ
block_key x = x.block_index

abbrev abi_key : ContractAbi → ℕ
abi_key x = x.account

AllAbove-with_abi :
    (k : ℕ) (xs : List ContractAbi)
    → AllAbove by_number abi_key k xs
    → AllAbove by_number abi_key k (with_abi xs)
AllAbove-with_abi k [] a = tt
AllAbove-with_abi k (x ∷ xs) (h, a) = elim (Bool-cases (has_bytes x.abi)) [
  | inl full ↦ simp full (h, AllAbove-with_abi k xs a)
  | inr empty ↦ simp empty (AllAbove-with_abi k xs a)
]

Ascending-with_abi :
    (xs : List ContractAbi)
    → Ascending by_number abi_key xs
    → Ascending by_number abi_key (with_abi xs)
Ascending-with_abi [] a = tt
Ascending-with_abi (x ∷ xs) (h, a) = elim (Bool-cases (has_bytes x.abi)) [
  | inl full ↦ simp full (AllAbove-with_abi x.account xs h, Ascending-with_abi xs a)
  | inr empty ↦ simp empty (Ascending-with_abi xs a)
]

pub AllAbove-versions_with_abi :
    (k : ℕ × ℕ) (xs : List AbiHistory)
    → AllAbove by_name_and_block history_key k xs
    → AllAbove by_name_and_block history_key k (versions_with_abi xs)
AllAbove-versions_with_abi k [] a = tt
AllAbove-versions_with_abi k (x ∷ xs) (h, a) = elim (Bool-cases (has_bytes x.abi)) [
  | inl full ↦ simp full (h, AllAbove-versions_with_abi k xs a)
  | inr empty ↦ simp empty (AllAbove-versions_with_abi k xs a)
]

Ascending-versions_with_abi :
    (xs : List AbiHistory)
    → Ascending by_name_and_block history_key xs
    → Ascending by_name_and_block history_key (versions_with_abi xs)
Ascending-versions_with_abi [] a = tt
Ascending-versions_with_abi (x ∷ xs) (h, a) = elim (Bool-cases (has_bytes x.abi)) [
  | inl full ↦
      simp full (AllAbove-versions_with_abi (history_key x) xs h, Ascending-versions_with_abi xs a)
  | inr empty ↦ simp empty (Ascending-versions_with_abi xs a)
]

module _ (w : World) (l : Laws w) where
  abbrev blocks_part : Part w w.blocks.Table
  blocks_part = record {
    get = λ t. t.blocks;
    put = λ u t. record t { blocks = u };
    get-put = λ u t. refl;
    put-put = λ u v t. refl;
    put-get = λ t. refl;
  }

  abbrev abis_part : Part w w.abis.Table
  abis_part = record {
    get = λ t. t.abis;
    put = λ u t. record t { abis = u };
    get-put = λ u t. refl;
    put-put = λ u v t. refl;
    put-get = λ t. refl;
  }

  abbrev history_part : Part w w.history.Table
  history_part = record {
    get = λ t. t.history;
    put = λ u t. record t { history = u };
    get-put = λ u t. refl;
    put-put = λ u v t. refl;
    put-get = λ t. refl;
  }

  block_step :
      (x : ReceivedBlock) (u : w.blocks.Table) (rest : List Row) (s : ReceiverOf w)
      → w.blocks.create x (tables w s).blocks ≡ some u
      → read_rows w (received_block_object x ∷ rest) s
        ≡ read_rows w rest (set_tables w (record (tables w s) { blocks = u }) s)
  unfolding read_rows
  block_step x u rest s e = rw e refl

  abi_step :
      (x : ContractAbi) (u : w.abis.Table) (rest : List Row) (s : ReceiverOf w)
      → w.abis.create x (tables w s).abis ≡ some u
      → read_rows w (contract_abi_object x ∷ rest) s
        ≡ read_rows w rest (set_tables w (record (tables w s) { abis = u }) s)
  unfolding read_rows
  abi_step x u rest s e = rw e refl

  history_step :
      (x : AbiHistory) (u : w.history.Table) (rest : List Row) (s : ReceiverOf w)
      → w.history.create x (tables w s).history ≡ some u
      → read_rows w (contract_abi_history x ∷ rest) s
        ≡ read_rows w rest (set_tables w (record (tables w s) { history = u }) s)
  unfolding read_rows
  history_step x u rest s e = rw e refl

  -- The rows of the tables rise, as those of ordered indices do.
  pub record Sorted (t : TablesOf w) : Type 0 where
    pub blocks : Ascending by_number block_key (w.blocks.rows t.blocks)
    pub abis : Ascending by_number abi_key (w.abis.rows t.abis)
    pub history : Ascending by_name_and_block history_key (w.history.rows t.history)

  -- A new database.
  pub record Empty (t : TablesOf w) : Type 0 where
    pub states : w.states.rows t.states ≡ []
    pub blocks : w.blocks.rows t.blocks ≡ []
    pub abis : w.abis.rows t.abis ≡ []
    pub history : w.history.rows t.history ≡ []

  -- The rows of the second tables are the snapshot of the first: the state, the received blocks, and
  -- the ABIs and the versions that have bytes.
  pub record Copied (x : StateObject) (t u : TablesOf w) : Type 0 where
    pub states : w.states.rows u.states ≡ x ∷ []
    pub blocks : w.blocks.rows u.blocks ≡ w.blocks.rows t.blocks
    pub abis : w.abis.rows u.abis ≡ with_abi (w.abis.rows t.abis)
    pub history : w.history.rows u.history ≡ versions_with_abi (w.history.rows t.history)

  rows_read :
      (x : StateObject) (t : TablesOf w) (s : ReceiverOf w)
      → Sorted t
      → Empty (tables w s)
      → (s' : ReceiverOf w) × (read_rows w (file_of w x t).rows s ≡ (ok tt, s'))
        × Copied x t (tables w s')
  unfolding read_rows
  rows_read x t s sorted empty =
      let s1 =
        set_tables w (record (tables w s) { states = w.states.create x (tables w s).states }) s in
      let now =
        tables-set_tables w l
          (record (tables w s) { states = w.states.create x (tables w s).states }) s in
      let history_rows = map contract_abi_history (versions_with_abi (w.history.rows t.history)) in
      let abi_rows = map contract_abi_object (with_abi (w.abis.rows t.abis)) in
      let end = stream_end magic_number ∷ [] in
      let (s2, u2, run2, set2, rows2) =
        segment w l by_number by_number-Strict block_key w.blocks l.blocks blocks_part
          received_block_object block_step [] (w.blocks.rows t.blocks)
          (abi_rows ++ (history_rows ++ end)) s1
          (ap (λ y. w.blocks.rows y.blocks) now ∙ empty.blocks) sorted.blocks in
      let (s3, u3, run3, set3, rows3) =
        segment w l by_number by_number-Strict abi_key w.abis l.abis abis_part contract_abi_object
          abi_step [] (with_abi (w.abis.rows t.abis)) (history_rows ++ end) s2
          (ap (λ y. w.abis.rows y.abis)
              (set2 ∙ ap (λ (y : TablesOf w). record y { blocks = u2 }) now)
            ∙ empty.abis)
          (Ascending-with_abi (w.abis.rows t.abis) sorted.abis) in
      let before : tables w s3 ≡ record (tables w s) {
        states = w.states.create x (tables w s).states;
        blocks = u2;
        abis = u3;
      } =
        set3
        ∙ ap (λ (y : TablesOf w). record y { abis = u3 })
            (set2 ∙ ap (λ (y : TablesOf w). record y { blocks = u2 }) now) in
      let (s4, u4, run4, set4, rows4) =
        segment w l by_name_and_block by_name_and_block-Strict history_key w.history l.history
          history_part contract_abi_history history_step []
          (versions_with_abi (w.history.rows t.history)) end s3
          (ap (λ y. w.history.rows y.history) before ∙ empty.history)
          (Ascending-versions_with_abi (w.history.rows t.history) sorted.history) in
      let after : tables w s4 ≡ record (tables w s) {
        states = w.states.create x (tables w s).states;
        blocks = u2;
        abis = u3;
        history = u4;
      } =
        set4 ∙ ap (λ (y : TablesOf w). record y { history = u4 }) before in
      (
        s4,
        run2 ∙ run3 ∙ run4,
        record {
          states =
              ap (λ y. w.states.rows y.states) after
              ∙ l.states.rows-create x (tables w s).states
              ∙ ap (λ ys. ys ++ x ∷ []) empty.states;
          blocks = ap (λ y. w.blocks.rows y.blocks) after ∙ rows2;
          abis = ap (λ y. w.abis.rows y.abis) after ∙ rows3;
          history = ap (λ y. w.history.rows y.history) after ∙ rows4;
        },
      )

  -- If the state is saved and the tables are sorted once the uncommitted revisions are undone, then
  -- write_snapshot succeeds, and read_snapshot into a new database reads its file to the end and
  -- leaves the saved state, the received blocks, and the ABIs and versions that have bytes.
  pub read_snapshot-write_snapshot :
      (x : StateObject) (xs : List StateObject) (r s : ReceiverOf w)
      → let t = tables w (revert_uncommitted_revisions w r).1 in
        w.states.rows t.states ≡ x ∷ xs
        → Sorted t
        → Empty (tables w s)
        → (file : File) × (s' : ReceiverOf w) × ((write_snapshot w r).0 ≡ ok file)
          × (read_snapshot w file s ≡ (ok tt, s'))
          × Copied x t (tables w s')
  unfolding write_snapshot read_snapshot
  read_snapshot-write_snapshot x xs r s saved sorted empty =
      let t = tables w (revert_uncommitted_revisions w r).1 in
      let (s', run, copied) = rows_read x t s sorted empty in
      (file_of w x t, s', rw saved refl, rw empty.states run, copied)
