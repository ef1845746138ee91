-- ===== src/Receiver/Result/Blocks.antt =====
-- The table of received blocks: the loop that removes the old ones.
use eos_chronicle.Base.{
  ℕ, zero, suc, ◌<◌, ◌≤◌, ◌≡◌, refl, sym, ◌∙◌, ap, none, some, List, [], ◌∷◌, arith, not, length,
  ltb, ==_refl, true, false, ◌||◌, Bool, Bool-cases, inl, inr,
}
use eos_chronicle.Base.Exec.{ok}
use eos_chronicle.Store.Rows.{ReceivedBlock}
use eos_chronicle.Store.Keyed.{by_number, place, erase, AllAbove, Ascending}
use eos_chronicle.Store.Keyed.Sorted.{erase-above, Ascending-place}
use eos_chronicle.Receiver.State.{ReceiverOf, World}
use eos_chronicle.Receiver.Laws.{Laws}
use eos_chronicle.Receiver.Abi.{tables, set_tables}
use eos_chronicle.Receiver.Abi.Tables.{tables-set_tables}
use eos_chronicle.Receiver.Start.{from_irreversible}
use eos_chronicle.Receiver.Result.{truncate, added, remember_block}

abbrev pub index_of : ReceivedBlock → ℕ
index_of x = x.block_index

-- The rows rise.
abbrev pub Rising : List ReceivedBlock → Type 0
Rising xs = Ascending by_number index_of xs

-- Every row is at a number or above it.
abbrev pub AllFrom : ℕ → List ReceivedBlock → Type 0
AllFrom n [] = Unit {0}
AllFrom n (x ∷ xs) = (n ≤ x.block_index) × AllFrom n xs

-- Some row is at a number or above it.
abbrev reaches : ℕ → List ReceivedBlock → Bool
reaches n [] = false
reaches n (x ∷ xs) = not (ltb x.block_index n) || reaches n xs

reaches-place :
    (n : ℕ) (r : ReceivedBlock) (xs : List ReceivedBlock)
    → n ≤ r.block_index
    → reaches n (place by_number index_of r xs) ≡ true
unfolding place
reaches-place n r [] h = ground arith
reaches-place n r (x ∷ xs) h = ground (arith, reaches-place n r xs h)

all_above :
    (n k : ℕ) (xs : List ReceivedBlock) → n ≤ k → AllAbove by_number index_of k xs → AllFrom n xs
all_above n k [] h a = tt
all_above n k (x ∷ xs) h a = (ground arith, all_above n k xs h a.1)

module _ (w : World) (l : Laws w) where
  -- Without the old ones, the rows still rise.
  kept_rows :
      (n : ℕ) (xs : List ReceivedBlock)
      → Rising xs
      → Rising (from_irreversible w n xs) × AllFrom n (from_irreversible w n xs)
  kept_rows n [] a = (tt, tt)
  kept_rows n (x ∷ xs) (above, rest) = elim (Bool-cases (ltb x.block_index n)) [
    | inl old ↦ simp old (kept_rows n xs rest)
    | inr new ↦
        simp new ((above, rest), (ground arith, all_above n x.block_index xs (ground arith) above))
  ]

  removed :
      (fuel n : ℕ) (t : w.blocks.Table) (x : ReceivedBlock) (xs : List ReceivedBlock)
      → w.blocks.rows t ≡ x ∷ xs
      → ltb x.block_index n ≡ true
      → truncate w (suc fuel) n t ≡ truncate w fuel n (w.blocks.remove x t)
  unfolding truncate
  removed fuel n t x xs e old = rw (truncate, e) (simp old refl)

  ended :
      (fuel n : ℕ) (t : w.blocks.Table) (x : ReceivedBlock) (xs : List ReceivedBlock)
      → w.blocks.rows t ≡ x ∷ xs
      → ltb x.block_index n ≡ false
      → truncate w (suc fuel) n t ≡ ok t
  unfolding truncate
  ended fuel n t x xs e new = rw (truncate, e) (simp new refl)

  left_rows :
      (t : w.blocks.Table) (x : ReceivedBlock) (xs : List ReceivedBlock)
      → w.blocks.rows t ≡ x ∷ xs
      → AllAbove by_number index_of x.block_index xs
      → w.blocks.rows (w.blocks.remove x t) ≡ xs
  unfolding erase
  left_rows t x xs e above =
      l.blocks.rows-remove x t ∙ rw e (rw (==_refl x.block_index) (erase-above index_of x xs above))

  -- The loop removes the rows below the irreversible block and ends at the first other one.
  truncate_lem :
      (fuel n : ℕ) (t : w.blocks.Table) (xs : List ReceivedBlock)
      → w.blocks.rows t ≡ xs
      → Rising xs
      → reaches n xs ≡ true
      → length xs < fuel
      → (u : w.blocks.Table) × (truncate w fuel n t ≡ ok u)
        × (w.blocks.rows u ≡ from_irreversible w n xs)
  truncate_lem zero n t xs e a some_row h = absurd (omega arith)
  truncate_lem (suc fuel) n t [] e a some_row h = cc
  truncate_lem (suc fuel) n t (x ∷ xs) e (above, rest) some_row h =
      elim (Bool-cases (ltb x.block_index n)) [
        | inr new ↦ (t, ended fuel n t x xs e new, e ∙ simp new refl)
        | inl old ↦
            let (u, run, rows) =
              truncate_lem fuel n (w.blocks.remove x t) xs (left_rows t x xs e above) rest
                (ground arith) (omega arith) in
            (u, removed fuel n t x xs e old ∙ run, rows ∙ simp old refl)
      ]

  -- What the two writes leave.
  written :
      (r : ReceiverOf w) (row : ReceivedBlock) (u v : w.blocks.Table)
      → w.blocks.create row (tables w r).blocks ≡ some u
      → truncate w (suc (length (w.blocks.rows u))) r.irreversible u ≡ ok v
      → let (result, s) = added w (w.blocks.create row (tables w r).blocks) r in
        (result ≡ ok tt) × ((tables w s).blocks ≡ v)
  written r row u v made run =
      let s = set_tables w (record (tables w r) { blocks = u }) r in
      rw (made, run)
        (refl, ap (λ x. x.blocks) (tables-set_tables w l (record (tables w s) { blocks = v }) s))

  -- Where the head is above the irreversible block and is not in the table, whose rows rise, remember_block
  -- succeeds: the loop ends before the end of the table, the head's row is there, the rows below the
  -- irreversible block are gone, and the rows rise.
  pub remember_block_lem :
      (r : ReceiverOf w)
      → r.irreversible < r.head
      → Rising (w.blocks.rows (tables w r).blocks)
      → w.blocks.find r.head (tables w r).blocks ≡ none
      → let (result, s) = remember_block w r in
        let row : ReceivedBlock = record { block_index = r.head; block_id = r.head_id } in
        let rows = w.blocks.rows (tables w s).blocks in
        (result ≡ ok tt)
        × (rows
            ≡ from_irreversible w r.irreversible
                (place by_number index_of row (w.blocks.rows (tables w r).blocks)))
        × Rising rows
        × AllFrom r.irreversible rows
  unfolding remember_block
  remember_block_lem r reversible rising free =
      let row : ReceivedBlock = record { block_index = r.head; block_id = r.head_id } in
      let t = (tables w r).blocks in
      let (u, made, rows_u) = l.blocks.create_free row t free in
      let sorted =
        Ascending-place index_of row (w.blocks.rows t) (sym (l.blocks.find_rows r.head t) ∙ free)
          rising in
      let (v, run, rows_v) =
        truncate_lem (suc (length (w.blocks.rows u))) r.irreversible u
          (place by_number index_of row (w.blocks.rows t)) rows_u sorted
          (reaches-place r.irreversible row (w.blocks.rows t) (omega arith))
          (rw rows_u (omega arith)) in
      let (returned, now) = written r row u v made run in
      let fresh : ltb r.irreversible r.head ≡ true = ground arith in
      let rows = ap w.blocks.rows now ∙ rows_v in
      let (still, from) =
        kept_rows r.irreversible (place by_number index_of row (w.blocks.rows t)) sorted in
      simp fresh (returned, rows, rw rows still, rw rows from)
