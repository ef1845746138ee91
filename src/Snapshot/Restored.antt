-- ===== src/Snapshot/Restored.antt =====
-- Creating the rows of a sorted table in their order makes the same table again.
use mathlib.Core.List.{append-nil, append_assoc}
use eos_chronicle.Base.{
  ◌≡◌, refl, sym, ap, ◌∙◌, true, false, none, some, List, [], ◌∷◌, ◌++◌, map, subst, arith,
}
use eos_chronicle.Store.Keyed.{
  Order, by_number, by_name_and_block, find_row, place, AllAbove, Ascending,
}
use eos_chronicle.Store.Index.{Index, IndexLaws}
use eos_chronicle.Receiver.State.{ReceiverOf, TablesOf, World}
use eos_chronicle.Receiver.Laws.{Laws}
use eos_chronicle.Receiver.Abi.{tables, set_tables}
use eos_chronicle.Receiver.Abi.Tables.{tables-set_tables}
use eos_chronicle.Snapshot.{Row, read_rows}

-- A smaller key is neither the same nor greater.
pub record Strict {Key : Type 0} (order : Order Key) : Type 0 where
  pub less_asym : (a b : Key) → order.less a b ≡ true → order.less b a ≡ false
  pub less_apart : (a b : Key) → order.less a b ≡ true → order.same b a ≡ false

pub by_number-Strict : Strict by_number
by_number-Strict = record { less_asym = λ a b h. ground arith; less_apart = λ a b h. ground arith }

pub by_name_and_block-Strict : Strict by_name_and_block
by_name_and_block-Strict = record {
  less_asym = λ a b h. ground arith;
  less_apart = λ a b h. ground arith;
}

module _ {R Key : Type 0} (order : Order Key) (strict : Strict order) (key : R → Key) where
  above_at :
      (k : Key) (xs ys : List R) (y : R)
      → AllAbove order key k (xs ++ y ∷ ys)
      → order.less k (key y) ≡ true
  above_at k [] ys y a = a.0
  above_at k (x ∷ xs) ys y a = above_at k xs ys y a.1

  -- A row above all others comes last.
  place-last :
      (xs ys : List R) (y : R)
      → Ascending order key (xs ++ y ∷ ys)
      → (find_row order key (key y) xs ≡ none) × (place order key y xs ≡ xs ++ y ∷ [])
  unfolding find_row place
  place-last [] ys y a = (refl, refl)
  place-last (x ∷ xs) ys y (above, rest) =
      let less = above_at (key x) xs ys y above in
      let (free, last) = place-last xs ys y rest in
      simp (strict.less_apart (key x) (key y) less, strict.less_asym (key x) (key y) less)
        (free, ap (◌∷◌ x) last)

-- One of the tables, as a part of them all.
pub record Part (w : World) (T : Type 0) : Type 0 where
  pub get : TablesOf w → T
  pub put : T → TablesOf w → TablesOf w
  pub get-put : (u : T) (t : TablesOf w) → get (put u t) ≡ u
  pub put-put : (u v : T) (t : TablesOf w) → put v (put u t) ≡ put v t
  pub put-get : (t : TablesOf w) → put (get t) t ≡ t

module _ (w : World) (l : Laws w) {R Key : Type 0} (order : Order Key) (strict : Strict order)
    (key : R → Key) (ix : Index R Key) (laws : IndexLaws order key ix) (part : Part w ix.Table)
    (row : R → Row)
    (step : (x : R) (u : ix.Table) (rest : List Row) (s : ReceiverOf w)
      → ix.create x (part.get (tables w s)) ≡ some u
      → read_rows w (row x ∷ rest) s
        ≡ read_rows w rest (set_tables w (part.put u (tables w s)) s)) where
  -- Reading the rows of a table leaves them in it, behind those that were there, and the other tables
  -- as they were.
  pub segment :
      (xs ys : List R) (rest : List Row) (s : ReceiverOf w)
      → ix.rows (part.get (tables w s)) ≡ xs
      → Ascending order key (xs ++ ys)
      → (s' : ReceiverOf w) × (u : ix.Table) × (read_rows w (map row ys ++ rest) s
          ≡ read_rows w rest s')
        × (tables w s' ≡ part.put u (tables w s))
        × (ix.rows u ≡ xs ++ ys)
  segment xs [] rest s e sorted =
      (s, part.get (tables w s), refl, sym (part.put-get (tables w s)), e ∙ sym (append-nil xs))
  segment xs (y ∷ ys) rest s e sorted =
      let t = part.get (tables w s) in
      let (free, last) = place-last order strict key xs ys y sorted in
      let missing : ix.find (key y) t ≡ none = laws.find_rows (key y) t ∙ rw e free in
      let (u, made, rows) = laws.create_free y t missing in
      let next = set_tables w (part.put u (tables w s)) s in
      let now = tables-set_tables w l (part.put u (tables w s)) s in
      let rows_next : ix.rows (part.get (tables w next)) ≡ xs ++ y ∷ [] =
        ap (λ x. ix.rows (part.get x)) now
        ∙ ap ix.rows (part.get-put u (tables w s))
        ∙ rows
        ∙ rw e last in
      let sorted_next =
        subst (λ zs. Ascending order key zs) (sym (append_assoc xs (y ∷ []) ys)) sorted in
      let (s', v, run, set, all_rows) = segment (xs ++ y ∷ []) ys rest next rows_next sorted_next in
      (
        s',
        v,
        step y u (map row ys ++ rest) s made ∙ run,
        set ∙ ap (part.put v) now ∙ part.put-put u v (tables w s),
        all_rows ∙ append_assoc xs (y ∷ []) ys,
      )
