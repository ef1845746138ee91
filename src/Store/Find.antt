-- ===== src/Store/Find.antt =====
-- find of an index after create, modify and remove, from the laws of the index.
use eos_chronicle.Base.{◌≡◌, ◌∙◌, sym, true, none, some, if◌then◌else◌, is_some}
use eos_chronicle.Store.Keyed.{Order}
use eos_chronicle.Store.Keyed.Find.{
  OrderLaws, find_row-place, find_row-replace, find_row-erase, find_row-same,
}
use eos_chronicle.Store.Index.{Index, IndexLaws}

module _ {Row Key : Type 0} (order : Order Key) (key : Row → Key) (ix : Index Row Key)
    (keys : OrderLaws order) (laws : IndexLaws order key ix) where
  pub find-create :
      (r : Row) (t : ix.Table)
      → ix.find (key r) t ≡ none
      → (u : ix.Table) × (ix.create r t ≡ some u)
        × ((k : Key) → ix.find k u ≡ (if order.same k (key r) then some r else ix.find k t))
  find-create r t h =
      let (u, made, rows) = laws.create_free r t h in
      (
        u,
        made,
        λ k.
            rw (laws.find_rows k u, rows, laws.find_rows k t)
              (find_row-place order keys key k r (ix.rows t) (sym (laws.find_rows (key r) t) ∙ h)),
      )

  pub find-modify :
      (k : Key) (r : Row) (t : ix.Table)
      → is_some (ix.find (key r) t) ≡ true
      → ix.find k (ix.modify r t) ≡ (if order.same k (key r) then some r else ix.find k t)
  find-modify k r t h =
      rw (laws.find_rows k (ix.modify r t), laws.rows-modify r t, laws.find_rows k t)
        (find_row-replace order keys key k r (ix.rows t) (rw (laws.find_rows (key r) t) at h))

  pub find-remove :
      (k : Key) (r : Row) (t : ix.Table)
      → ix.find k (ix.remove r t) ≡ (if order.same k (key r) then none else ix.find k t)
  find-remove k r t =
      rw (laws.find_rows k (ix.remove r t), laws.rows-remove r t, laws.find_rows k t)
        (find_row-erase order keys key k r (ix.rows t))

  pub find-same :
      (k : Key) (x : Row) (t : ix.Table) → ix.find k t ≡ some x → order.same k (key x) ≡ true
  find-same k x t h = find_row-same order key k x (ix.rows t) (sym (laws.find_rows k t) ∙ h)
