-- ===== src/Store/Index.antt =====
-- The interface of a table of the state database: an ordered unique index over a chainbase object
-- type. The library is not part of the repository, so the operations are parameters, and the laws
-- state what its documentation promises of them.
use eos_chronicle.Base.{◌≡◌, Option, none, some, List, [], ◌∷◌, ◌++◌}
use eos_chronicle.Store.Keyed.{Order, find_row, place, replace, erase}

pub record Index (Row Key : Type 0) : Type 1 where
  pub Table : Type 0
  pub empty : Table
  -- From begin() to end().
  pub rows : Table → List Row
  pub find : Key → Table → Option Row
  -- db->create: nothing where the key is taken (the library throws).
  pub create : Row → Table → Option Table
  -- db->modify of the row with this key.
  pub modify : Row → Table → Table
  -- db->remove of the row with this key.
  pub remove : Row → Table → Table

module _ {Row Key : Type 0} where
  pub record IndexLaws (order : Order Key) (key : Row → Key) (ix : Index Row Key) : Type 0 where
    pub rows-empty : ix.rows ix.empty ≡ []
    pub find_rows : (k : Key) (t : ix.Table) → ix.find k t ≡ find_row order key k (ix.rows t)
    pub create_taken :
        (r x : Row) (t : ix.Table) → ix.find (key r) t ≡ some x → ix.create r t ≡ none
    pub create_free :
        (r : Row) (t : ix.Table)
        → ix.find (key r) t ≡ none
        → (u : ix.Table) × (ix.create r t ≡ some u) × (ix.rows u ≡ place order key r (ix.rows t))
    pub rows-modify :
        (r : Row) (t : ix.Table) → ix.rows (ix.modify r t) ≡ replace order key r (ix.rows t)
    pub rows-remove :
        (r : Row) (t : ix.Table) → ix.rows (ix.remove r t) ≡ erase order key r (ix.rows t)

-- The table of a single object, read through its ids: a new row is the last.
pub record Log (Row : Type 0) : Type 1 where
  pub Table : Type 0
  pub empty : Table
  pub rows : Table → List Row
  pub create : Row → Table → Table
  -- db->modify of the row at begin().
  pub modify_first : Row → Table → Table

module _ {Row : Type 0} where
  pub record LogLaws (log : Log Row) : Type 0 where
    pub rows-empty : log.rows log.empty ≡ []
    pub rows-create : (r : Row) (t : log.Table) → log.rows (log.create r t) ≡ log.rows t ++ r ∷ []
    pub rows-modify_first :
        (r x : Row) (xs : List Row) (t : log.Table)
        → log.rows t ≡ x ∷ xs
        → log.rows (log.modify_first r t) ≡ r ∷ xs
