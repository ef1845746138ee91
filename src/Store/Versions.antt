-- ===== src/Store/Versions.antt =====
-- What a database with revisions stands for: the contents after each block that it can still
-- return to.
use eos_chronicle.Base.{
  ℕ, suc, ◌+◌, ◌-◌, ◌≤◌, ◌≡◌, ◌∙◌, ap, Option, none, List, ◌∷◌, arith, length, get_elem?, drop,
  get_elem?-drop, length-drop, if◌then◌else◌, leb, true,
}
use eos_chronicle.Store.Revisions.{Revisions, RevisionLaws}

module _ {T : Type 0} (db : Revisions T) (l : RevisionLaws db) where
  -- The contents now and before each revision that can be undone, newest first.
  abbrev pub versions : db.Db → List T
  versions d = db.contents d ∷ l.kept d

  -- The contents after a block.
  abbrev pub snapshot : ℕ → db.Db → Option T
  snapshot n d = if leb n (db.revision d) then get_elem? (versions d) (db.revision d - n) else none

  module _ (d e : db.Db) (k : ℕ) (left : versions e ≡ drop k (versions d))
      (lower : db.revision d ≡ db.revision e + k) where
    pub snapshot-undone : (n : ℕ) → n ≤ db.revision e → snapshot n e ≡ snapshot n d
    snapshot-undone n h =
        let here : leb n (db.revision e) ≡ true = ground arith in
        let there : leb n (db.revision d) ≡ true = ground arith in
        let at_depth : db.revision d - n ≡ k + (db.revision e - n) = omega arith in
        simp (here, there, left) (rw at_depth (get_elem?-drop k (versions d) (db.revision e - n)))

    pub length-undone : suc (length (l.kept e)) ≡ suc (length (l.kept d)) - k
    length-undone = ap length left ∙ length-drop k (versions d)
