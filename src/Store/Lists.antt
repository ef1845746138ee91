-- ===== src/Store/Lists.antt =====
-- Concrete tables and revisions that meet the laws: rows in a sorted list, and a list of contents.
use eos_chronicle.Base.{
  ℕ, ◌+◌, ◌-◌, refl, Bool, Option, none, some, List, [], ◌∷◌, ◌++◌, arith, if◌then◌else◌, is_some,
  length, length-take, take, true, false, ◌&&◌, leb,
}
use eos_chronicle.Store.Keyed.{Order, find_row, place, replace, erase}
use eos_chronicle.Store.Index.{Index, IndexLaws, Log, LogLaws}
use eos_chronicle.Store.Revisions.{Revisions, RevisionLaws}

module _ {Row Key : Type 0} (order : Order Key) (key : Row → Key) where
  abbrev pub create_sorted : Row → List Row → Option (List Row)
  create_sorted r rs =
      if is_some (find_row order key (key r) rs) then none else some (place order key r rs)

  abbrev pub list_index : Index Row Key
  list_index = record {
    Table = List Row;
    empty = [];
    rows = λ t. t;
    find = find_row order key;
    create = create_sorted;
    modify = replace order key;
    remove = erase order key;
  }

  pub list_index-IndexLaws : IndexLaws order key list_index
  list_index-IndexLaws = record {
    rows-empty = refl;
    find_rows = λ k t. refl;
    create_taken = λ r x t h. ground arith;
    create_free = λ r t h. (place order key r t, ground arith, refl);
    rows-modify = λ r t. refl;
    rows-remove = λ r t. refl;
  }

module _ {Row : Type 0} where
  abbrev pub set_first : Row → List Row → List Row
  set_first r [] = []
  set_first r (x ∷ xs) = r ∷ xs

  abbrev pub list_log : Log Row
  list_log = record {
    Table = List Row;
    empty = [];
    rows = λ t. t;
    create = λ r t. t ++ r ∷ [];
    modify_first = set_first;
  }

  pub list_log-LogLaws : LogLaws list_log
  list_log-LogLaws = record {
    rows-empty = refl;
    rows-create = λ r t. refl;
    rows-modify_first = λ r x xs t h. ground arith;
  }

-- The contents, the last committed revision, and the contents before each later one.
pub record Stack (T : Type 0) : Type 0 where
  pub contents : T
  pub committed : ℕ
  pub kept : List T

module _ {T : Type 0} where
  abbrev pub restore : Stack T → List T → Stack T
  restore d [] = d
  restore d (t ∷ ts) = record d { contents = t; kept = ts }

  abbrev pub is_empty : List T → Bool
  is_empty [] = true
  is_empty (t ∷ ts) = false

  abbrev pub last_revision : Stack T → ℕ
  last_revision d = d.committed + length d.kept

  abbrev pub commit_to : ℕ → Stack T → Stack T
  commit_to n d =
      let left = take (last_revision d - n) d.kept in
      record d { committed = last_revision d - length left; kept = left }

  abbrev pub stack_revisions : Revisions T
  stack_revisions = record {
    Db = Stack T;
    contents = λ d. d.contents;
    update = λ t d. record d { contents = t };
    revision = last_revision;
    undo_depth = λ d. length d.kept;
    set_revision = λ n d.
        if is_empty d.kept && leb d.committed n then some (record d { committed = n }) else none;
    start_undo_session = λ d. record d { kept = d.contents ∷ d.kept };
    push = λ d. d;
    undo = λ d. restore d d.kept;
    commit = commit_to;
  }

  unfoldable pub stack_revisions-RevisionLaws : RevisionLaws stack_revisions
  stack_revisions-RevisionLaws = record {
    kept = λ d. d.kept;
    undo_depth_kept = λ d. refl;
    update_lem = λ t d. (refl, refl, refl);
    set_revision_lem =
        λ n d e lt. (record d { committed = n }, ground arith, refl, rw e (omega arith), e);
    set_revision_refused = λ n d t ts e. ground arith;
    start_lem = λ d. (refl, omega arith, refl);
    push_lem = λ d. (refl, refl, refl);
    undo_lem = λ d t ts e. rw e (refl, omega arith, refl);
    undo_nothing = λ d e. rw e refl;
    commit_lem = λ n d. (refl, omega (arith, length-take (last_revision d - n) d.kept), refl);
  }
