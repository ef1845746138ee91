-- ===== src/Store/Revisions.antt =====
-- The interface of chainbase::database: tables with a stack of revisions that can be undone. The
-- library is not part of the repository, so the operations are parameters, and the laws state what
-- its documentation promises of them. `kept` is what the undo sessions remember: the contents
-- before each revision that is not yet committed, newest first.
use eos_chronicle.Base.{ℕ, suc, ◌-◌, ◌<◌, ◌≡◌, Option, none, some, List, [], ◌∷◌, length, take}

pub record Revisions (T : Type 0) : Type 1 where
  pub Db : Type 0
  pub contents : Db → T
  -- The effect of the create, modify and remove calls.
  pub update : T → Db → Db
  pub revision : Db → ℕ
  -- The size of undo_stack_revision_range.
  pub undo_depth : Db → ℕ
  -- Nothing where the library throws.
  pub set_revision : ℕ → Db → Option Db
  pub start_undo_session : Db → Db
  -- session.push(): the session's changes become a revision of their own.
  pub push : Db → Db
  pub undo : Db → Db
  pub commit : ℕ → Db → Db

module _ {T : Type 0} where
  pub record RevisionLaws (db : Revisions T) : Type 0 where
    pub kept : db.Db → List T
    pub undo_depth_kept : (d : db.Db) → db.undo_depth d ≡ length (kept d)
    pub update_lem :
        (t : T) (d : db.Db)
        → let d' = db.update t d in
          (db.contents d' ≡ t) × (db.revision d' ≡ db.revision d) × (kept d' ≡ kept d)
    -- A revision can be set only where nothing is left to undo, and only upwards.
    pub set_revision_lem :
        (n : ℕ) (d : db.Db)
        → kept d ≡ []
        → db.revision d < n
        → (d' : db.Db) × (db.set_revision n d ≡ some d')
          × (db.contents d' ≡ db.contents d)
          × (db.revision d' ≡ n)
          × (kept d' ≡ [])
    pub set_revision_refused :
        (n : ℕ) (d : db.Db) (t : T) (ts : List T) → kept d ≡ t ∷ ts → db.set_revision n d ≡ none
    pub start_lem :
        (d : db.Db)
        → let d' = db.start_undo_session d in
          (db.contents d' ≡ db.contents d)
          × (db.revision d' ≡ suc (db.revision d))
          × (kept d' ≡ db.contents d ∷ kept d)
    pub push_lem :
        (d : db.Db)
        → let d' = db.push d in
          (db.contents d' ≡ db.contents d) × (db.revision d' ≡ db.revision d) × (kept d' ≡ kept d)
    pub undo_lem :
        (d : db.Db) (t : T) (ts : List T)
        → kept d ≡ t ∷ ts
        → let d' = db.undo d in
          (db.contents d' ≡ t) × (suc (db.revision d') ≡ db.revision d) × (kept d' ≡ ts)
    -- With an empty stack there is nothing to undo.
    pub undo_nothing : (d : db.Db) → kept d ≡ [] → db.undo d ≡ d
    -- The revisions up to `n` become final.
    pub commit_lem :
        (n : ℕ) (d : db.Db)
        → let d' = db.commit n d in
          (db.contents d' ≡ db.contents d)
          × (db.revision d' ≡ db.revision d)
          × (kept d' ≡ take (db.revision d - n) (kept d))
