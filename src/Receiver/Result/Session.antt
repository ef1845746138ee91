-- ===== src/Receiver/Result/Session.antt =====
-- The undo session round the state changing activities of receive_result, and what a stored block
-- leaves in the database.
use eos_chronicle.Base.{
  subst, ◌⊎◌, inl, inr, ℕ, suc, ◌-◌, ◌≡◌, refl, ap, ◌∙◌, Bool, true, false, Option, none, some,
  List, [], ◌∷◌, ◌⊎◌, inl, inr, take, if◌then◌else◌, ltb, arith,
}
use mathlib.Core.Path.{ap₂}
use eos_chronicle.Base.Exec.{bind_ok, ◌>>=◌, Error, modify, continue, Exec, Result, ok, err}
use eos_chronicle.Store.Rows.{Bytes, StateObject}
use eos_chronicle.Receiver.State.{TablesOf, ReceiverOf, World}
use eos_chronicle.Receiver.Laws.{Laws}
use eos_chronicle.Receiver.Abi.{tables}
use eos_chronicle.Receiver.Abi.Tables.{tables-set_tables}
use eos_chronicle.Receiver.Frame.{
  Frame, Framed, Frame-refl, Frame-trans, Frame-set_tables, Framed-pure, Framed-modify, Framed-bind,
}
use eos_chronicle.Receiver.Deltas.{receive_deltas}
use eos_chronicle.Receiver.Deltas.Cached.{receive_deltas-Scans}
use eos_chronicle.Receiver.Start.{save_state, state_of, write_state}
use eos_chronicle.Receiver.Pause.{commit_db, commit_rev}
use eos_chronicle.Receiver.Result.{
  close_session, store_block, added, truncated, optional, remember_block, session_body,
}

module _ (w : World) (l : Laws w) where
  truncated-Frame : (o : Result w.blocks.Table) (r : ReceiverOf w) → Frame w l r (truncated w o r).1
  truncated-Frame (err e) r = Frame-refl w l r
  truncated-Frame (ok t) r = Frame-set_tables w l _ r

  added-Frame : (o : Option w.blocks.Table) (r : ReceiverOf w) → Frame w l r (added w o r).1
  added-Frame none r = Frame-refl w l r
  added-Frame (some t) r = Frame-trans w l (Frame-set_tables w l _ r) (truncated-Frame _ _)

  pub remember_block-Framed : Framed w l (remember_block w)
  unfolding remember_block
  remember_block-Framed = record { at = λ r. go (ltb r.irreversible r.head) _ r }
    where
      go :
          (b : Bool) (o : Option w.blocks.Table) (r : ReceiverOf w)
          → Frame w l r (if b then added w o r else (ok tt, r)).1
      go true o r = added-Frame o r
      go false o r = Frame-refl w l r

  optional-Framed :
      (f : Bytes → Exec (ReceiverOf w) (Unit {0})) (o : Option Bytes)
      → ((bin : Bytes) → Framed w l (f bin))
      → Framed w l (optional w f o)
  optional-Framed f none h = Framed-pure w l tt
  optional-Framed f (some bin) h = h bin

  pub save_state-Frame : (r : ReceiverOf w) → Frame w l r (save_state w r)
  unfolding save_state
  save_state-Frame r = Frame-set_tables w l _ r

  body-Framed : (deltas : Option Bytes) → Framed w l (session_body w deltas)
  body-Framed deltas = Framed-bind w l _ _ remember_block-Framed (λ u.
      Framed-bind w l _ _ (optional-Framed _ deltas (λ bin. (receive_deltas-Scans w l bin).framed))
        (λ v. Framed-modify w l _ save_state-Frame))

  written :
      (rows : List StateObject) (row : StateObject) (t : w.states.Table)
      → w.states.rows t ≡ rows
      → (rest : List StateObject) × (w.states.rows (write_state w rows row t) ≡ row ∷ rest)
  written [] row t e = ([], l.states.rows-create row t ∙ rw e refl)
  written (x ∷ xs) row t e = (xs, l.states.rows-modify_first row x xs t e)

  -- save_state makes the first row of the state table the receiver's state.
  save_state_lem :
      (r : ReceiverOf w)
      → (rest : List StateObject) × (w.states.rows (tables w (save_state w r)).states
          ≡ state_of w r ∷ rest)
  unfolding save_state
  save_state_lem r =
      let t = tables w r in
      let rows = w.states.rows t.states in
      let (rest, e) = written rows (state_of w r) t.states refl in
      let now =
        tables-set_tables w l (record t { states = write_state w rows (state_of w r) t.states })
          r in
      (rest, ap (λ x. w.states.rows x.states) now ∙ e)

  -- The database is as it was.
  pub record Restored (r s : ReceiverOf w) : Type 0 where
    pub contents : tables w s ≡ tables w r
    pub revision : w.database.revision s.db ≡ w.database.revision r.db
    pub kept : l.database.kept s.db ≡ l.database.kept r.db

  -- A block was stored: the database has one more revision and still keeps the contents before every
  -- block that is not final, the state table holds the receiver's state, and of the receiver itself
  -- nothing changed but the context and the events.
  pub record Stored (r s : ReceiverOf w) : Type 0 where
    pub revision : w.database.revision s.db ≡ suc (w.database.revision r.db)
    pub kept :
        l.database.kept s.db
        ≡ take (suc (w.database.revision r.db) - commit_rev w r) (tables w r ∷ l.database.kept r.db)
    pub others : List StateObject
    pub saved : w.states.rows (tables w s).states ≡ state_of w r ∷ others
    pub only : s ≡ record r {
      db = s.db;
      contract_abi_ctxt = s.contract_abi_ctxt;
      contract_abi_imported = s.contract_abi_imported;
      events = s.events;
    }

  abbrev pub opened : ReceiverOf w → ReceiverOf w
  opened r = record r { db = w.database.start_undo_session r.db }

  undone :
      (r t : ReceiverOf w)
      → Frame w l (opened r) t
      → Restored r (record t { db = w.database.undo t.db })
  undone r t f =
      let (now, rev, kept) = l.database.start_lem r.db in
      let (back, rev', kept') = l.database.undo_lem t.db _ _ (f.kept ∙ kept) in
      let e = rev' ∙ f.revision ∙ rev in
      record { contents = back; revision = omega (arith, e); kept = kept' }

  committed :
      (r t : ReceiverOf w) (rest : List StateObject)
      → Frame w l (opened r) t
      → w.states.rows (tables w t).states ≡ state_of w t ∷ rest
      → Stored r (commit_db w (record t { db = w.database.push t.db }))
  unfolding commit_db
  committed r t rest f saved =
      let (_, rev, kept) = l.database.start_lem r.db in
      let (now', rev', kept') = l.database.push_lem t.db in
      let d = w.database.push t.db in
      let u = record t { db = d } in
      let (now, rev_c, kept_c) = l.database.commit_lem (commit_rev w u) d in
      let upto = ap (λ x. commit_rev w x) f.only in
      let own = ap (λ x. state_of w x) f.only in
      record {
        revision = rev_c ∙ rev' ∙ f.revision ∙ rev;
        kept =
            kept_c
            ∙ ap₂ (λ (n : ℕ) (ks : List (TablesOf w)). take n ks)
                (ap₂ (λ (a b : ℕ). a - b) (rev' ∙ f.revision ∙ rev) upto) (kept' ∙ f.kept ∙ kept);
        others = rest;
        saved = ap (λ x. w.states.rows x.states) (now ∙ now') ∙ saved ∙ ap (λ x. x ∷ rest) own;
        only =
            ap {A = ReceiverOf w} {B = ReceiverOf w}
              (λ x. record x {
                db = w.database.commit (commit_rev w u) d;
                contract_abi_ctxt = t.contract_abi_ctxt;
                contract_abi_imported = t.contract_abi_imported;
                events = t.events;
              })
              f.only;
      }

  -- A body that returns has saved the state last.
  body_saved :
      (deltas : Option Bytes) (r t : ReceiverOf w)
      → session_body w deltas r ≡ (ok tt, t)
      → (rest : List StateObject) × (w.states.rows (tables w t).states ≡ state_of w t ∷ rest)
  unfolding modify save_state
  body_saved deltas r t h =
      let (_, s, _, after) = bind_ok (remember_block w) _ r t tt h in
      let (_, u, _, last) = bind_ok (optional w (receive_deltas w) deltas) _ s t tt after in
      subst
        (λ x. (rest : List StateObject) × (w.states.rows (tables w x).states ≡ state_of w x ∷ rest))
        (ap (λ x. x.1) last) (save_state_lem u)

  -- Storing a block either fails, and then the database is as it was before the block, or stores the
  -- block as one revision.
  pub store_block_lem :
      (deltas : Option Bytes) (r : ReceiverOf w)
      → let (result, s) = store_block w deltas r in
        ((e : Error) × (result ≡ err e) × Restored r s) ⊎ ((result ≡ ok tt) × Stored r s)
  unfolding store_block modify ◌>>=◌
  store_block_lem deltas r = closed (session_body w deltas (opened r)) refl
    where
      framed :
          (x : Result (Unit {0}) × ReceiverOf w)
          → session_body w deltas (opened r) ≡ x
          → Frame w l (opened r) x.1
      framed x h =
          subst (λ (y : Result (Unit {0}) × ReceiverOf w). Frame w l (opened r) y.1) h
            ((body-Framed deltas).at (opened r))

      closed :
          (x : Result (Unit {0}) × ReceiverOf w)
          → session_body w deltas (opened r) ≡ x
          → let (result, s) =
              continue (close_session w x).0 (λ u. modify (commit_db w)) (close_session w x).1 in
            ((e : Error) × (result ≡ err e) × Restored r s) ⊎ ((result ≡ ok tt) × Stored r s)
      closed (err e, t) h = inl (e, refl, undone r t (framed (err e, t) h))
      closed (ok u, t) h =
          let (rest, saved) = body_saved deltas (opened r) t h in
          inr (refl, committed r t rest (framed (ok u, t) h) saved)
