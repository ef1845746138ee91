-- ===== src/Receiver/Frame.antt =====
-- The part of the receiver that the handling of ABIs, deltas and traces leaves alone: it changes
-- the tables, the decoder's context and the events, and no revision of the database.
use eos_chronicle.Base.{◌≡◌, refl, ap, ◌∙◌, Bool, true, false, if◌then◌else◌}
use eos_chronicle.Base.Exec.{Exec, Error, Result, ok, err, throw, pure, lift, modify, gets, ◌>>=◌}
use eos_chronicle.Messages.Events.{Event}
use eos_chronicle.Receiver.State.{ReceiverOf, TablesOf, World, publish}
use eos_chronicle.Receiver.Laws.{Laws}
use eos_chronicle.Receiver.Abi.{set_tables}

module _ (w : World) (l : Laws w) where
  pub record Frame (r s : ReceiverOf w) : Type 0 where
    pub only : s ≡ record r {
      db = s.db;
      contract_abi_ctxt = s.contract_abi_ctxt;
      contract_abi_imported = s.contract_abi_imported;
      events = s.events;
    }
    pub revision : w.database.revision s.db ≡ w.database.revision r.db
    pub kept : l.database.kept s.db ≡ l.database.kept r.db

  pub Frame-refl : (r : ReceiverOf w) → Frame r r
  Frame-refl r = record { only = refl; revision = refl; kept = refl }

  pub Frame-trans : {r s t : ReceiverOf w} → Frame r s → Frame s t → Frame r t
  Frame-trans {r} {s} {t} f g = record {
    only =
        g.only
        ∙ ap {A = ReceiverOf w} {B = ReceiverOf w}
            (λ x. record x {
              db = t.db;
              contract_abi_ctxt = t.contract_abi_ctxt;
              contract_abi_imported = t.contract_abi_imported;
              events = t.events;
            })
            f.only;
    revision = g.revision ∙ f.revision;
    kept = g.kept ∙ f.kept;
  }

  pub Frame-set_tables : (t : TablesOf w) (r : ReceiverOf w) → Frame r (set_tables w t r)
  Frame-set_tables t r =
      let (now, revision, kept) = l.database.update_lem t r.db in
      record { only = refl; revision = revision; kept = kept }

  pub Frame-publish : (e : Event) (r : ReceiverOf w) → Frame r (publish e r)
  Frame-publish e r = record { only = refl; revision = refl; kept = refl }

  -- A method that stays in the frame, whether it returns or throws.
  pub record Framed {A : Type 0} (m : Exec (ReceiverOf w) A) : Type 0 where
    pub at : (r : ReceiverOf w) → Frame r (m r).1

  module _ {A : Type 0} where
    pub Framed-lift : (o : Result A) → Framed (lift o)
    unfolding lift
    Framed-lift o = record { at = Frame-refl }

    pub Framed-pure : (a : A) → Framed (pure a)
    unfolding pure
    Framed-pure a = record { at = Frame-refl }

    pub Framed-throw : (e : Error) → Framed (throw {A = A} e)
    unfolding throw
    Framed-throw e = record { at = Frame-refl }

    pub Framed-gets : (f : ReceiverOf w → A) → Framed (gets f)
    unfolding gets
    Framed-gets f = record { at = Frame-refl }

  pub Framed-modify :
      (f : ReceiverOf w → ReceiverOf w) → ((r : ReceiverOf w) → Frame r (f r)) → Framed (modify f)
  unfolding modify
  Framed-modify f h = record { at = h }

  module _ {A B : Type 0} where
    Framed-rest :
        (o : Result A) (f : A → Exec (ReceiverOf w) B) (r s : ReceiverOf w)
        → Frame r s
        → ((a : A) → Framed (f a))
        → Frame r (((lift o) >>= f) s).1
    unfolding ◌>>=◌
    Framed-rest (ok a) f r s h k = Frame-trans h ((k a).at s)
    Framed-rest (err e) f r s h k = h

    pub Framed-bind :
        (m : Exec (ReceiverOf w) A) (f : A → Exec (ReceiverOf w) B)
        → Framed m
        → ((a : A) → Framed (f a))
        → Framed (m >>= f)
    unfolding ◌>>=◌
    Framed-bind m f h k = record { at = λ r. let (o, s) = m r in Framed-rest o f r s (h.at r) k }

  pub Framed-if :
      {A : Type 0} (b : Bool) (m n : Exec (ReceiverOf w) A)
      → Framed m
      → Framed n
      → Framed (if b then m else n)
  Framed-if true m n h k = h
  Framed-if false m n h k = k

  pub Frame-if :
      {r : ReceiverOf w} (b : Bool) (s t : ReceiverOf w)
      → Frame r s
      → Frame r t
      → Frame r (if b then s else t)
  Frame-if true s t h k = h
  Frame-if false s t h k = k
