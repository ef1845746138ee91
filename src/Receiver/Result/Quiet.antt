-- ===== src/Receiver/Result/Quiet.antt =====
-- The parts of receive_result that only publish: receive_block and receive_traces.
use eos_chronicle.Base.{
  Bool-cases, inl, inr, length, ℕ, zero, suc, ◌≡◌, refl, ap, ◌∙◌, Bool, true, false, Option, none,
  some, if◌then◌else◌,
}
use eos_chronicle.Base.Exec.{Exec, Result, ok, err, pure, lift, modify, ◌>>=◌, continue}
use eos_chronicle.Store.Rows.{Bytes}
use eos_chronicle.Messages.Input.{Trace, Codec, SignedBlock, parsed}
use eos_chronicle.Receiver.State.{Receiver, ReceiverOf, World}
use eos_chronicle.Receiver.Traces.{
  matched_of, passes, publish_trace, receive_trace, receive_traces_from, receive_traces,
}
use eos_chronicle.Receiver.Result.{optional, receive_block, publish_block, begin_block}

module _ {Db Context : Type 0} where
  -- The second receiver is the first but for what the block says of itself and the events.
  pub record Announced (r s : Receiver Db Context) : Type 0 where
    pub only :
        s ≡ record r { block_header = s.block_header; trx_count = s.trx_count; events = s.events }

  Announced-refl : (r : Receiver Db Context) → Announced r r
  Announced-refl r = record { only = refl }

  pub Announced-trans :
      {r s t : Receiver Db Context} → Announced r s → Announced s t → Announced r t
  Announced-trans {r} {s} {t} f g = record {
    only =
        g.only
        ∙ ap {A = Receiver Db Context} {B = Receiver Db Context}
            (λ x. record x {
              block_header = t.block_header;
              trx_count = t.trx_count;
              events = t.events;
            })
            f.only;
  }

  -- A method that only announces, whether it returns or throws.
  pub record Quiet {A : Type 0} (m : Exec (Receiver Db Context) A) : Type 0 where
    pub at : (r : Receiver Db Context) → Announced r (m r).1

  Quiet-lift : {A : Type 0} (o : Result A) → Quiet (lift o)
  unfolding lift
  Quiet-lift o = record { at = Announced-refl }

  Quiet-pure : Quiet (pure tt)
  unfolding pure
  Quiet-pure = record { at = Announced-refl }

  module _ {A B : Type 0} where
    Quiet-rest :
        (o : Result A) (f : A → Exec (Receiver Db Context) B) (r s : Receiver Db Context)
        → Announced r s
        → ((a : A) → Quiet (f a))
        → Announced r (continue o f s).1
    Quiet-rest (ok a) f r s h k = Announced-trans h ((k a).at s)
    Quiet-rest (err e) f r s h k = h

    Quiet-bind :
        (m : Exec (Receiver Db Context) A) (f : A → Exec (Receiver Db Context) B)
        → Quiet m
        → ((a : A) → Quiet (f a))
        → Quiet (m >>= f)
    unfolding ◌>>=◌
    Quiet-bind m f h k = record { at = λ r. Quiet-rest (m r).0 f r (m r).1 (h.at r) k }

  receive_trace-Quiet : (t : Trace) → Quiet (receive_trace t)
  unfolding receive_trace
  receive_trace-Quiet t = record {
    at = λ r.
        (Quiet-bind _ _ (Quiet-lift (matched_of r.config t))
            (λ m. record { at = λ s. traced (passes s.config m) s })).at
          r;
  }
    where
      traced :
          (b : Bool) (s : Receiver Db Context) → Announced s (if b then publish_trace t s else s)
      traced true s = record { only = refl }
      traced false s = record { only = refl }

  receive_traces_from-Quiet :
      (codec : Codec) (num : ℕ) (bin : Bytes) → Quiet (receive_traces_from codec num bin)
  unfolding receive_traces_from
  receive_traces_from-Quiet codec zero bin = Quiet-pure
  receive_traces_from-Quiet codec (suc num) bin = Quiet-bind _ _ (Quiet-lift _) (λ read.
      Quiet-bind _ _ (receive_trace-Quiet read.0) (λ u. receive_traces_from-Quiet codec num read.1))

  pub receive_traces-Quiet : (codec : Codec) (bin : Bytes) → Quiet (receive_traces codec bin)
  unfolding receive_traces
  receive_traces-Quiet codec bin = record { at = λ r. go r.subscribers.transaction_traces r }
    where
      go :
          (b : Bool) (r : Receiver Db Context)
          → Announced r
              (if b
                then (lift (parsed (codec.varuint32_from_bin bin)) >>= λ read.
                      receive_traces_from codec read.0 read.1)
                    r
                else (ok tt, r)).1
      go true r =
          (Quiet-bind _ _ (Quiet-lift _)
              (λ (read : ℕ × Bytes). receive_traces_from-Quiet codec read.0 read.1)).at
            r
      go false r = Announced-refl r

module _ (w : World) where
  pub receive_block-Quiet : (bin : Bytes) → Quiet (receive_block w bin)
  unfolding receive_block modify
  receive_block-Quiet bin =
      Quiet-bind _ _ (Quiet-lift _) (λ b. record {
        at = λ r. Announced-trans (Announced-trans (read b r) (begun _)) (shown b _);
      })
    where
      read :
          (b : SignedBlock) (r : ReceiverOf w)
          → Announced r (record r { block_header = b.header; trx_count = length b.transactions })
      read b r = record { only = refl }

      begun : (r : ReceiverOf w) → Announced r (begin_block w r)
      begun r = elim (Bool-cases r.subscribers.block_started) [
        | inl yes_one ↦ simp yes_one (record { only = refl })
        | inr no_one ↦ simp no_one (record { only = refl })
      ]

      shown : (b : SignedBlock) (r : ReceiverOf w) → Announced r (publish_block w b r)
      shown b r = elim (Bool-cases r.config.skip_block_events) [
        | inl skips ↦ simp skips (record { only = refl })
        | inr shows ↦ simp shows (record { only = refl })
      ]

  pub optional-Quiet :
      (f : Bytes → Exec (ReceiverOf w) (Unit {0})) (o : Option Bytes)
      → ((bin : Bytes) → Quiet (f bin))
      → Quiet (optional w f o)
  optional-Quiet f none h = Quiet-pure
  optional-Quiet f (some bin) h = h bin
