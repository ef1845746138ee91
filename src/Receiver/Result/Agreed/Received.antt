-- ===== src/Receiver/Result/Agreed/Received.antt =====
-- The agreement of Agreed and the steps of receive_result after the checks of the position.
use eos_chronicle.Base.{
  ℕ, zero, suc, ◌≡◌, refl, sym, ap, ◌∙◌, subst, true, false, Bool, Option, none, some, List, [],
  ◌∷◌, take, if◌then◌else◌, ltb, add32,
}
use eos_chronicle.Base.Exec.{Exec, Result, ok, err, ◌>>=◌, modify, gets, bind_ok}
use eos_chronicle.Store.Rows.{Bytes}
use eos_chronicle.Messages.Input.{BlockPosition, BlocksResult}
use eos_chronicle.Receiver.State.{ReceiverOf, TablesOf, World}
use eos_chronicle.Receiver.Laws.{Laws}
use eos_chronicle.Receiver.Abi.{tables, set_tables}
use eos_chronicle.Receiver.Abi.Tables.{tables-set_tables}
use eos_chronicle.Receiver.Abi.Cache.{CacheOk}
use eos_chronicle.Receiver.Abi.Saving.{CacheInv}
use eos_chronicle.Receiver.Start.{save_state}
use eos_chronicle.Receiver.Pause.{commit_db, commit_rev}
use eos_chronicle.Receiver.Traces.{receive_traces}
use eos_chronicle.Receiver.Deltas.Cached.{
  Scans, Scans-step, Scans-pure, Scans-bind, receive_deltas-Scans,
}
use eos_chronicle.Receiver.Result.{
  optional, truncated, added, remember_block, close_session, in_session, session_body, store_block,
  process_deltas, receive_block, complete_block, finish_block, take_block, move_head,
  receive_position,
}
use eos_chronicle.Receiver.Result.Quiet.{receive_traces-Quiet, receive_block-Quiet}
use eos_chronicle.Receiver.Result.Session.{remember_block-Framed, save_state-Frame, opened}
use eos_chronicle.Receiver.Result.Received.{announced, processed, parts, body_ran}
use eos_chronicle.Receiver.Result.Agreed.{AllValid, cached, AgreesAt, Agrees, prepare-Agrees}

module _ (w : World) (l : Laws w) where
  -- Tables with the same ABIs.
  set_tables-CacheInv :
      (t : TablesOf w) (r : ReceiverOf w)
      → t.abis ≡ (tables w r).abis
      → CacheInv w l r
      → CacheInv w l (set_tables w t r)
  set_tables-CacheInv t r same inv =
      subst (CacheOk w l r.contract_abi_ctxt r.contract_abi_imported)
        (sym (ap (λ x. x.abis) (tables-set_tables w l t r) ∙ same)) inv

  truncated-CacheInv :
      (o : Result w.blocks.Table) (r : ReceiverOf w)
      → CacheInv w l r
      → CacheInv w l (truncated w o r).1
  truncated-CacheInv (err e) r inv = inv
  truncated-CacheInv (ok t) r inv = set_tables-CacheInv _ r refl inv

  added-CacheInv :
      (o : Option w.blocks.Table) (r : ReceiverOf w) → CacheInv w l r → CacheInv w l (added w o r).1
  added-CacheInv none r inv = inv
  added-CacheInv (some t) r inv = truncated-CacheInv _ _ (set_tables-CacheInv _ r refl inv)

  remember_block-Scans : Scans w l (remember_block w)
  unfolding remember_block
  remember_block-Scans = record {
    framed = remember_block-Framed w l;
    keeps = λ r scanning inv. go (ltb r.irreversible r.head) _ r inv;
  }
    where
      go :
          (b : Bool) (o : Option w.blocks.Table) (r : ReceiverOf w)
          → CacheInv w l r
          → CacheInv w l (if b then added w o r else (ok tt, r)).1
      go true o r inv = added-CacheInv o r inv
      go false o r inv = inv

  optional-Scans :
      (f : Bytes → Exec (ReceiverOf w) (Unit {0})) (o : Option Bytes)
      → ((bin : Bytes) → Scans w l (f bin))
      → Scans w l (optional w f o)
  optional-Scans f none h = Scans-pure w l tt
  optional-Scans f (some bin) h = h bin

  save_state-CacheInv : (r : ReceiverOf w) → CacheInv w l r → CacheInv w l (save_state w r)
  unfolding save_state
  save_state-CacheInv r inv = set_tables-CacheInv _ r refl inv

  session_body-Scans : (deltas : Option Bytes) → Scans w l (session_body w deltas)
  session_body-Scans deltas = Scans-bind w l _ _ remember_block-Scans (λ u.
      Scans-bind w l _ _ (optional-Scans _ deltas (receive_deltas-Scans w l)) (λ v.
        Scans-step w l _ (save_state-Frame w l) (λ r scanning inv. save_state-CacheInv r inv)))

  AllValid-take : (n : ℕ) (ts : List (TablesOf w)) → AllValid w l ts → AllValid w l (take n ts)
  AllValid-take zero ts h = tt
  AllValid-take (suc n) [] h = tt
  AllValid-take (suc n) (t ∷ ts) h = (h.0, AllValid-take n ts h.1)

  -- Contents with the same ABIs, in a database that keeps valid ones.
  moved :
      (r : ReceiverOf w) (d : w.database.Db)
      → w.database.contents d ≡ tables w r
      → AllValid w l (l.database.kept d)
      → CacheInv w l r
      → Agrees w l (record r { db = d })
  moved r d same kept inv = record {
    cache =
        subst (λ (t : TablesOf w). CacheOk w l r.contract_abi_ctxt r.contract_abi_imported t.abis)
          (sym same) inv;
    kept = kept;
  }

  opened-Agrees : (r : ReceiverOf w) → Agrees w l r → Agrees w l (opened w l r)
  opened-Agrees r agrees =
      let (now, rev, kept) = l.database.start_lem r.db in
      moved r _ now (subst (AllValid w l) (sym kept) (agrees.cache.valid, agrees.kept)) agrees.cache

  pub commit_db-Agrees : (r : ReceiverOf w) → Agrees w l r → Agrees w l (commit_db w r)
  unfolding commit_db
  commit_db-Agrees r agrees =
      let (now, rev, kept) = l.database.commit_lem (commit_rev w r) r.db in
      moved r _ now
        (subst (AllValid w l) (sym kept) (AllValid-take _ (l.database.kept r.db) agrees.kept))
        agrees.cache

  close_session-Agrees :
      (x : Result (Unit {0}) × ReceiverOf w) (s : ReceiverOf w)
      → Agrees w l x.1
      → close_session w x ≡ (ok tt, s)
      → Agrees w l s
  close_session-Agrees (err e, t) s agrees h = cc
  close_session-Agrees (ok u, t) s agrees h =
      let (now, rev, kept) = l.database.push_lem t.db in
      subst (Agrees w l) (ap (λ y. y.1) h)
        (moved t _ now (subst (AllValid w l) (sym kept) agrees.kept) agrees.cache)

  store_block-Agrees :
      (deltas : Option Bytes) (r s : ReceiverOf w)
      → r.config.interactive_mode ≡ false
      → Agrees w l r
      → store_block w deltas r ≡ (ok tt, s)
      → Agrees w l s
  unfolding store_block in_session modify
  store_block-Agrees deltas r s scanning agrees h =
      let (_, t, first, rest) =
        bind_ok (in_session w (session_body w deltas)) (λ u. modify (commit_db w)) r s tt h in
      let body = session_body-Scans deltas in
      let start = opened-Agrees r agrees in
      let closed =
        close_session-Agrees (session_body w deltas (opened w l r)) t
          (record {
            cache = body.keeps (opened w l r) scanning start.cache;
            kept = subst (AllValid w l) (sym (body.framed.at (opened w l r)).kept) start.kept;
          })
          first in
      subst (Agrees w l) (ap (λ y. y.1) rest) (commit_db-Agrees t closed)

  process_deltas-Agrees :
      (deltas : Option Bytes) (r s : ReceiverOf w)
      → r.config.interactive_mode ≡ false
      → Agrees w l r
      → process_deltas w deltas r ≡ (ok tt, s)
      → Agrees w l s
  unfolding process_deltas
  process_deltas-Agrees deltas r s scanning agrees h =
      store_block-Agrees deltas r s scanning agrees (simp scanning at h)

  finish_block-cached :
      (traces : Option Bytes) (r s : ReceiverOf w) (go : Bool)
      → finish_block w traces r ≡ (ok go, s)
      → cached w l r ≡ cached w l s
  unfolding modify gets ◌>>=◌
  finish_block-cached traces r s go h =
      let (_, t, first, rest) = bind_ok (optional w (receive_traces w.codec) traces) _ r s go h in
      let traced =
        announced w l (receive_traces w.codec) traces r t (receive_traces-Quiet w.codec) first in
      let completed : complete_block w t ≡ s = ap (λ x. x.1) rest in
      sym (ap (λ x. cached w l x) traced.only) ∙ ap (λ x. cached w l x) completed

  take_block-Agrees :
      (result : BlocksResult) (r s : ReceiverOf w) (go : Bool)
      → r.config.interactive_mode ≡ false
      → Agrees w l r
      → take_block w result r ≡ (ok go, s)
      → Agrees w l s
  take_block-Agrees result r s go scanning agrees h =
      let (_, t, first, rest) = bind_ok (optional w (receive_block w) result.block) _ r s go h in
      let (_, u, second, last) = bind_ok (process_deltas w result.deltas) _ t s go rest in
      let read = announced w l (receive_block w) result.block r t (receive_block-Quiet w) first in
      subst (AgreesAt w l) (finish_block-cached result.traces u s go last) (
        process_deltas-Agrees result.deltas t u
          (ap (λ x. x.config.interactive_mode) read.only ∙ scanning)
          (subst (AgreesAt w l) (sym (ap (λ x. cached w l x) read.only)) agrees) second)

  -- While the receiver scans, a block that receive_result takes without an exception, on a fork or
  -- not, keeps the agreement of the decoder's context with the database: there is a context, each
  -- contract that was loaded has its latest ABI in it, and the decoder accepts every ABI in the table
  -- of latest ABIs, now and in all contents that the database can still return to.
  pub receive_position-Agrees :
      (result : BlocksResult) (block : BlockPosition) (r s : ReceiverOf w) (go : Bool)
      → r.config.interactive_mode ≡ false
      → Agrees w l r
      → receive_position w result block r ≡ (ok go, s)
      → Agrees w l s
  receive_position-Agrees result block r s go scanning agrees h =
      let start = record r { received_blocks = add32 r.received_blocks 1 } in
      let (t, first, rest) =
        parts w l result block start s go (body_ran w l result block r s go h) in
      let (ready, config) =
        prepare-Agrees w l block.block_num result.last_irreversible.block_num result.prev_block
          start t scanning agrees first in
      take_block-Agrees result (move_head w block result.last_irreversible t) s go
        (ap (λ c. c.interactive_mode) config ∙ scanning) ready rest

  take_block-config :
      (result : BlocksResult) (r s : ReceiverOf w) (go : Bool)
      → r.config.interactive_mode ≡ false
      → take_block w result r ≡ (ok go, s)
      → s.config ≡ r.config
  unfolding modify gets ◌>>=◌
  take_block-config result r s go scanning h =
      let (_, t, first, rest) = bind_ok (optional w (receive_block w) result.block) _ r s go h in
      let (_, u, second, last) = bind_ok (process_deltas w result.deltas) _ t s go rest in
      let (_, v, third, done) =
        bind_ok (optional w (receive_traces w.codec) result.traces) _ u s go last in
      let read = announced w l (receive_block w) result.block r t (receive_block-Quiet w) first in
      let stored =
        processed w l result.deltas t u (ap (λ x. x.config.interactive_mode) read.only ∙ scanning)
          second in
      let traced =
        announced w l (receive_traces w.codec) result.traces u v (receive_traces-Quiet w.codec)
          third in
      let completed : complete_block w v ≡ s = ap (λ x. x.1) done in
      sym (ap (λ x. x.config) completed)
      ∙ ap (λ x. x.config) traced.only
      ∙ ap (λ x. x.config) stored.only
      ∙ ap (λ x. x.config) read.only

  -- The options stay.
  pub receive_position-config :
      (result : BlocksResult) (block : BlockPosition) (r s : ReceiverOf w) (go : Bool)
      → r.config.interactive_mode ≡ false
      → Agrees w l r
      → receive_position w result block r ≡ (ok go, s)
      → s.config ≡ r.config
  receive_position-config result block r s go scanning agrees h =
      let start = record r { received_blocks = add32 r.received_blocks 1 } in
      let (t, first, rest) =
        parts w l result block start s go (body_ran w l result block r s go h) in
      let (ready, config) =
        prepare-Agrees w l block.block_num result.last_irreversible.block_num result.prev_block
          start t scanning agrees first in
      take_block-config result (move_head w block result.last_irreversible t) s go
        (ap (λ c. c.interactive_mode) config ∙ scanning) rest
      ∙ config
