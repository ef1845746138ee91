-- ===== src/Receiver/Deltas/Cached.antt =====
-- The deltas of a block stay in the frame, and in a scanning mode they keep the decoder's context in
-- agreement with the table of latest ABIs.
use eos_chronicle.Base.{
  ℕ, zero, suc, ◌≡◌, ap, ◌∙◌, Bool, true, false, Option, List, [], ◌∷◌, if◌then◌else◌,
}
use eos_chronicle.Base.Exec.{Exec, Error, Result, ok, err, pure, throw, lift, modify, gets, ◌>>=◌}
use eos_chronicle.Store.Rows.{Bytes}
use eos_chronicle.Messages.Input.{AbiType, ContractRow, DeltaRow, TableDelta}
use eos_chronicle.Messages.Events.{Event}
use eos_chronicle.Receiver.State.{ReceiverOf, World, publish}
use eos_chronicle.Receiver.Laws.{Laws}
use eos_chronicle.Receiver.Abi.{clear_contract_abi, save_contract_abi}
use eos_chronicle.Receiver.Abi.Saving.{CacheInv}
use eos_chronicle.Receiver.Abi.Agreement.{
  save_contract_abi_lem, clear_contract_abi_lem, get_contract_abi_ready_lem,
}
use eos_chronicle.Receiver.Abi.Framed.{
  clear_contract_abi-Framed, save_contract_abi-Framed, get_contract_abi_ready-Frame,
}
use eos_chronicle.Receiver.Frame.{
  Frame, Framed, Frame-refl, Frame-trans, Frame-publish, Framed-lift, Framed-pure, Framed-throw,
  Framed-gets, Framed-modify, Framed-bind,
}
use eos_chronicle.Receiver.Types.{get_type, first_is_struct}
use eos_chronicle.Receiver.Deltas.{
  for_rows, left_of, is_empty, account_row, publish_row, take_row, contract_row, plain_row, RowKind,
  accounts, contract_rows, permissions, permission_links, metadata, ignored, row_kind, row_step,
  publish_delta, receive_delta, receive_deltas_from, receive_deltas,
}

module _ (w : World) (l : Laws w) where
  -- A method that stays in the frame and, in a scanning mode, keeps the agreement, whether it
  -- returns or throws.
  pub record Scans {A : Type 0} (m : Exec (ReceiverOf w) A) : Type 0 where
    pub framed : Framed w l m
    pub keeps :
        (r : ReceiverOf w)
        → r.config.interactive_mode ≡ false
        → CacheInv w l r
        → CacheInv w l (m r).1

  still_scanning :
      {r s : ReceiverOf w}
      → Frame w l r s
      → r.config.interactive_mode ≡ false
      → s.config.interactive_mode ≡ false
  still_scanning f h = ap (λ x. x.config.interactive_mode) f.only ∙ h

  pub Scans-step :
      (f : ReceiverOf w → ReceiverOf w)
      → ((r : ReceiverOf w) → Frame w l r (f r))
      → ((r : ReceiverOf w)
          → r.config.interactive_mode ≡ false
          → CacheInv w l r
          → CacheInv w l (f r))
      → Scans (modify f)
  unfolding modify
  Scans-step f h k = record { framed = Framed-modify w l f h; keeps = k }

  module _ {A : Type 0} where
    Scans-lift : (o : Result A) → Scans (lift o)
    unfolding lift
    Scans-lift o = record { framed = Framed-lift w l o; keeps = λ r h inv. inv }

    pub Scans-pure : (a : A) → Scans (pure a)
    unfolding pure
    Scans-pure a = record { framed = Framed-pure w l a; keeps = λ r h inv. inv }

    Scans-throw : (e : Error) → Scans (throw {A = A} e)
    unfolding throw
    Scans-throw e = record { framed = Framed-throw w l e; keeps = λ r h inv. inv }

    Scans-gets : (f : ReceiverOf w → A) → Scans (gets f)
    unfolding gets
    Scans-gets f = record { framed = Framed-gets w l f; keeps = λ r h inv. inv }

    Scans-if :
        (b : Bool) (m n : Exec (ReceiverOf w) A) → Scans m → Scans n → Scans (if b then m else n)
    Scans-if true m n h k = h
    Scans-if false m n h k = k

  module _ {A B : Type 0} where
    kept_rest :
        (o : Result A) (f : A → Exec (ReceiverOf w) B) (s : ReceiverOf w)
        → s.config.interactive_mode ≡ false
        → CacheInv w l s
        → ((a : A) → Scans (f a))
        → CacheInv w l ((lift o >>= f) s).1
    unfolding ◌>>=◌
    kept_rest (ok a) f s h inv k = (k a).keeps s h inv
    kept_rest (err e) f s h inv k = inv

    pub Scans-bind :
        (m : Exec (ReceiverOf w) A) (f : A → Exec (ReceiverOf w) B)
        → Scans m
        → ((a : A) → Scans (f a))
        → Scans (m >>= f)
    unfolding ◌>>=◌
    Scans-bind m f h k = record {
      framed = Framed-bind w l m f h.framed (λ a. (k a).framed);
      keeps = λ r scanning inv.
          let (o, s) = m r in
          kept_rest o f s (still_scanning (h.framed.at r) scanning) (h.keeps r scanning inv) k;
    }

  Scans-clear : (account : ℕ) → Scans (clear_contract_abi w account)
  Scans-clear account = record {
    framed = clear_contract_abi-Framed w l account;
    keeps = λ r h inv. (clear_contract_abi_lem w l account r inv).0;
  }

  Scans-save : (account : ℕ) (abi : Bytes) → Scans (save_contract_abi w account abi)
  Scans-save account abi = record {
    framed = save_contract_abi-Framed w l account abi;
    keeps = λ r h inv. (save_contract_abi_lem w l account abi r inv).0;
  }

  Scans-account_row : (type : AbiType) (row : DeltaRow) → Scans (account_row w type row)
  unfolding account_row
  Scans-account_row type row = Scans-bind _ _ (Scans-lift _) (λ bin.
      Scans-if row.present _ _
        (Scans-bind _ _ (Scans-lift _) (λ acc.
          Scans-bind _ _
            (Scans-if (is_empty w acc.0.abi) _ _ (Scans-clear acc.0.name)
              (Scans-save acc.0.name acc.0.abi))
            (λ u. Scans-pure (left_of w row acc.1))))
        (Scans-pure (left_of w row bin)))

  publish_row-Frame :
      (ready : Bool) (row : DeltaRow) (kvo : ContractRow) (r : ReceiverOf w)
      → Frame w l r (publish_row w ready row kvo r)
  publish_row-Frame true row kvo r = Frame-publish w l _ r
  publish_row-Frame false row kvo r = Frame-publish w l _ r

  publish_row_cache :
      (ready : Bool) (row : DeltaRow) (kvo : ContractRow) (r : ReceiverOf w)
      → CacheInv w l r
      → CacheInv w l (publish_row w ready row kvo r)
  publish_row_cache true row kvo r inv = inv
  publish_row_cache false row kvo r inv = inv

  Scans-take_row :
      (row : DeltaRow) (kvo : ContractRow) (take : ReceiverOf w → Bool)
      → Scans (modify (λ r. if take r then take_row w row kvo r else r))
  Scans-take_row row kvo take =
      Scans-step _ (λ r. framed r (take r)) (λ r h inv. kept r (take r) h inv)
    where
      framed : (r : ReceiverOf w) (b : Bool) → Frame w l r (if b then take_row w row kvo r else r)
      framed r true =
          Frame-trans w l (get_contract_abi_ready-Frame w l kvo.code r)
            (publish_row-Frame _ row kvo _)
      framed r false = Frame-refl w l r

      kept :
          (r : ReceiverOf w) (b : Bool)
          → r.config.interactive_mode ≡ false
          → CacheInv w l r
          → CacheInv w l (if b then take_row w row kvo r else r)
      kept r true h inv =
          publish_row_cache _ row kvo _ (get_contract_abi_ready_lem w l kvo.code r h inv).0
      kept r false h inv = inv

  Scans-contract_row : (type : AbiType) (row : DeltaRow) → Scans (contract_row w type row)
  unfolding contract_row
  Scans-contract_row type row = Scans-bind _ _ (Scans-lift _) (λ bin.
      Scans-bind _ _ (Scans-lift _) (λ kvo.
        Scans-bind _ _ (Scans-take_row row kvo.0 _) (λ u. Scans-pure (left_of w row kvo.1))))

  Scans-plain_row :
      (read : Bytes → Option (Bytes × Bytes)) (event : ReceiverOf w → Bool → Bytes → Event)
      (type : AbiType) (row : DeltaRow)
      → Scans (plain_row w read event type row)
  unfolding plain_row
  Scans-plain_row read event type row = Scans-bind _ _ (Scans-lift _) (λ bin.
      Scans-bind _ _ (Scans-lift _) (λ object.
        Scans-bind _ _ (Scans-step _ (λ r. Frame-publish w l _ r) (λ r h inv. inv))
          (λ u. Scans-pure (left_of w row object.1))))

  Scans-row_step :
      (kind : RowKind) (type : AbiType) (row : DeltaRow) → Scans (row_step w kind type row)
  unfolding row_step
  Scans-row_step accounts type row = Scans-account_row type row
  Scans-row_step contract_rows type row = Scans-contract_row type row
  Scans-row_step permissions type row = Scans-plain_row _ _ type row
  Scans-row_step permission_links type row = Scans-plain_row _ _ type row
  Scans-row_step metadata type row = Scans-plain_row _ _ type row
  Scans-row_step ignored type row = Scans-pure row

  Scans-for_rows :
      (f : DeltaRow → Exec (ReceiverOf w) DeltaRow) (rows : List DeltaRow)
      → ((row : DeltaRow) → Scans (f row))
      → Scans (for_rows w f rows)
  unfolding for_rows
  Scans-for_rows f [] h = Scans-pure []
  Scans-for_rows f (row ∷ rows) h =
      Scans-bind _ _ (h row)
        (λ read. Scans-bind _ _ (Scans-for_rows f rows h) (λ others. Scans-pure (read ∷ others)))

  publish_delta-Scans : (delta : TableDelta) → Scans (modify (publish_delta w delta))
  publish_delta-Scans delta =
      Scans-step _ (λ r. framed r r.subscribers.block_table_deltas)
        (λ r h inv. kept r r.subscribers.block_table_deltas inv)
    where
      framed :
          (r : ReceiverOf w) (b : Bool)
          → Frame w l r (
              if b
              then publish
                  (Event.block_table_deltas
                    (record { block_timestamp = r.block_header.timestamp; table_delta = delta }))
                  r
              else r)
      framed r true = Frame-publish w l _ r
      framed r false = Frame-refl w l r

      kept :
          (r : ReceiverOf w) (b : Bool)
          → CacheInv w l r
          → CacheInv w l (
              if b
              then publish
                  (Event.block_table_deltas
                    (record { block_timestamp = r.block_header.timestamp; table_delta = delta }))
                  r
              else r)
      kept r true inv = inv
      kept r false inv = inv

  receive_delta-Scans : (delta : TableDelta) → Scans (receive_delta w delta)
  unfolding receive_delta
  receive_delta-Scans delta = record {
    framed = record { at = λ r. (body r).framed.at r };
    keeps = λ r. (body r).keeps r;
  }
    where
      body :
          (r : ReceiverOf w)
          → Scans (
              lift (get_type delta.name r.abi_types) >>= λ type.
              if first_is_struct type.alternatives
              then (for_rows w (row_step w (row_kind w delta.name r) type) delta.rows >>= λ rows.
                  modify (publish_delta w (record delta { rows = rows })))
              else throw Error.unknown_table)
      body r = Scans-bind _ _ (Scans-lift _) (λ type.
          Scans-if (first_is_struct type.alternatives) _ _
            (Scans-bind _ _
              (Scans-for_rows _ delta.rows (Scans-row_step (row_kind w delta.name r) type))
              (λ rows. publish_delta-Scans (record delta { rows = rows })))
            (Scans-throw Error.unknown_table))

  receive_deltas_from-Scans : (num : ℕ) (bin : Bytes) → Scans (receive_deltas_from w num bin)
  unfolding receive_deltas_from
  receive_deltas_from-Scans zero bin = Scans-pure tt
  receive_deltas_from-Scans (suc num) bin = Scans-bind _ _ (Scans-gets _) (λ types.
      Scans-bind _ _ (Scans-lift _) (λ type. Scans-bind _ _ (Scans-lift _) (λ rest.
        Scans-bind _ _ (Scans-lift _) (λ read.
          Scans-bind _ _ (receive_delta-Scans read.0)
            (λ u. receive_deltas_from-Scans num read.1)))))

  -- Whether receive_deltas returns or throws, it changes the tables, the context, the loaded names and
  -- the events alone and no revision of the database; and in a scanning mode it keeps the context in
  -- agreement with the table of latest ABIs.
  pub receive_deltas-Scans : (bin : Bytes) → Scans (receive_deltas w bin)
  unfolding receive_deltas
  receive_deltas-Scans bin =
      Scans-bind _ _ (Scans-lift _) (λ read. receive_deltas_from-Scans read.0 read.1)
