-- ===== src/Receiver/Interactive/Queue.antt =====
-- The requests of the interactive mode go out one at a time and in their order.
use mathlib.Core.List.{append_assoc}
use eos_chronicle.Base.{
  ℕ, ◌⊎◌, ◌≡◌, refl, sym, ◌∙◌, ap, true, false, not, ◌&&◌, List, [], ◌∷◌, ◌++◌, map, if◌then◌else◌,
  ltb, leb, arith, Bool-cases, inl, inr,
}
use eos_chronicle.Base.Exec.{Error, Result, ok, err}
use eos_chronicle.Store.Rows.{Bytes, StateObject}
use eos_chronicle.Messages.Events.{InteractiveRequest, BlocksRequest}
use eos_chronicle.Receiver.State.{ReceiverOf, World}
use eos_chronicle.Receiver.Send.{encoded, sent, send_request}
use eos_chronicle.Receiver.Abi.{tables, init_contract_abi_ctxt}
use eos_chronicle.Receiver.Interactive.{send_next, process_interactive_reqs, on_block_req}

abbrev asked_range : InteractiveRequest → ℕ × ℕ
asked_range req = (req.block_num_start, req.block_num_end)

abbrev sent_range : BlocksRequest → ℕ × ℕ
sent_range req = (req.start_block_num, req.end_block_num)

module _ (w : World) where
  -- The ranges that were sent, then those that wait.
  abbrev pub ranges : ReceiverOf w → List (ℕ × ℕ)
  ranges r = map sent_range r.requests ++ map asked_range r.interactive_req_queue

  map-snoc :
      (xs : List BlocksRequest) (x : BlocksRequest)
      → map sent_range (xs ++ x ∷ []) ≡ map sent_range xs ++ sent_range x ∷ []
  map-snoc [] x = refl
  map-snoc (y ∷ ys) x = ap (◌∷◌ (sent_range y)) (map-snoc ys x)

  -- What is asked of the endpoint for the blocks from `lo` to `hi`.
  abbrev pub wanted_blocks : ReceiverOf w → ℕ → ℕ → BlocksRequest
  wanted_blocks r lo hi = record {
    start_block_num = lo;
    end_block_num = hi;
    have_positions = [];
    irreversible_only = false;
    fetch_block = true;
    fetch_traces = not r.config.skip_traces;
    fetch_deltas = not r.config.skip_table_deltas;
  }

  -- One request went out, and is pending.
  abbrev pub Asked : ReceiverOf w → ReceiverOf w → Type 0
  Asked r s =
      (lo : ℕ) × (hi : ℕ) × (bin : Bytes) × (encoded w (wanted_blocks r lo hi) r ≡ ok bin)
      × (s.requests ≡ r.requests ++ wanted_blocks r lo hi ∷ [])
      × (s.interactive_req_pending ≡ true)

  -- The first of those that waited could not be written, and still counts as pending.
  abbrev pub Unsent : ReceiverOf w → List (ℕ × ℕ) → Error → ReceiverOf w → Type 0
  Unsent r waited e s =
      (lo : ℕ) × (hi : ℕ) × (encoded w (wanted_blocks r lo hi) r ≡ err e)
      × (waited ≡ (lo, hi) ∷ map asked_range s.interactive_req_queue)
      × (s.requests ≡ r.requests)
      × (s.interactive_req_pending ≡ true)

  abbrev Went : ReceiverOf w → Result (Unit {0}) × ReceiverOf w → Type 0
  Went r (result, s) =
      ((result ≡ ok tt) × (ranges s ≡ ranges r) × Asked r s)
      ⊎ ((e : Error) × (result ≡ err e) × Unsent r (map asked_range r.interactive_req_queue) e s)

  written :
      (req : InteractiveRequest) (rest : List InteractiveRequest) (r t : ReceiverOf w)
      (x : Result Bytes)
      → r.interactive_req_queue ≡ req ∷ rest
      → t.requests ≡ r.requests
      → t.interactive_req_queue ≡ rest
      → t.interactive_req_pending ≡ true
      → let q = wanted_blocks r req.block_num_start req.block_num_end in
        encoded w q r ≡ x → Went r (sent w q x t)
  written req rest r t (ok bin) e f g pending h =
      let q = wanted_blocks r req.block_num_start req.block_num_end in
      let order : ranges (record t { requests = t.requests ++ q ∷ [] }) ≡ ranges r =
        ap (λ qs. map sent_range (qs ++ q ∷ []) ++ map asked_range t.interactive_req_queue) f
        ∙ ap (λ ys. map sent_range (r.requests ++ q ∷ []) ++ map asked_range ys) g
        ∙ ap (λ xs. xs ++ map asked_range rest) (map-snoc r.requests q)
        ∙ append_assoc (map sent_range r.requests) (asked_range req ∷ []) (map asked_range rest)
        ∙ ap (λ ys. map sent_range r.requests ++ map asked_range ys) (sym e) in
      inl (
        refl,
        order,
        (req.block_num_start, req.block_num_end, bin, h, ap (λ xs. xs ++ q ∷ []) f, pending),
      )
  written req rest r t (err x) e f g pending h =
      let left = ap (map asked_range) e ∙ ap (λ ys. asked_range req ∷ map asked_range ys) (sym g) in
      inr (x, refl, (req.block_num_start, req.block_num_end, h, left, f, pending))

  sends_first :
      (req : InteractiveRequest) (rest : List InteractiveRequest) (r : ReceiverOf w)
      → r.interactive_req_queue ≡ req ∷ rest
      → Went r (send_next w (req ∷ rest) r)
  unfolding init_contract_abi_ctxt send_request
  sends_first req rest r e =
      let s =
        init_contract_abi_ctxt w
          (record r { interactive_req_queue = rest; end_block_num = req.block_num_end }) in
      written req rest r (record s { interactive_req_pending = true }) (encoded w _ s) e refl refl
        refl refl

  snoc-cons :
      (xs : List InteractiveRequest) (x : InteractiveRequest)
      → (y : InteractiveRequest) × (ys : List InteractiveRequest) × (xs ++ x ∷ [] ≡ y ∷ ys)
  snoc-cons [] x = (x, [], refl)
  snoc-cons (y ∷ ys) x = (y, ys ++ x ∷ [], refl)

  map-snoc-asked :
      (xs : List InteractiveRequest) (x : InteractiveRequest)
      → map asked_range (xs ++ x ∷ []) ≡ map asked_range xs ++ asked_range x ∷ []
  map-snoc-asked [] x = refl
  map-snoc-asked (y ∷ ys) x = ap (◌∷◌ (asked_range y)) (map-snoc-asked ys x)

  -- A request is dropped when it reaches above the head that the state database has saved; whether
  -- its blocks are irreversible is not looked at. Otherwise it takes its place behind all earlier
  -- ones, and where the receiver is ready and none is pending, the first of them goes out and is
  -- pending from then on, with its range, all forks and what the configuration does not skip. Where
  -- one is pending or the receiver is not ready, nothing goes out. What went out and what waits keep
  -- the order of the requests. The exception of a request that the endpoint's ABI cannot write leaves
  -- it out of the queue and pending.
  pub on_block_req_lem :
      (req : InteractiveRequest) (x : StateObject) (xs : List StateObject) (r : ReceiverOf w)
      → w.states.rows (tables w r).states ≡ x ∷ xs
      → let (result, s) = on_block_req w req r in
        let admitted = leb req.block_num_start x.head && leb req.block_num_end x.head in
        let sends = admitted && (r.receiver_ready && not r.interactive_req_pending) in
        ((result ≡ ok tt)
          × (ranges s ≡ (
              if admitted
              then ranges r ++ (req.block_num_start, req.block_num_end) ∷ []
              else ranges r))
          × (if sends
              then Asked r s
              else (s.requests ≡ r.requests)
                × (s.interactive_req_pending ≡ r.interactive_req_pending)))
        ⊎ ((e : Error) × (result ≡ err e)
            × (sends ≡ true)
            × Unsent r
                (map asked_range r.interactive_req_queue
                  ++ (req.block_num_start, req.block_num_end) ∷ [])
                e
                s)
  unfolding on_block_req process_interactive_reqs
  on_block_req_lem req x xs r e = elim (Bool-cases (ltb x.head req.block_num_start)) [
    | inl high ↦
        let above : leb req.block_num_start x.head ≡ false = ground arith in
        rw e (simp (high, above) (inl (refl, refl, (refl, refl))))
    | inr low ↦
        let below : leb req.block_num_start x.head ≡ true = ground arith in
        elim (Bool-cases (ltb x.head req.block_num_end)) [
          | inl high ↦
              let above : leb req.block_num_end x.head ≡ false = ground arith in
              rw e (simp (low, below, high, above) (inl (refl, refl, (refl, refl))))
          | inr inside ↦
              let within : leb req.block_num_end x.head ≡ true = ground arith in
              let t = record r { interactive_req_queue = r.interactive_req_queue ++ req ∷ [] } in
              let longer : ranges t ≡ ranges r ++ asked_range req ∷ [] =
                ap (λ ys. map sent_range r.requests ++ ys)
                  (map-snoc-asked r.interactive_req_queue req)
                ∙ sym (
                    append_assoc (map sent_range r.requests)
                      (map asked_range r.interactive_req_queue) (asked_range req ∷ [])) in
              elim (Bool-cases (r.receiver_ready && not r.interactive_req_pending)) [
                | inl goes ↦
                    let (first, rest, queue) = snoc-cons r.interactive_req_queue req in
                    elim (sends_first first rest t queue) [
                      | inl (done, order, asked) ↦ rw e (
                          simp (low, below, inside, within, goes, queue)
                            (inl (done, order ∙ longer, asked)))
                      | inr (x, failed, (lo, hi, h, left, same, pending)) ↦
                          let waited = sym (map-snoc-asked r.interactive_req_queue req) ∙ left in
                          rw e (
                            simp (low, below, inside, within, goes, queue)
                              (inr (x, failed, refl, (lo, hi, h, waited, same, pending))))
                    ]
                | inr waits ↦
                    rw e
                      (simp (low, below, inside, within, waits) (inl (refl, longer, (refl, refl))))
              ]
        ]
  ]
