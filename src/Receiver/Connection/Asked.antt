-- ===== src/Receiver/Connection/Asked.antt =====
-- The steps of a connection without failures, from start to the first message.
use eos_chronicle.Base.{
  ℕ, ◌≤◌, ◌<◌, ◌≡◌, refl, sym, subst, ap, ◌∙◌, true, false, not, ◌&&◌, String, some, List, [], ◌∷◌,
  ◌++◌, ◌||◌, Bool, add32, if◌then◌else◌, ltb, leb, arith, Bool-cases, inl, inr,
}
use eos_chronicle.Base.Exec.{ok, pure, modify, ◌>>=◌}
use eos_chronicle.Store.Rows.{Bytes, ReceivedBlock}
use eos_chronicle.Store.Keyed.{by_number, AllAbove}
use eos_chronicle.Messages.Input.{AbiType, BlockPosition}
use eos_chronicle.Messages.Events.{BlocksRequest}
use eos_chronicle.Receiver.State.{ReceiverOf, World}
use eos_chronicle.Receiver.Abi.{tables}
use eos_chronicle.Receiver.Types.{get_type}
use eos_chronicle.Receiver.Send.{send_request}
use eos_chronicle.Receiver.Start.{
  load_state, request_blocks, blocks_request, from_irreversible, up_to_head,
}
use eos_chronicle.Receiver.Result.Blocks.{Rising, index_of}
use eos_chronicle.Receiver.Pause.{must_pause, continue_read}
use eos_chronicle.Receiver.Connection.{
  Connection, AbiReader, resolving, running, start, get_going, resolved, connected, handshaken,
  first_read,
}

-- The positions of the rows from block `lo` to block `hi`.
abbrev pub between : ℕ → ℕ → List ReceivedBlock → List BlockPosition
between lo hi [] = []
between lo hi (x ∷ xs) =
    let rest = between lo hi xs in
    if leb lo x.block_index && leb x.block_index hi
    then record { block_num = x.block_index; block_id = x.block_id } ∷ rest
    else rest

between-above :
    (lo hi k : ℕ) (xs : List ReceivedBlock)
    → hi < k
    → AllAbove by_number index_of k xs
    → between lo hi xs ≡ []
between-above lo hi k [] h a = refl
between-above lo hi k (x ∷ xs) h (above, rest) =
    let high : leb x.block_index hi ≡ false = ground arith in
    let none_left = between-above lo hi k xs h rest in ground arith

module _ (w : World) where
  up_to_head-between :
      (lo hi k : ℕ) (xs : List ReceivedBlock)
      → lo ≤ k
      → AllAbove by_number index_of k xs
      → Rising xs
      → up_to_head w hi xs ≡ between lo hi xs
  up_to_head-between lo hi k [] h a b = refl
  up_to_head-between lo hi k (x ∷ xs) h (above, a) (higher, rest) =
      elim (Bool-cases (leb x.block_index hi)) [
        | inl inside ↦
            let low : leb lo x.block_index ≡ true = ground arith in
            simp (inside, low)
              (ap (◌∷◌ (record { block_num = x.block_index; block_id = x.block_id }))
                (up_to_head-between lo hi x.block_index xs (ground arith) higher rest))
        | inr outside ↦
            let beyond = between-above lo hi x.block_index xs (ground arith) higher in ground arith
      ]

  -- Where the rows rise, the loop of request_blocks lists all that it means to.
  positions-between :
      (lo hi : ℕ) (xs : List ReceivedBlock)
      → Rising xs
      → up_to_head w hi (from_irreversible w lo xs) ≡ between lo hi xs
  positions-between lo hi [] a = refl
  positions-between lo hi (x ∷ xs) (higher, rest) = elim (Bool-cases (ltb x.block_index lo)) [
    | inl old ↦
        let low : leb lo x.block_index ≡ false = ground arith in
        simp (old, low) (positions-between lo hi xs rest)
    | inr new ↦
        let from : leb lo x.block_index ≡ true = ground arith in
        elim (Bool-cases (leb x.block_index hi)) [
          | inl inside ↦
              simp (new, from, inside)
                (ap (◌∷◌ (record { block_num = x.block_index; block_id = x.block_id }))
                  (up_to_head-between lo hi x.block_index xs (ground arith) higher rest))
          | inr outside ↦
              let beyond = between-above lo hi x.block_index xs (ground arith) higher in
              simp (new, outside) (ground arith)
        ]
  ]

  not_either : (a b : Bool) → not (a || b) ≡ (not a && not b)
  not_either true b = refl
  not_either false b = refl

  -- What a receiver with this state has to ask for.
  abbrev pub wanted : ReceiverOf w → BlocksRequest
  wanted s = record {
    start_block_num = add32 s.head 1;
    end_block_num = s.end_block_num;
    have_positions = between s.irreversible s.head (w.blocks.rows (tables w s).blocks);
    irreversible_only = s.config.irreversible_only;
    fetch_block = not s.config.noexport_mode;
    fetch_traces = not s.config.skip_traces && not s.config.noexport_mode;
    fetch_deltas = true;
  }

  blocks_request-wanted :
      (s : ReceiverOf w)
      → Rising (w.blocks.rows (tables w s).blocks)
      → blocks_request w s ≡ wanted s
  blocks_request-wanted s rising =
      rw
        (
          positions-between s.irreversible s.head (w.blocks.rows (tables w s).blocks) rising,
          not_either s.config.skip_traces s.config.noexport_mode,
        )
        refl

  -- The receiver that goes on from `s` when the endpoint's ABI has been read.
  abbrev ready_from : ReceiverOf w → List (String × AbiType) → ReceiverOf w
  ready_from s types = record s {
    stream_open = true;
    reading = false;
    stale_check_last_head = s.head;
    stale_timer = some s.config.stale_check_deadline_msec;
    abi_types = types;
    receiver_ready = true;
  }

  -- The request has been sent.
  abbrev asked_from : ReceiverOf w → List (String × AbiType) → ReceiverOf w
  asked_from s types = record (ready_from s types) { requests = s.requests ++ wanted s ∷ [] }

  sends :
      (s : ReceiverOf w) (types : List (String × AbiType)) (type : AbiType) (out : Bytes)
      → Rising (w.blocks.rows (tables w s).blocks)
      → get_type "request" types ≡ ok type
      → w.request_to_bin type (wanted s) ≡ some out
      → request_blocks w (ready_from s types) ≡ (ok tt, asked_from s types)
  unfolding request_blocks send_request
  sends s types type out rising known encodes =
      rw (blocks_request-wanted s rising, known, encodes) refl

  -- Every step until the first message.
  abbrev pub connect : AbiReader → Bytes → ℕ → Connection w → Connection w
  connect read bin queued c =
      first_read w read false bin queued
        (handshaken w false (connected w false (resolved w false c)))

  continue_read-kept :
      (queued : ℕ) (u : ReceiverOf w)
      → let d = continue_read w queued u in
        (d.receiver_ready ≡ u.receiver_ready)
        × (d.requests ≡ u.requests)
        × (d.head ≡ u.head)
        × (must_pause queued u ≡ false → d.reading ≡ true)
  unfolding continue_read
  continue_read-kept queued u = ground arith

  goes_on :
      (s : ReceiverOf w) (types : List (String × AbiType)) (queued : ℕ)
      → s.config.interactive_mode ≡ false
      → request_blocks w (ready_from s types) ≡ (ok tt, asked_from s types)
      → get_going w queued (record (ready_from s types) { receiver_ready = s.receiver_ready })
        ≡ (ok tt, continue_read w queued (asked_from s types))
  unfolding ◌>>=◌ modify
  goes_on s types queued scans asked = simp scans (rw asked refl)

  connects_from :
      (read : AbiReader) (s : ReceiverOf w) (bin : Bytes) (types : List (String × AbiType))
      (queued : ℕ)
      → read bin ≡ ok types
      → get_going w queued (record (ready_from s types) { receiver_ready = s.receiver_ready })
        ≡ (ok tt, continue_read w queued (asked_from s types))
      → connect read bin queued (record { stage = resolving; receiver = s })
        ≡ record { stage = running; receiver = continue_read w queued (asked_from s types) }
  unfolding resolved connected handshaken first_read pure
  connects_from read s bin types queued parsed going = simp parsed (rw going refl)

  -- In a scanning mode, where the saved state is loaded, every step of the connection goes well, the
  -- endpoint's ABI has a type in which the request can be written, the received blocks rise and
  -- nothing makes the receiver pause, it runs and is ready, has the head that was loaded, has made
  -- one request for the blocks from the one after that head (modulo 2^32) to the last block to read,
  -- with the positions of all the received blocks from the irreversible one to the head, and reads
  -- on. It asks for irreversible blocks alone where the configuration says so, for table deltas
  -- always, for blocks unless nothing is exported and for traces unless they are skipped or nothing
  -- is exported.
  pub connect-request_blocks :
      (read : AbiReader) (r s : ReceiverOf w) (bin out : Bytes) (types : List (String × AbiType))
      (type : AbiType) (queued : ℕ)
      → r.config.interactive_mode ≡ false
      → s.config.interactive_mode ≡ false
      → load_state w r ≡ (ok tt, s)
      → read bin ≡ ok types
      → get_type "request" types ≡ ok type
      → w.request_to_bin type (wanted s) ≡ some out
      → Rising (w.blocks.rows (tables w s).blocks)
      → must_pause queued s ≡ false
      → let d = connect read bin queued (start w r).1 in
        (d.stage ≡ running)
        × (d.receiver.receiver_ready ≡ true)
        × (d.receiver.requests ≡ s.requests ++ wanted s ∷ [])
        × (d.receiver.head ≡ s.head)
        × (d.receiver.reading ≡ true)
  unfolding start
  connect-request_blocks read r s bin out types type queued scanning scans loaded parsed known
        encodes rising free =
      let going = goes_on s types queued scans (sends s types type out rising known encodes) in
      let c : (start w r).1 ≡ record { stage = resolving; receiver = s } =
        simp scanning (rw loaded refl) in
      let e = ap (connect read bin queued) c ∙ connects_from read s bin types queued parsed going in
      let kept = continue_read-kept queued (asked_from s types) in
      subst
        (λ (d : Connection w).
          (d.stage ≡ running)
          × (d.receiver.receiver_ready ≡ true)
          × (d.receiver.requests ≡ s.requests ++ wanted s ∷ [])
          × (d.receiver.head ≡ s.head)
          × (d.receiver.reading ≡ true))
        (sym e) (refl, kept.0, kept.1, kept.2, kept.3 free)
