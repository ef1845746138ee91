-- ===== src/Receiver/Result/Agreed/Running.antt =====
-- The receiver while it runs: what can happen to it, in any order, and the agreement.
use eos_chronicle.Base.{
  ℕ, ◌≡◌, ◌⊎◌, inl, inr, refl, sym, ap, ◌∙◌, subst, false, Bool, arith, Bool-cases,
}
use eos_chronicle.Base.Exec.{ok}
use eos_chronicle.Messages.Input.{BlockPosition, BlocksResult}
use eos_chronicle.Receiver.State.{Config, ReceiverOf, World}
use eos_chronicle.Receiver.Laws.{Laws}
use eos_chronicle.Receiver.Abi.{get_contract_abi_ready}
use eos_chronicle.Receiver.Abi.Agreement.{get_contract_abi_ready_lem}
use eos_chronicle.Receiver.Abi.Framed.{get_contract_abi_ready-Frame}
use eos_chronicle.Receiver.Stop.{abort_receiver}
use eos_chronicle.Receiver.Acks.{ack_block, acknowledge, slowdown}
use eos_chronicle.Receiver.Pause.{
  must_pause, reached_end, continue_read, check_stale_head, commit_db,
}
use eos_chronicle.Receiver.Result.{receive_position}
use eos_chronicle.Receiver.Result.Agreed.{Cached, cached, AllValid, AgreesAt, Agrees}
use eos_chronicle.Receiver.Result.Agreed.Received.{
  receive_position-Agrees, receive_position-config, commit_db-Agrees,
}

module _ (w : World) (l : Laws w) where
  -- What happens while the receiver runs: a block is taken, the exporter acknowledges, or asks to slow
  -- down or to go on, the receiver reads on or pauses, its stale timer fires, or the decoder asks for a
  -- contract's ABI.
  pub data Step (r s : ReceiverOf w) : Type 0 where
    takes :
        (result : BlocksResult) (block : BlockPosition) (go : Bool)
        → receive_position w result block r ≡ (ok go, s)
        → Step r s
    acks : (n : ℕ) → s ≡ (ack_block n r).1 → Step r s
    slows : (pause : Bool) → s ≡ slowdown pause r → Step r s
    reads : (queued : ℕ) → s ≡ continue_read w queued r → Step r s
    stale : s ≡ check_stale_head r → Step r s
    decodes : (account : ℕ) → s ≡ (get_contract_abi_ready w account r).1 → Step r s

  pub data Run (r : ReceiverOf w) : ReceiverOf w → Type 0 where
    here : Run r r
    next : {s t : ReceiverOf w} → Run r s → Step s t → Run r t

  abbrev held : ReceiverOf w → Cached w l × Config
  held r = (cached w l r, r.config)

  abbrev AgreesScanning : Cached w l × Config → Type 0
  AgreesScanning (c, config) = AgreesAt w l c × (config.interactive_mode ≡ false)

  ack_block-held : (n : ℕ) (r : ReceiverOf w) → held (ack_block n r).1 ≡ held r
  unfolding ack_block acknowledge
  ack_block-held n r = ground arith

  check_stale_head-held : (r : ReceiverOf w) → held (check_stale_head r) ≡ held r
  unfolding check_stale_head
  check_stale_head-held r = ground arith

  abort_receiver-held : (r : ReceiverOf w) → held (abort_receiver r) ≡ held r
  unfolding abort_receiver
  abort_receiver-held r = ground arith

  continue_read-held :
      (queued : ℕ) (r : ReceiverOf w)
      → (held (continue_read w queued r) ≡ held r)
        ⊎ (held (continue_read w queued r) ≡ held (commit_db w r))
  unfolding continue_read commit_db
  continue_read-held queued r = elim (Bool-cases (must_pause queued r)) [
    | inr free ↦ inl (simp free refl)
    | inl pauses ↦ elim (Bool-cases (reached_end r)) [
      | inl ends ↦ inr (simp (pauses, ends) (abort_receiver-held (commit_db w r)))
      | inr waits ↦ inl (simp (pauses, waits) (ground arith))
    ]
  ]

  Step-Agrees : {r s : ReceiverOf w} → Step r s → AgreesScanning (held r) → AgreesScanning (held s)
  unfolding slowdown commit_db
  Step-Agrees {r} {s} (takes result block go h) (agrees, scanning) = (
    receive_position-Agrees w l result block r s go scanning agrees h,
    ap (λ c. c.interactive_mode) (receive_position-config w l result block r s go scanning agrees h)
        ∙ scanning,
  )
  Step-Agrees {r} {s} (acks n e) agrees =
      subst AgreesScanning (sym (ap held e ∙ ack_block-held n r)) agrees
  Step-Agrees {r} {s} (slows pause e) agrees = subst AgreesScanning (sym (ap held e)) agrees
  Step-Agrees {r} {s} (reads queued e) (agrees, scanning) = elim (continue_read-held queued r) [
    | inl same ↦ subst AgreesScanning (sym (ap held e ∙ same)) (agrees, scanning)
    | inr commits ↦
        subst AgreesScanning (sym (ap held e ∙ commits)) (commit_db-Agrees w l r agrees, scanning)
  ]
  Step-Agrees {r} {s} (stale e) agrees =
      subst AgreesScanning (sym (ap held e ∙ check_stale_head-held r)) agrees
  Step-Agrees {r} {s} (decodes account e) (agrees, scanning) =
      let (cache, ready, db, held_abi) =
        get_contract_abi_ready_lem w l account r scanning agrees.cache in
      let frame = get_contract_abi_ready-Frame w l account r in
      subst AgreesScanning (sym (ap held e)) (
        record { cache = cache; kept = subst (AllValid w l) (sym frame.kept) agrees.kept },
        ap (λ x. x.config.interactive_mode) frame.only ∙ scanning,
      )

  -- From a receiver that scans and whose context agrees with the database on, whatever happens and in
  -- whatever order, as long as no block's handling throws: there is a context, each contract that was
  -- loaded has its latest ABI in it, and the decoder accepts every ABI in the table of latest ABIs, now
  -- and in all contents that the database can still return to; and the receiver still scans.
  pub Run-Agrees :
      (r s : ReceiverOf w)
      → r.config.interactive_mode ≡ false
      → Agrees w l r
      → Run r s
      → Agrees w l s × (s.config.interactive_mode ≡ false)
  Run-Agrees r s scanning agrees here = (agrees, scanning)
  Run-Agrees r s scanning agrees (next run st) = Step-Agrees st (Run-Agrees r _ scanning agrees run)
