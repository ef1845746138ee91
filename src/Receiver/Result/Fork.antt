-- ===== src/Receiver/Result/Fork.antt =====
-- The branch of receive_result for a block that is not above the head, and what comes before a block
-- while the receiver scans.
use eos_chronicle.Base.{
  ◌&&◌, ℕ, suc, ◌+◌, ◌-◌, ◌<◌, ◌≤◌, ◌≡◌, refl, some, [], ◌∷◌, ◌++◌, arith, min, length,
  if◌then◌else◌, ltb, ◌==◌, inl, inr, false, Bool-cases, u32_mod, sub32, sub32_le,
}
use eos_chronicle.Base.Exec.{ok}
use eos_chronicle.Messages.Events.{Event, network}
use eos_chronicle.Store.Versions.{snapshot}
use eos_chronicle.Receiver.State.{ReceiverOf, World}
use eos_chronicle.Receiver.Laws.{Laws}
use eos_chronicle.Receiver.Abi.{init_contract_abi_ctxt}
use eos_chronicle.Receiver.Result.{fork}
use eos_chronicle.Receiver.Result.Rollback.{rollback_lem}

module _ (w : World) (l : Laws w) where
  -- When a block from the second on is not above the revision and every block from the one before
  -- it on can be returned to, `fork` succeeds: the database returns to the block before, with the
  -- contents after every earlier block as they were, the acknowledged block of an exporter that
  -- acknowledges is at most that one, the receiver waits for the acknowledgement of the fork, which
  -- it announces with its depth, and the decoder's context is new. The head does not change yet.
  pub fork_lem :
      (block_num last_irreversible : ℕ) (r : ReceiverOf w)
      → 1 < block_num
      → block_num ≤ w.database.revision r.db
      → w.database.revision r.db < block_num + length (l.database.kept r.db)
      → block_num < u32_mod
      → let (result, s) = fork w block_num last_irreversible r in
        (result ≡ ok tt)
        × (suc (w.database.revision s.db) ≡ block_num)
        × ((n : ℕ)
            → n < block_num
            → snapshot w.database l.database n s.db ≡ snapshot w.database l.database n r.db)
        × (s.exporter_acked_block ≡ (
            if r.exporter_will_ack
            then min r.exporter_acked_block (block_num - 1)
            else r.exporter_acked_block))
        × (s.forked_at_block ≡ block_num)
        × (s.events
            ≡ r.events
              ++ Event.forks (record {
                block_num = block_num;
                depth = r.head - block_num;
                fork_reason = network;
                last_irreversible = last_irreversible;
              })
                ∷ [])
        × (s.contract_abi_ctxt ≡ some w.decoder.create)
        × (s.head ≡ r.head)
  unfolding fork init_contract_abi_ctxt
  fork_lem block_num last_irreversible r second low deep small =
      let (e, run, top, same, left) =
        rollback_lem w l block_num r.db (omega arith) (omega arith) deep in
      let positive : (w.database.revision e == 0) ≡ false = ground arith in
      let before : sub32 block_num 1 ≡ block_num - 1 = sub32_le block_num 1 (omega arith) small in
      elim (Bool-cases (r.exporter_will_ack && ltb (block_num - 1) r.exporter_acked_block)) [
        | inl yes_clip ↦
            simp (run, positive, before, yes_clip)
              (refl, top, same, ground arith, refl, refl, refl, refl)
        | inr no_clip ↦
            simp (run, positive, before, no_clip)
              (refl, top, same, ground arith, refl, refl, refl, refl)
      ]
