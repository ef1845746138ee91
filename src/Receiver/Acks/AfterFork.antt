-- ===== src/Receiver/Acks/AfterFork.antt =====
-- The acknowledgements after a fork, and their order otherwise.
use eos_chronicle.Base.{
  ℕ, ◌-◌, ◌<◌, ◌≡◌, refl, false, List, [], ◌∷◌, ◌++◌, ◌≤◌, arith, ◌==◌, if◌then◌else◌, contains,
}
use eos_chronicle.Receiver.State.{Receiver}
use eos_chronicle.Receiver.Acks.{acknowledge}

module _ {Db Context : Type 0} where
  -- A sequence of acknowledgements.
  unfoldable pub acknowledge_all : List ℕ → Receiver Db Context → Receiver Db Context
  acknowledge_all [] r = r
  acknowledge_all (n ∷ ns) r = acknowledge_all ns (acknowledge n r)

  -- While a fork waits, one acknowledgement either is the expected one and ends the wait, or leaves
  -- the receiver waiting for the same block.
  acknowledge_waiting :
      (n : ℕ) (r : Receiver Db Context)
      → 0 < r.forked_at_block
      → ((acknowledge n r).forked_at_block
          ≡ (if n == r.forked_at_block - 1 then 0 else r.forked_at_block))
        × ((acknowledge n r).aborting ≡ r.aborting)
        × ((acknowledge n r).quit ≡ r.quit)
  unfolding acknowledge
  acknowledge_waiting n r h = ground arith

  -- After a fork at block f, as long as f - 1 is not among the acknowledgements, the receiver still
  -- waits for it, and no acknowledged block is above f - 1 if none was before.
  pub acknowledge_all-still_waiting :
      (ns : List ℕ) (r : Receiver Db Context)
      → 0 < r.forked_at_block
      → r.exporter_acked_block < r.forked_at_block
      → contains (r.forked_at_block - 1) ns ≡ false
      → ((acknowledge_all ns r).forked_at_block ≡ r.forked_at_block)
        × ((acknowledge_all ns r).exporter_acked_block < r.forked_at_block)
        × ((acknowledge_all ns r).quit ≡ r.quit)
  unfolding acknowledge_all acknowledge
  acknowledge_all-still_waiting [] r h k c = (refl, k, refl)
  acknowledge_all-still_waiting (n ∷ ns) r h k c =
      ground (arith, acknowledge_all-still_waiting ns (acknowledge n r))

  -- After a fork at block f, the first acknowledgement of f - 1 ends the wait, whatever came before it,
  -- and is the acknowledged block.
  pub acknowledge_all-resumes :
      (ns : List ℕ) (r : Receiver Db Context)
      → 0 < r.forked_at_block
      → contains (r.forked_at_block - 1) ns ≡ false
      → let s = acknowledge_all (ns ++ (r.forked_at_block - 1) ∷ []) r in
        (s.forked_at_block ≡ 0)
        × (s.exporter_acked_block ≡ r.forked_at_block - 1)
        × (s.quit ≡ r.quit)
  unfolding acknowledge_all acknowledge
  acknowledge_all-resumes [] r h c = ground arith
  acknowledge_all-resumes (n ∷ ns) r h c =
      ground (arith, acknowledge_all-resumes ns (acknowledge n r))

  -- With no fork to wait for, the acknowledged block never goes down, whatever is acknowledged, and no
  -- wait begins.
  pub acknowledge_all-monotone :
      (ns : List ℕ) (r : Receiver Db Context)
      → r.forked_at_block ≡ 0
      → (r.exporter_acked_block ≤ (acknowledge_all ns r).exporter_acked_block)
        × ((acknowledge_all ns r).forked_at_block ≡ 0)
  unfolding acknowledge_all acknowledge
  acknowledge_all-monotone [] r h = (omega arith, h)
  acknowledge_all-monotone (n ∷ ns) r h =
      ground (arith, acknowledge_all-monotone ns (acknowledge n r))
