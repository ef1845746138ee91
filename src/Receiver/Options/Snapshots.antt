-- ===== src/Receiver/Options/Snapshots.antt =====
-- A snapshot that one run saves and another one restores.
use eos_chronicle.Base.{◌≡◌, refl, true, false, none, some, List, ◌∷◌}
use eos_chronicle.Base.Exec.{ok, modify, pure, ◌>>=◌}
use eos_chronicle.Store.Rows.{StateObject}
use eos_chronicle.Receiver.State.{ReceiverOf, World}
use eos_chronicle.Receiver.Laws.{Laws}
use eos_chronicle.Receiver.Abi.{tables}
use eos_chronicle.Receiver.Start.{revert_uncommitted_revisions}
use eos_chronicle.Receiver.Options.{Options, NameReader, choose_mode}
use eos_chronicle.Receiver.Options.Initialize.{plugin_initialize}
use eos_chronicle.Snapshot.{File}
use eos_chronicle.Snapshot.RoundTrip.{Sorted, Empty, Copied, read_snapshot-write_snapshot}

module _ (w : World) (l : Laws w) (names : NameReader) where
  -- A receiver of a run for a snapshot.
  abbrev for_snapshot : ReceiverOf w → ReceiverOf w
  for_snapshot r = record r {
    config = record r.config { noexport_mode = true; interactive_mode = false };
  }

  -- If a program is told to save a snapshot, its state is saved and its tables are sorted once the
  -- uncommitted revisions are undone, then it writes a file. A program with a new database that is
  -- told to restore this file is left with the saved state, the received blocks, and the ABIs and
  -- versions that have bytes, and it quits.
  pub plugin_initialize-plugin_initialize :
      (x : StateObject) (xs : List StateObject) (r s : ReceiverOf w) (o : Options)
      → o.data_dir ≡ true
      → o.save_snapshot ≡ true
      → o.restore_snapshot ≡ none
      → let t = tables w (revert_uncommitted_revisions w r).1 in
        w.states.rows t.states ≡ x ∷ xs
        → Sorted w l t
        → Empty w l (tables w s)
        → (file : File) × (s' : ReceiverOf w) × ((plugin_initialize w names o r).0 ≡ ok (some file))
          × (plugin_initialize w names
                (record o { save_snapshot = false; restore_snapshot = some file })
                s
              ≡ (ok none, s'))
          × Copied w l x t (tables w s')
          × (s'.quit ≡ true)
  unfolding plugin_initialize choose_mode revert_uncommitted_revisions modify pure ◌>>=◌
  plugin_initialize-plugin_initialize x xs r s o dir saving restoring saved sorted empty =
      let (file, s', wrote, read, copied) =
        read_snapshot-write_snapshot w l x xs (for_snapshot r) (for_snapshot s) saved sorted
          empty in
      (
        file,
        record s' { quit = true },
        simp (dir, saving) (rw restoring (rw wrote refl)),
        simp dir (rw read refl),
        copied,
        refl,
      )
