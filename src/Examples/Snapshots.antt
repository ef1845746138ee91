-- ===== src/Examples/Snapshots.antt =====
-- The snapshots at concrete inputs.
use eos_chronicle.Base.{◌≡◌, refl, true, false, none, some, []}
use eos_chronicle.Base.Exec.{ok}
use eos_chronicle.Store.Rows.{StateObject}
use eos_chronicle.Receiver.State.{ReceiverOf, TablesOf}
use eos_chronicle.Receiver.Abi.{tables}
use eos_chronicle.Receiver.Start.{undo_all, revert_uncommitted_revisions}
use eos_chronicle.Snapshot.{File}
use eos_chronicle.Snapshot.RoundTrip.{Sorted, Copied}
use eos_chronicle.Receiver.Options.{Options}
use eos_chronicle.Receiver.Options.Initialize.{plugin_initialize}
use eos_chronicle.Receiver.Options.Snapshots.{plugin_initialize-plugin_initialize}
use eos_chronicle.Examples.Options.{scan_options, three_names}
use eos_chronicle.Examples.World.{list_world, list_laws}
use eos_chronicle.Examples.State.{receiver_at_10}

abbrev saved_state : StateObject
saved_state = record { head = 8; head_id = 100; irreversible = 8; irreversible_id = 80 }

abbrev no_tables : TablesOf list_world
no_tables = record { states = []; blocks = []; abis = []; history = [] }

abbrev new_receiver : ReceiverOf list_world
new_receiver = record receiver_at_10 {
  db = record { contents = no_tables; committed = 0; kept = [] };
}

-- What a start finds.
abbrev found_tables : TablesOf list_world
found_tables = tables list_world (revert_uncommitted_revisions list_world receiver_at_10).1

found-Sorted : Sorted list_world list_laws found_tables
unfolding revert_uncommitted_revisions undo_all
found-Sorted = record {
  blocks = ((refl, tt), (tt, tt));
  abis = (tt, tt);
  history = ((refl, tt), (tt, tt));
}

abbrev saving : Options
saving = record scan_options { save_snapshot = true }

snapshot_example :
    (file : File) × (s' : ReceiverOf list_world) × ((plugin_initialize list_world three_names saving
        receiver_at_10).0
      ≡ ok (some file))
    × (plugin_initialize list_world three_names
          (record saving { save_snapshot = false; restore_snapshot = some file })
          new_receiver
        ≡ (ok none, s'))
    × Copied list_world list_laws saved_state found_tables (tables list_world s')
    × (s'.quit ≡ true)
unfolding revert_uncommitted_revisions undo_all
snapshot_example =
    plugin_initialize-plugin_initialize list_world list_laws three_names saved_state []
      receiver_at_10 new_receiver saving refl refl refl refl found-Sorted
      (record { states = refl; blocks = refl; abis = refl; history = refl })
