-- ===== src/Receiver/Options/Initialize.antt =====
-- plugin_initialize of receiver_plugin, whole: a run that saves or restores a snapshot does that and
-- quits, another one takes the options.
use eos_chronicle.Base.{Option, none, some, true, if◌then◌else◌}
use eos_chronicle.Base.Exec.{Exec, Error, ok, pure, throw, ◌>>=◌}
use eos_chronicle.Receiver.State.{ReceiverOf, World}
use eos_chronicle.Receiver.Options.{Options, NameReader, Setting, choose_mode, configure}
use eos_chronicle.Snapshot.{File, write_snapshot, read_snapshot}

module _ (w : World) (names : NameReader) where
  -- The settings are the receiver's.
  abbrev in_receiver : Setting → Exec (ReceiverOf w) (Unit {0})
  in_receiver m r =
      let (result, s) = m (record { config = r.config; end_block_num = r.end_block_num }) in
      (result, record r { config = s.config; end_block_num = s.end_block_num })

  -- The snapshot is all that such a run does.
  abbrev quitting {ℓ} : {A : Type ℓ} → A → Exec (ReceiverOf w) (Unit {0})
  quitting a r = (ok tt, record r { quit = true })

  abbrev restore : Option File → Options → Exec (ReceiverOf w) (Unit {0})
  restore none o = in_receiver (configure names o)
  restore (some file) o = read_snapshot w file >>= quitting

  -- The file that is written, if one is.
  abbrev saved : Exec (ReceiverOf w) (Option File)
  saved = write_snapshot w >>= λ file. quitting file >>= λ u. pure (some file)

  unfoldable pub plugin_initialize : Options → Exec (ReceiverOf w) (Option File)
  unfolding choose_mode configure write_snapshot read_snapshot ◌>>=◌
  plugin_initialize o =
      if o.data_dir
      then (in_receiver (choose_mode o) >>= λ u.
          if o.save_snapshot then saved else (restore o.restore_snapshot o >>= λ v. pure none))
      else throw Error.no_data_dir
