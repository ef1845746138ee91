-- ===== src/Receiver/Options/Modes.antt =====
-- The mode of the receiver, as the plugin itself and the other plugins read it.
use eos_chronicle.Base.{
  ◌≡◌, refl, ◌⊎◌, Bool, true, false, not, ◌&&◌, ◌||◌, String, Option, none, some, is_some, str_eq,
  arith,
}
use eos_chronicle.Base.Exec.{Error, ok, err, modify, pure, ◌>>=◌}
use eos_chronicle.Receiver.Options.{Options, Settings, choose_mode, is_noexport_opt}

abbrev pub is_mode : String → Bool
is_mode m = str_eq m "scan" || str_eq m "scan-noexport" || str_eq m "interactive"

abbrev pub KnownMode : Option String → Type 0
KnownMode none = Unit
KnownMode (some m) = is_mode m ≡ true

abbrev pub snapshot_run : Options → Bool
snapshot_run o = o.save_snapshot || is_some o.restore_snapshot

-- The receiver's flag noexport_mode is what the other plugins read, and in the interactive mode it is
-- unset and irreversible_only is set; or both sides refuse a missing mode.
abbrev pub Agreed : Options → Settings → Type 0
Agreed o s =
    ((t : Settings) × (choose_mode o s ≡ (ok tt, t))
      × (is_noexport_opt o ≡ ok t.config.noexport_mode)
      × ((t.config.interactive_mode && (not t.config.irreversible_only || t.config.noexport_mode))
          ≡ false))
    ⊎ (((choose_mode o s).0 ≡ err Error.option_missing)
        × (is_noexport_opt o ≡ err Error.option_missing))

-- A mode of another name is taken: the flags keep the values that they had before they were set,
-- whatever those are, and the other plugins start to export.
pub choose_mode-unknown :
    (o : Options) (s : Settings) (m : String)
    → o.mode ≡ some m
    → is_mode m ≡ false
    → snapshot_run o ≡ false
    → ((choose_mode o s).0 ≡ ok tt)
      × ((choose_mode o s).1.config.interactive_mode ≡ s.config.interactive_mode)
      × ((choose_mode o s).1.config.noexport_mode ≡ s.config.noexport_mode)
      × (is_noexport_opt o ≡ ok false)
unfolding choose_mode is_noexport_opt modify pure ◌>>=◌
choose_mode-unknown o s m e unknown running =
    let no_scan : str_eq m "scan" ≡ false = ground arith in
    let exports : str_eq m "scan-noexport" ≡ false = ground arith in
    let no_interactive : str_eq m "interactive" ≡ false = ground arith in
    (
      simp running (rw e (rw no_scan (rw exports (rw no_interactive refl)))),
      simp running (rw e (rw no_scan (rw exports (rw no_interactive refl)))),
      simp running (rw e (rw no_scan (rw exports (rw no_interactive refl)))),
      simp running (rw e (rw exports refl)),
    )
