-- ===== src/ExpWs/Options.antt =====
-- The options of the exporter: plugin_initialize of exp_ws_plugin, of decoder_plugin and
-- exporter_initialized. Host, port and path are kept as they are given.
use eos_chronicle.Base.{
  ℕ, Bool, true, not, ◌||◌, String, Option, none, some, is_some, List, [], ◌∷◌, ◌++◌, if◌then◌else◌,
}
use eos_chronicle.Base.Exec.{Exec, Error, Result, ok, err, pure, throw, modify, ◌>>=◌, ◌>>◌}
use eos_chronicle.Receiver.Options.{Options, is_noexport_opt}
use eos_chronicle.ExpWs.Queue.{Exporter, set_limits}

pub record ExporterOptions : Type 0 where
  pub host : Option String
  pub port : Option String
  pub path : String
  pub max_unack : ℕ
  pub max_queue : ℕ
  pub bin_header : Bool

-- The plugins while they are initialised: the exporter's fields, whether it has subscribed, the
-- plugins that the receiver waits for, and the flag have_exporter.
pub record Plugins : Type 0 where
  pub exporter : Exporter
  pub ws_host : String
  pub ws_port : String
  pub ws_path : String
  pub use_bin_headers : Bool
  pub subscribed : Bool
  pub dependent_plugins : List String
  pub have_exporter : Bool

abbrev pub Initializing : Type 0
Initializing = Exec Plugins (Unit {0})

unfoldable pub donot_start_receiver_before : String → Initializing
donot_start_receiver_before plugname =
    modify (λ (p : Plugins). record p { dependent_plugins = p.dependent_plugins ++ plugname ∷ [] })

abbrev unless_noexport : Result Bool → Initializing → Initializing
unless_noexport (err e) m = throw e
unless_noexport (ok noexport) m = if noexport then pure tt else m

-- plugin_initialize of decoder_plugin, which the application calls once: here the exporter's call is
-- the first one.
unfoldable pub initialize_decoder : Options → Initializing
unfolding is_noexport_opt donot_start_receiver_before
initialize_decoder o =
    unless_noexport (is_noexport_opt o) (donot_start_receiver_before "decoder_plugin")

unfoldable pub exporter_initialized : Initializing
exporter_initialized p =
    if p.have_exporter
    then (err Error.second_exporter, p)
    else (ok tt, record p { have_exporter = true })

abbrev pub or_empty : Option String → String
or_empty none = ""
or_empty (some s) = s

abbrev set_addresses : ExporterOptions → Initializing
set_addresses x =
    if not (is_some x.host) || not (is_some x.port)
    then throw Error.option_missing
    else modify (λ (p : Plugins). record p {
      ws_host = or_empty x.host;
      ws_port = or_empty x.port;
      ws_path = x.path;
    })

abbrev limited : Result Exporter → Initializing
limited (err e) p = (err e, p)
limited (ok y) p = (ok tt, record p { exporter = y })

abbrev take_limits : ExporterOptions → Initializing
take_limits x p = limited (set_limits x.max_unack x.max_queue p.exporter) p

-- init: the subscriptions of every channel.
abbrev init : ExporterOptions → Initializing
init x = modify (λ (p : Plugins). record p { use_bin_headers = x.bin_header; subscribed = true })

-- plugin_initialize of exp_ws_plugin.
unfoldable pub initialize_exporter : Options → ExporterOptions → Initializing
unfolding is_noexport_opt initialize_decoder donot_start_receiver_before exporter_initialized
    set_limits ◌>>=◌
initialize_exporter o x = unless_noexport (is_noexport_opt o) (
    initialize_decoder o
    >> (donot_start_receiver_before "exp_ws_plugin"
        >> (set_addresses x >> (take_limits x >> (init x >> exporter_initialized)))))
