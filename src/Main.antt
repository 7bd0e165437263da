-- ===== src/Main.antt =====
-- main.go: the configuration that every command but init and completion begins with. The YAML decoder,
-- which fills a configuration in, durations and cobra's search for a command are parameters.
pub mod Laws
pub mod Execute
use talm.Base.{Option, none, some, List, [], ◌∷◌, if◌then◌else◌, is_nil}
use talm.Base.Text.{Text, codes, has_prefix, trim_prefix}
use talm.Base.FilePath.{join}
use talm.Base.Result.{Result, ok, wrap, or_panic, ◌>>=◌}
use talm.Commands.Root.{Settings}

-- `commands.GlobalArgs.Talosconfig` and `commands.Config`.
pub record Configuration : Type 0 where
  pub talosconfig : Text
  pub config : Settings

-- A command that cobra found: its use line, and the use line of its parent where that is not the root.
pub record Found : Type 0 where
  pub use_line : Text
  pub parent : Option Text

pub record Environment : Type 0 where
  pub version : Text
  pub arguments : List Text
  pub find_command : Text → Option Found
  pub read_file : Text → Result Text
  pub unmarshal : Text → Settings → Result Settings
  pub parse_duration : Text → Option Text
  pub default_kubernetes_version : Text
  pub config_try_timeout : Text

module _ (e : Environment) where
  abbrev pub with_kubernetes_version : Settings → Settings
  with_kubernetes_version c =
      if is_nil c.template_options.kubernetes_version
      then record c {
        template_options = record c.template_options {
          kubernetes_version = e.default_kubernetes_version;
        };
      }
      else c

  -- A timeout that does not parse panics.
  unfoldable pub with_timeout : Settings → Result Settings
  with_timeout c =
      if is_nil c.apply_options.timeout
      then ok
          (record c { apply_options = record c.apply_options { timeout = e.config_try_timeout } })
      else or_panic (e.parse_duration c.apply_options.timeout) >>= λ d.
          ok (record c { apply_options = record c.apply_options { timeout_duration = d } })

  unfoldable pub load_config : Text → Configuration → Result Configuration
  unfolding with_timeout
  load_config filename s = do
    content ← wrap "error reading configuration file: %w" [] (e.read_file filename)
    c ← wrap "error unmarshalling configuration: %w" [] (e.unmarshal content s.config)
    d ← with_timeout (with_kubernetes_version c)
    ok (record {
      talosconfig = if is_nil s.talosconfig then c.talosconfig else s.talosconfig;
      config = d;
    })

  abbrev second : List Text → Option Text
  second (x ∷ y ∷ args) = some y
  second _ = none

  abbrev pub command_line : Found → Text
  command_line f = elim f.parent [ none ↦ f.use_line | some line ↦ line ]

  unfoldable pub init_version : Text
  init_version =
      if has_prefix e.version (codes "v") then trim_prefix e.version (codes "v") else codes "0.1.0"

  -- What happens for the use line of a command.
  unfoldable pub configure : Text → Configuration → Result Configuration
  unfolding init_version load_config
  configure line s =
      if has_prefix line (codes "init")
      then ok (record s { config = record s.config { version = init_version } })
      else if has_prefix line (codes "completion")
      then ok s
      else wrap "Error loading configuration: %v" []
          (load_config (join (s.config.root_dir ∷ codes "Chart.yaml" ∷ [])) s)

  abbrev configure_found : Option Found → Configuration → Result Configuration
  configure_found none s = ok s
  configure_found (some f) s = configure (command_line f) s

  -- An error ends the process.
  unfoldable pub init_config : Configuration → Result Configuration
  unfolding configure
  init_config s = do name ← or_panic (second e.arguments); configure_found (e.find_command name) s
