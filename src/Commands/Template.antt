-- ===== src/Commands/Template.antt =====
-- pkg/commands/template.go. The flags that no step changes are a record, and `args` is empty. What
-- goes to the standard error is left out.
pub mod Files
use talm.Base.{Bool, not, if◌then◌else◌, List, [], ◌∷◌, ◌++◌, Option, none, some}
use talm.Base.Text.{Text, codes}
use talm.Base.Result.{Result, wrap}
use talm.Json.{Slice, items}
use talm.Modeline.{generate_modeline}
use talm.Yaml.Diff.{Codec}
use talm.Engine.Load.{ValueOptions, Sources}
use talm.Engine.Bundle.{Talos, Options}
use talm.Engine.Render.{MapCodec}
use talm.Engine.Template.{Charts, RenderOptions, render}
use talm.Commands.{◌>>=◌, ◌>>◌, World, FileSystem, Command, done, lift, state, print}
use talm.Commands.Root.{TemplateOptions, is_unset, Clients, with_client, with_client_maintenance}

-- `templateCmdFlags` without the template files, which are a part of the state.
pub record Flags : Type 0 where
  pub insecure : Bool
  pub config_files : List Text
  pub value_options : ValueOptions
  pub talos_version : Text
  pub with_secrets : Text
  pub full : Bool
  pub debug : Bool
  pub offline : Bool
  pub kubernetes_version : Text
  pub inplace : Bool
  pub nodes_from_args : Bool
  pub endpoints_from_args : Bool
  pub templates_from_args : Bool

-- `cmd.Flags().Changed`
pub record Changed : Type 0 where
  pub talos_version : Bool
  pub with_secrets : Bool
  pub kubernetes_version : Bool
  pub full : Bool
  pub debug : Bool
  pub offline : Bool

abbrev configured_values : TemplateOptions → ValueOptions → ValueOptions
configured_values c v = record {
  value_files = c.value_files ++ v.value_files;
  json_values = c.json_values ++ v.json_values;
  values = c.values ++ v.values;
  string_values = c.string_values ++ v.string_values;
  file_values = c.file_values ++ v.file_values;
  literal_values = c.literal_values ++ v.literal_values;
}

abbrev pub dummy_endpoint : {D : Type 0} → World D → World D
dummy_endpoint w =
    if is_unset w.endpoints then record w { endpoints = some (codes "127.0.0.1" ∷ []) } else w

unfoldable pub pre_run :
    {D : Type 0} → Changed → TemplateOptions → Flags → World D → Flags × World D
pre_run changed c f w = (
  record {
    insecure = f.insecure;
    config_files = f.config_files;
    value_options = configured_values c f.value_options;
    talos_version = if changed.talos_version then f.talos_version else c.talos_version;
    with_secrets = if changed.with_secrets then f.with_secrets else c.with_secrets;
    full = if changed.full then f.full else c.full;
    debug = if changed.debug then f.debug else c.debug;
    offline = if changed.offline then f.offline else c.offline;
    kubernetes_version =
        if changed.kubernetes_version then f.kubernetes_version else c.kubernetes_version;
    inplace = f.inplace;
    nodes_from_args = not (is_unset w.nodes);
    endpoints_from_args = not (is_unset w.endpoints);
    templates_from_args = not (is_unset w.template_files);
  },
  dummy_endpoint w,
)

-- What a command runs in: the files, the clients, and the engine's parameters. The engine reads the
-- files of the moment, and the charts ask the client for the nodes of its context.
pub record Environment : Type 1 where
  pub fs : FileSystem
  pub clients : Clients
  pub root_dir : Text
  pub talos : fs.Disk → Talos
  pub yaml : Codec
  pub maps : MapCodec
  pub sources : fs.Disk → Sources
  pub charts : fs.Disk → Option clients.Client → Slice → Charts

abbrev engine_options : Flags → Options
engine_options f = record {
  talos_version = f.talos_version;
  with_secrets = f.with_secrets;
  kubernetes_version = f.kubernetes_version;
  cluster_name = [];
  endpoint = [];
  debug = f.debug;
}

abbrev render_options : Text → Flags → Slice → RenderOptions
render_options root f template_files = record {
  config = engine_options f;
  value_options = f.value_options;
  full = f.full;
  offline = f.offline;
  chart_root = root;
  template_files = items template_files;
}

abbrev pub warn : Text
warn = codes "# THIS FILE IS AUTOGENERATED. DO NOT EDIT IT!"

-- `fmt.Sprintf("%s\n%s\n%s\n", modeline, warn, string(result))`
abbrev pub document : Text → Text → Text
document modeline result = modeline ++ 10 ∷ (warn ++ 10 ∷ (result ++ 10 ∷ []))

-- A slice by the verb `%s`.
abbrev words : List Text → Text
words [] = []
words (x ∷ []) = x
words (x ∷ y ∷ xs) = x ++ b' ' ∷ words (y ∷ xs)

abbrev pub show : Slice → Text
show v = b'[' ∷ (words (items v) ++ b']' ∷ [])

module _ (e : Environment) (f : Flags) where
  -- What is rendered for a client, the nodes of its context and the template files.
  unfoldable pub rendered : e.fs.Disk → Option e.clients.Client → Slice → Slice → Result Text
  unfolding render
  rendered disk cli context template_files = wrap "failed to render templates: %w" [] (
      render (e.talos disk) e.yaml e.maps (e.sources disk) (e.charts disk cli context)
        (render_options e.root_dir f template_files))

  unfoldable pub generate_output : Option e.clients.Client → Slice → Command e.fs.Disk Text
  unfolding rendered
  generate_output cli context = do
    w ← state
    result ← lift (rendered w.disk cli context w.template_files)
    done (document (generate_modeline w.nodes w.endpoints w.template_files) result)

  -- Where the action runs: without a client, with an insecure one or with the nodes' client.
  unfoldable pub run_action :
      (Option e.clients.Client → Slice → Command e.fs.Disk (Unit {0}))
      → Command e.fs.Disk (Unit {0})
  unfolding with_client with_client_maintenance
  run_action action =
      if f.offline
      then action none none
      else if f.insecure
      then with_client_maintenance e.clients [] (λ cli. action (some cli) none)
      else with_client e.clients (λ cli context. action (some cli) context)

  unfoldable pub template : Option e.clients.Client → Slice → Command e.fs.Disk (Unit {0})
  unfolding generate_output
  template cli context = do output ← generate_output cli context; print (output ++ 10 ∷ [])
