-- ===== src/Tests/Helm.antt =====
-- Configurations, the files of a chart and its templates at small inputs.
use talm.Base.{
  ◌≡◌, refl, some, none, Option, Bool, true, false, List, [], ◌∷◌, ℕ, if◌then◌else◌, is_nil, map,
}
use talm.Base.Text.{trim_prefix, has_prefix, Text, codes, text_eq}
use talm.Base.Dict.{insert, Dict, lookup}
use talm.Base.Result.{ok}
use talm.Base.FilePath.{base}
use talm.Engine.Values.{end}
use talm.Helm.Files.{Files, glob}
use talm.Helm.Files.Laws.{lookup-glob}
use talm.Helm.Sort.{sort_templates}
use talm.Helm.Render.{Renderable, Templates, gives, is_partial, parse_all, executed, key, render}
use talm.Helm.Render.Rendered.{lookup-render}
use talm.Main
use talm.Main.Laws.{load_config-eq-ok}
use talm.Commands.Root.{Settings, TemplateOptions}

abbrev two_files : Files
two_files = (codes "a", some (codes "x\ny\n")) ∷ ((codes "b", some (codes "z")) ∷ [])

-- A glob that matches one name.
abbrev compile : Text → List ℕ → Option (Text → Bool)
compile pattern separators = some (text_eq pattern)

lookup-glob_example :
    (g : Files) × (glob compile (codes "a") two_files ≡ ok g)
    × (lookup (codes "b") g
        ≡ (if text_eq (codes "a") (codes "b") then lookup (codes "b") two_files else none))
lookup-glob_example =
    lookup-glob compile (codes "a") (codes "b") two_files (text_eq (codes "a")) refl

-- Templates that are rendered as they are.
abbrev plain_templates : Templates
plain_templates = record {
  Template = Dict Text;
  new_template = λ strict. [];
  parse = λ t name tpl. gives ((name, tpl) ∷ t);
  execute = λ t name vals. gives (codes "text");
}

abbrev renderable : Renderable
renderable = record { tpl = codes "text"; vals = end; base_path = codes "c/templates" }

abbrev tpls : Dict Renderable
tpls = (codes "c/_h.tpl", renderable) ∷ ((codes "c/a.yaml", renderable) ∷ [])

rendered : render plain_templates false tpls ≡ ok ((codes "c/a.yaml", codes "text") ∷ [])
unfolding render lookup text_eq has_prefix base insert
rendered = refl

partial_name : is_partial (codes "c/_h.tpl") ≡ true
unfolding is_partial has_prefix base
partial_name = refl

full_name : is_partial (codes "c/a.yaml") ≡ false
unfolding is_partial has_prefix base
full_name = refl

known : lookup (codes "c/a.yaml") tpls ≡ some renderable
unfolding lookup text_eq
known = refl

lookup-render_example :
    (t : Dict Text) × (x : Text) × (parse_all plain_templates tpls
        (sort_templates (map key tpls))
        []
      ≡ ok t)
    × (executed plain_templates (codes "c/a.yaml") (gives (codes "text")) ≡ ok x)
    × (lookup (codes "c/a.yaml") ((codes "c/a.yaml", codes "text") ∷ []) ≡ some x)
lookup-render_example =
    lookup-render plain_templates false tpls (codes "c/a.yaml") renderable full_name known rendered

abbrev no_options : TemplateOptions
no_options = record {
  offline = false;
  value_files = [];
  values = [];
  string_values = [];
  file_values = [];
  json_values = [];
  literal_values = [];
  talos_version = [];
  with_secrets = [];
  kubernetes_version = [];
  full = false;
  debug = false;
}

abbrev settings : Settings
settings = record {
  root_dir = codes ".";
  talosconfig = codes "talosconfig";
  template_options = no_options;
  apply_options = record {
    dry_run = false;
    timeout = [];
    timeout_duration = [];
    cert_fingerprints = [];
  };
  upgrade_options = record { preserve = false; stage = false; force = false };
  version = [];
}

abbrev environment : Main.Environment
environment = record {
  version = codes "v1";
  arguments = codes "talm" ∷ (codes "apply" ∷ []);
  find_command = λ name. some (record { use_line = name; parent = none });
  read_file = λ path. ok [];
  unmarshal = λ content c. ok settings;
  parse_duration = λ d. some d;
  default_kubernetes_version = codes "v1.30";
  config_try_timeout = codes "1m";
}

abbrev configuration : Main.Configuration
configuration = record { talosconfig = []; config = settings }

abbrev loaded : Main.Configuration
loaded = record {
  talosconfig = codes "talosconfig";
  config = record settings {
    template_options = record no_options { kubernetes_version = codes "v1.30" };
    apply_options = record {
      dry_run = false;
      timeout = codes "1m";
      timeout_duration = [];
      cert_fingerprints = [];
    };
  };
}

load : Main.load_config environment (codes "Chart.yaml") configuration ≡ ok loaded
unfolding Main.load_config
load = refl

load_config-eq-ok_example :
    (loaded.talosconfig ≡ (
      if is_nil configuration.talosconfig
      then loaded.config.talosconfig
      else configuration.talosconfig))
    × (is_nil loaded.config.template_options.kubernetes_version ≡ false)
    × (is_nil loaded.config.apply_options.timeout ≡ false)
load_config-eq-ok_example =
    load_config-eq-ok environment (codes "Chart.yaml") configuration refl refl load

init_version_test : Main.init_version environment ≡ codes "1"
unfolding Main.init_version has_prefix trim_prefix
init_version_test = refl
