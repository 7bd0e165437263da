-- ===== src/Tests/Templates.antt =====
-- Includes, functions and charts of templates at small inputs.
use talm.Base.FilePath.{base, join}
use talm.Base.{
  subst, leb, ◌≡◌, refl, ap, Bool, true, false, Option, none, some, [], ◌∷◌, if◌then◌else◌, arith,
}
use talm.Base.Text.{has_prefix, Text, codes, text_eq, strip_prefix}
use talm.Base.Text.Laws.{strip_prefix-append}
use talm.Base.Dict.{Dict, lookup, insert}
use talm.Engine.Template.{RenderOptions, config_patches}
use talm.Engine.Template.Helm.{
  ChartLoader, LoadsTrees, helm_charts, at_index, PatchOf, chart_path, config_patches-PatchOf,
}
use talm.Tests.Fixtures.{small_talos, small_yaml, small_maps, small_sources}
use talm.Base.Result.{message, ok_injective, Result, ok, err, errorf, is_ok}
use talm.Engine.Values.{put, Value, text, table, null, Fields, end, field, get}
use talm.Helm.Render.{Templates, gives, behind_first, Renderable, cleanup_exec_error}
use talm.Helm.Include.{
  Script, include, output, TemplateSet, TemplateLibrary, Counts, execute_script, include_fun,
}
use talm.Helm.Include.Laws.{Restores, execute_script-Restores}
use talm.Helm.Include.Termination.{NoTpl, execute_script_total}
use talm.Helm.Include.Bounds.{countdown, is_ok-include_fun}
use talm.Helm.Functions.{
  Function, Engine, sprig, placeholder, lookup_resource, no_host, init_fun_map, required_value,
  fail_template,
}
use talm.Helm.Functions.Warning.{template_error}
use talm.Helm.Functions.Required.{Shows, cleanup_exec_error-required_value}
use talm.Base.{append-nil, inl}
use talm.Helm.Functions.Laws.{lookup-init_fun_map_isolated}
use talm.Helm.Charts.{
  render_chart, next_values, add_templates, Chart, ChartInfo, ChartValues, info, chart, no_charts,
  dependency, all_templates, or_null,
}
use talm.Helm.Charts.Laws.{TemplateOf}
use talm.Helm.Charts.Scopes.{IsTree, IsTree, table_under, TableLooksUp, descend, get-all_templates}

abbrev library : TemplateLibrary
library = record {
  clone = λ t. ok t;
  parse = λ t name s. ok (t, λ strict v. output s);
  error_calling = λ e. e;
}

-- One template, which includes itself.
abbrev self_including : TemplateSet
self_including = record {
  name = codes "a";
  strict = false;
  templates = (codes "down", countdown (codes "down")) ∷ [];
}

abbrev calls_it : Script
calls_it = include (codes "down") (text (codes "xy")) output

countdown-NoTpl : (strict : Bool) (v : Value) → NoTpl (countdown (codes "down") strict v)
countdown-NoTpl strict (text (c ∷ s)) = λ out. tt
countdown-NoTpl strict (text []) = tt
countdown-NoTpl strict v = tt

execute_script_total_example :
    (counts : Counts) × (r : Result Text) × (execute_script library 1002 false self_including
        calls_it []
      ≡ some (counts, r))
execute_script_total_example =
    execute_script_total library 1002 false self_including calls_it (countdown-NoTpl, tt)
      (λ out. tt) (omega arith)

execute_script-Restores_example :
    Restores [] (execute_script library 5 false self_including calls_it [])
execute_script-Restores_example = execute_script-Restores library 5 false self_including calls_it []

included :
    execute_script library 5 false self_including calls_it [] ≡ some ((codes "down", 0) ∷ [], ok [])
unfolding execute_script lookup text_eq insert
included = refl

is_ok-include_fun_example :
    (counts : Counts) × (r : Result Text) × (include_fun
        (execute_script library 5 false)
        self_including
        (codes "down")
        (text (codes "xy"))
        []
      ≡ some (counts, r))
    × (is_ok r ≡ leb 2 1000)
unfolding lookup text_eq
is_ok-include_fun_example =
    is_ok-include_fun library false self_including (codes "down") refl 5 (codes "xy") (omega arith)

abbrev sprig_functions : Dict Function
sprig_functions =
    (codes "env", sprig (codes "env")) ∷ (codes "getHostByName", sprig (codes "getHostByName")) ∷ []

abbrev no_lint : Engine
no_lint = record { strict = false; lint_mode = false; enable_dns = true }

lookup-init_fun_map_isolated_example :
    (lookup (codes "env") (init_fun_map no_lint sprig_functions) ≡ none)
    × (lookup (codes "expandenv") (init_fun_map no_lint sprig_functions) ≡ none)
    × (lookup (codes "lookup") (init_fun_map no_lint sprig_functions)
        ≡ (if false then some (placeholder (codes "lookup")) else some lookup_resource))
    × (lookup (codes "getHostByName") (init_fun_map no_lint sprig_functions)
        ≡ (if true then lookup (codes "getHostByName") sprig_functions else some no_host))
lookup-init_fun_map_isolated_example = lookup-init_fun_map_isolated no_lint sprig_functions

required_missing :
    required_value (λ s. errorf "%s" (s ∷ [])) no_lint (codes "m") null
    ≡ err (errorf "%s" (codes "HELM_ERR_STARTmHELM_ERR_END" ∷ []))
unfolding required_value
required_missing = refl

abbrev before_warning : Text
before_warning = codes "executing \"c/a.yaml\" at <fail \"m\">: error calling fail: "

cleanup_exec_error-required_value_example :
    Shows
      (required_value (λ t. errorf "%s" (t ∷ [])) no_lint (codes "m") null)
      (λ x.
        cleanup_exec_error
          (codes "c/a.yaml")
          true
          (template_error (codes "c/a.yaml:3:5") before_warning (message x) []))
      (codes "c/a.yaml:3:5")
      (codes "m")
    × Shows
        (fail_template no_lint (codes "m"))
        (λ x.
          cleanup_exec_error
            (codes "c/a.yaml")
            true
            (template_error (codes "c/a.yaml:3:5") before_warning (message x) []))
        (codes "c/a.yaml:3:5")
        (codes "m")
unfolding behind_first strip_prefix message
cleanup_exec_error-required_value_example =
    cleanup_exec_error-required_value (λ t. errorf "%s" (t ∷ [])) no_lint (codes "c/a.yaml")
      (codes "c/a.yaml:3:5") before_warning (codes "m") [] null (λ t h. append-nil t) refl
      (inl refl) refl refl refl refl

abbrev plain_chart : Text → Bool → Text → ChartInfo
plain_chart name is_root full_path = record {
  name = name;
  metadata_type = codes "application";
  is_root = is_root;
  full_path = full_path;
  files = [];
  templates = some (record { name = codes "templates/t.yaml"; contents = some (codes "x") }) ∷ [];
}

abbrev two_charts : Chart
two_charts =
    chart (plain_chart (codes "c") true (codes "c"))
      (dependency (chart (plain_chart (codes "d") false (codes "c/charts/d")) no_charts) no_charts)

abbrev looked_up : Fields → Option Text → Option Fields
looked_up vals none = none
looked_up vals (some name) = table_under name (get (codes "Values") vals)

abbrev chart_values : ChartValues
chart_values = record {
  chart_value = λ c. text c.name;
  files_value = λ files. null;
  disks = null;
  table_at = λ vals key. looked_up vals (strip_prefix (codes "Values.") key);
}

chart_values-TableLooksUp : TableLooksUp chart_values
chart_values-TableLooksUp vals name h =
    ap (looked_up vals) (strip_prefix-append (codes "Values.") name)

abbrev top_values : Fields
top_values =
    field (codes "Values")
      (table (field (codes "d") (table (field (codes "x") (text (codes "1")) end)) end)) end

abbrev sub_template : Text
sub_template = codes "c/charts/d/templates/t.yaml"

abbrev vals_of : Option Renderable → Fields
vals_of none = end
vals_of (some r) = r.vals

sub_values :
    get
      (codes "Values")
      (vals_of (lookup sub_template (all_templates chart_values two_charts top_values)))
    ≡ some (table (field (codes "x") (text (codes "1")) end))
unfolding get lookup all_templates add_templates text_eq insert join put next_values strip_prefix
sub_values = refl

abbrev sub_renderable : Renderable
sub_renderable = record {
  tpl = codes "x";
  vals = vals_of (lookup sub_template (all_templates chart_values two_charts top_values));
  base_path = codes "c/charts/d/templates";
}

sub_renders :
    lookup sub_template (all_templates chart_values two_charts top_values) ≡ some sub_renderable
unfolding lookup all_templates add_templates text_eq insert join
sub_renders = refl

get-all_templates_example :
    (found : TemplateOf chart_values two_charts top_values sub_template sub_renderable) × (get
        (codes "Values")
        sub_renderable.vals
      ≡ some (descend (or_null (get (codes "Values") top_values)) found.names))
unfolding IsTree
get-all_templates_example =
    get-all_templates chart_values chart_values-TableLooksUp two_charts top_values sub_template
      (refl, refl, tt, tt) refl sub_renders

-- Templates that are rendered as their names.
abbrev name_templates : Templates
name_templates = record {
  Template = Unit;
  new_template = λ strict. tt;
  parse = λ t name s. gives tt;
  execute = λ t name vals. gives name;
}

abbrev loader : ChartLoader
loader = record {
  load_dir = λ path. ok two_charts;
  chart_values = λ c. end;
  get_working_dir = ok (codes "/");
  fail_if_multi_nodes = ok tt;
}

loader-LoadsTrees : LoadsTrees loader
unfolding IsTree
loader-LoadsTrees path c h =
    subst (λ d. IsTree d × ((info d).is_root ≡ true)) (ok_injective _ _ h)
      ((refl, refl, tt, tt), refl)

abbrev render_options : RenderOptions
render_options = record {
  config = record {
    talos_version = [];
    with_secrets = [];
    kubernetes_version = [];
    cluster_name = [];
    endpoint = [];
    debug = false;
  };
  value_options = record {
    value_files = [];
    json_values = [];
    values = [];
    string_values = [];
    file_values = [];
    literal_values = [];
  };
  full = false;
  offline = true;
  chart_root = [];
  template_files = codes "templates/t.yaml" ∷ [];
}

patches_made :
    config_patches small_talos small_yaml small_maps small_sources
      (helm_charts (λ with_lookup. name_templates) chart_values loader)
      render_options
    ≡ ok (codes "c/templates/t.yaml" ∷ [])
unfolding config_patches render_chart add_templates insert lookup has_prefix base
patches_made = refl

config_patches-PatchOf_example :
    (here patch : Text) × (at_index 0 (codes "c/templates/t.yaml" ∷ []) ≡ some patch)
    × PatchOf name_templates chart_values loader small_sources render_options
        (chart_path render_options here)
        (codes "templates/t.yaml")
        patch
config_patches-PatchOf_example =
    config_patches-PatchOf small_talos small_yaml small_maps small_sources
      (λ with_lookup. name_templates) chart_values loader render_options 0
      (codes "templates/t.yaml") chart_values-TableLooksUp loader-LoadsTrees patches_made refl
