-- ===== src/Engine/Template/Helm.antt =====
-- Render of pkg/engine/engine.go with the engine of pkg/engine/helm: from the chart on the disk and the
-- values of the options to the patches. The loader of charts stays a parameter.
use talm.Base.{
  ℕ, zero, suc, not, ◌≡◌, refl, sym, ap, ◌∙◌, Bool, true, false, Option, none, some, List, [], ◌∷◌,
  if◌then◌else◌, is_nil, map,
}
use talm.Base.Text.{Text, codes, text_eq}
use talm.Base.Dict.{Dict, lookup, some_injective}
use talm.Base.FilePath
use talm.Base.Result.{Result, ok, >>=-eq-ok}
use talm.Engine.Values.{table, Fields, end, field, get, merge_maps}
use talm.Engine.Load.{Sources, load_values}
use talm.Engine.Bundle.{Talos}
use talm.Engine.Render.{MapCodec}
use talm.Engine.Template.{RenderOptions, Charts, config_patches}
use talm.Engine.Template.Laws.{Rendered, requested-Rendered}
use talm.Yaml.Diff.{Codec}
use mathlib.Core.List.{Permᴰ}
use talm.Helm.Sort.{sort_templates}
use talm.Helm.Sort.Laws.{IsSorted, sort_templates-IsSorted}
use talm.Helm.Render.{Templates, key}
use talm.Helm.Charts.{Chart, ChartValues, info, all_templates, render_chart}
use talm.Helm.Charts.Laws.{TemplateOf}
use talm.Helm.Charts.Scopes.{IsTree, TableLooksUp, descend}
use talm.Helm.Charts.Rendered.{TextOf, Parses, lookup-render_chart}

-- The loader, the values of a loaded chart, and what else the method asks the system for.
pub record ChartLoader : Type 0 where
  pub load_dir : Text → Result Chart
  pub chart_values : Chart → Fields
  pub get_working_dir : Result Text
  pub fail_if_multi_nodes : Result (Unit {0})

-- `helmEngine.Engine{}`, whose lookup function is set for a run that is not offline; the functions of a
-- template library are bound with it or without it.
abbrev pub helm_charts : (Bool → Templates) → ChartValues → ChartLoader → Charts
helm_charts tp cv l = record {
  Chart = Chart;
  name = λ c. (info c).name;
  chart_values = l.chart_values;
  load_dir = l.load_dir;
  get_working_dir = l.get_working_dir;
  fail_if_multi_nodes = l.fail_if_multi_nodes;
  render_chart = λ with_lookup c values. render_chart (tp with_lookup) cv false c values;
}

-- A chart that is loaded is the root of a tree.
abbrev pub LoadsTrees : ChartLoader → Type 0
LoadsTrees l =
    (path : Text) (c : Chart) → l.load_dir path ≡ ok c → IsTree c × ((info c).is_root ≡ true)

abbrev pub at_index : ℕ → List Text → Option Text
at_index k [] = none
at_index zero (x ∷ xs) = some x
at_index (suc k) (x ∷ xs) = at_index k xs

Rendered-at_index :
    (chart : Text) (out : Dict Text) (files patches : List Text) (k : ℕ) {file : Text}
    → Rendered chart out files patches
    → at_index k files ≡ some file
    → (patch : Text) × (at_index k patches ≡ some patch)
      × (lookup (FilePath.join (chart ∷ file ∷ [])) out ≡ some patch)
Rendered-at_index chart out [] [] k h e = cc
Rendered-at_index chart out [] (p ∷ ps) k h e = absurd h
Rendered-at_index chart out (f ∷ fs) [] k h e = absurd h
Rendered-at_index chart out (f ∷ fs) (p ∷ ps) zero h e =
    (p, refl, ap (λ g. lookup (FilePath.join (chart ∷ g ∷ [])) out) (sym (some_injective e)) ∙ h.0)
Rendered-at_index chart out (f ∷ fs) (p ∷ ps) (suc k) h e =
    Rendered-at_index chart out fs ps k h.1 e

abbrev pub root_values : Fields → Fields
root_values values = field (codes "Values") (table values) end

-- The patch is the text of a template of the loaded chart, which was rendered with the chart's values
-- under those of the options, descended to the template's own chart. It was executed in the set in which
-- all templates of the chart and the charts below were parsed, deeper paths first.
pub record PatchOf (tp : Templates) (cv : ChartValues) (l : ChartLoader) (s : Sources)
    (o : RenderOptions) (path file patch : Text) : Type 1 where
  pub chart : Chart
  pub values : Fields
  pub loaded : l.load_dir path ≡ ok chart
  pub read : load_values s o.value_options ≡ ok values
  pub names : List Text
  pub template : tp.Template
  pub in_order : IsSorted names
  pub all_names :
      Permᴰ names
        (map key (all_templates cv chart (root_values (merge_maps (l.chart_values chart) values))))
  pub parsed :
      Parses tp cv chart
        (root_values (merge_maps (l.chart_values chart) values))
        names
        (tp.new_template false)
        template
  pub text_of :
      TextOf tp template
        (all_templates cv chart (root_values (merge_maps (l.chart_values chart) values)))
        (FilePath.join ((info chart).name ∷ file ∷ []))
        patch
  pub found :
      TemplateOf cv chart
        (root_values (merge_maps (l.chart_values chart) values))
        (FilePath.join ((info chart).name ∷ file ∷ []))
        text_of.renderable
  pub scoped :
      get (codes "Values") text_of.renderable.vals
      ≡ some (descend (table (merge_maps (l.chart_values chart) values)) found.names)

-- The path of the chart: the working directory, or the root directory of the options.
abbrev pub chart_path : RenderOptions → Text → Text
chart_path o here = if is_nil o.chart_root then here else o.chart_root

module _ (t : Talos) (yaml : Codec) (maps : MapCodec) (s : Sources) (tp : Bool → Templates)
    (cv : ChartValues) (l : ChartLoader) where
  -- Where the patches of a request were made, the patch for each requested file is the text of the
  -- template of that path in the loaded chart, executed with the values of its own chart: those of the
  -- top chart, merged with the values of the options, descended along the names of the charts. It was
  -- executed in the set in which the texts of all templates were parsed, deeper paths first.
  pub config_patches-PatchOf :
      (o : RenderOptions) (k : ℕ) (file : Text) {patches : List Text}
      → TableLooksUp cv
      → LoadsTrees l
      → config_patches t yaml maps s (helm_charts tp cv l) o ≡ ok patches
      → at_index k o.template_files ≡ some file
      → (here patch : Text) × (at_index k patches ≡ some patch)
        × PatchOf (tp (not o.offline)) cv l s o (chart_path o here) file patch
  unfolding config_patches get text_eq
  config_patches-PatchOf o k file {patches} looks_up trees h e =
      let (_, _, h1) = >>=-eq-ok (if o.offline then ok tt else l.fail_if_multi_nodes) _ h in
      let (here, _, h2) = >>=-eq-ok l.get_working_dir _ h1 in
      let (c, loaded, h3) = >>=-eq-ok (l.load_dir (chart_path o here)) _ h2 in
      let (values, read, h4) = >>=-eq-ok (load_values s o.value_options) _ h3 in
      let vals = root_values (merge_maps (l.chart_values c) values) in
      let (out, rendered, h5) =
        >>=-eq-ok (render_chart (tp (not o.offline)) cv false c vals) _ h4 in
      let (patch, there, found) =
        Rendered-at_index (info c).name out o.template_files patches k
          ((requested-Rendered (info c).name out o.template_files patches).0 h5) e in
      let (tree, root) = trees (chart_path o here) c loaded in
      let (template, parsed, text_of, of_chart, scoped) =
        lookup-render_chart (tp (not o.offline)) cv false c vals
          (FilePath.join ((info c).name ∷ file ∷ [])) patch looks_up tree root rendered found in
      (
        here,
        patch,
        there,
        record {
          chart = c;
          values = values;
          loaded = loaded;
          read = read;
          names = sort_templates (map key (all_templates cv c vals));
          template = template;
          in_order = (sort_templates-IsSorted (map key (all_templates cv c vals))).0;
          all_names = (sort_templates-IsSorted (map key (all_templates cv c vals))).1;
          parsed = parsed;
          text_of = text_of;
          found = of_chart;
          scoped = scoped;
        },
      )
