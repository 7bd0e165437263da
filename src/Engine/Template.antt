-- ===== src/Engine/Template.antt =====
-- Render of pkg/engine/engine.go. Loading a chart and the template engine, with its lookup function,
-- are parameters; the engine gives the rendered text of each template by its path in the chart.
pub mod Laws
pub mod Helm
use talm.Base.FilePath.{join}
use talm.Base.Result.{◌>>=◌, Result, from_option, ok, errorf}
use talm.Base.Dict.{Dict, lookup}
use talm.Base.Text.{codes, Text}
use talm.Base.{Bool, not, List, [], ◌∷◌, if◌then◌else◌, is_nil}
use talm.Base.FilePath
use talm.Engine.Values.{table, Fields, end, field, merge_maps}
use talm.Engine.Load.{ValueOptions, Sources, load_values}
use talm.Engine.Bundle.{Talos, Options}
use talm.Engine.Render.{MapCodec, apply_patches_and_render_config}
use talm.Yaml.Diff.{Codec}

pub record RenderOptions : Type 0 where
  pub config : Options
  pub value_options : ValueOptions
  pub full : Bool
  pub offline : Bool
  pub chart_root : Text
  pub template_files : List Text

pub record Charts : Type 1 where
  pub Chart : Type 0
  pub name : Chart → Text
  pub chart_values : Chart → Fields
  pub load_dir : Text → Result Chart
  pub get_working_dir : Result Text
  pub fail_if_multi_nodes : Result (Unit {0})
  -- with the lookup function or without it
  pub render_chart : Bool → Chart → Fields → Result (Dict Text)

-- The rendered texts of the requested templates, in the order of the request.
unfoldable pub requested : Text → Dict Text → List Text → Result (List Text)
unfolding FilePath.join
requested chart out [] = ok []
requested chart out (file ∷ files) = do
  patch ←
      from_option (errorf "template %s not found" (file ∷ []))
        (lookup (FilePath.join (chart ∷ file ∷ [])) out)
  patches ← requested chart out files
  ok (patch ∷ patches)

module _ (t : Talos) (yaml : Codec) (maps : MapCodec) (s : Sources) (c : Charts) where
  unfoldable pub config_patches : RenderOptions → Result (List Text)
  unfolding requested load_values merge_maps
  config_patches o = do
    _ ← if o.offline then ok tt else c.fail_if_multi_nodes
    here ← c.get_working_dir
    chart ← c.load_dir (if is_nil o.chart_root then here else o.chart_root)
    values ← load_values s o.value_options
    out ←
        c.render_chart (not o.offline) chart
          (field (codes "Values") (table (merge_maps (c.chart_values chart) values)) end)
    requested (c.name chart) out o.template_files

  unfoldable pub render : RenderOptions → Result Text
  unfolding config_patches apply_patches_and_render_config
  render o = do
    patches ← config_patches o
    apply_patches_and_render_config t yaml maps o.full o.config patches
