-- ===== src/Helm/Charts.antt =====
-- allTemplates and recAllTpls of pkg/engine/helm/engine.go: the templates of a chart and of the charts
-- that it depends on, each with the values of its own scope. What the chart library's methods return
-- (Name, IsRoot, ChartFullPath) is part of a chart; chartutil's Table is a parameter. A map of values is
-- a value here: the entry that render makes in a shared map is made by template_vals in a copy.
pub mod Laws
pub mod Scopes
pub mod Rendered
use talm.Base.{
  ℕ, leb, ◌+◌, Bool, true, ◌&&◌, Option, none, some, List, [], ◌∷◌, ◌++◌, if◌then◌else◌, map,
}
use talm.Base.Text.{Text, codes, text_eq, has_prefix}
use talm.Base.Dict.{Dict, insert}
use talm.Base.FilePath.{base, join}
use talm.Engine.Values.{Value, null, table, Fields, end, field, get, put}
use talm.Helm.Files.{ChartFile, Files, new_files, data_text}
use talm.Base.Result.{Result}
use talm.Helm.Render.{Renderable, Templates, render}

-- What recAllTpls reads of a `chart.Chart` besides its dependencies.
pub record ChartInfo : Type 0 where
  pub name : Text
  pub metadata_type : Text
  pub is_root : Bool
  pub full_path : Text
  pub files : List ChartFile
  pub templates : List (Option ChartFile)

mutual
  pub data Chart : Type 0 where
    chart : ChartInfo → Charts → Chart

  pub data Charts : Type 0 where
    no_charts : Charts
    dependency : Chart → Charts → Charts

abbrev pub info : Chart → ChartInfo
info (chart c dependencies) = c

-- `unicode.ToLower` of ASCII, as far as the comparison with an ASCII word needs it.
abbrev lower : ℕ → ℕ
lower c = if leb b'A' c && leb c b'Z' then c + 32 else c

-- `strings.EqualFold(c.Metadata.Type, "library")`
unfoldable pub is_library_chart : ChartInfo → Bool
is_library_chart c = text_eq (map lower c.metadata_type) (codes "library")

unfoldable pub is_template_valid : ChartInfo → Text → Bool
unfolding is_library_chart
is_template_valid c template_name =
    if is_library_chart c then has_prefix (base template_name) (codes "_") else true

abbrev pub or_null : Option Value → Value
or_null none = null
or_null (some v) = v

-- What stands for Go values that are no data: the metadata with IsRoot, the files and the disks; and
-- `vals.Table(key)`, where it has no error.
pub record ChartValues : Type 0 where
  pub chart_value : ChartInfo → Value
  pub files_value : Files → Value
  pub disks : Value
  pub table_at : Fields → Text → Option Fields

abbrev pub child_values : Option Fields → Value
child_values none = table end
child_values (some vs) = table vs

module _ (cv : ChartValues) where
  -- The values that a chart's templates get, from those of the chart above.
  unfoldable pub scope_values : ChartInfo → Fields → Value
  scope_values c vals =
      if c.is_root
      then or_null (get (codes "Values") vals)
      else child_values (cv.table_at vals (codes "Values." ++ c.name))

  unfoldable pub next_values : ChartInfo → Fields → Fields
  unfolding scope_values new_files
  next_values c vals = field (codes "Chart") (cv.chart_value c) (
      field (codes "Files") (cv.files_value (new_files c.files)) (
        field (codes "Release") (or_null (get (codes "Release") vals)) (
          field (codes "Capabilities") (or_null (get (codes "Capabilities") vals)) (
            field (codes "Values") (scope_values c vals)
              (field (codes "Subcharts") (table end) (field (codes "Disks") cv.disks end))))))

  abbrev pub key_of : ChartInfo → Text → Text
  key_of c template_name = join (c.full_path ∷ template_name ∷ [])

  abbrev pub renderable_of : ChartInfo → ChartFile → Fields → Renderable
  renderable_of c t next = record {
    tpl = data_text (some t.contents);
    vals = next;
    base_path = join (c.full_path ∷ codes "templates" ∷ []);
  }

  abbrev pub add_template :
      ChartInfo → Fields → Option ChartFile → Dict Renderable → Dict Renderable
  add_template c next none templates = templates
  add_template c next (some t) templates =
      if is_template_valid c t.name
      then insert (key_of c t.name) (renderable_of c t next) templates
      else templates

  unfoldable pub add_templates :
      ChartInfo → Fields → List (Option ChartFile) → Dict Renderable → Dict Renderable
  unfolding is_template_valid
  add_templates c next [] templates = templates
  add_templates c next (t ∷ ts) templates =
      add_templates c next ts (add_template c next t templates)

  unfoldable mutual
    -- The templates with those of the chart, and the chart's values.
    pub rec_all_tpls : Chart → Dict Renderable → Fields → Dict Renderable × Fields
    rec_all_tpls (chart c dependencies) templates vals =
        let next = next_values c vals in
        let (added, sub_charts) = rec_dependencies dependencies templates next end in
        let all = put (codes "Subcharts") (table sub_charts) next in
        (add_templates c all c.templates added, all)

    -- The dependencies in their order, and the map of their values by name.
    pub rec_dependencies : Charts → Dict Renderable → Fields → Fields → Dict Renderable × Fields
    rec_dependencies no_charts templates next sub_charts = (templates, sub_charts)
    rec_dependencies (dependency child children) templates next sub_charts =
        let (added, vals) = rec_all_tpls child templates next in
        rec_dependencies children added next (put (info child).name (table vals) sub_charts)

  unfoldable pub all_templates : Chart → Fields → Dict Renderable
  unfolding rec_all_tpls
  all_templates c vals = (rec_all_tpls c [] vals).0

-- Engine's Render: the chart's templates, rendered.
unfoldable pub render_chart : Templates → ChartValues → Bool → Chart → Fields → Result (Dict Text)
unfolding all_templates render
render_chart tp cv strict c vals = render tp strict (all_templates cv c vals)
