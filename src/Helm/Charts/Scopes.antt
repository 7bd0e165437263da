-- ===== src/Helm/Charts/Scopes.antt =====
-- The values of a chart's templates in pkg/engine/helm/engine.go, as those of the top chart descended
-- along the names of the charts.
use talm.Base.{
  ◌==◌, ◌≡◌, refl, ap, ◌∙◌, Bool, true, false, not, ◌&&◌, inl, inr, Option, none, some, List, [],
  ◌∷◌, ◌++◌, subst,
}
use talm.Base.Text.{Text, codes, text_eq}
use talm.Base.Dict.{lookup}
use talm.Engine.Values.{Value, table, Fields, end, get, put, table_of}
use talm.Engine.Values.Laws.{get-put}
use talm.Helm.Render.{Renderable}
use talm.Helm.Charts.{
  Chart, Charts, ChartInfo, ChartValues, chart, info, no_charts, dependency, next_values,
  scope_values, all_templates, or_null, child_values,
}
use talm.Helm.Charts.Laws.{Scope, own, below, IsDependency, TemplateOf, lookup-all_templates}

-- The map under a name, empty where there is none.
abbrev pub child_table : Text → Value → Value
child_table name (table m) = child_values (table_of (get name m))
child_table name v = table end

-- The specification: the values of the chart at the end of a path of names.
unfoldable pub descend : Value → List Text → Value
descend v [] = v
descend v (name ∷ names) = descend (child_table name v) names

abbrev pub lacks_dot : Text → Bool
lacks_dot [] = true
lacks_dot (c ∷ s) = not (c == b'.') && lacks_dot s

abbrev pub table_under : Text → Option Value → Option Fields
table_under name (some (table m)) = table_of (get name m)
table_under name v = none

-- Only the top chart is a root, and the names of the others are single path elements of a Table key.
unfoldable mutual
  pub IsTree : Chart → Type 0
  IsTree (chart c ds) = AreDependencies ds

  pub AreDependencies : Charts → Type 0
  AreDependencies no_charts = Unit
  AreDependencies (dependency child children) =
      ((info child).is_root ≡ false)
      × (lacks_dot (info child).name ≡ true)
      × IsTree child
      × AreDependencies children

-- chartutil's documented Table: the map below two names, where maps stand on the way.
abbrev pub TableLooksUp : ChartValues → Type 0
TableLooksUp cv =
    (vals : Fields) (name : Text)
    → lacks_dot name ≡ true
    → cv.table_at vals (codes "Values." ++ name) ≡ table_under name (get (codes "Values") vals)

child_values-table_under :
    (name : Text) (v : Value) → child_values (table_under name (some v)) ≡ child_table name v
child_values-table_under name (table m) = refl
child_values-table_under name v = refl

module _ (cv : ChartValues) (looks_up : TableLooksUp cv) where
  get-next_values :
      (c : ChartInfo) (vals : Fields)
      → get (codes "Values") (next_values cv c vals) ≡ some (scope_values cv c vals)
  unfolding next_values get text_eq
  get-next_values c vals = refl

  scope_values_child :
      (c d : ChartInfo) (vals : Fields)
      → d.is_root ≡ false
      → lacks_dot d.name ≡ true
      → scope_values cv d (next_values cv c vals) ≡ child_table d.name (scope_values cv c vals)
  unfolding scope_values
  scope_values_child c d vals no_root simple = rw no_root (
      ap child_values (looks_up (next_values cv c vals) d.name simple)
      ∙ ap (λ v. child_values (table_under d.name v)) (get-next_values c vals)
      ∙ child_values-table_under d.name (scope_values cv c vals))

  AreDependencies-IsDependency :
      (ds : Charts) (child : Chart)
      → AreDependencies ds
      → IsDependency child ds
      → ((info child).is_root ≡ false) × (lacks_dot (info child).name ≡ true) × IsTree child
  unfolding IsTree
  AreDependencies-IsDependency no_charts child all h = absurd h
  AreDependencies-IsDependency (dependency first ds) child (a, b, c, d) (inl same) =
      subst (λ c. ((info c).is_root ≡ false) × (lacks_dot (info c).name ≡ true) × IsTree c) same
        (a, b, c)
  AreDependencies-IsDependency (dependency first ds) child (a, b, c, d) (inr later) =
      AreDependencies-IsDependency ds child d later

  get-Scope :
      {c : Chart} {vals : Fields} {names : List Text} {d : ChartInfo} {next : Fields}
      → IsTree c
      → Scope cv c vals names d next
      → get (codes "Values") next ≡ some (descend (scope_values cv (info c) vals) names)
  unfolding IsTree descend
  get-Scope {vals = vals} tree (own {c}) = get-next_values c vals
  get-Scope {vals = vals} tree (below {c} {ds} {child = child} {names} there scope) =
      let (no_root, simple, sub_tree) = AreDependencies-IsDependency ds child tree there in
      get-Scope sub_tree scope
      ∙ ap (λ v. some (descend v names)) (scope_values_child c (info child) vals no_root simple)

  get-put_subcharts :
      (v : Value) (next : Fields)
      → get (codes "Values") (put (codes "Subcharts") v next) ≡ get (codes "Values") next
  unfolding text_eq
  get-put_subcharts v next = get-put (codes "Subcharts") (codes "Values") v next

  scope_values_root :
      (c : ChartInfo) (vals : Fields)
      → c.is_root ≡ true
      → scope_values cv c vals ≡ or_null (get (codes "Values") vals)
  unfolding scope_values
  scope_values_root c vals root = rw root refl

  -- Every template of a tree of charts gets as its values those of the top chart, descended along the
  -- names of the charts on the way to its own chart: a map that stands there, or an empty one.
  pub get-all_templates :
      (c : Chart) (vals : Fields) (key : Text) {r : Renderable}
      → IsTree c
      → (info c).is_root ≡ true
      → lookup key (all_templates cv c vals) ≡ some r
      → (found : TemplateOf cv c vals key r) × (get (codes "Values") r.vals
          ≡ some (descend (or_null (get (codes "Values") vals)) found.names))
  get-all_templates c vals key {r} tree root h =
      let found = lookup-all_templates cv c vals key h in
      let shared : Value = table found.sub_charts in
      (
        found,
        ap (λ x. get (codes "Values") x.vals) found.template.made
            ∙ get-put_subcharts shared found.next
            ∙ get-Scope tree found.scope
            ∙ ap (λ v. some (descend v found.names)) (scope_values_root (info c) vals root),
      )
