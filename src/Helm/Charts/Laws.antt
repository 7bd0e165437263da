-- ===== src/Helm/Charts/Laws.antt =====
-- Which templates a chart has, and with which values.
use talm.Base.{◌≡◌, refl, sym, Bool-cases, true, inl, inr, Option, none, some, List, [], ◌∷◌, ◌⊎◌}
use talm.Base.Text.{Text, codes}
use talm.Base.Dict.{Dict, lookup, lookup-insert-eq-some}
use talm.Engine.Values.{table, Fields, end, put}
use talm.Helm.Files.{ChartFile}
use talm.Helm.Render.{Renderable}
use talm.Helm.Charts.{
  Chart, Charts, ChartInfo, ChartValues, info, chart, no_charts, dependency, is_template_valid,
  next_values, key_of, renderable_of, add_template, add_templates, rec_all_tpls, rec_dependencies,
  all_templates,
}

abbrev pub IsIn : Option ChartFile → List (Option ChartFile) → Type 0
IsIn a [] = ⊥
IsIn a (x ∷ xs) = (x ≡ a) ⊎ IsIn a xs

abbrev pub IsDependency : Chart → Charts → Type 0
IsDependency c no_charts = ⊥
IsDependency c (dependency child children) = (child ≡ c) ⊎ IsDependency c children

module _ (cv : ChartValues) where
  -- The chart that is reached by the names of dependencies, with the values that its templates get.
  pub data Scope : Chart → Fields → List Text → ChartInfo → Fields → Type 0 where
    own :
        {c : ChartInfo} {ds : Charts} {vals : Fields}
        → Scope (chart c ds) vals [] c (next_values cv c vals)
    below :
        {c : ChartInfo} {ds : Charts} {vals : Fields} {child : Chart} {names : List Text}
        {d : ChartInfo} {next : Fields}
        → IsDependency child ds
        → Scope child (next_values cv c vals) names d next
        → Scope (chart c ds) vals ((info child).name ∷ names) d next

  -- A template of the chart, under its key, with these values.
  pub record OwnTemplate (c : ChartInfo) (next : Fields) (ts : List (Option ChartFile)) (key : Text)
      (r : Renderable) : Type 0 where
    pub file : ChartFile
    pub listed : IsIn (some file) ts
    pub valid : is_template_valid c file.name ≡ true
    pub at : key ≡ key_of cv c file.name
    pub made : r ≡ renderable_of cv c file next

  lookup-add_template :
      (c : ChartInfo) (next : Fields) (t : Option ChartFile) (ts : List (Option ChartFile))
      (templates : Dict Renderable) (key : Text) (r : Renderable)
      → lookup key (add_template cv c next t templates) ≡ some r
      → (lookup key templates ≡ some r) ⊎ OwnTemplate c next (t ∷ ts) key r
  lookup-add_template c next none ts templates key r h = inl h
  lookup-add_template c next (some t) ts templates key r h =
      elim (Bool-cases (is_template_valid c t.name)) [
        | inr invalid ↦ inl (rw invalid at h)
        | inl valid ↦
            elim (lookup-insert-eq-some (key_of cv c t.name) key (renderable_of cv c t next)
              templates (rw valid at h)) [
                | inl (same, made) ↦ inr (record {
                  file = t;
                  listed = inl refl;
                  valid = valid;
                  at = sym same;
                  made = sym made;
                })
                | inr old ↦ inl old
              ]
      ]

  lookup-add_templates :
      (c : ChartInfo) (next : Fields) (ts : List (Option ChartFile)) (templates : Dict Renderable)
      (key : Text) (r : Renderable)
      → lookup key (add_templates cv c next ts templates) ≡ some r
      → (lookup key templates ≡ some r) ⊎ OwnTemplate c next ts key r
  unfolding add_templates
  lookup-add_templates c next [] templates key r h = inl h
  lookup-add_templates c next (t ∷ ts) templates key r h =
      elim (lookup-add_templates c next ts (add_template cv c next t templates) key r h) [
        | inl old ↦ lookup-add_template c next t ts templates key r old
        | inr later ↦ inr (record {
          file = later.file;
          listed = inr later.listed;
          valid = later.valid;
          at = later.at;
          made = later.made;
        })
      ]

  -- A template of a chart that is reached from `c`, with that chart's values, in which the entry for the
  -- charts below is filled.
  pub record TemplateOf (c : Chart) (vals : Fields) (key : Text) (r : Renderable) : Type 0 where
    pub names : List Text
    pub owner : ChartInfo
    pub next : Fields
    pub sub_charts : Fields
    pub scope : Scope c vals names owner next
    pub template :
        OwnTemplate owner (put (codes "Subcharts") (table sub_charts) next) owner.templates key r

  record TemplateBelow (ds : Charts) (next : Fields) (key : Text) (r : Renderable) : Type 0 where
    child : Chart
    there : IsDependency child ds
    of_child : TemplateOf child next key r

  TemplateOf-below :
      (c : ChartInfo) (ds : Charts) (vals : Fields) (key : Text) (r : Renderable)
      → TemplateBelow ds (next_values cv c vals) key r
      → TemplateOf (chart c ds) vals key r
  TemplateOf-below c ds vals key r b = record {
    names = (info b.child).name ∷ b.of_child.names;
    owner = b.of_child.owner;
    next = b.of_child.next;
    sub_charts = b.of_child.sub_charts;
    scope = below b.there b.of_child.scope;
    template = b.of_child.template;
  }

  mutual
    unfolding rec_all_tpls

    lookup-rec_all_tpls :
        (c : Chart) (templates : Dict Renderable) (vals : Fields) (key : Text) (r : Renderable)
        → lookup key (rec_all_tpls cv c templates vals).0 ≡ some r
        → (lookup key templates ≡ some r) ⊎ TemplateOf c vals key r
    lookup-rec_all_tpls (chart c ds) templates vals key r h =
        let next = next_values cv c vals in
        let deps = rec_dependencies cv ds templates next end in
        elim (lookup-add_templates c (put (codes "Subcharts") (table deps.1) next) c.templates
          deps.0 key r h) [
            | inr own_template ↦ inr (record {
              names = [];
              owner = c;
              next = next;
              sub_charts = deps.1;
              scope = own;
              template = own_template;
            })
            | inl old ↦ elim (lookup-rec_dependencies ds templates next end key r old) [
              | inl older ↦ inl older
              | inr b ↦ inr (TemplateOf-below c ds vals key r b)
            ]
          ]

    lookup-rec_dependencies :
        (ds : Charts) (templates : Dict Renderable) (next sub_charts : Fields) (key : Text)
        (r : Renderable)
        → lookup key (rec_dependencies cv ds templates next sub_charts).0 ≡ some r
        → (lookup key templates ≡ some r) ⊎ TemplateBelow ds next key r
    lookup-rec_dependencies no_charts templates next sub_charts key r h = inl h
    lookup-rec_dependencies (dependency child children) templates next sub_charts key r h =
        elim (lookup-rec_dependencies children (rec_all_tpls cv child templates next).0 next _ key r
          h) [
            | inr b ↦ inr (record { child = b.child; there = inr b.there; of_child = b.of_child })
            | inl old ↦ elim (lookup-rec_all_tpls child templates next key r old) [
              | inl older ↦ inl older
              | inr found ↦ inr (record { child = child; there = inl refl; of_child = found })
            ]
          ]

  -- Every template of a chart is a valid template of this chart or of one that it depends on, under the
  -- path of that chart, with that chart's files and scope of values.
  pub lookup-all_templates :
      (c : Chart) (vals : Fields) (key : Text) {r : Renderable}
      → lookup key (all_templates cv c vals) ≡ some r
      → TemplateOf c vals key r
  unfolding all_templates lookup
  lookup-all_templates c vals key {r} h = elim (lookup-rec_all_tpls c [] vals key r h) [
    | inl impossible ↦ absurd (lookup_empty impossible)
    | inr found ↦ found
  ]
    where
      lookup_empty : {x : Renderable} → lookup key [] ≡ some x → ⊥
      lookup_empty e = cc
