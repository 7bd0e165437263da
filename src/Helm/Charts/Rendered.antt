-- ===== src/Helm/Charts/Rendered.antt =====
-- What the engine of pkg/engine/helm/engine.go renders for a chart: the texts of its templates.
use talm.Base.{
  ◌≡◌, refl, ap, subst, Bool, Bool-cases, true, false, inl, inr, Option, none, some, List, [], ◌∷◌,
  map,
}
use talm.Base.Text.{Text, codes}
use talm.Base.Dict.{Dict, lookup, insert, lookup-insert-eq-some}
use talm.Base.Result.{panic, ◌>>=◌, ok, >>=-eq-ok, ok_injective}
use talm.Engine.Values.{Fields, get}
use talm.Helm.Sort.{sort_templates}
use talm.Helm.Render.{
  Attempt, gives, fails, crashes, parsed, Renderable, Templates, is_partial, render_file,
  render_next, render_all, parse_all, executed, template_vals, key, render,
}
use talm.Helm.Render.Laws.{recovered-eq-ok}
use talm.Helm.Charts.{Chart, ChartValues, info, all_templates, render_chart, or_null}
use talm.Helm.Charts.Laws.{TemplateOf}
use talm.Helm.Charts.Scopes.{IsTree, TableLooksUp, descend, get-all_templates}

module _ (tp : Templates) (t : tp.Template) (tpls : Dict Renderable) where
  -- The text is that of a template, which is no partial.
  pub record TextOf (name x : Text) : Type 0 where
    pub renderable : Renderable
    pub known : lookup name tpls ≡ some renderable
    pub full : is_partial name ≡ false
    pub made : executed tp name (tp.execute t name (template_vals name renderable)) ≡ ok x

  abbrev pub AllTexts : Dict Text → Type 0
  AllTexts rendered = (name x : Text) → lookup name rendered ≡ some x → TextOf name x

  AllTexts-insert :
      (filename y : Text) (rendered : Dict Text)
      → TextOf filename y
      → AllTexts rendered
      → AllTexts (insert filename y rendered)
  AllTexts-insert filename y rendered new old name x h =
      elim (lookup-insert-eq-some filename name y rendered h) [
        | inl (same, is) ↦ subst (λ n. TextOf n x) same (subst (λ z. TextOf filename z) is new)
        | inr before ↦ old name x before
      ]

  AllTexts-render_file :
      (filename : Text) (r : Renderable) (rendered : Dict Text) {out : Dict Text}
      → lookup filename tpls ≡ some r
      → AllTexts rendered
      → render_file tp t filename r rendered ≡ ok out
      → AllTexts out
  unfolding render_file
  AllTexts-render_file filename r rendered {out} known old h =
      elim (Bool-cases (is_partial filename)) [
        | inl skipped ↦ subst AllTexts (ok_injective _ _ (rw skipped at h)) old
        | inr run ↦
            let (y, made, e) =
              >>=-eq-ok (executed tp filename (tp.execute t filename (template_vals filename r)))
                (λ y. ok (insert filename y rendered)) (rw run at h) in
            subst AllTexts (ok_injective _ _ e) (
              AllTexts-insert filename y rendered
                (record { renderable = r; known = known; full = run; made = made }) old)
      ]

  AllTexts-render_next :
      (filename : Text) (found : Option Renderable) (rendered : Dict Text) {out : Dict Text}
      → lookup filename tpls ≡ found
      → AllTexts rendered
      → render_next tp t filename found rendered ≡ ok out
      → AllTexts out
  unfolding render_next
  AllTexts-render_next filename none rendered known old h = cc
  AllTexts-render_next filename (some r) rendered known old h =
      AllTexts-render_file filename r rendered known old h

  AllTexts-render_all :
      (filenames : List Text) (rendered : Dict Text) {out : Dict Text}
      → AllTexts rendered
      → render_all tp t tpls filenames rendered ≡ ok out
      → AllTexts out
  unfolding render_all
  AllTexts-render_all [] rendered old h = subst AllTexts (ok_injective _ _ h) old
  AllTexts-render_all (filename ∷ filenames) rendered old h =
      let (next, first, rest) =
        >>=-eq-ok (render_next tp t filename (lookup filename tpls) rendered) _ h in
      AllTexts-render_all filenames next
        (AllTexts-render_next filename (lookup filename tpls) rendered refl old first) rest

  AllTexts-empty : AllTexts []
  unfolding lookup
  AllTexts-empty name x h = cc

-- A template set in which the templates of a tree of charts were parsed, one after another, each under
-- its name and with its own text.
pub data Parses (tp : Templates) (cv : ChartValues) (c : Chart) (vals : Fields)
    : List Text → tp.Template → tp.Template → Type 0 where
  all_parsed : (t : tp.Template) → Parses tp cv c vals [] t t
  one_parsed :
      (name : Text) (names : List Text) (r : Renderable) (t u v : tp.Template)
      → TemplateOf cv c vals name r
      → tp.parse t name r.tpl ≡ gives u
      → Parses tp cv c vals names u v
      → Parses tp cv c vals (name ∷ names) t v

parsed-eq-ok :
    (tp : Templates) (name : Text) (a : Attempt tp.Template) {t : tp.Template}
    → parsed tp name a ≡ ok t
    → a ≡ gives t
parsed-eq-ok tp name (gives u) h = ap gives (ok_injective _ _ h)
parsed-eq-ok tp name (fails exec message) h = cc
parsed-eq-ok tp name crashes h = cc

module _ (tp : Templates) (cv : ChartValues) (c : Chart) (vals : Fields)
    (all_of : (name : Text) (r : Renderable)
      → lookup name (all_templates cv c vals) ≡ some r
      → TemplateOf cv c vals name r) where
  parse_all-step :
      (name : Text) (names : List Text) (t : tp.Template) (found : Option Renderable)
      {v : tp.Template}
      → (elim found [
        | none ↦ panic
        | some r ↦
            parsed tp name (tp.parse t name r.tpl) >>= parse_all tp (all_templates cv c vals) names
      ])
        ≡ ok v
      → (r : Renderable) × (u : tp.Template) × (found ≡ some r)
        × (tp.parse t name r.tpl ≡ gives u)
        × (parse_all tp (all_templates cv c vals) names u ≡ ok v)
  parse_all-step name names t none h = cc
  parse_all-step name names t (some r) h =
      let (u, p, rest) =
        >>=-eq-ok (parsed tp name (tp.parse t name r.tpl))
          (parse_all tp (all_templates cv c vals) names) h in
      (r, u, refl, parsed-eq-ok tp name _ p, rest)

  parse_all-Parses :
      (names : List Text) (t : tp.Template) {v : tp.Template}
      → parse_all tp (all_templates cv c vals) names t ≡ ok v
      → Parses tp cv c vals names t v
  unfolding parse_all
  parse_all-Parses [] t h = subst (Parses tp cv c vals [] t) (ok_injective _ _ h) (all_parsed t)
  parse_all-Parses (name ∷ names) t {v} h =
      let (r, u, e, p, rest) =
        parse_all-step name names t (lookup name (all_templates cv c vals)) h in
      one_parsed name names r t u v (all_of name r e) p (parse_all-Parses names u rest)

-- Each text that a rendered chart has comes from the execution, behind the parsing of all templates, of
-- a template of the chart or of one that it depends on. The template is no partial, and it got the
-- values of its own chart: those of the top chart, descended along the names of the charts.
pub lookup-render_chart :
    (tp : Templates) (cv : ChartValues) (strict : Bool) (c : Chart) (vals : Fields) (name x : Text)
    {out : Dict Text}
    → TableLooksUp cv
    → IsTree c
    → (info c).is_root ≡ true
    → render_chart tp cv strict c vals ≡ ok out
    → lookup name out ≡ some x
    → (t : tp.Template) × Parses tp cv c vals
        (sort_templates (map key (all_templates cv c vals)))
        (tp.new_template strict)
        t
      × (text_of : TextOf tp t (all_templates cv c vals) name x) × (found : TemplateOf cv c vals
          name text_of.renderable)
      × (get (codes "Values") text_of.renderable.vals
          ≡ some (descend (or_null (get (codes "Values") vals)) found.names))
unfolding render_chart render
lookup-render_chart tp cv strict c vals name x looks_up tree root h there =
    let tpls = all_templates cv c vals in
    let keys = sort_templates (map key tpls) in
    let (t, parsed_all, rendered) =
      >>=-eq-ok (parse_all tp tpls keys (tp.new_template strict)) _ (recovered-eq-ok tp _ h) in
    let text_of =
      AllTexts-render_all tp t tpls keys [] (AllTexts-empty tp t tpls) rendered name x there in
    let (found, scoped) = get-all_templates cv looks_up c vals name tree root text_of.known in
    (
      t,
      parse_all-Parses tp cv c vals
          (λ n r known. (get-all_templates cv looks_up c vals n tree root known).0) keys
          (tp.new_template strict) parsed_all,
      text_of,
      found,
      scoped,
    )
