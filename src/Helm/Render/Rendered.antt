-- ===== src/Helm/Render/Rendered.antt =====
-- The text that the render method gives for a template.
use talm.Base.Text.{Text, text_eq}
use talm.Base.Text.Laws.{text_eq_iff}
use talm.Base.Dict.{Dict, lookup, insert, lookup-insert, lookup-insert_self}
use talm.Base.Result.{ok, >>=-eq-ok, ok_injective}
use talm.Base.{
  Bool, Bool-cases, true, false, ◌||◌, inl, inr, ◌≡◌, ◌∙◌, refl, Option, none, some, List, [], ◌∷◌,
  ap, sym, subst, map, arith,
}
use talm.Helm.Sort.{sort_templates, insert_key}
use talm.Helm.Render.{
  Renderable, Templates, is_partial, render_file, render_next, render_all, parse_all, executed,
  template_vals, key, render,
}
use talm.Helm.Render.Laws.{recovered-eq-ok}

-- A name is in a list of names.
unfoldable occurs : Text → List Text → Bool
occurs name [] = false
occurs name (k ∷ keys) = text_eq k name || occurs name keys

occurs-insert_key :
    (name k : Text) (keys : List Text) → occurs name (insert_key k keys) ≡ occurs name (k ∷ keys)
unfolding occurs insert_key
occurs-insert_key name k [] = refl
occurs-insert_key name k (j ∷ keys) = ground (arith, occurs-insert_key name k keys)

occurs-sort_templates :
    (name : Text) (keys : List Text) → occurs name (sort_templates keys) ≡ occurs name keys
unfolding occurs sort_templates
occurs-sort_templates name [] = refl
occurs-sort_templates name (k ∷ keys) =
    rw (occurs-insert_key name k (sort_templates keys), occurs-sort_templates name keys) refl

occurs-map-key :
    {A : Type 0} (name : Text) (m : Dict A) {a : A}
    → lookup name m ≡ some a
    → occurs name (map key m) ≡ true
unfolding occurs lookup
occurs-map-key name [] h = cc
occurs-map-key name ((j, b) ∷ m) h = elim (Bool-cases (text_eq j name)) [
  | inl same ↦ rw same
  | inr other ↦ rw other (occurs-map-key name m (rw other at h))
]

module _ (tp : Templates) (t : tp.Template) (name : Text) (r : Renderable) where
  -- The template was executed, and its text stands under its name.
  abbrev Has : Dict Text → Type 0
  Has rendered =
      (out : Text) × (executed tp name (tp.execute t name (template_vals name r)) ≡ ok out)
      × (lookup name rendered ≡ some out)

  Has-render_file :
      (rendered : Dict Text) {next : Dict Text}
      → is_partial name ≡ false
      → render_file tp t name r rendered ≡ ok next
      → Has next
  unfolding render_file
  Has-render_file rendered p h =
      let (out, made, e) =
        >>=-eq-ok (executed tp name (tp.execute t name (template_vals name r)))
          (λ x. ok (insert name x rendered)) (rw p at h) in
      (
        out,
        made,
        ap (lookup name) (sym (ok_injective _ _ e)) ∙ lookup-insert_self name out rendered,
      )

  Has-insert :
      (filename x : Text) (rendered : Dict Text)
      → text_eq filename name ≡ false
      → Has rendered
      → Has (insert filename x rendered)
  Has-insert filename x rendered other (out, made, found) =
      (out, made, rw (lookup-insert filename name x rendered, other) found)

  Has-found :
      (tpls : Dict Renderable) (filename : Text) (rendered : Dict Text) {next : Dict Text}
      → is_partial name ≡ false
      → lookup name tpls ≡ some r
      → filename ≡ name
      → render_next tp t filename (lookup filename tpls) rendered ≡ ok next
      → Has next
  unfolding render_next
  Has-found tpls filename rendered {next} p known same h =
      let there = subst (λ n. render_next tp t n (lookup n tpls) rendered ≡ ok next) same h in
      Has-render_file rendered p
        (subst (λ q. render_next tp t name q rendered ≡ ok next) known there)

  -- A later step leaves the text, or puts it there again.
  Has-render_next :
      (tpls : Dict Renderable) (filename : Text) (found : Option Renderable)
      → (rendered : Dict Text) {next : Dict Text} → is_partial name ≡ false
      → lookup name tpls ≡ some r
      → lookup filename tpls ≡ found
      → render_next tp t filename found rendered ≡ ok next
      → Has rendered
      → Has next
  unfolding render_next render_file
  Has-render_next tpls filename none rendered p known found h has = cc
  Has-render_next tpls filename (some q) rendered {next} p known found h has =
      elim (Bool-cases (text_eq filename name)) [
        | inl same ↦
            Has-found tpls filename rendered p known ((text_eq_iff filename name).0 same)
              (subst (λ q. render_next tp t filename q rendered ≡ ok next) (sym found) h)
        | inr other ↦ elim (Bool-cases (is_partial filename)) [
          | inl skipped ↦ subst Has (ok_injective _ _ (rw skipped at h)) has
          | inr run ↦
              let (x, made, e) =
                >>=-eq-ok (executed tp filename (tp.execute t filename (template_vals filename q)))
                  (λ x. ok (insert filename x rendered)) (rw run at h) in
              subst Has (ok_injective _ _ e) (Has-insert filename x rendered other has)
        ]
      ]

  Has-render_all :
      (tpls : Dict Renderable) (filenames : List Text) (rendered : Dict Text) {out : Dict Text}
      → is_partial name ≡ false
      → lookup name tpls ≡ some r
      → render_all tp t tpls filenames rendered ≡ ok out
      → Has rendered
      → Has out
  unfolding render_all
  Has-render_all tpls [] rendered p known h has = subst Has (ok_injective _ _ h) has
  Has-render_all tpls (filename ∷ filenames) rendered p known h has =
      let (next, first, rest) =
        >>=-eq-ok (render_next tp t filename (lookup filename tpls) rendered) _ h in
      Has-render_all tpls filenames next p known rest
        (Has-render_next tpls filename (lookup filename tpls) rendered p known refl first has)

  Has-occurs :
      (tpls : Dict Renderable) (filenames : List Text) (rendered : Dict Text) {out : Dict Text}
      → is_partial name ≡ false
      → lookup name tpls ≡ some r
      → occurs name filenames ≡ true
      → render_all tp t tpls filenames rendered ≡ ok out
      → Has out
  unfolding render_all occurs
  Has-occurs tpls [] rendered p known o h = cc
  Has-occurs tpls (filename ∷ filenames) rendered p known o h =
      let (next, first, rest) =
        >>=-eq-ok (render_next tp t filename (lookup filename tpls) rendered) _ h in
      elim (Bool-cases (text_eq filename name)) [
        | inl same ↦
            Has-render_all tpls filenames next p known rest
              (Has-found tpls filename rendered p known ((text_eq_iff filename name).0 same) first)
        | inr other ↦ Has-occurs tpls filenames next p known (rw other at o) rest
      ]

-- If the rendering succeeds, each template that is no partial was executed behind the parsing of
-- all templates, and stands in the result with its text, without `<no value>`.
pub lookup-render :
    (tp : Templates) (strict : Bool) (tpls : Dict Renderable) (name : Text) (r : Renderable)
    → {out : Dict Text} → is_partial name ≡ false
    → lookup name tpls ≡ some r
    → render tp strict tpls ≡ ok out
    → (t : tp.Template) × (x : Text) × (parse_all tp tpls
          (sort_templates (map key tpls))
          (tp.new_template strict)
        ≡ ok t)
      × (executed tp name (tp.execute t name (template_vals name r)) ≡ ok x)
      × (lookup name out ≡ some x)
unfolding render
lookup-render tp strict tpls name r p known h =
    let keys = sort_templates (map key tpls) in
    let (t, parsed_all, rendered) =
      >>=-eq-ok (parse_all tp tpls keys (tp.new_template strict)) _ (recovered-eq-ok tp _ h) in
    let there = occurs-sort_templates name (map key tpls) ∙ occurs-map-key name tpls known in
    let (x, made, found) = Has-occurs tp t name r tpls keys [] p known there rendered in
    (t, x, parsed_all, made, found)
