-- ===== src/Helm/Render/Laws.antt =====
-- Which templates the render method gives.
use talm.Base.Text.{Text}
use talm.Base.Dict.{Dict, lookup, insert, lookup-insert}
use talm.Base.Text.{text_eq}
use talm.Base.Text.Laws.{text_eq_iff}
use talm.Base.Result.{Result, ok, err, panic, exit, >>=-eq-ok, ok_injective}
use talm.Base.{
  Bool, Bool-cases, true, false, inl, inr, ◌≡◌, ◌∙◌, Option, none, some, List, [], ◌∷◌, ap, sym,
  map,
}
use talm.Helm.Sort.{sort_templates}
use talm.Helm.Render.{
  Renderable, Templates, is_partial, render_file, render_all, parse_all, executed, template_vals,
  recovered, key, render_next, render,
}

true-ne-false : {b : Bool} → b ≡ true → b ≡ false → ⊥
true-ne-false h k = cc

module _ (tp : Templates) where
  render_file-partial :
      (t : tp.Template) (filename name : Text) (r : Renderable) (rendered : Dict Text)
      {out : Dict Text}
      → is_partial name ≡ true
      → render_file tp t filename r rendered ≡ ok out
      → lookup name out ≡ lookup name rendered
  unfolding render_file
  render_file-partial t filename name r rendered {out} p h =
      elim (Bool-cases (is_partial filename)) [
        | inl skipped ↦ ap (lookup name) (ok_injective _ _ (sym (rw skipped at h)))
        | inr run ↦
            let (x, made, e) =
              >>=-eq-ok (executed tp filename (tp.execute t filename (template_vals filename r)))
                (λ x. ok (insert filename x rendered)) (rw run at h) in
            ap (lookup name) (sym (ok_injective _ _ e))
            ∙ elim (Bool-cases (text_eq filename name)) [
              | inl same ↦
                  absurd (
                    true-ne-false p
                      (sym (ap is_partial ((text_eq_iff filename name).0 same)) ∙ run))
              | inr other ↦ rw (lookup-insert filename name x rendered, other)
            ]
      ]

  render_next-partial :
      (t : tp.Template) (filename name : Text) (found : Option Renderable)
      → (rendered : Dict Text) {out : Dict Text} → is_partial name ≡ true
      → render_next tp t filename found rendered ≡ ok out
      → lookup name out ≡ lookup name rendered
  unfolding render_next
  render_next-partial t filename name none rendered p h = cc
  render_next-partial t filename name (some r) rendered p h =
      render_file-partial t filename name r rendered p h

  render_all-partial :
      (t : tp.Template) (tpls : Dict Renderable) (name : Text) (filenames : List Text)
      → (rendered : Dict Text) {out : Dict Text} → is_partial name ≡ true
      → render_all tp t tpls filenames rendered ≡ ok out
      → lookup name out ≡ lookup name rendered
  unfolding render_all
  render_all-partial t tpls name [] rendered p h = ap (lookup name) (ok_injective _ _ (sym h))
  render_all-partial t tpls name (filename ∷ filenames) rendered p h =
      let (next, first, rest) =
        >>=-eq-ok (render_next tp t filename (lookup filename tpls) rendered) _ h in
      render_all-partial t tpls name filenames next p rest
      ∙ render_next-partial t filename name (lookup filename tpls) rendered p first

  pub recovered-eq-ok :
      (r : Result (Dict Text)) {out : Dict Text} → recovered tp r ≡ ok out → r ≡ ok out
  recovered-eq-ok (ok x) h = h
  recovered-eq-ok (err e) h = cc
  recovered-eq-ok panic h = cc
  recovered-eq-ok (exit x) h = cc

  -- A template whose file name begins with `_` is not among what is rendered when the rendering
  -- succeeds.
  pub render-partial :
      (strict : Bool) (tpls : Dict Renderable) (name : Text) {out : Dict Text}
      → is_partial name ≡ true
      → render tp strict tpls ≡ ok out
      → lookup name out ≡ none
  unfolding render lookup
  render-partial strict tpls name p h =
      let keys = sort_templates (map key tpls) in
      let (t, _, rendered) =
        >>=-eq-ok (parse_all tp tpls keys (tp.new_template strict)) _ (recovered-eq-ok _ h) in
      render_all-partial t tpls name keys [] p rendered
