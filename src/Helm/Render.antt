-- ===== src/Helm/Render.antt =====
-- The render method of pkg/engine/helm/engine.go and its errors. Package text/template with the
-- function map is a parameter.
pub mod Laws
pub mod Rendered
use talm.Base.{
  ℕ, zero, suc, Bool, true, false, Option, none, some, List, [], ◌∷◌, ◌++◌, if◌then◌else◌, map,
}
use mathlib.Core.List.{reverse}
use talm.Base.Text.{Text, codes, strip_prefix, has_prefix, split₂}
use talm.Base.Dict.{Dict, lookup, insert}
use talm.Base.FilePath.{base}
use talm.Base.Result.{Result, Error, ok, err, panic, exit, errorf, ◌>>=◌}
use talm.Engine.Values.{text, table, Fields, end, field, put}
use talm.Helm.Sort.{sort_templates}

-- `renderable`
pub record Renderable : Type 0 where
  pub tpl : Text
  pub vals : Fields
  pub base_path : Text

-- A call of the template package: a value; an error, which may be an ExecError, with its text; or a
-- panic.
pub data Attempt (A : Type 0) : Type 0 where
  gives : A → Attempt A
  fails : Bool → Text → Attempt A
  crashes : Attempt A

pub record Templates : Type 1 where
  pub Template : Type 0
  pub new_template : Bool → Template
  pub parse : Template → Text → Text → Attempt Template
  pub execute : Template → Text → Fields → Attempt Text

-- The text behind the first occurrence of a delimiter.
unfoldable pub behind_first : Text → Text → Option Text
behind_first delimiter [] = strip_prefix delimiter []
behind_first delimiter (c ∷ s) =
    let later = behind_first delimiter s in
    elim (strip_prefix delimiter (c ∷ s)) [ none ↦ later | some rest ↦ some rest ]

abbrev pub reversed : Option Text → Option Text
reversed none = none
reversed (some t) = some (reverse t)

-- The text up to the last end of a warning in it.
abbrev pub to_warning_end : Text → Option Text
to_warning_end rest = reversed (behind_first (reverse (codes "HELM_ERR_END")) (reverse rest))

abbrev pub warning_in : Option Text → Option Text
warning_in none = none
warning_in (some rest) = to_warning_end rest

-- `warnRegex.FindStringSubmatch`: from the first start to the last end behind it.
unfoldable pub find_warning : Text → Option Text
unfolding behind_first
find_warning s = warning_in (behind_first (codes "HELM_ERR_START") s)

abbrev last_or : Text → List Text → Text
last_or t [] = t
last_or t (u ∷ us) = last_or u us

unfoldable pub cleanup_parse_error : Text → Text → Error
cleanup_parse_error filename message = elim (split₂ b':' b' ' message) [
  | [] ↦ errorf "parse error in (%s): %s" (filename ∷ message ∷ [])
  | t ∷ [] ↦ errorf "parse error in (%s): %s" (filename ∷ message ∷ [])
  | t ∷ location ∷ rest ↦ errorf "parse error at (%s): %s" (location ∷ last_or location rest ∷ [])
]

abbrev pub join_colons : Text → List Text → Text
join_colons t [] = t
join_colons t (u ∷ us) = t ++ b':' ∷ b' ' ∷ join_colons u us

abbrev pub exec_error : Text → Text → Text → Option Text → Error
exec_error filename message location none = errorf "%s" (message ∷ [])
exec_error filename message location (some warning) =
    errorf "execution error at (%s): %s" (location ∷ warning ∷ [])

-- By the tokens of the message.
abbrev pub exec_error_of : Text → Text → List Text → Error
exec_error_of filename message (t ∷ location ∷ third ∷ rest) =
    exec_error filename message location (find_warning (join_colons third rest))
exec_error_of filename message _ = errorf "execution error in (%s): %s" (filename ∷ message ∷ [])

unfoldable pub cleanup_exec_error : Text → Bool → Text → Error
unfolding find_warning
cleanup_exec_error filename false message = errorf "%s" (message ∷ [])
cleanup_exec_error filename true message = exec_error_of filename message (split₂ b':' b' ' message)

-- `strings.ReplaceAll(s, "<no value>", "")`, with `skip` bytes of an occurrence left.
unfoldable pub remove_no_value : ℕ → Text → Text
remove_no_value skip [] = []
remove_no_value (suc skip) (c ∷ s) = remove_no_value skip s
remove_no_value zero (c ∷ s) =
    let dropped = remove_no_value 9 s in
    let kept = remove_no_value 0 s in
    if has_prefix (c ∷ s) (codes "<no value>") then dropped else c ∷ kept

unfoldable pub is_partial : Text → Bool
is_partial filename = has_prefix (base filename) (codes "_")

-- The values with the template that is rendered.
abbrev pub template_vals : Text → Renderable → Fields
template_vals filename r =
    put (codes "Template")
      (table
        (field (codes "Name") (text filename) (field (codes "BasePath") (text r.base_path) end)))
      r.vals

abbrev pub key : {A : Type 0} → Text × A → Text
key (k, a) = k

module _ (tp : Templates) where
  abbrev pub parsed : Text → Attempt tp.Template → Result tp.Template
  parsed filename (gives t) = ok t
  parsed filename (fails exec message) = err (cleanup_parse_error filename message)
  parsed filename crashes = panic

  abbrev pub executed : Text → Attempt Text → Result Text
  executed filename (gives out) = ok (remove_no_value 0 out)
  executed filename (fails exec message) = err (cleanup_exec_error filename exec message)
  executed filename crashes = panic

  unfoldable pub parse_all : Dict Renderable → List Text → tp.Template → Result tp.Template
  parse_all tpls [] t = ok t
  parse_all tpls (filename ∷ filenames) t = elim (lookup filename tpls) [
    | none ↦ panic
    | some r ↦ parsed filename (tp.parse t filename r.tpl) >>= parse_all tpls filenames
  ]

  unfoldable pub render_file : tp.Template → Text → Renderable → Dict Text → Result (Dict Text)
  unfolding is_partial remove_no_value cleanup_exec_error
  render_file t filename r rendered =
      if is_partial filename
      then ok rendered
      else executed filename (tp.execute t filename (template_vals filename r)) >>= λ out.
          ok (insert filename out rendered)

  unfoldable pub render_next :
      tp.Template → Text → Option Renderable → Dict Text → Result (Dict Text)
  unfolding render_file
  render_next t filename none rendered = panic
  render_next t filename (some r) rendered = render_file t filename r rendered

  unfoldable pub render_all :
      tp.Template → Dict Renderable → List Text → Dict Text → Result (Dict Text)
  unfolding render_next
  render_all t tpls [] rendered = ok rendered
  render_all t tpls (filename ∷ filenames) rendered =
      render_next t filename (lookup filename tpls) rendered >>= render_all t tpls filenames

  -- The deferred `recover`.
  abbrev pub recovered : Result (Dict Text) → Result (Dict Text)
  recovered (ok out) = ok out
  recovered (err e) = err e
  recovered panic = err (errorf "rendering template failed: %v" [])
  recovered (exit out) = exit out

  unfoldable pub render : Bool → Dict Renderable → Result (Dict Text)
  unfolding parse_all render_all sort_templates
  render strict tpls =
      let keys = sort_templates (map key tpls) in
      recovered (parse_all tpls keys (tp.new_template strict) >>= λ t. render_all t tpls keys [])
