-- ===== src/Helm/Functions/Required.antt =====
-- The functions `required` and `fail` of pkg/engine/helm/engine.go, and the error that is shown for them.
use talm.Helm.Functions.Warning.{absent, lacks_pair, template_error, cleanup_exec_error-warn_wrap}
use talm.Base.{
  append-nil, ◌⊎◌, ℕ, ◌≡◌, refl, ap, ◌∙◌, true, false, inl, inr, none, [], ◌∷◌, ◌++◌, arith,
}
use mathlib.Core.List.{reverse}
use talm.Base.Text.{Text, codes}
use talm.Helm.Render.{cleanup_exec_error, behind_first}
use talm.Base.Result.{Result, Error, err, errorf, message}
use talm.Engine.Values.{Value, null, text}
use talm.Helm.Functions.{Engine, warn_wrap, is_missing, required_value, fail_template}

-- `x` is an error, and if a template fails with it, the engine shows the place and `warn`.
abbrev pub Shows : {A : Type 0} → Result A → (Error → Error) → Text → Text → Type 0
Shows r shown location warn =
    (x : Error) × (r ≡ err x)
    × (shown x ≡ errorf "execution error at (%s): %s" (location ∷ warn ∷ []))

absent-append :
    (c : ℕ) (s t : Text) → absent c s ≡ true → absent c t ≡ true → absent c (s ++ t) ≡ true
absent-append c [] t h k = k
absent-append c (d ∷ s) t h k = ground (arith, absent-append c s t)

absent-warn_wrap : (warn : Text) → absent b'%' warn ≡ true → absent b'%' (warn_wrap warn) ≡ true
unfolding warn_wrap
absent-warn_wrap warn h =
    absent-append b'%' (codes "HELM_ERR_START") (warn ++ codes "HELM_ERR_END") refl
      (absent-append b'%' warn (codes "HELM_ERR_END") h refl)

message_text : (t : Text) → message (errorf "%s" (t ∷ [])) ≡ t
unfolding message
message_text t = append-nil t

is_missing_lem : (val : Value) → (val ≡ null) ⊎ (val ≡ text []) → is_missing val ≡ true
unfolding is_missing
is_missing_lem val (inl h) = rw h refl
is_missing_lem val (inr h) = rw h refl

-- A template that calls `required` with a nil or empty value, or `fail`, fails when the engine does not
-- lint, and the error of its execution shows the place and the message. The message of `required` has
-- no percent sign in it, so that Errorf keeps it. The execution error names the template and the place,
-- and neither the text before the wrapped message has a start of a warning nor the text behind it an
-- end.
pub cleanup_exec_error-required_value :
    (errorf_format : Text → Error) (e : Engine) (filename location before warn behind : Text)
    (val : Value)
    → ((t : Text) → absent b'%' t ≡ true → message (errorf_format t) ≡ t)
    → e.lint_mode ≡ false
    → (val ≡ null) ⊎ (val ≡ text [])
    → absent b'%' warn ≡ true
    → lacks_pair b':' b' ' location ≡ true
    → behind_first (codes "HELM_ERR_START") before ≡ none
    → behind_first (reverse (codes "HELM_ERR_END")) (reverse behind) ≡ none
    → Shows
        (required_value errorf_format e warn val)
        (λ x. cleanup_exec_error filename true (template_error location before (message x) behind))
        location
        warn
      × Shows
          (fail_template e warn)
          (λ x.
            cleanup_exec_error filename true (template_error location before (message x) behind))
          location
          warn
unfolding required_value fail_template
cleanup_exec_error-required_value errorf_format e filename location before warn behind val law lint
      missing plain place no_start no_end =
    let shown =
      cleanup_exec_error-warn_wrap filename location before warn behind place no_start no_end in
    let shows =
      λ (x : Text). cleanup_exec_error filename true (template_error location before x behind) in
    (
      (
        errorf_format (warn_wrap warn),
        rw (is_missing_lem val missing, lint) refl,
        ap shows (law (warn_wrap warn) (absent-warn_wrap warn plain)) ∙ shown,
      ),
      (
        errorf "%s" (warn_wrap warn ∷ []),
        rw lint refl,
        ap shows (message_text (warn_wrap warn)) ∙ shown,
      ),
    )
