-- ===== src/Helm/Functions/Warning.antt =====
-- A message between the marks of a warning, in the error of a failed template, in
-- pkg/engine/helm/engine.go.
use talm.Base.{
  append-nil, ℕ, ◌==◌, ◌≡◌, refl, sym, ap, ◌∙◌, Bool, Bool-cases, true, false, inl, inr, none, some,
  List, [], ◌∷◌, ◌++◌, arith, Option-cases, not, ◌&&◌, append_assoc,
}
use mathlib.Core.List.{reverse, reverse-append, reverse-reverse}
use talm.Base.Text.{Text, codes, strip_prefix, split₂, split₂_from}
use talm.Base.Text.Laws.{strip_prefix-append}
use talm.Helm.Render.{
  join_colons, cleanup_exec_error, exec_error, exec_error_of, behind_first, find_warning, reversed,
  warning_in, to_warning_end,
}
use talm.Base.Result.{errorf, message}
use talm.Helm.Functions.{warn_wrap}

-- The code point does not occur.
abbrev pub absent : ℕ → Text → Bool
absent c [] = true
absent c (d ∷ s) = not (d == c) && absent c s

-- A prefix that is not found in front of `s`, and in which `c` does not occur, is not found across the
-- end of `s` either when `c` follows.
strip_prefix-across :
    (p s rest : Text) (c : ℕ)
    → absent c p ≡ true
    → strip_prefix p s ≡ none
    → strip_prefix p (s ++ c ∷ rest) ≡ none
unfolding strip_prefix
strip_prefix-across [] s rest c lacks h = cc
strip_prefix-across (d ∷ p) [] rest c lacks h = ground arith
strip_prefix-across (d ∷ p) (x ∷ s) rest c lacks h = ground (arith, strip_prefix-across p s rest c)

strip_first :
    (c : ℕ) (p : Text) (x : ℕ) (s rest : Text)
    → absent c p ≡ true
    → strip_prefix (c ∷ p) (x ∷ s) ≡ none
    → strip_prefix (c ∷ p) (x ∷ (s ++ ((c ∷ p) ++ rest))) ≡ none
unfolding strip_prefix
strip_first c p x s rest lacks h = ground (arith, strip_prefix-across p s (p ++ rest) c lacks)

some-ne-none {ℓ} : {A : Type ℓ} {a : A} → some a ≡ none → ⊥
some-ne-none h = cc

behind_first-here :
    (p s : Text) (c : ℕ) {rest : Text}
    → strip_prefix p (c ∷ s) ≡ some rest
    → behind_first p (c ∷ s) ≡ some rest
unfolding behind_first
behind_first-here p s c h = rw (h, behind_first) refl

behind_first-later :
    (p s : Text) (c : ℕ) → strip_prefix p (c ∷ s) ≡ none → behind_first p (c ∷ s) ≡ behind_first p s
unfolding behind_first
behind_first-later p s c h = rw (h, behind_first) refl

-- A delimiter whose first code point occurs in it once is found first behind a text without it.
behind_first-append :
    (c : ℕ) (p s rest : Text)
    → absent c p ≡ true
    → behind_first (c ∷ p) s ≡ none
    → behind_first (c ∷ p) (s ++ ((c ∷ p) ++ rest)) ≡ some rest
behind_first-append c p [] rest lacks h =
    behind_first-here (c ∷ p) (p ++ rest) c (strip_prefix-append (c ∷ p) rest)
behind_first-append c p (x ∷ s) rest lacks h = elim (Option-cases (strip_prefix (c ∷ p) (x ∷ s))) [
  | inl e ↦
      behind_first-later (c ∷ p) (s ++ ((c ∷ p) ++ rest)) x (strip_first c p x s rest lacks e)
      ∙ behind_first-append c p s rest lacks (sym (behind_first-later (c ∷ p) s x e) ∙ h)
  | inr (found, e) ↦ absurd (some-ne-none (sym (behind_first-here (c ∷ p) s x e) ∙ h))
]

to_warning_end-append :
    (warn behind : Text)
    → behind_first (reverse (codes "HELM_ERR_END")) (reverse behind) ≡ none
    → to_warning_end (warn ++ (codes "HELM_ERR_END" ++ behind)) ≡ some warn
to_warning_end-append warn behind no_end =
    ap (λ t. reversed (behind_first (codes "DNE_RRE_MLEH") t))
      (reverse-append warn (codes "HELM_ERR_END" ++ behind)
        ∙ ap (λ t. t ++ reverse warn) (reverse-append (codes "HELM_ERR_END") behind)
        ∙ append_assoc (reverse behind) (codes "DNE_RRE_MLEH") (reverse warn))
    ∙ ap reversed
        (behind_first-append b'D' (codes "NE_RRE_MLEH") (reverse behind) (reverse warn) refl no_end)
    ∙ ap some (reverse-reverse warn)

-- A warning that is wrapped is found again, when the text before it has no start of a warning and the
-- text behind it has no end of one.
pub find_warning-warn_wrap :
    (before warn behind : Text)
    → behind_first (codes "HELM_ERR_START") before ≡ none
    → behind_first (reverse (codes "HELM_ERR_END")) (reverse behind) ≡ none
    → find_warning (before ++ (warn_wrap warn ++ behind)) ≡ some warn
unfolding find_warning warn_wrap
find_warning-warn_wrap before warn behind no_start no_end =
    ap (λ w. warning_in (behind_first (codes "HELM_ERR_START") (before ++ w)))
      (ap (λ w. codes "HELM_ERR_START" ++ w) (append_assoc warn (codes "HELM_ERR_END") behind))
    ∙ ap warning_in (
        behind_first-append b'H' (codes "ELM_ERR_START") before
          (warn ++ (codes "HELM_ERR_END" ++ behind)) refl no_start)
    ∙ to_warning_end-append warn behind no_end

-- No occurrence of the two code points.
abbrev pub lacks_pair : ℕ → ℕ → Text → Bool
lacks_pair a b [] = true
lacks_pair a b (c ∷ []) = true
lacks_pair a b (c ∷ d ∷ s) = not (c == a && d == b) && lacks_pair a b (d ∷ s)

-- What stands before the first separator is the first part.
split₂_from-append :
    (a b : ℕ) (part s rest : Text)
    → (a == b) ≡ false
    → lacks_pair a b s ≡ true
    → split₂_from a b part (s ++ a ∷ b ∷ rest) ≡ (part ++ s) ∷ split₂ a b rest
unfolding split₂_from split₂
split₂_from-append a b part [] rest differ lacks = ground (arith, append-nil part)
split₂_from-append a b part (c ∷ []) rest differ lacks = ground arith
split₂_from-append a b part (c ∷ d ∷ s) rest differ lacks = ground (
  arith,
  split₂_from-append a b (part ++ c ∷ []) (d ∷ s) rest differ,
  append_assoc part (c ∷ []) (d ∷ s),
)

abbrev rejoined : List Text → Text
rejoined [] = []
rejoined (t ∷ ts) = join_colons t ts

split₂_from_cons :
    (a b : ℕ) (part s : Text) → (u : Text) × (us : List Text) × (split₂_from a b part s ≡ u ∷ us)
unfolding split₂_from
split₂_from_cons a b part [] = (part, [], refl)
split₂_from_cons a b part (c ∷ []) = (part ++ c ∷ [], [], refl)
split₂_from_cons a b part (c ∷ d ∷ s) = elim (Bool-cases (c == a && d == b)) [
  | inl at ↦ (part, split₂_from a b [] s, rw at refl)
  | inr on ↦ let (u, us, e) = split₂_from_cons a b (part ++ c ∷ []) (d ∷ s) in (u, us, rw on e)
]

rejoined_cons :
    (t : Text) (ts : List Text)
    → (u : Text) × (us : List Text) × (ts ≡ u ∷ us)
    → join_colons t ts ≡ t ++ b':' ∷ b' ' ∷ rejoined ts
rejoined_cons t [] (u, us, e) = cc
rejoined_cons t (v ∷ ts) h = refl

separator_codes : (c d : ℕ) → (c == b':' && d == b' ') ≡ true → (c ≡ b':') × (d ≡ b' ')
separator_codes c d h = ground arith

rejoined-split₂_from : (part s : Text) → rejoined (split₂_from b':' b' ' part s) ≡ part ++ s
unfolding split₂_from
rejoined-split₂_from part [] = sym (append-nil part)
rejoined-split₂_from part (c ∷ []) = refl
rejoined-split₂_from part (c ∷ d ∷ s) = elim (Bool-cases (c == b':' && d == b' ')) [
  | inl at ↦
      let (e, f) = separator_codes c d at in
      rw at (
        rejoined_cons part (split₂_from b':' b' ' [] s) (split₂_from_cons b':' b' ' [] s)
        ∙ ap (λ r. part ++ b':' ∷ b' ' ∷ r) (rejoined-split₂_from [] s)
        ∙ ap (λ x. part ++ x ∷ b' ' ∷ s) (sym e)
        ∙ ap (λ x. part ++ c ∷ x ∷ s) (sym f))
  | inr on ↦
      rw on (rejoined-split₂_from (part ++ c ∷ []) (d ∷ s) ∙ append_assoc part (c ∷ []) (d ∷ s))
]

exec_error_of_tokens :
    (filename message t location : Text) (tokens : List Text)
    → (u : Text) × (us : List Text) × (tokens ≡ u ∷ us)
    → exec_error_of filename message (t ∷ location ∷ tokens)
      ≡ exec_error filename message location (find_warning (rejoined tokens))
exec_error_of_tokens filename message t location [] (u, us, e) = cc
exec_error_of_tokens filename message t location (v ∷ tokens) h = refl

-- The text of an ExecError: the template, the place, and what was wrong there.
abbrev pub template_error : Text → Text → Text → Text → Text
template_error location before cause behind =
    codes "template" ++ (b':' ∷ b' ' ∷ (location ++ (b':' ∷ b' ' ∷ (before ++ (cause ++ behind)))))

cleanup_exec_error-tokens :
    (filename location third : Text)
    → lacks_pair b':' b' ' location ≡ true
    → cleanup_exec_error filename true
        (codes "template" ++ (b':' ∷ b' ' ∷ (location ++ (b':' ∷ b' ' ∷ third))))
      ≡ exec_error filename
          (codes "template" ++ (b':' ∷ b' ' ∷ (location ++ (b':' ∷ b' ' ∷ third))))
          location
          (find_warning third)
unfolding cleanup_exec_error split₂
cleanup_exec_error-tokens filename location third place =
    let message = codes "template" ++ (b':' ∷ b' ' ∷ (location ++ (b':' ∷ b' ' ∷ third))) in
    ap (exec_error_of filename message) (
      split₂_from-append b':' b' ' [] (codes "template") (location ++ (b':' ∷ b' ' ∷ third)) refl
        refl
      ∙ ap (λ ts. codes "template" ∷ ts)
          (split₂_from-append b':' b' ' [] location third refl place))
    ∙ exec_error_of_tokens filename message (codes "template") location (split₂ b':' b' ' third)
        (split₂_from_cons b':' b' ' [] third)
    ∙ ap (λ w. exec_error filename message location (find_warning w))
        (rejoined-split₂_from [] third)

pub cleanup_exec_error-warn_wrap :
    (filename location before warn behind : Text)
    → lacks_pair b':' b' ' location ≡ true
    → behind_first (codes "HELM_ERR_START") before ≡ none
    → behind_first (reverse (codes "HELM_ERR_END")) (reverse behind) ≡ none
    → cleanup_exec_error filename true (template_error location before (warn_wrap warn) behind)
      ≡ errorf "execution error at (%s): %s" (location ∷ warn ∷ [])
cleanup_exec_error-warn_wrap filename location before warn behind place no_start no_end =
    cleanup_exec_error-tokens filename location (before ++ (warn_wrap warn ++ behind)) place
    ∙ ap (exec_error filename _ location)
        (find_warning-warn_wrap before warn behind no_start no_end)
