-- ===== src/Helm/Files/Laws.antt =====
-- What a glob selects, and the lines of a file.
use talm.Base.Text.{Text, text_eq}
use talm.Base.Text.Laws.{text_eq_iff, text_eq_refl}
use talm.Base.Dict.{lookup}
use talm.Base.FilePath.{split, split_from, join_parts}
use talm.Base.Result.{ok}
use mathlib.Core.Path.{ap₂}
use talm.Base.{
  subst, ==_iff, ap, ◌⊎◌, ◌==◌, ◌∙◌, sym, append-nil, append_assoc, ℕ, Bool, Bool-cases, inl, inr,
  ◌≡◌, refl, Option, none, some, List, [], ◌∷◌, ◌++◌, if◌then◌else◌,
}
use talm.Helm.Files.{Files, glob_with, glob, lines, drop_newline}

lookup-glob_with :
    (matches : Text → Bool) (name : Text) (f : Files)
    → lookup name (glob_with matches f) ≡ (if matches name then lookup name f else none)
unfolding glob_with lookup
lookup-glob_with matches name [] = elim (Bool-cases (matches name)) [ inl m ↦ rw m | inr m ↦ rw m ]
lookup-glob_with matches name ((j, contents) ∷ f) = elim (Bool-cases (text_eq j name)) [
  | inl same ↦
      subst
        (λ n.
          lookup n (glob_with matches ((j, contents) ∷ f))
          ≡ (if matches n then lookup n ((j, contents) ∷ f) else none))
        ((text_eq_iff j name).0 same)
        (elim (Bool-cases (matches j)) [
          | inl m ↦ rw (m, text_eq_refl)
          | inr m ↦ rw (m, lookup-glob_with matches j f, m)
        ])
  | inr other ↦ elim (Bool-cases (matches j)) [
    | inl m ↦ rw (m, other, lookup-glob_with matches name f)
    | inr m ↦ rw (m, other, lookup-glob_with matches name f)
  ]
]

-- A glob whose pattern compiles selects the files whose names match, with their data as it is.
pub lookup-glob :
    (compile : Text → List ℕ → Option (Text → Bool)) (pattern name : Text) (f : Files)
    → (matches : Text → Bool) → compile pattern (b'/' ∷ []) ≡ some matches
    → (g : Files) × (glob compile pattern f ≡ ok g)
      × (lookup name g ≡ (if matches name then lookup name f else none))
unfolding glob
lookup-glob compile pattern name f matches h =
    (glob_with matches f, rw (glob, h), lookup-glob_with matches name f)

split_from-cons :
    (sep : ℕ) (part s : Text) → (q : Text) × (qs : List Text) × (split_from sep part s ≡ q ∷ qs)
unfolding split_from
split_from-cons sep part [] = (part, [], refl)
split_from-cons sep part (c ∷ s) = elim (Bool-cases (c == sep)) [
  | inl e ↦ (part, split_from sep [] s, rw e)
  | inr o ↦ rw o (split_from-cons sep (part ++ c ∷ []) s)
]

join_parts-split_from :
    (sep : ℕ) (part s : Text) → join_parts sep (split_from sep part s) ≡ part ++ s
unfolding split_from join_parts
join_parts-split_from sep part [] = sym (append-nil part)
join_parts-split_from sep part (c ∷ s) = elim (Bool-cases (c == sep)) [
  | inl e ↦
      let (q, qs, found) = split_from-cons sep [] s in
      rw (e, found)
        (ap (λ t. part ++ t)
          (ap₂ (λ d t. d ∷ t) (sym ((==_iff c sep).0 e))
            (ap (join_parts sep) (sym found) ∙ join_parts-split_from sep [] s)))
  | inr o ↦ rw o (join_parts-split_from sep (part ++ c ∷ []) s ∙ append_assoc part (c ∷ []) s)
]

drop_newline-cases : (s : Text) → (s ≡ drop_newline s) ⊎ (s ≡ drop_newline s ++ 10 ∷ [])
unfolding drop_newline
drop_newline-cases [] = inl refl
drop_newline-cases (c ∷ []) = elim (Bool-cases (c == 10)) [
  | inl e ↦ inr (rw (e, (==_iff c 10).0 e))
  | inr o ↦ inl (rw o)
]
drop_newline-cases (c ∷ d ∷ s) = elim (drop_newline-cases (d ∷ s)) [
  | inl e ↦ inl (ap (◌∷◌ c) e)
  | inr e ↦ inr (ap (◌∷◌ c) e)
]

-- The lines of a file, put together again, are its text up to a newline at the end; an empty file
-- is excluded.
join_parts-lines :
    (path s : Text) (c : ℕ) (f : Files)
    → lookup path f ≡ some (some (c ∷ s))
    → (parts : List Text) × (lines path f ≡ ok parts)
      × ((c ∷ s ≡ join_parts 10 parts) ⊎ (c ∷ s ≡ join_parts 10 parts ++ 10 ∷ []))
unfolding lines split
join_parts-lines path s c f h =
    let joined = join_parts-split_from 10 [] (drop_newline (c ∷ s)) in
    (split 10 (drop_newline (c ∷ s)), rw h, rw joined (drop_newline-cases (c ∷ s)))
