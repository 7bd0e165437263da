-- ===== src/Base/Dict.antt =====
-- Go maps with string keys, as association lists with at most one entry for a key.
use mathlib.Core.Path.{◌≡◌, refl, sym, ◌∙◌, subst}
use mathlib.Core.List.{List, [], ◌∷◌}
use mathlib.Core.Option.{Option, none, some}
use native.Mathlib.Omega.{arith}
use mathlib.Core.Logic.{◌⊎◌, inl, inr}
use talm.Base.Tests.{Bool-cases, if◌then◌else◌}
use talm.Base.Text.{Text, text_eq}
use talm.Base.Text.Laws.{text_eq_iff, text_eq_refl}

abbrev pub Dict {ℓ} : Type ℓ → Type ℓ
Dict V = List (Text × V)

pub some_injective {ℓ} : {A : Type ℓ} {a b : A} → some a ≡ some b → a ≡ b
some_injective h = cc

module _ {ℓ} {V : Type ℓ} where
  -- `v, ok := m[k]`
  unfoldable pub lookup : Text → Dict V → Option V
  lookup k [] = none
  lookup k ((j, v) ∷ m) = if text_eq j k then some v else lookup k m

  -- `m[k] = v`
  unfoldable pub insert : Text → V → Dict V → Dict V
  insert k v [] = (k, v) ∷ []
  insert k v ((j, w) ∷ m) = if text_eq j k then (k, v) ∷ m else (j, w) ∷ insert k v m

  pub lookup-insert :
      (k j : Text) (v : V) (m : Dict V)
      → lookup j (insert k v m) ≡ (if text_eq k j then some v else lookup j m)
  unfolding lookup insert
  lookup-insert k j v [] = refl
  lookup-insert k j v ((i, w) ∷ m) =
      ground (arith, text_eq_iff k j, text_eq_iff i k, text_eq_iff i j, lookup-insert k j v m)

  pub lookup-insert_self : (k : Text) (v : V) (m : Dict V) → lookup k (insert k v m) ≡ some v
  lookup-insert_self k v m = simp (lookup-insert, text_eq_refl)

  -- What a key has behind an insertion was inserted or was there.
  pub lookup-insert-eq-some :
      (k j : Text) (v : V) (m : Dict V) {r : V}
      → lookup j (insert k v m) ≡ some r
      → ((k ≡ j) × (v ≡ r)) ⊎ (lookup j m ≡ some r)
  lookup-insert-eq-some k j v m {r} h = elim (Bool-cases (text_eq k j)) [
    | inl same ↦ inl (
      (text_eq_iff k j).0 same,
      some_injective (
          subst (λ b. (if b then some v else lookup j m) ≡ some r) same
            (sym (lookup-insert k j v m) ∙ h)),
    )
    | inr other ↦ inr (
        subst (λ b. (if b then some v else lookup j m) ≡ some r) other
          (sym (lookup-insert k j v m) ∙ h))
  ]

  -- No key has two entries.
  abbrev pub NodupKeys : Dict V → Type ℓ
  NodupKeys [] = Unit
  NodupKeys ((k, v) ∷ m) = (lookup k m ≡ none) × NodupKeys m
