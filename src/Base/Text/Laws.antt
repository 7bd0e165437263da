-- ===== src/Base/Text/Laws.antt =====
-- Laws of the functions on texts.
use mathlib.Core.Path.{sym, ap, ◌∙◌, ◌≡◌, refl}
use mathlib.Core.Logic.{◌↔◌}
use mathlib.Core.Bool.{false, not, Bool, true}
use mathlib.Core.List.{
  ◌++◌, append-nil, append_assoc, reverse, reverse-append, reverse-reverse, [], ◌∷◌, ◌++◌,
}
use mathlib.Core.Option.{some}
use native.Mathlib.Omega.{arith}
use Prim.Native.Nat.{ℕ}
use talm.Base.Text.{Text, text_eq, is_space, trim_left, trim_right, trim_space, strip_prefix}

pub text_eq_iff : (s t : Text) → (text_eq s t ≡ true) ↔ (s ≡ t)
unfolding text_eq
text_eq_iff (x ∷ s) (y ∷ t) = ground (arith, text_eq_iff s t)
text_eq_iff _ _ = ground arith

pub text_eq_refl : (s : Text) → text_eq s s ≡ true
text_eq_refl s = (text_eq_iff s s).1 refl

pub strip_prefix-append : (p s : Text) → strip_prefix p (p ++ s) ≡ some s
unfolding strip_prefix
strip_prefix-append [] s = refl
strip_prefix-append (c ∷ p) s = ground (arith, strip_prefix-append p s)

-- The text is not empty, and its last code point is no space.
abbrev pub ends_solid : Text → Bool
ends_solid [] = false
ends_solid (c ∷ []) = not (is_space c)
ends_solid (c ∷ d ∷ s) = ends_solid (d ∷ s)

pub ends_solid-append : (s t : Text) → ends_solid t ≡ true → ends_solid (s ++ t) ≡ true
ends_solid-append [] t h = h
ends_solid-append (c ∷ []) (d ∷ t) h = h
ends_solid-append (c ∷ []) [] h = cc
ends_solid-append (c ∷ d ∷ s) t h = ends_solid-append (d ∷ s) t h

trim_left-reverse : (s u : Text) → ends_solid s ≡ true → trim_left (reverse s ++ u) ≡ reverse s ++ u
unfolding trim_left
trim_left-reverse [] u h = cc
trim_left-reverse (c ∷ []) u h = ground arith
trim_left-reverse (c ∷ d ∷ s) u h =
    rw (reverse-append (c ∷ []) (d ∷ s), append_assoc (reverse (d ∷ s)) (c ∷ []) u)
      (trim_left-reverse (d ∷ s) (c ∷ u) h)

pub trim_right_solid : (s : Text) → ends_solid s ≡ true → trim_right s ≡ s
unfolding trim_right
trim_right_solid s h =
    ap reverse (
      ap trim_left (sym (append-nil (reverse s)))
      ∙ trim_left-reverse s [] h
      ∙ append-nil (reverse s))
    ∙ reverse-reverse s

-- A text with no space at either end is left as it is.
pub trim_space_solid :
    (c : ℕ) (s : Text) → is_space c ≡ false → ends_solid (c ∷ s) ≡ true → trim_space (c ∷ s) ≡ c ∷ s
unfolding trim_space trim_left
trim_space_solid c s h k = rw h (trim_right_solid (c ∷ s) k)
