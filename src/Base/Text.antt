-- ===== src/Base/Text.antt =====
-- Go strings as lists of code points, and what the program uses of package strings.
pub mod Laws
use Prim.Native.Char.{code}
use Prim.Native.Nat.{ℕ, ◌+◌}
use Prim.Native.String.{String}
use mathlib.Core.Bool.{Bool, true, false, ◌&&◌, ◌||◌}
use mathlib.Core.List.{List, [], ◌∷◌, ◌++◌, reverse}
use mathlib.Core.Option.{Option, none, some}
use talm.Base.Tests.{◌==◌, leb, if◌then◌else◌}

abbrev pub Text : Type 0
Text = List ℕ

abbrev pub codes : String → Text
codes String.[] = []
codes (String.◌∷◌ c s) = code c ∷ codes s

-- `==` on strings
unfoldable pub text_eq : Text → Text → Bool
text_eq [] [] = true
text_eq (x ∷ xs) (y ∷ ys) = x == y && text_eq xs ys
text_eq _ _ = false

-- The text behind a prefix, if it has that prefix.
unfoldable pub strip_prefix : Text → Text → Option Text
strip_prefix [] s = some s
strip_prefix (p ∷ ps) [] = none
strip_prefix (p ∷ ps) (c ∷ s) = if p == c then strip_prefix ps s else none

-- `strings.HasPrefix`
unfoldable pub has_prefix : Text → Text → Bool
unfolding strip_prefix
has_prefix s prefix = elim (strip_prefix prefix s) [ none ↦ false | some _ ↦ true ]

-- `strings.TrimPrefix`
unfoldable pub trim_prefix : Text → Text → Text
unfolding strip_prefix
trim_prefix s prefix = elim (strip_prefix prefix s) [ none ↦ s | some rest ↦ rest ]

-- `strings.Contains`
unfoldable pub contains : Text → Text → Bool
unfolding has_prefix
contains [] part = has_prefix [] part
contains (c ∷ s) part = has_prefix (c ∷ s) part || contains s part

-- `unicode.IsSpace`
unfoldable pub is_space : ℕ → Bool
is_space c =
    (leb 9 c && leb c 13)
    || c == 32
    || c == 0x85
    || c == 0xA0
    || c == 0x1680
    || (leb 0x2000 c && leb c 0x200A)
    || c == 0x2028
    || c == 0x2029
    || c == 0x202F
    || c == 0x205F
    || c == 0x3000

unfoldable pub trim_left : Text → Text
unfolding is_space
trim_left [] = []
trim_left (c ∷ s) = if is_space c then trim_left s else c ∷ s

unfoldable pub trim_right : Text → Text
unfolding trim_left
trim_right s = reverse (trim_left (reverse s))

-- `strings.TrimSpace`
unfoldable pub trim_space : Text → Text
unfolding trim_left trim_right
trim_space s = trim_right (trim_left s)

-- `strings.Split` at a separator of two code points: the part read so far is `part`.
unfoldable pub split₂_from : ℕ → ℕ → Text → Text → List Text
split₂_from a b part [] = part ∷ []
split₂_from a b part (c ∷ []) = (part ++ c ∷ []) ∷ []
split₂_from a b part (c ∷ d ∷ s) =
    let later = part ∷ split₂_from a b [] s in
    let on = split₂_from a b (part ++ c ∷ []) (d ∷ s) in if c == a && d == b then later else on

unfoldable pub split₂ : ℕ → ℕ → Text → List Text
unfolding split₂_from
split₂ a b s = split₂_from a b [] s

-- `strings.SplitN(s, sep, 2)` at a separator of one code point: what stands before and behind it.
unfoldable pub cut : ℕ → Text → Option (Text × Text)
cut sep [] = none
cut sep (c ∷ s) =
    if c == sep
    then some ([], s)
    else elim (cut sep s) [ none ↦ none | some (before, behind) ↦ some (c ∷ before, behind) ]

-- `strings.Count` of one code point
unfoldable pub count : ℕ → Text → ℕ
count sep [] = 0
count sep (c ∷ s) = (if c == sep then 1 else 0) + count sep s
