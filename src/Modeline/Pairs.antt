-- ===== src/Modeline/Pairs.antt =====
-- The separator `, ` in the text of a modeline: where a text holds it, and how a text splits there.
use talm.Base.{
  append-nil, ℕ, Bool, true, false, ◌&&◌, Option, none, some, List, [], ◌∷◌, ◌++◌, if◌then◌else◌,
  ◌==◌, ◌≡◌, refl, arith, append_assoc, All, ◌≢◌,
}
use talm.Base.Text.{Text, split₂_from}
use talm.Json.{Slice, items, escape_char, escape_onto, marshal_items, marshal}

-- Reads a text behind a comma (`true`) or not: `none` if a comma and a space stand together, else
-- whether the text leaves a comma behind.
abbrev pub after : Bool → ℕ → Option Bool
after comma c = if comma && c == b' ' then none else some (c == b',')

unfoldable pub read_pairs : Bool → Text → Option Bool
read_pairs comma [] = some comma
read_pairs comma (c ∷ s) = elim (after comma c) [ none ↦ none | some b ↦ read_pairs b s ]

pub read_pairs-append :
    (comma b : Bool) (s t : Text)
    → read_pairs comma s ≡ some b
    → read_pairs comma (s ++ t) ≡ read_pairs b t
unfolding read_pairs
read_pairs-append comma b [] t h = ground arith
read_pairs-append comma b (c ∷ s) t h = ground (arith, read_pairs-append (c == b',') b s t)

-- A part that holds no separator is split off.
pub split₂_from-part :
    (s part rest : Text)
    → read_pairs false s ≡ some false
    → split₂_from b',' b' ' part (s ++ b',' ∷ b' ' ∷ rest)
      ≡ (part ++ s) ∷ split₂_from b',' b' ' [] rest
unfolding split₂_from read_pairs
split₂_from-part [] part rest h = rw append-nil
split₂_from-part (c ∷ []) part rest h = ground arith
split₂_from-part (c ∷ d ∷ s) part rest h =
    ground
      (arith, split₂_from-part (d ∷ s) (part ++ c ∷ []) rest, append_assoc part (c ∷ []) (d ∷ s))

-- With no separator left, what is left is one part.
pub split₂_from-last :
    (s part : Text)
    → read_pairs false s ≡ some false
    → split₂_from b',' b' ' part s ≡ (part ++ s) ∷ []
unfolding split₂_from read_pairs
split₂_from-last [] part h = rw append-nil
split₂_from-last (c ∷ []) part h = refl
split₂_from-last (c ∷ d ∷ s) part h =
    ground (arith, split₂_from-last (d ∷ s) (part ++ c ∷ []), append_assoc part (c ∷ []) (d ∷ s))

-- No comma of the text stands before a space.
abbrev pub LacksPairs : Text → Type 0
LacksPairs s = read_pairs false s ≢ none

read_pairs-escape_char :
    (comma : Bool) (c : ℕ) (t : Text)
    → read_pairs comma (escape_char c ++ t)
      ≡ (if comma && c == b' ' then none else read_pairs (c == b',') t)
unfolding read_pairs escape_char
read_pairs-escape_char comma c t = ground arith

read_pairs-escape_onto :
    (comma : Bool) (s t : Text)
    → read_pairs comma s ≢ none
    → read_pairs comma (escape_onto s (34 ∷ t)) ≡ read_pairs false t
unfolding read_pairs escape_onto
read_pairs-escape_onto comma [] t h = ground arith
read_pairs-escape_onto comma (c ∷ s) t h =
    rw read_pairs-escape_char (ground (arith, read_pairs-escape_onto (c == b',') s t))

read_pairs-marshal_items :
    (comma : Bool) (xs : List Text)
    → All LacksPairs xs
    → read_pairs comma (marshal_items xs) ≡ some false
unfolding read_pairs marshal_items
read_pairs-marshal_items comma [] h = ground arith
read_pairs-marshal_items comma (x ∷ []) (h, _) =
    ground (arith, read_pairs-escape_onto false x (b']' ∷ []) h)
read_pairs-marshal_items comma (x ∷ y ∷ xs) (h, hs) = ground (
  arith,
  read_pairs-escape_onto false x (b',' ∷ marshal_items (y ∷ xs)) h,
  read_pairs-marshal_items true (y ∷ xs) hs,
)

-- A marshalled slice holds the separator only if an item does.
pub read_pairs-marshal :
    (v : Slice) → All LacksPairs (items v) → read_pairs false (marshal v) ≡ some false
unfolding read_pairs marshal
read_pairs-marshal none h = refl
read_pairs-marshal (some xs) h = read_pairs-marshal_items false xs h
