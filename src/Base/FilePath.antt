-- ===== src/Base/FilePath.antt =====
-- What the program uses of packages path and path/filepath, on slash-separated paths.
use talm.Base.Text.{Text, codes, text_eq}
use talm.Base.Lists.{is_nil}
use talm.Base.Tests.{if◌then◌else◌, ◌==◌}
use mathlib.Core.List.{List, [], ◌∷◌, ◌++◌, reverse}
use mathlib.Core.Bool.{Bool, true, false, ◌||◌}
use Prim.Native.Nat.{ℕ}

-- `strings.Split` at one code point; the part read so far is `part`.
unfoldable pub split_from : ℕ → Text → Text → List Text
split_from sep part [] = part ∷ []
split_from sep part (c ∷ s) =
    if c == sep then part ∷ split_from sep [] s else split_from sep (part ++ c ∷ []) s

unfoldable pub split : ℕ → Text → List Text
unfolding split_from
split sep s = split_from sep [] s

unfoldable pub join_parts : ℕ → List Text → Text
join_parts sep [] = []
join_parts sep (p ∷ []) = p
join_parts sep (p ∷ q ∷ parts) = p ++ sep ∷ join_parts sep (q ∷ parts)

abbrev is_dot : Text → Bool
is_dot p = text_eq p (codes ".")

abbrev is_dots : Text → Bool
is_dots p = text_eq p (codes "..")

-- One element onto those kept, the last first. A `..` takes one away, stays where there is none to
-- take, and is dropped at the root.
abbrev clean_element : Bool → List Text → Text → List Text
clean_element rooted kept p =
    if is_nil p || is_dot p then kept else if is_dots p then back rooted kept p else p ∷ kept
  where
    back : Bool → List Text → Text → List Text
    back true [] p = []
    back false [] p = p ∷ []
    back rooted (k ∷ kept) p = if is_dots k then p ∷ k ∷ kept else kept

clean_elements : Bool → List Text → List Text → List Text
clean_elements rooted kept [] = reverse kept
clean_elements rooted kept (p ∷ parts) = clean_elements rooted (clean_element rooted kept p) parts

abbrev or_dot : Text → Text
or_dot [] = codes "."
or_dot (c ∷ s) = c ∷ s

-- `path.Clean`
unfoldable pub clean : Text → Text
unfolding split clean_elements join_parts text_eq
clean [] = codes "."
clean (c ∷ s) =
    let rooted = c == b'/' in
    let elements = join_parts b'/' (clean_elements rooted [] (split b'/' (c ∷ s))) in
    if rooted then b'/' ∷ elements else or_dot elements

abbrev without_empty : List Text → List Text
without_empty [] = []
without_empty ([] ∷ parts) = without_empty parts
without_empty ((c ∷ s) ∷ parts) = (c ∷ s) ∷ without_empty parts

abbrev clean_or_empty : List Text → Text
clean_or_empty [] = []
clean_or_empty (p ∷ parts) = clean (join_parts b'/' (p ∷ parts))

-- `filepath.Join`
unfoldable pub join : List Text → Text
unfolding clean join_parts
join parts = clean_or_empty (without_empty parts)

drop_slashes : Text → Text
drop_slashes [] = []
drop_slashes (c ∷ s) = if c == b'/' then drop_slashes s else c ∷ s

take_to_slash : Text → Text
take_to_slash [] = []
take_to_slash (c ∷ s) = let more = c ∷ take_to_slash s in if c == b'/' then [] else more

drop_to_slash : Text → Text
drop_to_slash [] = []
drop_to_slash (c ∷ s) = if c == b'/' then c ∷ s else drop_to_slash s

abbrev or_slash : Text → Text
or_slash [] = codes "/"
or_slash (c ∷ s) = c ∷ s

-- `path.Base`, from the end of the path
unfoldable pub base : Text → Text
unfolding drop_slashes take_to_slash
base [] = codes "."
base (c ∷ s) = or_slash (reverse (take_to_slash (drop_slashes (reverse (c ∷ s)))))

-- `filepath.Dir`
unfoldable pub dir : Text → Text
unfolding drop_to_slash clean
dir s = clean (reverse (drop_to_slash (reverse s)))
