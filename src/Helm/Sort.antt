-- ===== src/Helm/Sort.antt =====
-- sortTemplates and byPathLen of pkg/engine/helm/engine.go. The sort of package sort is an insertion
-- sort here.
pub mod Laws
pub mod Order
use talm.Base.Text.{count, Text}
use talm.Base.{Bool, true, false, ◌&&◌, ◌||◌, List, [], ◌∷◌, ltb, ◌==◌, if◌then◌else◌}

-- `strings.Compare(a, b) == -1`
unfoldable pub text_lt : Text → Text → Bool
text_lt [] [] = false
text_lt [] (d ∷ t) = true
text_lt (c ∷ s) [] = false
text_lt (c ∷ s) (d ∷ t) = ltb c d || (c == d && text_lt s t)

-- `byPathLen.Less`
unfoldable pub less : Text → Text → Bool
unfolding text_lt count
less a b =
    let ca = count b'/' a in let cb = count b'/' b in if ca == cb then text_lt a b else ltb ca cb

-- An item put before the first that it is not before in `sort.Reverse(byPathLen)`.
unfoldable pub insert_key : Text → List Text → List Text
insert_key k [] = k ∷ []
insert_key k (j ∷ keys) = if less k j then j ∷ insert_key k keys else k ∷ j ∷ keys

unfoldable pub sort_templates : List Text → List Text
unfolding insert_key less
sort_templates [] = []
sort_templates (k ∷ keys) = insert_key k (sort_templates keys)
