-- ===== src/Helm/Sort/Laws.antt =====
-- `Less` is a strict total order, and the sort depends on the keys alone.
use talm.Base.Text.{Text}
use talm.Base.{◌∙◌, inl, inr, Bool-cases, ◌≡◌, refl, true, false, List, [], ◌∷◌, arith}
use mathlib.Core.List.{Permᴰ}
use mathlib.Core.List.Permᴰ
use mathlib.Core.Path.{ap₂}
use talm.Helm.Sort.Order.{DeeperFirst, less-DeeperFirst}
use talm.Helm.Sort.{text_lt, less, insert_key, sort_templates}

text_lt_irrefl : (a : Text) → text_lt a a ≡ false
unfolding text_lt
text_lt_irrefl [] = refl
text_lt_irrefl (c ∷ s) = ground (arith, text_lt_irrefl s)

text_lt_trans : (a b c : Text) → text_lt a b ≡ true → text_lt b c ≡ true → text_lt a c ≡ true
unfolding text_lt
text_lt_trans [] [] c h k = cc
text_lt_trans a (d ∷ t) [] h k = cc
text_lt_trans [] (d ∷ t) (e ∷ u) h k = refl
text_lt_trans (c ∷ s) [] u h k = cc
text_lt_trans (c ∷ s) (d ∷ t) (e ∷ u) h k = ground (arith, text_lt_trans s t u)

text_lt_total : (a b : Text) → text_lt a b ≡ false → text_lt b a ≡ false → a ≡ b
unfolding text_lt
text_lt_total [] [] h k = refl
text_lt_total [] (d ∷ t) h k = cc
text_lt_total (c ∷ s) [] h k = cc
text_lt_total (c ∷ s) (d ∷ t) h k = ground (arith, text_lt_total s t)

pub less_irrefl : (a : Text) → less a a ≡ false
unfolding less
less_irrefl a = ground (arith, text_lt_irrefl a)

pub less_trans : (a b c : Text) → less a b ≡ true → less b c ≡ true → less a c ≡ true
unfolding less
less_trans a b c h k = ground (arith, text_lt_trans a b c)

pub less_total : (a b : Text) → less a b ≡ false → less b a ≡ false → a ≡ b
unfolding less
less_total a b h k = ground (arith, text_lt_total a b)

insert_key_comm :
    (a b : Text) (keys : List Text)
    → insert_key a (insert_key b keys) ≡ insert_key b (insert_key a keys)
unfolding insert_key
insert_key_comm a b [] = ground (arith, less_trans a b a, less_irrefl a, less_total a b)
insert_key_comm a b (k ∷ keys) = ground (
  arith,
  less_trans a b a,
  less_irrefl a,
  less_total a b,
  less_trans a b k,
  less_trans b a k,
  less_trans k a b,
  less_total a k,
  less_total b k,
  insert_key_comm a b keys,
)

-- The sorted keys do not depend on the order in which the map of templates is visited.
pub sort_templates_perm : {xs ys : List Text} → Permᴰ xs ys → sort_templates xs ≡ sort_templates ys
unfolding sort_templates
sort_templates_perm Permᴰ.nil = refl
sort_templates_perm (Permᴰ.cons e p) = ap₂ insert_key e (sort_templates_perm p)
sort_templates_perm (Permᴰ.swap {a} {b} {l = l} e f) =
    insert_key_comm a b (sort_templates l)
    ∙ ap₂ (λ x y. insert_key x (insert_key y (sort_templates l))) f e
sort_templates_perm (Permᴰ.trans p q) = sort_templates_perm p ∙ sort_templates_perm q

-- Each key is followed by no key that `less` puts before it.
abbrev InOrder : List Text → Type 0
InOrder [] = Unit
InOrder (k ∷ []) = Unit
InOrder (k ∷ j ∷ keys) = (less k j ≡ false) × InOrder (j ∷ keys)

insert_key-InOrder : (k : Text) (keys : List Text) → InOrder keys → InOrder (insert_key k keys)
unfolding insert_key
insert_key-InOrder k [] h = tt
insert_key-InOrder k (j ∷ []) h = ground (arith, less_trans k j k, less_irrefl k)
insert_key-InOrder k (j ∷ i ∷ keys) h =
    ground (arith, less_trans k j k, less_irrefl k, insert_key-InOrder k (i ∷ keys) h.1)

insert_key-perm : (k : Text) (keys : List Text) → Permᴰ (insert_key k keys) (k ∷ keys)
unfolding insert_key
insert_key-perm k [] = Permᴰ.refl (k ∷ [])
insert_key-perm k (j ∷ keys) = elim (Bool-cases (less k j)) [
  | inl behind ↦
      rw behind (Permᴰ.trans (Permᴰ.cons refl (insert_key-perm k keys)) (Permᴰ.swap refl refl))
  | inr before ↦ rw before (Permᴰ.refl _)
]

sort_templates-InOrder : (keys : List Text) → InOrder (sort_templates keys)
unfolding sort_templates
sort_templates-InOrder [] = tt
sort_templates-InOrder (k ∷ keys) =
    insert_key-InOrder k (sort_templates keys) (sort_templates-InOrder keys)

pub sort_templates-perm : (keys : List Text) → Permᴰ (sort_templates keys) keys
unfolding sort_templates
sort_templates-perm [] = Permᴰ.nil
sort_templates-perm (k ∷ keys) =
    Permᴰ.trans (insert_key-perm k (sort_templates keys))
      (Permᴰ.cons refl (sort_templates-perm keys))

-- Each key is followed by one that is less deep, or as deep and not behind it in the alphabet.
abbrev pub IsSorted : List Text → Type 0
IsSorted [] = Unit
IsSorted (k ∷ []) = Unit
IsSorted (k ∷ j ∷ keys) = DeeperFirst k j × IsSorted (j ∷ keys)

InOrder-IsSorted : (keys : List Text) → InOrder keys → IsSorted keys
InOrder-IsSorted [] h = tt
InOrder-IsSorted (k ∷ []) h = tt
InOrder-IsSorted (k ∷ j ∷ keys) (h, hs) = (less-DeeperFirst k j h, InOrder-IsSorted (j ∷ keys) hs)

-- The sort returns the keys that it was given, paths with more slashes first, and in descending
-- lexicographic order among those with as many.
pub sort_templates-IsSorted :
    (keys : List Text) → IsSorted (sort_templates keys) × Permᴰ (sort_templates keys) keys
sort_templates-IsSorted keys =
    (InOrder-IsSorted (sort_templates keys) (sort_templates-InOrder keys), sort_templates-perm keys)
