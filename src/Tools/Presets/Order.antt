-- ===== src/Tools/Presets/Order.antt =====
-- The sort of the names in tools/generate_presets.go.
use talm.Base.{refl, Bool-cases, inl, inr, List, [], ◌∷◌, All}
use mathlib.Core.List.{Permᴰ}
use mathlib.Core.List.Permᴰ
use talm.Base.Text.{Text}
use talm.Helm.Sort.{text_lt}
use talm.Helm.Sort.Order.{IsAscending, text_lt-LexLe, text_ge-LexLe}
use talm.Tools.Presets.{sort_strings, insert_string}

insert_string-IsAscending :
    (k : Text) (keys : List Text) → IsAscending keys → IsAscending (insert_string k keys)
unfolding insert_string
insert_string-IsAscending k [] h = tt
insert_string-IsAscending k (j ∷ []) h = elim (Bool-cases (text_lt j k)) [
  | inl t ↦ rw t (text_lt-LexLe j k t, tt)
  | inr t ↦ rw t (text_ge-LexLe j k t, tt)
]
insert_string-IsAscending k (j ∷ i ∷ keys) (h, hs) =
    let rest = insert_string-IsAscending k (i ∷ keys) hs in
    elim (Bool-cases (text_lt j k)) [
      | inr t ↦ rw t (text_ge-LexLe j k t, (h, hs))
      | inl t ↦ elim (Bool-cases (text_lt i k)) [
        | inl u ↦ rw (t, u) (h, rw u at rest)
        | inr u ↦ rw (t, u) (text_lt-LexLe j k t, rw u at rest)
      ]
    ]

pub sort_strings-IsAscending : (keys : List Text) → IsAscending (sort_strings keys)
unfolding sort_strings
sort_strings-IsAscending [] = tt
sort_strings-IsAscending (k ∷ keys) =
    insert_string-IsAscending k (sort_strings keys) (sort_strings-IsAscending keys)

insert_string-perm : (k : Text) (keys : List Text) → Permᴰ (insert_string k keys) (k ∷ keys)
unfolding insert_string
insert_string-perm k [] = Permᴰ.refl (k ∷ [])
insert_string-perm k (j ∷ keys) = elim (Bool-cases (text_lt j k)) [
  | inl t ↦ rw t (Permᴰ.trans (Permᴰ.cons refl (insert_string-perm k keys)) (Permᴰ.swap refl refl))
  | inr t ↦ rw t (Permᴰ.refl _)
]

pub sort_strings-perm : (keys : List Text) → Permᴰ (sort_strings keys) keys
unfolding sort_strings
sort_strings-perm [] = Permᴰ.nil
sort_strings-perm (k ∷ keys) =
    Permᴰ.trans (insert_string-perm k (sort_strings keys))
      (Permᴰ.cons refl (sort_strings-perm keys))

All-insert_string :
    (P : Text → Type 0) (k : Text) (keys : List Text)
    → P k
    → All P keys
    → All P (insert_string k keys)
unfolding insert_string
All-insert_string P k [] h hs = (h, tt)
All-insert_string P k (j ∷ keys) h (g, gs) = elim (Bool-cases (text_lt j k)) [
  | inl t ↦ rw t (g, All-insert_string P k keys h gs)
  | inr t ↦ rw t (h, (g, gs))
]

pub All-sort_strings :
    (P : Text → Type 0) (keys : List Text) → All P keys → All P (sort_strings keys)
unfolding sort_strings
All-sort_strings P [] h = tt
All-sort_strings P (k ∷ keys) (h, hs) =
    All-insert_string P k (sort_strings keys) h (All-sort_strings P keys hs)
