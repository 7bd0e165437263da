-- ===== src/Engine/Values/Laws.antt =====
-- What a merge holds, key by key and path by path.
use talm.Yaml.{fresh}
use talm.Base.Text.Laws.{text_eq_iff}
use talm.Base.Text.{text_eq, Text}
use talm.Base.{
  ◌⊎◌, Option-cases, subst, ap, inl, inr, Bool, true, false, List, [], ◌∷◌, Bool-cases, ◌≡◌, refl,
  Option, none, some, arith, if◌then◌else◌,
}
use talm.Engine.Values.{
  Value, table, Fields, end, field, get, put, table_of, merge_maps, merge_value,
}

pub get-put :
    (k j : Text) (v : Value) (m : Fields)
    → get j (put k v m) ≡ (if text_eq k j then some v else get j m)
unfolding get put
get-put k j v end = refl
get-put k j v (field i w m) =
    ground (arith, text_eq_iff k j, text_eq_iff i k, text_eq_iff i j, get-put k j v m)

-- No key has two fields.
abbrev pub NodupFields : Fields → Type 0
NodupFields end = Unit
NodupFields (field k v m) = (get k m ≡ none) × NodupFields m

-- The value of a key behind the merge, from those in the two maps.
abbrev pub merged : Option Value → Option Value → Option Value
merged old none = old
merged old (some v) = some (merge_value v old)

-- A key of the merge has the value of the second map, merged with that of the first if both are
-- maps; a key that the second map lacks keeps its value.
pub get-merge_maps :
    (a b : Fields) (k : Text) → NodupFields b → get k (merge_maps a b) ≡ merged (get k a) (get k b)
unfolding merge_maps get
get-merge_maps a end k h = refl
get-merge_maps a (field j v b) k (fresh, h) =
    rw (get-merge_maps (put j (merge_value v (get j a)) a) b k h, get-put)
      (ground (arith, text_eq_iff j k))

-- A map, and every map among its values, has no key twice, as Go's maps do not.
unfoldable mutual
  pub IsValue : Value → Type 0
  IsValue (table m) = IsMap m
  IsValue _ = Unit

  pub IsMap : Fields → Type 0
  IsMap end = Unit
  IsMap (field k v m) = (get k m ≡ none) × IsValue v × IsMap m

IsMap-NodupFields : (m : Fields) → IsMap m → NodupFields m
unfolding IsMap
IsMap-NodupFields end h = tt
IsMap-NodupFields (field k v m) h = (h.0, IsMap-NodupFields m h.2)

get-IsMap : (m n : Fields) (k : Text) → IsMap m → get k m ≡ some (table n) → IsMap n
unfolding IsMap get
get-IsMap end n k h e = cc
get-IsMap (field j v m) n k h e = elim (Bool-cases (text_eq j k)) [
  | inl here ↦ subst IsValue (some_injective (rw here at e)) h.1
  | inr other ↦ get-IsMap m n k h.2 (rw other at e)
]
  where
    some_injective : {x y : Value} → some x ≡ some y → x ≡ y
    some_injective p = cc

abbrev pub through : Option Fields → (Fields → Option Value) → Option Value
through none f = none
through (some n) f = f n

-- The value at a path of keys, each but the last that of a map.
abbrev pub get_path : Text → List Text → Fields → Option Value
get_path k [] m = get k m
get_path k (j ∷ path) m = through (table_of (get k m)) (get_path j path)

abbrev pub is_table : Value → Bool
is_table (table m) = true
is_table _ = false

merge_value_of_not_table :
    (v : Value) (old : Option Value) → is_table v ≡ false → merge_value v old ≡ v
unfolding merge_maps
merge_value_of_not_table (table m) old h = cc
merge_value_of_not_table _ old h = refl

table_of-eq-some : (o : Option Value) {m : Fields} → table_of o ≡ some m → o ≡ some (table m)
table_of-eq-some none h = cc
table_of-eq-some (some (table m)) h = ground arith
table_of-eq-some (some _) h = cc

get_path_step :
    (k j : Text) (path : List Text) (m : Fields) {v : Value}
    → get_path k (j ∷ path) m ≡ some v
    → (n : Fields) × (get k m ≡ some (table n)) × (get_path j path n ≡ some v)
get_path_step k j path m h = elim (Option-cases (table_of (get k m))) [
  | inl e ↦ cc (rw e at h)
  | inr (n, e) ↦ (n, table_of-eq-some (get k m) e, rw e at h)
]

-- A map over another value: the map itself, or its merge with the map that was there.
merge_value-table :
    (n : Fields) (old : Option Value)
    → (r : Fields) × (merge_value (table n) old ≡ table r)
      × ((r ≡ n) ⊎ ((x : Fields) × (r ≡ merge_maps x n)))
unfolding merge_maps
merge_value-table n old = elim (Option-cases (table_of old)) [
  | inl e ↦ (n, rw (e, merge_value), inl refl)
  | inr (x, e) ↦ (merge_maps x n, rw (e, merge_value), inr (x, refl))
]

merge_value_tables :
    (n x : Fields) → merge_value (table n) (some (table x)) ≡ table (merge_maps x n)
unfolding merge_maps
merge_value_tables n x = refl

-- An override wins: at every path where the second map has a value that is no map, the merge has
-- that value.
pub get_path-merge_maps_override :
    (path : List Text) (k : Text) (a b : Fields) (v : Value)
    → IsMap b
    → get_path k path b ≡ some v
    → is_table v ≡ false
    → get_path k path (merge_maps a b) ≡ some v
get_path-merge_maps_override [] k a b v hb e t =
    rw (get-merge_maps a b k (IsMap-NodupFields b hb), e)
      (ap some (merge_value_of_not_table v (get k a) t))
get_path-merge_maps_override (j ∷ path) k a b v hb e t =
    let (n, g, e') = get_path_step k j path b e in
    let (r, q, from) = merge_value-table n (get k a) in
    rw (get-merge_maps a b k (IsMap-NodupFields b hb), g, q)
      (elim from [
        | inl same ↦ rw same e'
        | inr (x, merge) ↦
            rw merge (get_path-merge_maps_override path j x n v (get-IsMap b n k hb g) e' t)
      ])

-- The second map says nothing of a path: at some key on the way it has no value, and the keys
-- before that one are those of maps.
abbrev pub Misses : Text → List Text → Fields → Type 0
Misses k [] m = get k m ≡ none
Misses k (j ∷ path) m =
    (get k m ≡ none) ⊎ ((n : Fields) × (get k m ≡ some (table n)) × Misses j path n)

-- What the overrides do not mention stays: a value of the first map at a path that the second map
-- says nothing of is in the merge.
pub get_path-merge_maps_kept :
    (path : List Text) (k : Text) (a b : Fields) (v : Value)
    → IsMap b
    → get_path k path a ≡ some v
    → Misses k path b
    → get_path k path (merge_maps a b) ≡ some v
get_path-merge_maps_kept [] k a b v hb e m = rw (get-merge_maps a b k (IsMap-NodupFields b hb), m) e
get_path-merge_maps_kept (j ∷ path) k a b v hb e (inl m) =
    rw (get-merge_maps a b k (IsMap-NodupFields b hb), m) e
get_path-merge_maps_kept (j ∷ path) k a b v hb e (inr (n, g, m)) =
    let (x, ga, e') = get_path_step k j path a e in
    rw (get-merge_maps a b k (IsMap-NodupFields b hb), g, ga, merge_value_tables)
      (get_path-merge_maps_kept path j x n v (get-IsMap b n k hb g) e' m)
