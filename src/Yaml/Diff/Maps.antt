-- ===== src/Yaml/Diff/Maps.antt =====
-- The maps that the passes look keys up in.
use talm.Base.Dict.{Dict, insert, lookup, lookup-insert}
use talm.Base.Text.{Text}
use talm.Base.{
  some, refl, ◌≢◌, ◌⊎◌, false, none, if◌then◌else◌, ◌≡◌, inl, inr, true, [], arith, Bool-cases,
}
use mathlib.Core.Option
use talm.Yaml.{Node, Nodes, nil, cons, value, content, is_scalar, ◌⧺◌}
use talm.Yaml.Diff.{Comparer, compare_nodes, comparers, node_map, node_map_from, is_key}

abbrev pub comparer : Node → Comparer
comparer v = record { target = v; compare = compare_nodes v }

abbrev pub Agrees : Dict Comparer → Dict Node → Type 0
Agrees cs m = (key : Text) → lookup key cs ≡ Option.map comparer (lookup key m)

Agrees-insert :
    (cs : Dict Comparer) (m : Dict Node) (key : Text) (v : Node)
    → Agrees cs m
    → Agrees (insert key (comparer v) cs) (insert key v m)
Agrees-insert cs m key v h j =
    ground (arith, lookup-insert key j (comparer v) cs, lookup-insert key j v m, h j)

-- The map of comparisons holds, for each key, that of the node which `nodeMap` holds.
comparers-Agrees :
    (c : Nodes) (cs : Dict Comparer) (m : Dict Node)
    → Agrees cs m
    → Agrees (comparers cs c) (node_map_from m c)
unfolding comparers node_map_from
comparers-Agrees nil cs m h = h
comparers-Agrees (cons k nil) cs m h = h
comparers-Agrees (cons k (cons v rest)) cs m h = elim (Bool-cases (is_scalar k)) [
  | inl plain ↦ rw plain (comparers-Agrees rest _ _ (Agrees-insert cs m (value k) v h))
  | inr complex ↦ rw complex (comparers-Agrees rest cs m h)
]

pub lookup-comparers :
    (n : Node) (key : Text)
    → lookup key (comparers [] (content n)) ≡ Option.map comparer (lookup key (node_map n))
unfolding node_map lookup
lookup-comparers n = comparers-Agrees (content n) [] [] (λ key. refl)

-- Pairs of a key and a value, each key a scalar: a decoded mapping without complex or alias keys.
abbrev pub IsPlainMap : Nodes → Type 0
IsPlainMap nil = Unit
IsPlainMap (cons k nil) = ⊥
IsPlainMap (cons k (cons v rest)) = (is_scalar k ≡ true) × IsPlainMap rest

pub node_map_from-append :
    (a b : Nodes) (m : Dict Node)
    → IsPlainMap a
    → node_map_from m (a ⧺ b) ≡ node_map_from (node_map_from m a) b
unfolding node_map_from
node_map_from-append nil b m h = refl
node_map_from-append (cons k nil) b m h = absurd h
node_map_from-append (cons k (cons v rest)) b m (s, h) = node_map_from-append rest b _ h

pub IsPlainMap-append : (a b : Nodes) → IsPlainMap a → IsPlainMap b → IsPlainMap (a ⧺ b)
IsPlainMap-append nil b h i = i
IsPlainMap-append (cons k nil) b h i = absurd h
IsPlainMap-append (cons k (cons v rest)) b (s, h) i = (s, IsPlainMap-append rest b h i)

-- A key that is not among those of the content is looked up in the map before it.
pub lookup-node_map_from_absent :
    (c : Nodes) (m : Dict Node) (key : Text)
    → is_key key c ≡ false
    → lookup key (node_map_from m c) ≡ lookup key m
unfolding node_map_from is_key
lookup-node_map_from_absent nil m key h = refl
lookup-node_map_from_absent (cons k nil) m key h = refl
lookup-node_map_from_absent (cons k (cons v rest)) m key h = ground (
  arith,
  lookup-node_map_from_absent rest (if is_scalar k then insert (value k) v m else m) key,
  lookup-insert (value k) key v m,
)

pub lookup-node_map_from-ne-none :
    (c : Nodes) (m : Dict Node) (key : Text)
    → IsPlainMap c
    → (is_key key c ≡ true) ⊎ (lookup key m ≢ none)
    → lookup key (node_map_from m c) ≢ none
unfolding node_map_from is_key
lookup-node_map_from-ne-none nil m key p h = ground arith
lookup-node_map_from-ne-none (cons k nil) m key p h = absurd p
lookup-node_map_from-ne-none (cons k (cons v rest)) m key (s, p) h = ground (
  arith,
  lookup-node_map_from-ne-none rest (insert (value k) v m) key p,
  lookup-insert (value k) key v m,
)

-- A plain mapping has a value for exactly the keys that stand in it.
pub is_key_of_none :
    (n : Node) (key : Text)
    → IsPlainMap (content n)
    → lookup key (node_map n) ≡ none
    → is_key key (content n) ≡ false
unfolding node_map
is_key_of_none n key p h = elim (Bool-cases (is_key key (content n))) [
  | inl i ↦ absurd (lookup-node_map_from-ne-none (content n) [] key p (inl i) h)
  | inr i ↦ i
]

pub is_key_of_some :
    (n : Node) (key : Text) (v : Node)
    → lookup key (node_map n) ≡ some v
    → is_key key (content n) ≡ true
unfolding node_map lookup
is_key_of_some n key v h = elim (Bool-cases (is_key key (content n))) [
  | inl i ↦ i
  | inr i ↦ cc (lookup-node_map_from_absent (content n) [] key i)
]
