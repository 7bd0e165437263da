-- ===== src/Yaml/Diff/Keys.antt =====
-- What the diff of two mappings says of each key.
use talm.Base.Result.{ok_injective, >>=-eq-ok, ok}
use talm.Base.Dict.{Dict, lookup}
use talm.Base.Text.{Text}
use talm.Base.{
  subst, inl, inr, Option-cases, ◌≡◌, refl, true, Option, none, some, [], arith, if◌then◌else◌,
}
use talm.Yaml.{Node, node, Nodes, nil, cons, content, mapping, ◌⧺◌, Attributes, Remarks}
use talm.Yaml.Diff.{
  Comparer, compare_nodes, comparers, node_map, node_map_from, is_key, delete_node, delete_key,
  compare_key, pass, non_empty, compare_same_kind,
}
use talm.Yaml.Diff.Maps.{
  is_key_of_none, is_key_of_some, lookup-comparers, IsPlainMap, node_map_from-append,
}
use talm.Yaml.Diff.Pass.{overlay, report_of_pass, lookup-pass, IsPlainMap-pass}

-- The entries of a diff.
abbrev pub entries : Option Node → Dict Node
entries none = []
entries (some n) = node_map n

-- The report on a key, from its values in the original and in the modified mapping: none if neither
-- has it; the new value if it is added; a deletion if it is gone; else what the comparison of the
-- two values says.
abbrev pub Reports : Option Node → Option Node → Option Node → Type 0
Reports none none r = r ≡ none
Reports none (some new) r = r ≡ some new
Reports (some old) none r = r ≡ some (delete_node old)
Reports (some old) (some new) r = compare_nodes new old ≡ ok r

lookup-entries-non_empty :
    (c : Nodes) (key : Text)
    → lookup key (entries (non_empty mapping c)) ≡ lookup key (node_map_from [] c)
unfolding node_map node_map_from
lookup-entries-non_empty nil key = refl
lookup-entries-non_empty (cons n c) key = refl

pub compare_key-none :
    (om : Dict Node) (new : Node) (key : Text) (v : Node)
    → lookup key om ≡ none
    → lookup key (node_map new) ≡ some v
    → compare_key om (comparers [] (content new)) key ≡ ok (some v)
unfolding compare_key
compare_key-none om new key v o m = ground (arith, lookup-comparers new key)

pub compare_key-some :
    (om : Dict Node) (new : Node) (key : Text) (old v : Node)
    → lookup key om ≡ some old
    → lookup key (node_map new) ≡ some v
    → compare_key om (comparers [] (content new)) key ≡ compare_nodes v old
unfolding compare_key
compare_key-some om new key old v o m = ground (arith, lookup-comparers new key)

module _ (old new : Node) (changes deletes : Nodes) where
  abbrev om : Dict Node
  om = node_map old

  abbrev mm : Dict Comparer
  mm = comparers [] (content new)

  abbrev Passes : Type 0
  Passes =
      (pass (compare_key om mm) (content new) ≡ ok changes)
      × (pass (delete_key om (content new)) (content old) ≡ ok deletes)

  lookup-changes :
      Passes
      → (key : Text) (d e : Option Node)
      → (is_key key (content new) ≡ true → compare_key om mm key ≡ ok d)
      → (is_key key (content old) ≡ true → delete_key om (content new) key ≡ ok e)
      → let x = if is_key key (content new) then overlay d none else none in
        lookup key (node_map_from [] (changes ⧺ deletes))
        ≡ (if is_key key (content old) then overlay e x else x)
  unfolding lookup
  lookup-changes (p, q) key d e r s = rw (
    node_map_from-append changes deletes [] (IsPlainMap-pass _ (content new) p),
    lookup-pass _ (content old) (node_map_from [] changes) key e q s,
    lookup-pass _ (content new) [] key d p r,
  )

  module _ (passes : Passes) (po : IsPlainMap (content old)) (pn : IsPlainMap (content new)) where
    abbrev Goal : Text → Option Node → Option Node → Type 0
    Goal key o n = Reports o n (lookup key (node_map_from [] (changes ⧺ deletes)))

    Reports_absent :
        (key : Text) → lookup key om ≡ none → lookup key (node_map new) ≡ none → Goal key none none
    Reports_absent key ho hn =
        let io = is_key_of_none old key po ho in
        let jn = is_key_of_none new key pn hn in
        ground (arith, io, jn, lookup-changes passes key none none)

    Reports_added :
        (key : Text) (v : Node)
        → lookup key om ≡ none
        → lookup key (node_map new) ≡ some v
        → Goal key none (some v)
    Reports_added key v ho hn =
        let io = is_key_of_none old key po ho in
        let jn = is_key_of_some new key v hn in
        ground (
          arith,
          io,
          jn,
          lookup-changes passes key (some v) none (λ i. compare_key-none om new key v ho hn),
        )

    Reports_deleted :
        (key : Text) (o : Node)
        → lookup key om ≡ some o
        → lookup key (node_map new) ≡ none
        → Goal key (some o) none
    unfolding delete_key
    Reports_deleted key o ho hn =
        let io = is_key_of_some old key o ho in
        let jn = is_key_of_none new key pn hn in
        ground (arith, io, jn, ho, lookup-changes passes key none (some (delete_node o)))

    Reports_kept :
        (key : Text) (o v : Node)
        → lookup key om ≡ some o
        → lookup key (node_map new) ≡ some v
        → Goal key (some o) (some v)
    unfolding delete_key
    Reports_kept key o v ho hn =
        let jn = is_key_of_some new key v hn in
        let io = is_key_of_some old key o ho in
        let (d, r) = report_of_pass _ (content new) key passes.0 jn in
        let same = compare_key-some om new key o v ho hn in
        let found = lookup-changes passes key d none (λ i. r) (λ i. ground (arith, io, jn, ho)) in
        rw found (ground (arith, io, jn, r, same))

  -- The report on one key, with the maps of both sides plain.
  Reports-changes :
      Passes
      → IsPlainMap (content old)
      → IsPlainMap (content new)
      → (key : Text)
      → Reports
          (lookup key om)
          (lookup key (node_map new))
          (lookup key (node_map_from [] (changes ⧺ deletes)))
  Reports-changes passes po pn key = elim (Option-cases (lookup key om)) [
    | inl ho ↦ elim (Option-cases (lookup key (node_map new))) [
      | inl hn ↦ rw (ho, hn) (Reports_absent passes po pn key ho hn)
      | inr (v, hn) ↦ rw (ho, hn) (Reports_added passes po pn key v ho hn)
    ]
    | inr (o, ho) ↦ elim (Option-cases (lookup key (node_map new))) [
      | inl hn ↦ rw (ho, hn) (Reports_deleted passes po pn key o ho hn)
      | inr (v, hn) ↦ rw (ho, hn) (Reports_kept passes po pn key o v ho hn)
    ]
  ]

-- The diff of two mapping nodes with scalar keys, if it is computed without a fault, is for every key
-- what the two documents ask for: a key that is added has its new value, one that is gone has a
-- deletion, one that both have has the diff of the two values, and any other key has nothing.
pub compare_nodes-Reports :
    (v w : Text) (a b : Attributes) (r s : Remarks) (c e : Nodes) {d : Option Node}
    → IsPlainMap c
    → IsPlainMap e
    → let old = node mapping v a r c in
      let new = node mapping w b s e in
      compare_nodes new old ≡ ok d
      → (key : Text)
      → Reports (lookup key (node_map old)) (lookup key (node_map new)) (lookup key (entries d))
unfolding compare_nodes compare_same_kind
compare_nodes-Reports v w a b r s c e po pn h key =
    let old = node mapping v a r c in
    let new = node mapping w b s e in
    let (changes, p, h') = >>=-eq-ok (pass (compare_key (node_map old) (comparers [] e)) e) _ h in
    let (deletes, q, h'') = >>=-eq-ok (pass (delete_key (node_map old) e) c) _ h' in
    subst
      (λ (x : Option Node).
        Reports (lookup key (node_map old)) (lookup key (node_map new)) (lookup key (entries x)))
      (ok_injective _ _ h'')
      (rw lookup-entries-non_empty (Reports-changes old new changes deletes (p, q) po pn key))
