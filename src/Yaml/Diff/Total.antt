-- ===== src/Yaml/Diff/Total.antt =====
-- The diff of documents with scalar keys never faults, and a document does not differ from itself.
use talm.Base.Text.Laws.{text_eq_refl}
use talm.Base.Result.{ok_of_is_ok, ok}
use talm.Base.Dict.{insert, lookup-insert, lookup, Dict}
use talm.Base.Text.{text_eq, Text}
use talm.Base.{
  refl, subst, ◌∙◌, inl, inr, Option, none, arith, Option-cases, Bool-cases, ◌≡◌, true, some, [],
}
use talm.Yaml.{mapping, sequence, scalar, Node, node, Nodes, nil, cons, value, content, is_scalar}
use talm.Yaml.Diff.{
  Comparison, compare_nodes, comparers, node_map, node_map_from, is_key, delete_node, delete_key,
  compare_key, pass, compare_same_kind,
}
use talm.Yaml.Diff.Maps.{IsPlainMap, is_key_of_none}
use talm.Yaml.Diff.Keys.{compare_key-none, compare_key-some}
use talm.Yaml.Diff.Pass.{pass_total}
use talm.Yaml.Diff.Sequences.{new_items-Known, Known-refl}

-- A mapping has pairs with scalar keys, and so have the mappings below it that are reached by keys.
unfoldable mutual
  pub IsPlain : Node → Type 0
  IsPlain (node mapping v a r c) = IsPlainContent c
  IsPlain (node _ v a r c) = Unit

  pub IsPlainContent : Nodes → Type 0
  IsPlainContent nil = Unit
  IsPlainContent (cons k nil) = ⊥
  IsPlainContent (cons k (cons v rest)) = (is_scalar k ≡ true) × IsPlain v × IsPlainContent rest

-- A predicate on the values of a mapping.
abbrev pub AllValues : (Node → Type 0) → Nodes → Type 0
AllValues P nil = Unit
AllValues P (cons k nil) = Unit
AllValues P (cons k (cons v rest)) = P v × AllValues P rest

module _ (P : Node → Type 0) where
  lookup-insert_value :
      (k key : Text) (v : Node) (m : Dict Node)
      → ((n : Node) → lookup key m ≡ some n → P n)
      → P v
      → (n : Node) → lookup key (insert k v m) ≡ some n
      → P n
  lookup-insert_value k key v m hm h n e = elim (Bool-cases (text_eq k key)) [
    | inl here ↦ subst P (ground (arith, lookup-insert k key v m)) h
    | inr other ↦ hm n (ground (arith, lookup-insert k key v m))
  ]

  lookup-AllValues_from :
      (c : Nodes) (m : Dict Node) (key : Text)
      → ((n : Node) → lookup key m ≡ some n → P n)
      → AllValues P c
      → (n : Node) → lookup key (node_map_from m c) ≡ some n
      → P n
  unfolding node_map_from
  lookup-AllValues_from nil m key hm h n e = hm n e
  lookup-AllValues_from (cons k nil) m key hm h n e = hm n e
  lookup-AllValues_from (cons k (cons v rest)) m key hm (h, hs) n e =
      elim (Bool-cases (is_scalar k)) [
        | inl plain ↦
            lookup-AllValues_from rest (insert (value k) v m) key
              (lookup-insert_value (value k) key v m hm h) hs n (rw plain at e)
        | inr complex ↦ lookup-AllValues_from rest m key hm hs n (rw complex at e)
      ]

  pub lookup-AllValues :
      (c : Node) (key : Text) (n : Node)
      → AllValues P (content c)
      → lookup key (node_map c) ≡ some n
      → P n
  unfolding node_map lookup
  lookup-AllValues c key n h e = lookup-AllValues_from (content c) [] key (λ n e. cc) h n e

IsPlainContent-IsPlainMap : (c : Nodes) → IsPlainContent c → IsPlainMap c
unfolding IsPlain
IsPlainContent-IsPlainMap nil h = tt
IsPlainContent-IsPlainMap (cons k nil) h = h
IsPlainContent-IsPlainMap (cons k (cons v rest)) h = (h.0, IsPlainContent-IsPlainMap rest h.2)

IsPlainContent-AllValues : (c : Nodes) → IsPlainContent c → AllValues IsPlain c
unfolding IsPlain
IsPlainContent-AllValues nil h = tt
IsPlainContent-AllValues (cons k nil) h = tt
IsPlainContent-AllValues (cons k (cons v rest)) h = (h.1, IsPlainContent-AllValues rest h.2)

abbrev Total : Node → Type 0
Total new = (old : Node) → IsPlain old → (d : Option Node) × (compare_nodes new old ≡ ok d)

module _ (old new : Node) (po : IsPlainMap (content old)) (pn : IsPlainMap (content new)) where
  -- The first pass, if the values that both mappings have can be compared.
  compare_pass-Total :
      AllValues Total (content new)
      → AllValues IsPlain (content old)
      → (c : Nodes) × (pass (compare_key (node_map old) (comparers [] (content new))) (content new)
          ≡ ok c)
  compare_pass-Total tn to = pass_total _ (content new) λ key i.
      elim (Option-cases (lookup key (node_map new))) [
        | inl hn ↦ cc (is_key_of_none new key pn hn)
        | inr (v, hn) ↦ elim (Option-cases (lookup key (node_map old))) [
          | inl ho ↦ (some v, compare_key-none (node_map old) new key v ho hn)
          | inr (o, ho) ↦
              let (d, e) =
                lookup-AllValues Total new key v tn hn o
                  (lookup-AllValues IsPlain old key o to ho) in
              (d, compare_key-some (node_map old) new key o v ho hn ∙ e)
        ]
      ]

  delete_pass_total :
      (c : Nodes) × (pass (delete_key (node_map old) (content new)) (content old) ≡ ok c)
  unfolding delete_key
  delete_pass_total = pass_total _ (content old) λ key i.
      elim (Option-cases (lookup key (node_map old))) [
        | inl ho ↦ cc (is_key_of_none old key po ho)
        | inr (o, ho) ↦ elim (Bool-cases (is_key key (content new))) [
          | inl kept ↦ (none, ground arith)
          | inr gone ↦ (some (delete_node o), ground arith)
        ]
      ]

mutual
  unfolding compare_nodes compare_same_kind IsPlain

  compare_nodes-Total : (new : Node) → IsPlain new → Total new
  compare_nodes-Total (node mapping v a r c) p (node mapping w b s e) q =
      let old = node mapping w b s e in
      let new = node mapping v a r c in
      let po = IsPlainContent-IsPlainMap e q in
      let pn = IsPlainContent-IsPlainMap c p in
      let (changes, x) =
        compare_pass-Total old new po pn (content-Total c p) (IsPlainContent-AllValues e q) in
      let (deletes, y) = delete_pass_total old new po pn in ok_of_is_ok _ (rw (x, y))
  compare_nodes-Total (node _ v a r c) p old q = ok_of_is_ok _ (ground arith)

  content-Total : (c : Nodes) → IsPlainContent c → AllValues Total c
  content-Total nil p = tt
  content-Total (cons k nil) p = tt
  content-Total (cons k (cons v rest)) p = (compare_nodes-Total v p.1, content-Total rest p.2)

-- Documents whose mappings have scalar keys are compared without a fault.
pub compare_nodes_total :
    (old new : Node)
    → IsPlain old
    → IsPlain new
    → (d : Option Node) × (compare_nodes new old ≡ ok d)
compare_nodes_total old new po pn = compare_nodes-Total new pn old po

pass-nil :
    (report : Text → Comparison) (c : Nodes)
    → ((key : Text) → is_key key c ≡ true → report key ≡ ok none)
    → pass report c ≡ ok nil
unfolding pass is_key
pass-nil report nil h = refl
pass-nil report (cons k nil) h = rw (h (value k) (text_eq_refl (value k)))
pass-nil report (cons k (cons v rest)) h =
    rw (h (value k) (rw text_eq_refl), pass-nil report rest (λ key i. h key (ground (arith, i))))

abbrev EqualsItself : Node → Type 0
EqualsItself n = compare_nodes n n ≡ ok none

module _ (n : Node) (p : IsPlainMap (content n)) where
  compare_pass_self :
      AllValues EqualsItself (content n)
      → pass (compare_key (node_map n) (comparers [] (content n))) (content n) ≡ ok nil
  compare_pass_self h = pass-nil _ (content n) λ key i.
      elim (Option-cases (lookup key (node_map n))) [
        | inl hn ↦ cc (is_key_of_none n key p hn)
        | inr (v, hn) ↦
            compare_key-some (node_map n) n key v v hn hn
            ∙ lookup-AllValues EqualsItself n key v h hn
      ]

  delete_pass_self : pass (delete_key (node_map n) (content n)) (content n) ≡ ok nil
  unfolding delete_key
  delete_pass_self = pass-nil _ (content n) λ key i. elim (Option-cases (lookup key (node_map n))) [
    | inl hn ↦ cc (is_key_of_none n key p hn)
    | inr (v, hn) ↦ ground arith
  ]

mutual
  unfolding compare_nodes compare_same_kind IsPlain

  EqualsItself-of_plain : (n : Node) → IsPlain n → EqualsItself n
  EqualsItself-of_plain (node mapping v a r c) p =
      let n = node mapping v a r c in
      let pn = IsPlainContent-IsPlainMap c p in
      rw (compare_pass_self n pn (EqualsItself-content c p), delete_pass_self n pn)
  EqualsItself-of_plain (node sequence v a r c) p = rw (new_items-Known c c (Known-refl c))
  EqualsItself-of_plain (node scalar v a r c) p = rw text_eq_refl
  EqualsItself-of_plain (node _ v a r c) p = refl

  EqualsItself-content : (c : Nodes) → IsPlainContent c → AllValues EqualsItself c
  EqualsItself-content nil p = tt
  EqualsItself-content (cons k nil) p = tt
  EqualsItself-content (cons k (cons v rest)) p =
      (EqualsItself-of_plain v p.1, EqualsItself-content rest p.2)

-- A document whose mappings have scalar keys does not differ from itself.
pub compare_nodes_self : (n : Node) → IsPlain n → compare_nodes n n ≡ ok none
compare_nodes_self n p = EqualsItself-of_plain n p
