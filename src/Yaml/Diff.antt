-- ===== src/Yaml/Diff.antt =====
-- DiffYAMLs and what it calls. A value looked up in the modified document is compared by the
-- comparison that the recursion over that document provides, so that no fuel is needed: a `Comparer`
-- is a node of the modified document with `compareNodes(·, node)`.
pub mod Maps
pub mod Pass
pub mod Keys
pub mod Sequences
pub mod Total
use talm.Base.Result.{◌>>=◌, panic, Result, ok}
use talm.Base.Dict.{insert, Dict, lookup}
use talm.Base.Text.{text_eq, codes, Text}
use talm.Base.{Bool, false, ◌||◌, Option, none, some, [], if◌then◌else◌}
use talm.Yaml.{
  Kind, sequence, scalar, mapping, Node, node, Nodes, nil, cons, value, kind, content, is_scalar,
  same_kind, fresh, ◌⧺◌,
}
use talm.Yaml.Comments.{clear_comments}

-- `mod`, or nil if there is nothing to report
abbrev pub Comparison : Type 0
Comparison = Result (Option Node)

-- `nodeMap`: the last entry of a scalar key counts.
unfoldable pub node_map_from : Dict Node → Nodes → Dict Node
node_map_from m nil = m
node_map_from m (cons k nil) = m
node_map_from m (cons k (cons v rest)) =
    node_map_from (if is_scalar k then insert (value k) v m else m) rest

unfoldable pub node_map : Node → Dict Node
unfolding node_map_from
node_map n = node_map_from [] (content n)

-- `nodeSet[v]`
unfoldable pub in_node_set : Text → Nodes → Bool
in_node_set v nil = false
in_node_set v (cons n c) = text_eq (value n) v || in_node_set v c

unfoldable pub create_delete_node : Node
create_delete_node =
    fresh mapping []
      (cons (fresh scalar (codes "$patch") nil) (cons (fresh scalar (codes "delete") nil) nil))

-- What `addNodeToDiff` appends.
unfoldable pub diff_entry : Text → Node → Nodes
diff_entry key n = cons (fresh scalar key nil) (cons n nil)

-- The loop over the keys of a deleted mapping.
unfoldable pub nested_deletes : Nodes → Nodes
unfolding diff_entry create_delete_node
nested_deletes nil = nil
nested_deletes (cons k nil) = diff_entry (value k) create_delete_node
nested_deletes (cons k (cons v rest)) =
    diff_entry (value k) create_delete_node ⧺ nested_deletes rest

unfoldable pub delete_node : Node → Node
unfolding nested_deletes
delete_node old =
    if same_kind (kind old) mapping
    then fresh mapping [] (nested_deletes (content old))
    else create_delete_node

-- `processedKeys[key]` behind the first pass: some key of the modified mapping has the value, and
-- the original has it.
unfoldable pub is_key : Text → Nodes → Bool
is_key key nil = false
is_key key (cons k nil) = text_eq (value k) key
is_key key (cons k (cons v rest)) = text_eq (value k) key || is_key key rest

unfoldable pub processed : Dict Node → Nodes → Text → Bool
unfolding is_key
processed orig_map mod_content key = elim (lookup key orig_map) [
  | none ↦ false
  | some _ ↦ is_key key mod_content
]

-- A nil value that reaches `addNodeToDiff` or a field access is a panic: at the latest the encoder
-- follows it.
unfoldable pub delete_key : Dict Node → Nodes → Text → Comparison
unfolding processed delete_node
delete_key orig_map mod_content key =
    if processed orig_map mod_content key
    then ok none
    else elim (lookup key orig_map) [ none ↦ panic | some old ↦ ok (some (delete_node old)) ]

-- A node of the modified document, with its comparison to an original.
abbrev pub Comparer : Type 0
Comparer = record { target : Node; compare : Node → Comparison }

-- What the first pass reports of a key.
unfoldable pub compare_key : Dict Node → Dict Comparer → Text → Comparison
compare_key orig_map mod_map key = elim (lookup key mod_map) [
  | none ↦ panic
  | some c ↦ elim (lookup key orig_map) [ none ↦ ok (some c.target) | some old ↦ c.compare old ]
]

abbrev pub changed_entry : Text → Option Node → Nodes
changed_entry key none = nil
changed_entry key (some n) = diff_entry key n

-- A loop over the keys of a mapping, `i += 2`, that adds what `report` says of each.
unfoldable pub pass : (Text → Comparison) → Nodes → Result Nodes
unfolding diff_entry
pass report nil = ok nil
pass report (cons k nil) = do d ← report (value k); ok (changed_entry (value k) d)
pass report (cons k (cons v rest)) = do
  d ← report (value k)
  later ← pass report rest
  ok (changed_entry (value k) d ⧺ later)

abbrev pub non_empty : Kind → Nodes → Option Node
non_empty k nil = none
non_empty k (cons n c) = some (fresh k [] (cons n c))

unfoldable pub compare_mapping_nodes : Node → Nodes → Dict Comparer → Comparison
unfolding node_map pass compare_key delete_key
compare_mapping_nodes orig mod_content mod_map = do
  changes ← pass (compare_key (node_map orig) mod_map) mod_content
  deletes ← pass (delete_key (node_map orig) mod_content) (content orig)
  ok (non_empty mapping (changes ⧺ deletes))

unfoldable pub new_items : Nodes → Nodes → Nodes
new_items old nil = nil
new_items old (cons n c) =
    if in_node_set (value n) old then new_items old c else cons n (new_items old c)

unfoldable pub compare_sequence_nodes : Node → Nodes → Option Node
unfolding new_items in_node_set
compare_sequence_nodes orig mod_content = non_empty sequence (new_items (content orig) mod_content)

unfoldable pub compare_same_kind : Kind → Node → Node → Dict Comparer → Comparison
unfolding compare_mapping_nodes compare_sequence_nodes
compare_same_kind mapping orig new mod_map = compare_mapping_nodes orig (content new) mod_map
compare_same_kind sequence orig new mod_map = ok (compare_sequence_nodes orig (content new))
compare_same_kind scalar orig new mod_map =
    ok (if text_eq (value orig) (value new) then none else some new)
compare_same_kind _ orig new mod_map = ok none

unfoldable mutual
  -- `compareNodes`, the modified node first
  pub compare_nodes : Node → Node → Comparison
  compare_nodes (node k v a r c) orig =
      if same_kind (kind orig) k
      then compare_same_kind k orig (node k v a r c) (comparers [] c)
      else ok (some (node k v a r c))

  -- `nodeMap` of the modified mapping
  pub comparers : Dict Comparer → Nodes → Dict Comparer
  comparers m nil = m
  comparers m (cons k nil) = m
  comparers m (cons k (cons v rest)) =
      comparers
        (if is_scalar k
          then insert (value k) (record { target = v; compare = compare_nodes v }) m
          else m)
        rest

-- What is used of the YAML package.
pub record Codec : Type 0 where
  pub unmarshal : Text → Result Node
  pub encode : Node → Result Text

-- `n.Content[0]`
abbrev pub root : Node → Result Node
root n = first (content n)
  where
    first : Nodes → Result Node
    first nil = panic
    first (cons m c) = ok m

unfoldable pub diff_yamls : Codec → Text → Text → Result Text
unfolding compare_nodes clear_comments
diff_yamls yaml original modified = do
  orig_node ← yaml.unmarshal original
  mod_node ← yaml.unmarshal modified
  orig_root ← root (clear_comments orig_node)
  mod_root ← root (clear_comments mod_node)
  diff ← compare_nodes mod_root orig_root
  elim diff [ none ↦ ok [] | some d ↦ yaml.encode d ]
