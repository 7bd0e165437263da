-- ===== src/Tests/Yaml.antt =====
-- Small documents, their differences and their comments.
use talm.Base.{◌≡◌, refl, none, Option, []}
use talm.Base.Text.{Text, codes}
use talm.Base.Dict.{lookup}
use talm.Base.Result.{ok}
use talm.Yaml.{
  Node, Nodes, scalar, mapping, sequence, node, nil, cons, Remarks, no_remarks, no_attributes,
}
use talm.Yaml.Comments.{copy_comments, apply_remarks, merge_remarks}
use talm.Base.Dict.{insert}
use talm.Base.Text.{text_eq}
use talm.Yaml.Comments.{child_path}
use talm.Yaml.Comments.{apply_comments, merge_comments}
use talm.Yaml.Comments.Laws.{entry}
use talm.Yaml.Diff.{compare_nodes, node_map}
use talm.Yaml.Diff.Keys.{Reports, entries, compare_nodes-Reports}
use talm.Yaml.Diff.Sequences.{compare_nodes-HaveNoValue}
use talm.Yaml.Diff.Total.{IsPlain, compare_nodes_total, compare_nodes_self}

abbrev leaf : Text → Node
leaf v = node scalar v no_attributes no_remarks nil

abbrev map_of : Nodes → Node
map_of c = node mapping [] no_attributes no_remarks c

abbrev list_of : Nodes → Node
list_of c = node sequence [] no_attributes no_remarks c

-- `{a: 1, b: 2}` and `{a: 3, c: 4}`
abbrev old_fields : Nodes
old_fields =
    cons (leaf (codes "a"))
      (cons (leaf (codes "1")) (cons (leaf (codes "b")) (cons (leaf (codes "2")) nil)))

abbrev new_fields : Nodes
new_fields =
    cons (leaf (codes "a"))
      (cons (leaf (codes "3")) (cons (leaf (codes "c")) (cons (leaf (codes "4")) nil)))

abbrev remark : Remarks
remark = record { head = codes "# note"; line = []; foot = [] }

old-IsPlain : IsPlain (map_of old_fields)
unfolding IsPlain
old-IsPlain = (refl, tt, (refl, tt, tt))

new-IsPlain : IsPlain (map_of new_fields)
unfolding IsPlain
new-IsPlain = (refl, tt, (refl, tt, tt))

compare_nodes_total_example :
    (d : Option Node) × (compare_nodes (map_of new_fields) (map_of old_fields) ≡ ok d)
compare_nodes_total_example =
    compare_nodes_total (map_of old_fields) (map_of new_fields) old-IsPlain new-IsPlain

compare_nodes_self_example : compare_nodes (map_of old_fields) (map_of old_fields) ≡ ok none
compare_nodes_self_example = compare_nodes_self (map_of old_fields) old-IsPlain

-- The key `b` is gone.
compare_nodes-Reports_example :
    Reports
      (lookup (codes "b") (node_map (map_of old_fields)))
      (lookup (codes "b") (node_map (map_of new_fields)))
      (lookup (codes "b") (entries compare_nodes_total_example.0))
compare_nodes-Reports_example =
    compare_nodes-Reports [] [] no_attributes no_attributes no_remarks no_remarks old_fields
      new_fields (refl, (refl, tt)) (refl, (refl, tt)) compare_nodes_total_example.1 (codes "b")

-- A list of one mapping became a list of two others, and no difference is seen.
compare_nodes-HaveNoValue_example :
    compare_nodes
      (list_of (cons (map_of new_fields) (cons (map_of nil) nil)))
      (list_of (cons (map_of old_fields) nil))
    ≡ ok none
compare_nodes-HaveNoValue_example =
    compare_nodes-HaveNoValue [] [] no_attributes no_attributes no_remarks no_remarks
      (map_of old_fields) nil (cons (map_of new_fields) (cons (map_of nil) nil)) refl
      (refl, (refl, tt))

-- Two sections with a key `x` each.
abbrev sections : Remarks → Remarks → Node
sections r₁ r₂ = node mapping [] no_attributes no_remarks (
    entry (codes "a") no_attributes no_remarks
      (node mapping [] no_attributes no_remarks
        (entry (codes "x") no_attributes r₁ (leaf (codes "1")) nil))
      (entry (codes "b") no_attributes no_remarks
        (node mapping [] no_attributes no_remarks
          (entry (codes "x") no_attributes r₂ (leaf (codes "2")) nil))
        nil))

-- Only the second `x` has a comment, and both get it.
second_section :
    apply_comments
      (copy_comments (sections no_remarks remark) [] [])
      (sections no_remarks no_remarks)
      []
    ≡ sections remark remark
unfolding apply_comments copy_comments apply_remarks merge_remarks merge_comments lookup insert
    text_eq child_path
second_section = refl
