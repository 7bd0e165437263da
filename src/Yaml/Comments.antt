-- ===== src/Yaml/Comments.antt =====
-- CopyComments, ApplyComments, mergeComments and clearComments.
pub mod Laws
use talm.Base.Dict.{lookup, Dict, insert}
use talm.Base.Text.{Text, trim_space}
use talm.Base.{
  Option, ℕ, ◌+◌, Bool, ◌&&◌, ◌||◌, none, some, [], ◌∷◌, ◌++◌, leb, if◌then◌else◌, ltb, is_nil,
}
use talm.Yaml.{Kind, sequence, Remarks, no_remarks, Node, node, Nodes, nil, cons, value, same_kind}

-- `string(i)`: the code point of that number, or U+FFFD if there is none.
unfoldable pub rune_text : ℕ → Text
rune_text i = (if (leb 0xD800 i && ltb i 0xE000) || ltb 0x10FFFF i then 0xFFFD else i) ∷ []

-- The path of the i-th child, `v` its value.
unfoldable pub child_path : Kind → Text → ℕ → Text → Text
unfolding rune_text
child_path k path i v = path ++ b'/' ∷ (if same_kind k sequence then rune_text i else v)

abbrev pub is_empty_remarks : Remarks → Bool
is_empty_remarks r = is_nil r.head && is_nil r.line && is_nil r.foot

-- `dstPaths` keeps what `ApplyComments` reads of a source node, its comments.
unfoldable mutual
  pub copy_comments : Node → Text → Dict Remarks → Dict Remarks
  copy_comments (node k v a r c) path paths =
      copy_content c k path 0 (if is_empty_remarks r then paths else insert path r paths)

  pub copy_content : Nodes → Kind → Text → ℕ → Dict Remarks → Dict Remarks
  copy_content nil k path i paths = paths
  copy_content (cons n c) k path i paths =
      copy_content c k path (i + 1) (copy_comments n (child_path k path i (value n)) paths)

unfoldable pub merge_comments : Text → Text → Text
merge_comments old new =
    if is_nil old
    then new
    else if is_nil new
    then old
    else trim_space old ++ 10 ∷ 10 ∷ trim_space new

unfoldable pub merge_remarks : Remarks → Remarks → Remarks
unfolding merge_comments
merge_remarks old new = record {
  head = merge_comments old.head new.head;
  line = merge_comments old.line new.line;
  foot = merge_comments old.foot new.foot;
}

abbrev pub merge_found : Remarks → Option Remarks → Remarks
merge_found old none = old
merge_found old (some new) = merge_remarks old new

unfoldable pub apply_remarks : Dict Remarks → Text → Remarks → Remarks
unfolding merge_remarks
apply_remarks paths path r = merge_found r (lookup path paths)

unfoldable mutual
  pub apply_comments : Dict Remarks → Node → Text → Node
  apply_comments paths (node k v a r c) path =
      node k v a (apply_remarks paths path r) (apply_content paths c k path 0)

  pub apply_content : Dict Remarks → Nodes → Kind → Text → ℕ → Nodes
  apply_content paths nil k path i = nil
  apply_content paths (cons n c) k path i =
      cons (apply_comments paths n (child_path k path i (value n)))
        (apply_content paths c k path (i + 1))

unfoldable mutual
  pub clear_comments : Node → Node
  clear_comments (node k v a r c) = node k v a no_remarks (clear_content c)

  pub clear_content : Nodes → Nodes
  clear_content nil = nil
  clear_content (cons n c) = cons (clear_comments n) (clear_content c)
