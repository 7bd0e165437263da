-- ===== src/Yaml/Comments/Laws.antt =====
-- What the comment functions keep.
use talm.Base.Dict.{Dict}
use talm.Base.Text.{Text}
use talm.Base.{ℕ, ◌+◌, ◌≡◌, refl, ap}
use talm.Yaml.{Kind, scalar, Attributes, Remarks, no_remarks, Node, node, Nodes, nil, cons, value}
use talm.Yaml.Comments.{
  copy_comments, copy_content, child_path, apply_comments, apply_content, clear_comments,
  clear_content,
}

mutual
  unfolding clear_comments apply_comments

  clear_comments-apply_comments_lem :
      (n : Node) (paths : Dict Remarks) (path : Text)
      → clear_comments (apply_comments paths n path) ≡ clear_comments n
  clear_comments-apply_comments_lem (node k v a r c) paths path =
      ap (node k v a no_remarks) (clear_content-apply_content c paths k path 0)

  clear_content-apply_content :
      (c : Nodes) (paths : Dict Remarks) (k : Kind) (path : Text) (i : ℕ)
      → clear_content (apply_content paths c k path i) ≡ clear_content c
  clear_content-apply_content nil paths k path i = refl
  clear_content-apply_content (cons n c) paths k path i = rw (
    clear_comments-apply_comments_lem n paths (child_path k path i (value n)),
    clear_content-apply_content c paths k path (i + 1),
  )

-- `ApplyComments` changes comments and nothing else, at any depth.
pub clear_comments-apply_comments :
    (paths : Dict Remarks) (n : Node) (path : Text)
    → clear_comments (apply_comments paths n path) ≡ clear_comments n
clear_comments-apply_comments paths n path = clear_comments-apply_comments_lem n paths path

-- A source with no comments leaves no path, so that the target stays as it is.
mutual
  unfolding clear_comments copy_comments

  copy_comments-clear_comments :
      (n : Node) (path : Text) (paths : Dict Remarks)
      → copy_comments (clear_comments n) path paths ≡ paths
  copy_comments-clear_comments (node k v a r c) path paths =
      copy_content-clear_content c k path 0 paths

  copy_content-clear_content :
      (c : Nodes) (k : Kind) (path : Text) (i : ℕ) (paths : Dict Remarks)
      → copy_content (clear_content c) k path i paths ≡ paths
  copy_content-clear_content nil k path i paths = refl
  copy_content-clear_content (cons n c) k path i paths = rw (
    copy_comments-clear_comments n (child_path k path i (value (clear_comments n))) paths,
    copy_content-clear_content c k path (i + 1) paths,
  )

-- A mapping node's entries, for statements.
abbrev pub entry : Text → Attributes → Remarks → Node → Nodes → Nodes
entry key a r val rest = cons (node scalar key a r nil) (cons val rest)
