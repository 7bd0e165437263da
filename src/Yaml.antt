-- ===== src/Yaml.antt =====
-- The nodes of gopkg.in/yaml.v3, as pkg/yamltools/yamltools.go uses them: kind, value, comments and
-- content. Style, tag and anchor are carried along unread; an alias keeps no pointer to its target,
-- which this code never follows. Children: the comments, the diff and their laws.
pub mod Comments
pub mod Diff
use talm.Base.Text.{Text}
use talm.Base.{ℕ, Bool, true, false, []}

pub data Kind : Type 0 where
  zero_kind document sequence mapping scalar alias : Kind

pub record Attributes : Type 0 where
  pub style : ℕ
  pub tag : Text
  pub anchor : Text

-- `HeadComment`, `LineComment` and `FootComment`
pub record Remarks : Type 0 where
  pub head : Text
  pub line : Text
  pub foot : Text

abbrev pub no_remarks : Remarks
no_remarks = record { head = []; line = []; foot = [] }

abbrev pub no_attributes : Attributes
no_attributes = record { style = 0; tag = []; anchor = [] }

mutual
  pub data Node : Type 0 where
    node : Kind → Text → Attributes → Remarks → Nodes → Node

  pub data Nodes : Type 0 where
    nil : Nodes
    cons : Node → Nodes → Nodes

abbrev pub kind : Node → Kind
kind (node k v a r c) = k

abbrev pub value : Node → Text
value (node k v a r c) = v

abbrev pub remarks : Node → Remarks
remarks (node k v a r c) = r

abbrev pub content : Node → Nodes
content (node k v a r c) = c

infixr 65 ◌⧺◌
abbrev pub ◌⧺◌ : Nodes → Nodes → Nodes
nil ⧺ ys = ys
cons x xs ⧺ ys = cons x (xs ⧺ ys)

abbrev pub same_kind : Kind → Kind → Bool
same_kind zero_kind zero_kind = true
same_kind document document = true
same_kind sequence sequence = true
same_kind mapping mapping = true
same_kind scalar scalar = true
same_kind alias alias = true
same_kind _ _ = false

abbrev pub is_scalar : Node → Bool
is_scalar n = same_kind (kind n) scalar

-- `&yaml.Node{Kind: kind, Value: value, Content: content}`
abbrev pub fresh : Kind → Text → Nodes → Node
fresh k v c = node k v no_attributes no_remarks c
