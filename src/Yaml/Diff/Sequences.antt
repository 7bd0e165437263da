-- ===== src/Yaml/Diff/Sequences.antt =====
-- What the diff of two sequences says.
use talm.Base.Result.{ok}
use talm.Base.Text.Laws.{text_eq_refl}
use talm.Base.Text.{text_eq, Text}
use talm.Base.{◌≡◌, refl, true, none, [], arith}
use talm.Yaml.{Node, node, Nodes, nil, cons, value, sequence, Attributes, Remarks}
use talm.Yaml.Diff.{new_items, compare_nodes, compare_same_kind, in_node_set}

-- All values of the items are values of the old items.
abbrev pub Known : Nodes → Nodes → Type 0
Known old nil = Unit
Known old (cons n c) = (in_node_set (value n) old ≡ true) × Known old c

pub new_items-Known : (old c : Nodes) → Known old c → new_items old c ≡ nil
unfolding new_items
new_items-Known old nil h = refl
new_items-Known old (cons n c) (h, hs) = rw h (new_items-Known old c hs)

Known-cons : (n : Node) (old c : Nodes) → Known old c → Known (cons n old) c
unfolding in_node_set
Known-cons n old nil h = tt
Known-cons n old (cons m c) (h, hs) = (ground arith, Known-cons n old c hs)

pub Known-refl : (c : Nodes) → Known c c
unfolding in_node_set
Known-refl nil = tt
Known-refl (cons n c) = (rw text_eq_refl, Known-cons n c c (Known-refl c))

-- Items that are no scalars have no value.
abbrev pub HaveNoValue : Nodes → Type 0
HaveNoValue nil = Unit
HaveNoValue (cons n c) = (value n ≡ []) × HaveNoValue c

HaveNoValue-Known : (n : Node) (old c : Nodes) → value n ≡ [] → HaveNoValue c → Known (cons n old) c
unfolding in_node_set text_eq
HaveNoValue-Known n old nil e h = tt
HaveNoValue-Known n old (cons m c) e (h, hs) = (rw (e, h), HaveNoValue-Known n old c e hs)

-- A list of items without a value, such as mappings, does not differ from an old list whose first
-- item has no value either, whatever the items hold.
pub compare_nodes-HaveNoValue :
    (v w : Text) (a b : Attributes) (r s : Remarks) (n : Node) (old new : Nodes)
    → value n ≡ []
    → HaveNoValue new
    → compare_nodes (node sequence w b s new) (node sequence v a r (cons n old)) ≡ ok none
unfolding compare_nodes compare_same_kind
compare_nodes-HaveNoValue v w a b r s n old new e h =
    rw (new_items-Known (cons n old) new (HaveNoValue-Known n old new e h))
