-- ===== src/Commands/Root/Globals.antt =====
-- What processModelineAndUpdateGlobals makes of the globals.
use talm.Base.{
  Bool, Bool-cases, true, false, inl, inr, is_nil, ◌≡◌, ◌∙◌, refl, subst, sym, ap, none, some, List,
  [], ◌∷◌, ◌++◌, if◌then◌else◌,
}
use talm.Base.Text.{Text}
use talm.Base.Result.{Result, ok, err}
use talm.Json.{Slice, items}
use talm.Modeline.{Config, read_and_parse_modeline}
use talm.Commands.{World, FileSystem, continue}
use talm.Commands.Root.{
  warned, is_unset, update_slice, update_globals, require_nodes, nodes_not_set,
  process_modeline_and_update_globals,
}

-- The items of a global behind a modeline: those of the arguments are kept, and so are those that are
-- there where the modeline has none; otherwise its items replace them or follow them.
abbrev pub expected : Bool → Bool → List Text → List Text → List Text
expected true overwrite new old = old
expected false overwrite [] old = old
expected false true (x ∷ new) old = x ∷ new
expected false false (x ∷ new) old = old ++ x ∷ new

items-update_slice :
    (from_args overwrite : Bool) (new old : Slice)
    → items (update_slice from_args overwrite new old)
      ≡ expected from_args overwrite (items new) (items old)
unfolding update_slice
items-update_slice true o new old = refl
items-update_slice false o none old = refl
items-update_slice false o (some []) old = refl
items-update_slice false true (some (x ∷ new)) old = refl
items-update_slice false false (some (x ∷ new)) old = refl

-- The nodes and the endpoints of `v` are as the flags and the modeline say, nothing else of the state has
-- changed, and the only error is that there are no nodes then.
abbrev pub Updated :
    {D : Type 0} → Bool → Bool → Bool → Config → World D → World D × Result (Unit {0}) → Type 0
Updated nodes_from_args endpoints_from_args overwrite c w (v, r) =
    (items v.nodes ≡ expected nodes_from_args overwrite (items c.nodes) (items w.nodes))
    × (items v.endpoints
        ≡ expected endpoints_from_args overwrite (items c.endpoints) (items w.endpoints))
    × (v ≡ record w { nodes = v.nodes; endpoints = v.endpoints })
    × (r ≡ (
        if is_nil (expected nodes_from_args overwrite (items c.nodes) (items w.nodes))
        then err nodes_not_set
        else ok tt))

require_nodes-result :
    {D : Type 0} (w : World D)
    → require_nodes w ≡ (w, (if is_unset w.nodes then err nodes_not_set else ok tt))
require_nodes-result w = elim (Bool-cases (is_unset w.nodes)) [
  | inl h ↦ rw h refl
  | inr h ↦ rw h refl
]

-- Where a file has a modeline, the nodes and the endpoints behind it are as the flags say: those of the
-- arguments are kept, and so are those that are there where the modeline has none; otherwise its items
-- replace them or follow them. Nothing else of the state has changed, and the only error is that there
-- are no nodes then.
pub process_modeline-Updated :
    (fs : FileSystem) (file : Text) (nodes_from_args endpoints_from_args overwrite : Bool)
    (w : World fs.Disk) (c : Config)
    → read_and_parse_modeline (fs.read_file w.disk) file ≡ ok c
    → Updated nodes_from_args endpoints_from_args overwrite c w (
        process_modeline_and_update_globals fs file nodes_from_args endpoints_from_args overwrite w)
unfolding process_modeline_and_update_globals warned update_globals
process_modeline-Updated fs file n e o w c h =
    let v = update_globals n e o c w in
    let nodes = items-update_slice n o c.nodes w.nodes in
    let same : process_modeline_and_update_globals fs file n e o w
        ≡ (v, (if is_unset v.nodes then err nodes_not_set else ok tt)) =
      ap (λ r. continue (warned r w) (λ c. λ v. require_nodes (update_globals n e o c v))) h
      ∙ require_nodes-result v in
    subst (Updated n e o c w) (sym same) (
      nodes,
      items-update_slice e o c.endpoints w.endpoints,
      refl,
      ap (λ xs. if is_nil xs then err nodes_not_set else ok tt) nodes,
    )
