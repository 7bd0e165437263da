-- ===== src/Engine/Values.antt =====
-- Values (`interface{}`) and mergeMaps. A map is a list of fields with at most one for a key; Go
-- visits the fields of a map in any order, here in the order of the list.
pub mod Laws
use talm.Base.Text.{Text, text_eq}
use talm.Base.{Bool, Option, none, some, if◌then◌else◌}

mutual
  pub data Value : Type 0 where
    null : Value
    boolean : Bool → Value
    text : Text → Value
    number : Text → Value
    list : Items → Value
    table : Fields → Value

  pub data Items : Type 0 where
    no_items : Items
    item : Value → Items → Items

  pub data Fields : Type 0 where
    end : Fields
    field : Text → Value → Fields → Fields

-- `v, ok := m[k]`
unfoldable pub get : Text → Fields → Option Value
get k end = none
get k (field j v m) = if text_eq j k then some v else get k m

-- `m[k] = v`
unfoldable pub put : Text → Value → Fields → Fields
put k v end = field k v end
put k v (field j w m) = if text_eq j k then field k v m else field j w (put k v m)

-- The map under a key of `out`, if a map stands there.
abbrev pub table_of : Option Value → Option Fields
table_of (some (table m)) = some m
table_of _ = none

unfoldable mutual
  pub merge_maps : Fields → Fields → Fields
  merge_maps a end = a
  merge_maps a (field k v b) = merge_maps (put k (merge_value v (get k a)) a) b

  -- What `out[k]` becomes, from the value of `b` and the old value.
  pub merge_value : Value → Option Value → Value
  merge_value (table vm) old = elim (table_of old) [
    | none ↦ table vm
    | some bvm ↦ table (merge_maps bvm vm)
  ]
  merge_value v old = v
