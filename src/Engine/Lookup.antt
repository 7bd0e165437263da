-- ===== src/Engine/Lookup.antt =====
-- newLookupFunction and extractResourceData of pkg/engine/engine.go: what a template gets for a lookup
-- of resources. The client calls back for every resource, with an error or with the resource; a
-- resource whose data cannot be extracted is left out. The YAML decoder is a parameter; the metadata
-- are what a resource's YAML reads back as.
pub mod Laws
use talm.Base.Result.{◌>>=◌, Error, errorf, err, ok, wrap, Result}
use talm.Base.Text.{Text, codes}
use talm.Base.{ℕ, zero, suc, ◌+◌, ◌/◌, ◌%◌, List, [], ◌∷◌, if◌then◌else◌, ltb}
use talm.Engine.Values.{Value, text, table, Fields, end, field, put}

-- `r.Spec()`, behind a pointer: no struct, a struct with YAML in its field, or without that field.
pub data Spec : Type 0 where
  no_struct : Spec
  with_yaml : Text → Spec
  without_yaml : Spec

pub record Resource : Type 0 where
  pub metadata : Fields
  pub spec : Spec

unfoldable pub extract_resource_data : (Text → Result Value) → Resource → Result Fields
extract_resource_data unmarshal r = elim r.spec [
  | no_struct ↦ ok r.metadata
  | with_yaml yaml ↦ wrap "error unmarshaling yaml: %w" [] (unmarshal yaml) >>= λ spec.
      ok (put (codes "spec") spec r.metadata)
  | without_yaml ↦ err (errorf "field 'yaml' not found" [])
]

-- One call of `callbackResource`.
pub data Callback : Type 0 where
  failed : Error → Callback
  found : Resource → Callback

abbrev add_extracted : Result Fields → List Fields → List Fields
add_extracted (ok r) rs = r ∷ rs
add_extracted r rs = rs

unfoldable pub resources : (Text → Result Value) → List Callback → List Fields
unfolding extract_resource_data
resources unmarshal [] = []
resources unmarshal (failed e ∷ calls) = resources unmarshal calls
resources unmarshal (found r ∷ calls) =
    add_extracted (extract_resource_data unmarshal r) (resources unmarshal calls)

-- `strconv.Itoa` of a number below 10 and of any other, by its decimal digits.
unfoldable pub digits_from : ℕ → ℕ → Text → Text
digits_from zero n rest = rest
digits_from (suc fuel) n rest =
    let more = digits_from fuel (n / 10) ((48 + n % 10) ∷ rest) in
    if ltb n 10 then (48 + n) ∷ rest else more

unfoldable pub itoa : ℕ → Text
unfolding digits_from
itoa n = digits_from (n + 1) n []

unfoldable pub number_items : ℕ → List Fields → Fields → Fields
unfolding itoa
number_items i [] items = items
number_items i (r ∷ rs) items = number_items (i + 1) rs (put (b'_' ∷ itoa i) (table r) items)

unfoldable pub lookup_result : Text → List Fields → Fields
unfolding number_items
lookup_result id [] = end
lookup_result [] rs = field (codes "apiVersion") (text (codes "v1")) (
    field (codes "kind") (text (codes "List"))
      (field (codes "items") (table (number_items 0 rs end)) end))
lookup_result (c ∷ id) (r ∷ []) = r
lookup_result (c ∷ id) rs = field (codes "apiVersion") (text (codes "v1")) (
    field (codes "kind") (text (codes "List"))
      (field (codes "items") (table (number_items 0 rs end)) end))

-- `ForEachResource` gives its callbacks, or an error of its own, which alone is returned.
unfoldable pub lookup_function :
    (Text → Result Value)
    → (Text → Text → Text → Result (List Callback))
    → Text
    → Text
    → Text
    → Result Fields
unfolding resources lookup_result
lookup_function unmarshal for_each_resource kind namespace id = do
  calls ← for_each_resource namespace kind id
  ok (lookup_result id (resources unmarshal calls))
