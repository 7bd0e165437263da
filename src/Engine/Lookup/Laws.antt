-- ===== src/Engine/Lookup/Laws.antt =====
-- What a lookup of pkg/engine/engine.go gives for the resources that were found.
use talm.Base.{
  ℕ, zero, suc, ◌+◌, ◌-◌, ◌*◌, ◌/◌, ◌%◌, ◌<◌, ltb, ◌≡◌, ◌≢◌, refl, sym, ap, ◌∙◌, Bool, Bool-cases,
  true, false, inl, inr, Option, none, some, List, [], ◌∷◌, if◌then◌else◌, length, arith,
}
use talm.Base.Text.{Text, codes, text_eq}
use talm.Base.Text.Laws.{text_eq_iff, text_eq_refl}
use talm.Base.Result.{Result, ok}
use talm.Engine.Values.{Value, table, Fields, end, get, put}
use talm.Engine.Values.Laws.{get-put}
use talm.Engine.Lookup.{
  Callback, resources, digits_from, itoa, number_items, lookup_result, lookup_function,
}

-- The number that decimal digits stand for, behind those that were read.
abbrev value_from : ℕ → Text → ℕ
value_from n [] = n
value_from n (d ∷ s) = value_from (10 * n + (d - 48)) s

small-div : (n : ℕ) → n < 10 → n / 10 ≡ 0
small-div n h = omega arith

value_from-digits_from :
    (fuel n : ℕ) (rest : Text)
    → n < fuel
    → value_from 0 (digits_from fuel n rest) ≡ value_from n rest
unfolding digits_from
value_from-digits_from zero n rest h = absurd (omega arith)
value_from-digits_from (suc fuel) n rest h = elim (Bool-cases (ltb n 10)) [
  | inl small ↦ rw small (ap (λ m. value_from m rest) (one_digit n))
  | inr large ↦ rw large (
      value_from-digits_from fuel (n / 10) ((48 + n % 10) ∷ rest) (ground arith)
      ∙ ap (λ m. value_from m rest) (two_digits n))
]
  where
    one_digit : (k : ℕ) → 10 * 0 + (48 + k - 48) ≡ k
    one_digit k = omega arith

    two_digits : (k : ℕ) → 10 * (k / 10) + (48 + k % 10 - 48) ≡ k
    two_digits k = omega arith

-- The digits of a number read back as it.
value_from-itoa : (n : ℕ) → value_from 0 (itoa n) ≡ n
unfolding itoa
value_from-itoa n = value_from-digits_from (n + 1) n [] (omega arith)

abbrev pub item_key : ℕ → Text
item_key i = b'_' ∷ itoa i

item_key_injective : (i j : ℕ) → text_eq (item_key i) (item_key j) ≡ true → i ≡ j
unfolding text_eq
item_key_injective i j h =
    sym (value_from-itoa i)
    ∙ ap (value_from 0) ((text_eq_iff (itoa i) (itoa j)).0 h)
    ∙ value_from-itoa j

differs : (i j : ℕ) → i ≢ j → text_eq (item_key i) (item_key j) ≡ false
differs i j ne = elim (Bool-cases (text_eq (item_key i) (item_key j))) [
  | inl same ↦ absurd (ne (item_key_injective i j same))
  | inr other ↦ other
]

get-put_other :
    (i j : ℕ) (v : Value) (items : Fields)
    → i ≢ j
    → get (item_key j) (put (item_key i) v items) ≡ get (item_key j) items
get-put_other i j v items ne =
    get-put (item_key i) (item_key j) v items
    ∙ ap (λ b. if b then some v else get (item_key j) items) (differs i j ne)

get-put_item :
    (i : ℕ) (v : Value) (items : Fields) → get (item_key i) (put (item_key i) v items) ≡ some v
get-put_item i v items =
    get-put (item_key i) (item_key i) v items
    ∙ ap (λ b. if b then some v else get (item_key i) items) (text_eq_refl (item_key i))

-- The item at an index.
abbrev pub item_at : ℕ → List Fields → Option Value
item_at i [] = none
item_at zero (r ∷ rs) = some (table r)
item_at (suc i) (r ∷ rs) = item_at i rs

get-number_items_before :
    (i k : ℕ) (rs : List Fields) (items : Fields)
    → k < i
    → get (item_key k) (number_items i rs items) ≡ get (item_key k) items
unfolding number_items
get-number_items_before i k [] items h = refl
get-number_items_before i k (r ∷ rs) items h =
    get-number_items_before (i + 1) k rs (put (item_key i) (table r) items) (omega arith)
    ∙ get-put_other i k (table r) items (λ e. omega arith)

add_zero : (i : ℕ) → i + 0 ≡ i
add_zero i = omega arith

add_suc : (i k : ℕ) → i + suc k ≡ (i + 1) + k
add_suc i k = omega arith

get-number_items :
    (i k : ℕ) (rs : List Fields) (items : Fields)
    → k < length rs
    → get (item_key (i + k)) (number_items i rs items) ≡ item_at k rs
unfolding number_items
get-number_items i k [] items h = absurd (omega arith)
get-number_items i zero (r ∷ rs) items h =
    ap (λ m. get (item_key m) (number_items (i + 1) rs (put (item_key i) (table r) items)))
      (add_zero i)
    ∙ get-number_items_before (i + 1) i rs (put (item_key i) (table r) items) (omega arith)
    ∙ get-put_item i (table r) items
get-number_items i (suc k) (r ∷ rs) items h =
    ap (λ m. get (item_key m) (number_items (i + 1) rs (put (item_key i) (table r) items)))
      (add_suc i k)
    ∙ get-number_items (i + 1) k rs (put (item_key i) (table r) items) (omega arith)

-- The lookup asks for no name, or more than one resource was found.
abbrev pub is_listed : Text → List Fields → Bool
is_listed [] rs = true
is_listed (c ∷ id) (r ∷ s ∷ rs) = true
is_listed (c ∷ id) rs = false

get-lookup_result :
    (id : Text) (rs : List Fields)
    → is_listed id rs ≡ true
    → 0 < length rs
    → get (codes "items") (lookup_result id rs) ≡ some (table (number_items 0 rs end))
unfolding lookup_result get text_eq
get-lookup_result [] [] listed h = absurd (omega arith)
get-lookup_result (c ∷ id) [] listed h = absurd (omega arith)
get-lookup_result [] (r ∷ rs) listed h = refl
get-lookup_result (c ∷ id) (r ∷ []) listed h = cc
get-lookup_result (c ∷ id) (r ∷ s ∷ rs) listed h = refl

-- A lookup without a name, or one that finds more than one resource, gives a list: each resource whose
-- data could be extracted stands in its items under its number, in the order of the calls.
pub get-lookup_function :
    (unmarshal : Text → Result Value)
    (for_each_resource : Text → Text → Text → Result (List Callback)) (kind namespace id : Text)
    (calls : List Callback) (k : ℕ)
    → for_each_resource namespace kind id ≡ ok calls
    → is_listed id (resources unmarshal calls) ≡ true
    → k < length (resources unmarshal calls)
    → (m : Fields) × (items : Fields) × (lookup_function unmarshal for_each_resource kind namespace
          id
        ≡ ok m)
      × (get (codes "items") m ≡ some (table items))
      × (get (item_key k) items ≡ item_at k (resources unmarshal calls))
unfolding lookup_function
get-lookup_function unmarshal for_each_resource kind namespace id calls k h listed below = (
  lookup_result id (resources unmarshal calls),
  number_items 0 (resources unmarshal calls) end,
  rw h refl,
  get-lookup_result id (resources unmarshal calls) listed (omega arith),
  ap (λ m. get (item_key m) (number_items 0 (resources unmarshal calls) end)) (sym (zero_add k))
      ∙ get-number_items 0 k (resources unmarshal calls) end below,
)
  where
    zero_add : (j : ℕ) → 0 + j ≡ j
    zero_add j = omega arith
