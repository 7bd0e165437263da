-- ===== src/Yaml/Diff/Pass.antt =====
-- The loop over the keys of a mapping, for any report on a key.
use talm.Base.Result.{ok_injective, >>=-eq-ok, ok}
use talm.Base.Dict.{lookup-insert, lookup, Dict}
use talm.Base.Text.Laws.{text_eq_iff, text_eq_refl}
use talm.Base.Text.{Text, text_eq}
use talm.Base.{
  sym, ap, ◌∙◌, Bool, false, ◌||◌, subst, ◌≡◌, refl, inl, inr, true, Option, none, some, arith,
  Bool-cases, if◌then◌else◌,
}
use talm.Yaml.{Node, Nodes, nil, cons, value, ◌⧺◌}
use talm.Yaml.Diff.{Comparison, node_map_from, is_key, diff_entry, changed_entry, pass}
use talm.Yaml.Diff.Maps.{IsPlainMap, node_map_from-append, IsPlainMap-append}

abbrev pub overlay : Option Node → Option Node → Option Node
overlay none old = old
overlay (some n) old = some n

IsPlainMap-changed_entry : (key : Text) (d : Option Node) → IsPlainMap (changed_entry key d)
unfolding diff_entry
IsPlainMap-changed_entry key none = tt
IsPlainMap-changed_entry key (some n) = (refl, tt)

lookup-changed_entry :
    (k key : Text) (d : Option Node) (m : Dict Node)
    → lookup key (node_map_from m (changed_entry k d))
      ≡ (if text_eq k key then overlay d (lookup key m) else lookup key m)
unfolding diff_entry node_map_from
lookup-changed_entry k key none m = ground arith
lookup-changed_entry k key (some n) m = lookup-insert k key n m

overlay_twice :
    (here later : Bool) (d dk o : Option Node)
    → (here ≡ true → dk ≡ d)
    → (if later
        then overlay d (if here then overlay dk o else o)
        else (if here then overlay dk o else o))
      ≡ (if here || later then overlay d o else o)
overlay_twice true true none dk o h = rw (h refl)
overlay_twice true true (some n) dk o h = refl
overlay_twice true false d dk o h = rw (h refl)
overlay_twice false later d dk o h = refl

module _ (report : Text → Comparison) where
  -- The loop succeeds if the report on each key does.
  pub pass_total :
      (c : Nodes)
      → ((key : Text) → is_key key c ≡ true → (d : Option Node) × (report key ≡ ok d))
      → (changes : Nodes) × (pass report c ≡ ok changes)
  unfolding pass is_key
  pass_total nil h = (nil, refl)
  pass_total (cons k nil) h =
      let (d, e) = h (value k) (text_eq_refl (value k)) in (changed_entry (value k) d, rw e)
  pass_total (cons k (cons v rest)) h =
      let (d, e) = h (value k) (rw text_eq_refl) in
      let (later, l) = pass_total rest (λ key i. h key (ground (arith, i))) in
      (changed_entry (value k) d ⧺ later, rw (e, l))

  -- If the loop succeeds, so does the report on each key.
  pub report_of_pass :
      (c : Nodes) (key : Text) {changes : Nodes}
      → pass report c ≡ ok changes
      → is_key key c ≡ true
      → (d : Option Node) × (report key ≡ ok d)
  unfolding pass is_key
  report_of_pass nil key h i = cc
  report_of_pass (cons k nil) key h i =
      let (d, e, _) = >>=-eq-ok (report (value k)) _ h in
      (d, ground (arith, text_eq_iff (value k) key))
  report_of_pass (cons k (cons v rest)) key h i =
      let (d, e, h') = >>=-eq-ok (report (value k)) _ h in
      let (later, l, _) = >>=-eq-ok (pass report rest) _ h' in
      elim (Bool-cases (text_eq (value k) key)) [
        | inl here ↦ (d, ground (arith, text_eq_iff (value k) key))
        | inr other ↦ report_of_pass rest key l (ground arith)
      ]

  pub IsPlainMap-pass :
      (c : Nodes) {changes : Nodes} → pass report c ≡ ok changes → IsPlainMap changes
  unfolding pass
  IsPlainMap-pass nil h = subst IsPlainMap (ok_injective nil _ h) tt
  IsPlainMap-pass (cons k nil) h =
      let (d, e, h') = >>=-eq-ok (report (value k)) _ h in
      subst IsPlainMap (ok_injective _ _ h') (IsPlainMap-changed_entry (value k) d)
  IsPlainMap-pass (cons k (cons v rest)) {changes} h =
      let (d, e, h') = >>=-eq-ok (report (value k)) _ h in
      let (later, l, h'') = >>=-eq-ok (pass report rest) _ h' in
      subst IsPlainMap (ok_injective _ _ h'') (
        IsPlainMap-append (changed_entry (value k) d) later (IsPlainMap-changed_entry (value k) d)
          (IsPlainMap-pass rest l))

  -- Two reports on one key are the same.
  report_unique :
      (k key : Text) (d dk : Option Node)
      → report k ≡ ok dk
      → report key ≡ ok d
      → text_eq k key ≡ true
      → dk ≡ d
  report_unique k key d dk e r t =
      ok_injective dk d (sym e ∙ (ap report ((text_eq_iff k key).0 t) ∙ r))

  -- The entries that the loop adds: for a key that it visits, what is reported of that key.
  pub lookup-pass :
      (c : Nodes) (m : Dict Node) (key : Text) (d : Option Node) {changes : Nodes}
      → pass report c ≡ ok changes
      → (is_key key c ≡ true → report key ≡ ok d)
      → lookup key (node_map_from m changes)
        ≡ (if is_key key c then overlay d (lookup key m) else lookup key m)
  unfolding pass is_key node_map_from
  lookup-pass nil m key d h r = rw (← ok_injective _ _ h)
  lookup-pass (cons k nil) m key d h r =
      let (dk, e, h') = >>=-eq-ok (report (value k)) _ h in
      rw (← ok_injective _ _ h', lookup-changed_entry (value k) key dk m)
        (overlay_twice (text_eq (value k) key) false d dk (lookup key m)
            (λ t. report_unique (value k) key d dk e (r t) t)
          ∙ ground arith)
  lookup-pass (cons k (cons v rest)) m key d h r =
      let (dk, e, h') = >>=-eq-ok (report (value k)) _ h in
      let (later, l, h'') = >>=-eq-ok (pass report rest) _ h' in
      let m' = node_map_from m (changed_entry (value k) dk) in
      rw
        (
          ← ok_injective _ _ h'',
          node_map_from-append (changed_entry (value k) dk) later m
              (IsPlainMap-changed_entry (value k) dk),
          lookup-pass rest m' key d l (λ i. r (ground (arith, i))),
          lookup-changed_entry (value k) key dk m,
        )
        (overlay_twice (text_eq (value k) key) (is_key key rest) d dk (lookup key m)
          (λ t. report_unique (value k) key d dk e (r (rw t)) t))
