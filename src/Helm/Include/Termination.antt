-- ===== src/Helm/Include/Termination.antt =====
-- Nested includes of pkg/engine/helm/engine.go end: the counter gives each name a budget.
use talm.Base.{
  subst, ℕ, zero, suc, ◌+◌, ◌-◌, ◌*◌, ◌≤◌, ◌<◌, ◌≡◌, refl, sym, ap, Bool, Bool-cases, inl, inr,
  Option, none, some, [], ◌∷◌, ltb, arith, length,
}
use talm.Base.Text.{Text, text_eq}
use talm.Base.Text.Laws.{text_eq_iff}
use talm.Base.Dict.{some_injective, Dict, lookup, insert}
use talm.Base.Result.{Result, ok, err, panic, exit}
use talm.Engine.Values.{Value}
use talm.Helm.Include.{
  Script, output, failed, include, tpl, TemplateSet, TemplateLibrary, Counts, Run, Execute,
  found_count, count_of, leave, execute_template, execute_found, include_at, include_fun, counted,
  behind_call, execute_script, recursion_max_nums,
}
use talm.Helm.Include.Laws.{
  SameCounts, Restores, Restores-include_fun, count_of-insert, execute_script-Restores,
}

-- The template has no call of `tpl`.
abbrev pub NoTpl : Script → Type 0
NoTpl (output s) = Unit
NoTpl (failed e) = Unit
NoTpl (include name v on) = (out : Text) → NoTpl (on out)
NoTpl (tpl text v on) = ⊥

abbrev pub AllNoTpl : Dict (Bool → Value → Script) → Type 0
AllNoTpl [] = Unit
AllNoTpl ((name, body) ∷ templates) =
    ((strict : Bool) (v : Value) → NoTpl (body strict v)) × AllNoTpl templates

-- How many more includes can be nested: each template can be entered once more than the limit.
abbrev pub budget : Dict (Bool → Value → Script) → Counts → ℕ
budget [] counts = 0
budget ((name, body) ∷ templates) counts = (1001 - count_of name counts) + budget templates counts

-- The execution has a result.
abbrev pub Ends : Run → Type 0
Ends none = ⊥
Ends (some (counts, r)) = Unit

none-ne-some {ℓ} : {A : Type ℓ} {a : A} → none ≡ some a → ⊥
none-ne-some h = cc

budget-SameCounts :
    (templates : Dict (Bool → Value → Script)) (before after : Counts)
    → SameCounts before after
    → budget templates after ≡ budget templates before
budget-SameCounts [] before after h = refl
budget-SameCounts ((name, body) ∷ templates) before after h =
    omega (arith, h name, budget-SameCounts templates before after h)

-- Counting a name up costs nothing more, and something where the name is a template's.
budget-le :
    (templates : Dict (Bool → Value → Script)) (name : Text) (counts : Counts) (n : ℕ)
    → n ≡ count_of name counts + 1
    → budget templates (insert name n counts) ≤ budget templates counts
budget-le [] name counts n e = omega arith
budget-le ((other, body) ∷ templates) name counts n e = ground (
  arith,
  count_of-insert name other n counts,
  text_eq_iff name other,
  budget-le templates name counts n e,
)

budget-lt :
    (templates : Dict (Bool → Value → Script)) (name : Text) (counts : Counts) (n : ℕ)
    → n ≡ count_of name counts + 1
    → n ≤ 1001
    → (body : Bool → Value → Script) → lookup name templates ≡ some body
    → budget templates (insert name n counts) < budget templates counts
unfolding lookup
budget-lt [] name counts n e k b h = absurd (none-ne-some h)
budget-lt ((other, body) ∷ templates) name counts n e k b h = ground (
  arith,
  count_of-insert name other n counts,
  text_eq_iff other name,
  text_eq_iff name other,
  budget-le templates name counts n e,
  budget-lt templates name counts n e k b,
)

module _ (execute : Execute) (t : TemplateSet) (name : Text) (v : Value) (counts : Counts) where
  -- The execution of the template of that name ends where the budget is smaller.
  abbrev EndsSmaller : Type 0
  EndsSmaller =
      (body : Bool → Value → Script) (c : Counts)
      → lookup name t.templates ≡ some body
      → budget t.templates c < budget t.templates counts
      → Ends (execute t (body t.strict v) c)

  Ends-leave : (run : Run) → Ends run → Ends (leave name run)
  Ends-leave none h = h
  Ends-leave (some (after, r)) h = tt

  Ends-execute_found :
      (c : Counts) (found : Option (Bool → Value → Script))
      → ((body : Bool → Value → Script) → found ≡ some body → Ends (execute t (body t.strict v) c))
      → Ends (execute_found execute t name v c found)
  Ends-execute_found c none h = tt
  Ends-execute_found c (some body) h = h body refl

  Ends-counted :
      (n : ℕ)
      → n ≡ count_of name counts + 1
      → n ≤ 1001
      → EndsSmaller
      → Ends (counted execute t name v counts n)
  unfolding counted execute_template
  Ends-counted n e k smaller = Ends-leave _ (
      Ends-execute_found (insert name n counts) (lookup name t.templates) (λ body found.
        smaller body (insert name n counts) found
          (budget-lt t.templates name counts n e k body found)))

  Ends-include_at :
      (found : Option ℕ)
      → lookup name counts ≡ found
      → EndsSmaller
      → Ends (include_at execute t name v counts found)
  Ends-include_at none e smaller =
      Ends-counted 1 (sym (ap (λ o. found_count o + 1) e)) (omega arith) smaller
  Ends-include_at (some n) e smaller = elim (Bool-cases (ltb recursion_max_nums n)) [
    | inl over ↦ rw over tt
    | inr under ↦
        rw under (Ends-counted (n + 1) (sym (ap (λ o. found_count o + 1) e)) (ground arith) smaller)
  ]

  Ends-include_fun : EndsSmaller → Ends (include_fun execute t name v counts)
  unfolding include_fun
  Ends-include_fun smaller = Ends-include_at (lookup name counts) refl smaller

AllNoTpl-lookup :
    (templates : Dict (Bool → Value → Script)) (name : Text) (body : Bool → Value → Script)
    → AllNoTpl templates
    → lookup name templates ≡ some body
    → (strict : Bool) (v : Value) → NoTpl (body strict v)
unfolding lookup
AllNoTpl-lookup [] name body all h = absurd (none-ne-some h)
AllNoTpl-lookup ((other, b) ∷ templates) name body (first, all) h =
    elim (Bool-cases (text_eq other name)) [
      | inl same ↦
          subst (λ x. (strict : Bool) (v : Value) → NoTpl (x strict v))
            (some_injective (rw same at h)) first
      | inr differs ↦ AllNoTpl-lookup templates name body all (rw differs at h)
    ]

module _ (library : TemplateLibrary) where
  Ends-behind_call :
      (on : Text → Counts → Run) (counts : Counts) (run : Run)
      → Ends run
      → Restores counts run
      → ((out : Text) (after : Counts) → SameCounts counts after → Ends (on out after))
      → Ends (behind_call library on run)
  Ends-behind_call on counts none ends restores next = ends
  Ends-behind_call on counts (some (after, ok out)) ends restores next = next out after restores
  Ends-behind_call on counts (some (after, err e)) ends restores next = tt
  Ends-behind_call on counts (some (after, panic)) ends restores next = tt
  Ends-behind_call on counts (some (after, exit out)) ends restores next = tt

  execute_script-Ends :
      (fuel : ℕ) (strict : Bool) (t : TemplateSet) (s : Script) (counts : Counts)
      → AllNoTpl t.templates
      → NoTpl s
      → budget t.templates counts < fuel
      → Ends (execute_script library fuel strict t s counts)
  unfolding execute_script
  execute_script-Ends fuel strict t (output s) counts all plain enough = tt
  execute_script-Ends fuel strict t (failed e) counts all plain enough = tt
  execute_script-Ends zero strict t (include name v on) counts all plain enough =
      absurd (omega arith)
  execute_script-Ends fuel strict t (tpl text v on) counts all plain enough = absurd plain
  execute_script-Ends (suc fuel) strict t (include name v on) counts all plain enough =
      Ends-behind_call _ counts (include_fun (execute_script library fuel strict) t name v counts)
        (Ends-include_fun (execute_script library fuel strict) t name v counts (λ body c found less.
          execute_script-Ends fuel strict t (body t.strict v) c all
            (AllNoTpl-lookup t.templates name body all found t.strict v) (omega arith)))
        (Restores-include_fun (execute_script library fuel strict)
          (execute_script-Restores library fuel strict) t name v counts)
        (λ out after same.
          execute_script-Ends (suc fuel) strict t (on out) after all (plain out)
            (omega (arith, budget-SameCounts t.templates counts after same)))

  budget_empty :
      (templates : Dict (Bool → Value → Script)) → budget templates [] ≡ 1001 * length templates
  unfolding lookup
  budget_empty [] = refl
  budget_empty (x ∷ templates) = omega (arith, budget_empty templates)

  -- In a set of templates without calls of tpl every execution ends, however the templates include each
  -- other: a fuel above 1001 for each template of the set is enough for a result.
  pub execute_script_total :
      (fuel : ℕ) (strict : Bool) (t : TemplateSet) (s : Script)
      → AllNoTpl t.templates
      → NoTpl s
      → 1001 * length t.templates < fuel
      → (counts : Counts) × (r : Result Text) × (execute_script library fuel strict t s []
          ≡ some (counts, r))
  execute_script_total fuel strict t s all plain enough =
      ran (execute_script library fuel strict t s [])
        (execute_script-Ends fuel strict t s [] all plain (omega (arith, budget_empty t.templates)))
    where
      ran :
          (run : Run) → Ends run → (counts : Counts) × (r : Result Text) × (run ≡ some (counts, r))
      ran none ends = absurd ends
      ran (some (counts, r)) ends = (counts, r, refl)
