-- ===== src/Helm/Include/Laws.antt =====
-- What includes leave of the counter of pkg/engine/helm/engine.go.
use talm.Base.{
  ℕ, zero, suc, ◌+◌, ◌-◌, ◌≡◌, refl, sym, ap, ◌∙◌, Bool, Bool-cases, inl, inr, Option, none, some,
  if◌then◌else◌, ltb, arith,
}
use talm.Base.Text.{Text, text_eq}
use talm.Base.Text.Laws.{text_eq_iff, text_eq_refl}
use talm.Base.Dict.{lookup, insert, lookup-insert}
use talm.Base.Result.{Result, ok, err, panic, exit}
use talm.Engine.Values.{Value}
use talm.Helm.Include.{
  Script, output, failed, include, tpl, TemplateSet, TemplateLibrary, Counts, Run, Execute,
  found_count, count_of, leave, execute_template, execute_found, include_at, behind_call, tpl_in,
  include_fun, counted, tpl_fun, tpl_execute, tpl_output, parsed_tpl, execute_script,
  recursion_max_nums,
}

-- Both counters give every name the same count.
abbrev pub SameCounts : Counts → Counts → Type 0
SameCounts before after = (name : Text) → count_of name after ≡ count_of name before

-- What an execution leaves has the counts that it began with.
abbrev pub Restores : Counts → Run → Type 0
Restores before none = Unit
Restores before (some (after, r)) = SameCounts before after

SameCounts-trans : (a b c : Counts) → SameCounts a b → SameCounts b c → SameCounts a c
SameCounts-trans a b c h k name = k name ∙ h name

pub Restores-trans : (a b : Counts) (run : Run) → SameCounts a b → Restores b run → Restores a run
Restores-trans a b none h k = tt
Restores-trans a b (some (after, r)) h k = SameCounts-trans a b after h k

pub count_of-insert :
    (name other : Text) (n : ℕ) (counts : Counts)
    → count_of other (insert name n counts)
      ≡ (if text_eq name other then n else count_of other counts)
count_of-insert name other n counts = ground (arith, lookup-insert name other n counts)

-- A name that was entered and left has the count that it had.
SameCounts-leave :
    (name : Text) (counts inside : Counts) (n : ℕ)
    → n ≡ count_of name counts + 1
    → SameCounts (insert name n counts) inside
    → SameCounts counts (insert name (count_of name inside - 1) inside)
SameCounts-leave name counts inside n e same other = ground (
  arith,
  count_of-insert name other (count_of name inside - 1) inside,
  count_of-insert name other n counts,
  count_of-insert name name n counts,
  text_eq_iff name other,
  text_eq_refl name,
  same name,
  same other,
)

Restores-leave :
    (name : Text) (counts : Counts) (n : ℕ) (run : Run)
    → n ≡ count_of name counts + 1
    → Restores (insert name n counts) run
    → Restores counts (leave name run)
Restores-leave name counts n none e h = tt
Restores-leave name counts n (some (inside, r)) e h = SameCounts-leave name counts inside n e h

-- An execution leaves the counter as it finds it.
abbrev pub Keeps : Execute → Type 0
Keeps execute =
    (t : TemplateSet) (s : Script) (counts : Counts) → Restores counts (execute t s counts)

module _ (execute : Execute) (keeps : Keeps execute) where
  Restores-execute_found :
      (t : TemplateSet) (name : Text) (v : Value) (counts : Counts)
      (found : Option (Bool → Value → Script))
      → Restores counts (execute_found execute t name v counts found)
  Restores-execute_found t name v counts none = λ other. refl
  Restores-execute_found t name v counts (some body) = keeps t (body t.strict v) counts

  Restores-counted :
      (t : TemplateSet) (name : Text) (v : Value) (counts : Counts) (n : ℕ)
      → n ≡ count_of name counts + 1
      → Restores counts (counted execute t name v counts n)
  unfolding counted execute_template
  Restores-counted t name v counts n e =
      Restores-leave name counts n _ e
        (Restores-execute_found t name v (insert name n counts) (lookup name t.templates))

  Restores-include_at :
      (t : TemplateSet) (name : Text) (v : Value) (counts : Counts) (found : Option ℕ)
      → lookup name counts ≡ found
      → Restores counts (include_at execute t name v counts found)
  Restores-include_at t name v counts none e =
      Restores-counted t name v counts 1 (sym (ap (λ o. found_count o + 1) e))
  Restores-include_at t name v counts (some n) e = elim (Bool-cases (ltb recursion_max_nums n)) [
    | inl over ↦ rw over (λ other. refl)
    | inr under ↦
        rw under (Restores-counted t name v counts (n + 1) (sym (ap (λ o. found_count o + 1) e)))
  ]

  pub Restores-include_fun :
      (t : TemplateSet) (name : Text) (v : Value) (counts : Counts)
      → Restores counts (include_fun execute t name v counts)
  unfolding include_fun
  Restores-include_fun t name v counts =
      Restores-include_at t name v counts (lookup name counts) refl

  Restores-tpl_output :
      (text : Text) (counts : Counts) (run : Run)
      → Restores counts run
      → Restores counts (tpl_output text run)
  Restores-tpl_output text counts none h = tt
  Restores-tpl_output text counts (some (after, ok out)) h = h
  Restores-tpl_output text counts (some (after, err e)) h = h
  Restores-tpl_output text counts (some (after, panic)) h = h
  Restores-tpl_output text counts (some (after, exit out)) h = h

  module _ (library : TemplateLibrary) where
    Restores-tpl_execute :
        (text : Text) (v : Value) (counts : Counts) (strict : Bool)
        (r : Result (TemplateSet × (Bool → Value → Script)))
        → Restores counts (tpl_execute library execute text v counts strict r)
    Restores-tpl_execute text v counts strict (ok (t, body)) =
        Restores-tpl_output text counts _ (keeps t (body strict v) counts)
    Restores-tpl_execute text v counts strict (err e) = λ other. refl
    Restores-tpl_execute text v counts strict panic = λ other. refl
    Restores-tpl_execute text v counts strict (exit out) = λ other. refl

    Restores-tpl_in :
        (strict : Bool) (parent : TemplateSet) (text : Text) (v : Value) (counts : Counts)
        (r : Result TemplateSet)
        → Restores counts (tpl_in library execute strict parent text v counts r)
    Restores-tpl_in strict parent text v counts (ok t) =
        Restores-tpl_execute text v counts strict
          (parsed_tpl library (record t { strict = strict }) parent.name text)
    Restores-tpl_in strict parent text v counts (err e) = λ other. refl
    Restores-tpl_in strict parent text v counts panic = λ other. refl
    Restores-tpl_in strict parent text v counts (exit out) = λ other. refl

    Restores-tpl_fun :
        (strict : Bool) (parent : TemplateSet) (text : Text) (v : Value) (counts : Counts)
        → Restores counts (tpl_fun library execute strict parent text v counts)
    unfolding tpl_fun
    Restores-tpl_fun strict parent text v counts =
        Restores-tpl_in strict parent text v counts (library.clone parent)

module _ (library : TemplateLibrary) where
  Restores-behind_call :
      (counts : Counts) (on : Text → Counts → Run) (run : Run)
      → ((out : Text) (after : Counts) → Restores after (on out after))
      → Restores counts run
      → Restores counts (behind_call library on run)
  Restores-behind_call counts on none keeps h = tt
  Restores-behind_call counts on (some (after, ok out)) keeps h =
      Restores-trans counts after (on out after) h (keeps out after)
  Restores-behind_call counts on (some (after, err e)) keeps h = h
  Restores-behind_call counts on (some (after, panic)) keeps h = h
  Restores-behind_call counts on (some (after, exit out)) keeps h = h

  -- An execution of a template, with whatever includes and calls of tpl are in it and whether it ends
  -- in a text or an error, leaves the count of every name as it was.
  pub execute_script-Restores :
      (fuel : ℕ) (strict : Bool) (t : TemplateSet) (s : Script) (counts : Counts)
      → Restores counts (execute_script library fuel strict t s counts)
  unfolding execute_script
  execute_script-Restores fuel strict t (output s) counts = λ other. refl
  execute_script-Restores fuel strict t (failed e) counts = λ other. refl
  execute_script-Restores zero strict t (include name v on) counts = tt
  execute_script-Restores zero strict t (tpl text v on) counts = tt
  execute_script-Restores (suc fuel) strict t (include name v on) counts =
      Restores-behind_call counts _ _
        (λ out after. execute_script-Restores (suc fuel) strict t (on out) after)
        (Restores-include_fun (execute_script library fuel strict)
          (execute_script-Restores fuel strict) t name v counts)
  execute_script-Restores (suc fuel) strict t (tpl text v on) counts =
      Restores-behind_call counts _ _
        (λ out after. execute_script-Restores (suc fuel) strict t (on out) after)
        (Restores-tpl_fun (execute_script library fuel strict) (execute_script-Restores fuel strict)
          library strict t text v counts)
