-- ===== src/Helm/Include/Bounds.antt =====
-- How deep a template can include itself in pkg/engine/helm/engine.go.
use talm.Base.{
  subst, ℕ, zero, suc, ◌+◌, ◌≤◌, ◌<◌, ◌≡◌, refl, sym, ◌∙◌, Bool, Bool-cases, true, false, inl, inr,
  none, some, [], ◌∷◌, ltb, leb, arith, length,
}
use talm.Base.Text.{Text}
use talm.Base.Dict.{lookup, insert, lookup-insert_self}
use talm.Base.Result.{Result, ok, err, panic, exit, is_ok}
use talm.Engine.Values.{Value, text}
use talm.Helm.Include.{
  Script, output, include, TemplateSet, TemplateLibrary, Counts, Run, Execute, leave,
  execute_template, include_fun, counted, behind_call, execute_script, recursion_max_nums,
}

-- A template that includes itself with the rest of its text, as long as there is some.
abbrev pub countdown : Text → Bool → Value → Script
countdown name strict (text (c ∷ s)) = include name (text s) output
countdown name strict _ = output []

-- The execution has a result, which is a text or no text.
abbrev pub Outcome : Bool → Run → Type 0
Outcome b none = ⊥
Outcome b (some (counts, r)) = is_ok r ≡ b

Outcome-leave : (name : Text) (b : Bool) (run : Run) → Outcome b run → Outcome b (leave name run)
Outcome-leave name b none h = h
Outcome-leave name b (some (counts, r)) h = h

module _ (library : TemplateLibrary) (strict : Bool) (t : TemplateSet) (name : Text)
    (found : lookup name t.templates ≡ some (countdown name)) where
  Outcome-behind_call :
      (fuel : ℕ) (b : Bool) (run : Run)
      → Outcome b run
      → Outcome b (
          behind_call library
            (λ out after. execute_script library fuel strict t (output out) after)
            run)
  unfolding execute_script
  Outcome-behind_call fuel b none h = h
  Outcome-behind_call fuel b (some (after, ok out)) h = h
  Outcome-behind_call fuel b (some (after, err e)) h = h
  Outcome-behind_call fuel b (some (after, panic)) h = h
  Outcome-behind_call fuel b (some (after, exit out)) h = h

  Outcome-counted :
      (execute : Execute) (b : Bool) (s : Text) (counts : Counts) (n : ℕ)
      → Outcome b (execute t (countdown name t.strict (text s)) (insert name n counts))
      → Outcome b (counted execute t name (text s) counts n)
  unfolding counted execute_template
  Outcome-counted execute b s counts n h = Outcome-leave name b _ (rw found h)

  Outcome-include_fun :
      (execute : Execute) (s : Text) (counts : Counts) (n : ℕ)
      → lookup name counts ≡ some n
      → n ≤ 1001
      → (n ≤ 1000
          → Outcome
              (leb (length s + (n + 1)) 1001)
              (execute t (countdown name t.strict (text s)) (insert name (n + 1) counts)))
      → Outcome (leb (suc (length s) + n) 1001) (include_fun execute t name (text s) counts)
  unfolding include_fun
  Outcome-include_fun execute s counts n e k next =
      rw e (elim (Bool-cases (ltb recursion_max_nums n)) [
        | inl over ↦ rw over (sym (over_limit n over))
        | inr under ↦ rw under (
            subst (λ b. Outcome b (counted execute t name (text s) counts (n + 1)))
              (shifted (length s) n)
              (Outcome-counted execute _ s counts (n + 1) (next (ground arith))))
      ])
    where
      shifted : (m k : ℕ) → leb (m + (k + 1)) 1001 ≡ leb (suc m + k) 1001
      shifted m k = ground arith

      over_limit : (k : ℕ) → ltb 1000 k ≡ true → leb (suc (length s) + k) 1001 ≡ false
      over_limit k h = ground arith

  execute_script-include :
      (fuel : ℕ) (v : Value) (on : Text → Script) (counts : Counts)
      → execute_script library (suc fuel) strict t (include name v on) counts
        ≡ behind_call library
            (λ out after. execute_script library (suc fuel) strict t (on out) after)
            (include_fun (execute_script library fuel strict) t name v counts)
  unfolding execute_script
  execute_script-include fuel v on counts = refl

  Outcome-output :
      (fuel n : ℕ) (counts : Counts)
      → n ≤ 1001
      → Outcome (leb (0 + n) 1001) (execute_script library fuel strict t (output []) counts)
  unfolding execute_script
  Outcome-output fuel n counts k = ground arith

  Outcome-execute_script :
      (fuel : ℕ) (s : Text) (counts : Counts) (n : ℕ)
      → lookup name counts ≡ some n
      → n ≤ 1001
      → length s < fuel
      → Outcome
          (leb (length s + n) 1001)
          (execute_script library fuel strict t (countdown name t.strict (text s)) counts)
  Outcome-execute_script zero s counts n e k enough = absurd (omega arith)
  Outcome-execute_script (suc fuel) [] counts n e k enough = Outcome-output (suc fuel) n counts k
  Outcome-execute_script (suc fuel) (c ∷ s) counts n e k enough =
      subst (Outcome (leb (suc (length s) + n) 1001))
        (sym (execute_script-include fuel (text s) output counts))
        (Outcome-behind_call (suc fuel) _ _ (
          Outcome-include_fun (execute_script library fuel strict) s counts n e k (λ below.
            Outcome-execute_script fuel s (insert name (n + 1) counts) (n + 1)
              (lookup-insert_self name (n + 1) counts) (omega arith) (omega arith))))

  -- A template that includes itself as often as its text is long is rendered when the text has up to
  -- 1000 code points, and fails when it is longer, with the fuel that its length asks for.
  pub is_ok-include_fun :
      (fuel : ℕ) (s : Text)
      → length s < fuel
      → (counts : Counts) × (r : Result Text) × (include_fun
            (execute_script library fuel strict)
            t
            name
            (text s)
            []
          ≡ some (counts, r))
        × (is_ok r ≡ leb (length s) 1000)
  unfolding include_fun lookup
  is_ok-include_fun fuel s enough =
      ran (counted (execute_script library fuel strict) t name (text s) [] 1) (
        Outcome-counted (execute_script library fuel strict) (leb (length s + 1) 1001) s [] 1 (
          Outcome-execute_script fuel s (insert name 1 []) 1 (lookup-insert_self name 1 [])
            (omega arith) enough))
    where
      one_less : (m : ℕ) → leb (m + 1) 1001 ≡ leb m 1000
      one_less m = ground arith

      ran :
          (run : Run)
          → Outcome (leb (length s + 1) 1001) run
          → (counts : Counts) × (r : Result Text) × (run ≡ some (counts, r))
            × (is_ok r ≡ leb (length s) 1000)
      ran none h = absurd h
      ran (some (counts, r)) h = (counts, r, refl, h ∙ one_less (length s))
