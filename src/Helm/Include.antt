-- ===== src/Helm/Include.antt =====
-- includeFun and tplFun of pkg/engine/helm/engine.go: the functions by which templates execute
-- templates, with the counter that bounds nested includes. The parser and the cloning of template sets
-- are parameters, and so is what a template does between two calls.
pub mod Laws
pub mod Termination
pub mod Bounds
use talm.Base.{ℕ, zero, suc, ◌+◌, ◌-◌, Bool, Option, none, some, [], ◌∷◌, if◌then◌else◌, ltb}
use talm.Base.Text.{Text}
use talm.Base.Dict.{Dict, lookup, insert}
use talm.Base.Result.{Result, Error, ok, err, panic, exit, errorf, wrapped, wrap}
use talm.Engine.Values.{Value}
use talm.Helm.Render.{remove_no_value}

-- What executing a template does: it gives its text, fails, or calls a function and goes on with the
-- text that the function returns.
pub data Script : Type 0 where
  output : Text → Script
  failed : Error → Script
  include : Text → Value → (Text → Script) → Script
  tpl : Text → Value → (Text → Script) → Script

-- `*template.Template`: its name, whether a missing key is an error, and the templates that are
-- associated with it, which take that option and the data.
pub record TemplateSet : Type 0 where
  pub name : Text
  pub strict : Bool
  pub templates : Dict (Bool → Value → Script)

-- text/template: `parse` is `t.New(name).Parse(text)`, which gives the set behind it and the parsed
-- template; `error_calling` is the error of a template whose call of a function failed.
pub record TemplateLibrary : Type 0 where
  pub clone : TemplateSet → Result TemplateSet
  pub parse : TemplateSet → Text → Text → Result (TemplateSet × (Bool → Value → Script))
  pub error_calling : Error → Error

-- `includedNames`
abbrev pub Counts : Type 0
Counts = Dict ℕ

abbrev pub recursion_max_nums : ℕ
recursion_max_nums = 1000

-- `none` when the fuel ran out.
abbrev pub Run : Type 0
Run = Option (Counts × Result Text)

-- How a template is executed in a set.
abbrev pub Execute : Type 0
Execute = TemplateSet → Script → Counts → Run

abbrev pub found_count : Option ℕ → ℕ
found_count none = 0
found_count (some n) = n

abbrev pub count_of : Text → Counts → ℕ
count_of name counts = found_count (lookup name counts)

-- `includedNames[name]--`
abbrev pub leave : Text → Run → Run
leave name none = none
leave name (some (counts, result)) = some (insert name (count_of name counts - 1) counts, result)

abbrev pub execute_found :
    Execute → TemplateSet → Text → Value → Counts → Option (Bool → Value → Script) → Run
execute_found execute t name v counts none = some (
  counts,
  err (errorf "template: no template %q associated with template %q" (name ∷ t.name ∷ [])),
)
execute_found execute t name v counts (some body) = execute t (body t.strict v) counts

-- `t.ExecuteTemplate(&buf, name, data)`
unfoldable pub execute_template : Execute → TemplateSet → Text → Value → Counts → Run
execute_template execute t name v counts =
    execute_found execute t name v counts (lookup name t.templates)

abbrev pub nested_reference : Text → Error
nested_reference name =
    wrapped "rendering template has a nested reference name: %s: %s" (name ∷ [])
      (errorf "unable to execute template" [])

-- The template is executed with its count, which goes down behind it.
unfoldable pub counted : Execute → TemplateSet → Text → Value → Counts → ℕ → Run
unfolding execute_template
counted execute t name v counts n =
    leave name (execute_template execute t name v (insert name n counts))

-- By the count that the name has.
abbrev pub include_at : Execute → TemplateSet → Text → Value → Counts → Option ℕ → Run
include_at execute t name v counts none = counted execute t name v counts 1
include_at execute t name v counts (some n) =
    if ltb recursion_max_nums n
    then some (counts, err (nested_reference name))
    else counted execute t name v counts (n + 1)

unfoldable pub include_fun : Execute → TemplateSet → Text → Value → Counts → Run
unfolding counted
include_fun execute t name v counts = include_at execute t name v counts (lookup name counts)

abbrev pub tpl_output : Text → Run → Run
tpl_output text none = none
tpl_output text (some (counts, ok out)) = some (counts, ok (remove_no_value 0 out))
tpl_output text (some (counts, r)) =
    some (counts, wrap "error during tpl function execution for %q: %s" (text ∷ []) r)

module _ (library : TemplateLibrary) where
  abbrev pub parsed_tpl : TemplateSet → Text → Text → Result (TemplateSet × (Bool → Value → Script))
  parsed_tpl t name text =
      wrap "cannot parse template %q: %s" (text ∷ []) (library.parse t name text)

  abbrev pub tpl_execute :
      Execute → Text → Value → Counts → Bool → Result (TemplateSet × (Bool → Value → Script)) → Run
  tpl_execute execute text v counts strict (ok (t, body)) =
      tpl_output text (execute t (body strict v) counts)
  tpl_execute execute text v counts strict (err e) = some (counts, err e)
  tpl_execute execute text v counts strict panic = some (counts, panic)
  tpl_execute execute text v counts strict (exit out) = some (counts, exit out)

  abbrev pub tpl_in :
      Execute → Bool → TemplateSet → Text → Value → Counts → Result TemplateSet → Run
  tpl_in execute strict parent text v counts (ok t) =
      tpl_execute execute text v counts strict
        (parsed_tpl (record t { strict = strict }) parent.name text)
  tpl_in execute strict parent text v counts (err e) =
      some (counts, err (wrapped "cannot clone template: %s" [] e))
  tpl_in execute strict parent text v counts panic = some (counts, panic)
  tpl_in execute strict parent text v counts (exit out) = some (counts, exit out)

  -- The clone gets the option again, by the engine's configuration.
  unfoldable pub tpl_fun : Execute → Bool → TemplateSet → Text → Value → Counts → Run
  tpl_fun execute strict parent text v counts =
      tpl_in execute strict parent text v counts (library.clone parent)

  -- The template behind a call of a function.
  abbrev pub behind_call : (Text → Counts → Run) → Run → Run
  behind_call on none = none
  behind_call on (some (after, ok out)) = on out after
  behind_call on (some (after, err e)) = some (after, err (library.error_calling e))
  behind_call on (some (after, panic)) = some (after, panic)
  behind_call on (some (after, exit out)) = some (after, exit out)

  -- The execution of a template, nested calls on less fuel.
  unfoldable pub execute_script : ℕ → Bool → Execute
  unfolding include_fun tpl_fun
  execute_script fuel strict t (output s) counts = some (counts, ok s)
  execute_script fuel strict t (failed e) counts = some (counts, err e)
  execute_script zero strict t (include name v on) counts = none
  execute_script zero strict t (tpl text v on) counts = none
  execute_script (suc fuel) strict t (include name v on) counts =
      behind_call (λ out after. execute_script (suc fuel) strict t (on out) after)
        (include_fun (execute_script fuel strict) t name v counts)
  execute_script (suc fuel) strict t (tpl text v on) counts =
      behind_call (λ out after. execute_script (suc fuel) strict t (on out) after)
        (tpl_fun (execute_script fuel strict) strict t text v counts)
