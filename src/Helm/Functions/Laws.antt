-- ===== src/Helm/Functions/Laws.antt =====
-- What the function map of pkg/engine/helm holds for any map of sprig.
use talm.Base.{◌≡◌, refl, ◌∙◌, Bool, not, true, false, none, some, [], ◌∷◌, if◌then◌else◌, arith}
use talm.Base.Text.{Text, codes, text_eq}
use talm.Base.Text.Laws.{text_eq_iff}
use talm.Base.Dict.{Dict, lookup, insert, lookup-insert, lookup-insert_self}
use talm.Helm.Functions.{
  Function, Engine, delete, insert_all, func_map, init_fun_map, no_host, lookup_resource,
  placeholder, extra_functions, insert_if, bind_functions,
}

lookup-delete {ℓ} :
    {V : Type ℓ} (k j : Text) (m : Dict V)
    → lookup j (delete k m) ≡ (if text_eq k j then none else lookup j m)
unfolding delete lookup
lookup-delete k j [] = ground arith
lookup-delete k j ((i, v) ∷ m) =
    ground (arith, text_eq_iff k j, text_eq_iff i k, text_eq_iff i j, lookup-delete k j m)

-- The names are others than `k`.
abbrev AllOther {ℓ} : {V : Type ℓ} → Text → Dict V → Type 0
AllOther k [] = Unit
AllOther k ((j, v) ∷ m) = (text_eq j k ≡ false) × AllOther k m

lookup-insert_other {ℓ} :
    {V : Type ℓ} (k j : Text) (v : V) (m : Dict V)
    → text_eq k j ≡ false
    → lookup j (insert k v m) ≡ lookup j m
lookup-insert_other k j v m h = ground (arith, lookup-insert k j v m)

lookup-insert_if :
    (b : Bool) (k j : Text) (f : Function) (m : Dict Function)
    → text_eq k j ≡ false
    → lookup j (insert_if b k f m) ≡ lookup j m
lookup-insert_if true k j f m h = lookup-insert_other k j f m h
lookup-insert_if false k j f m h = refl

lookup-insert_all_other {ℓ} :
    {V : Type ℓ} (j : Text) (extra f : Dict V)
    → AllOther j extra
    → lookup j (insert_all extra f) ≡ lookup j f
unfolding insert_all
lookup-insert_all_other j [] f h = refl
lookup-insert_all_other j ((k, v) ∷ extra) f (first, h) =
    lookup-insert_all_other j extra (insert k v f) h ∙ lookup-insert_other k j v f first

lookup-bind_functions :
    (lint : Bool) (j : Text) (functions : Dict Function)
    → AllOther j (bind_functions false [])
    → lookup j (bind_functions lint functions) ≡ lookup j functions
unfolding insert text_eq
lookup-bind_functions lint j functions others =
    lookup-insert_if _ _ j _ _ others.1.1.1.1.0
    ∙ lookup-insert_other _ j _ _ others.1.1.1.0
    ∙ lookup-insert_other _ j _ _ others.1.1.0
    ∙ lookup-insert_other _ j _ _ others.1.0
    ∙ lookup-insert_other _ j _ _ others.0

lookup-init_fun_map :
    (e : Engine) (j : Text) (txt_func_map : Dict Function)
    → text_eq (codes "getHostByName") j ≡ false
    → lookup j (init_fun_map e txt_func_map)
      ≡ lookup j (bind_functions e.lint_mode (func_map txt_func_map))
unfolding init_fun_map
lookup-init_fun_map e j txt_func_map other = lookup-insert_if _ _ j _ _ other

lookup-func_map :
    (j : Text) (txt_func_map : Dict Function)
    → AllOther j extra_functions
    → lookup j (func_map txt_func_map)
      ≡ lookup j (delete (codes "expandenv") (delete (codes "env") txt_func_map))
unfolding func_map
lookup-func_map j m others = lookup-insert_all_other j extra_functions _ others

lookup-func_map_env :
    (txt_func_map : Dict Function) → lookup (codes "env") (func_map txt_func_map) ≡ none
unfolding text_eq
lookup-func_map_env m =
    lookup-func_map (codes "env") m (ground arith)
    ∙ lookup-delete (codes "expandenv") (codes "env") (delete (codes "env") m)
    ∙ lookup-delete (codes "env") (codes "env") m

lookup-func_map_expandenv :
    (txt_func_map : Dict Function) → lookup (codes "expandenv") (func_map txt_func_map) ≡ none
unfolding text_eq
lookup-func_map_expandenv m =
    lookup-func_map (codes "expandenv") m (ground arith)
    ∙ lookup-delete (codes "expandenv") (codes "expandenv") (delete (codes "env") m)

lookup-bind_functions-lookup :
    (lint : Bool) (txt_func_map : Dict Function)
    → lookup (codes "lookup") (bind_functions lint (func_map txt_func_map))
      ≡ (if lint then some (placeholder (codes "lookup")) else some lookup_resource)
unfolding func_map insert_all text_eq
lookup-bind_functions-lookup false m = lookup-insert_self _ _ _
lookup-bind_functions-lookup true m =
    lookup-insert_other _ _ _ _ refl
    ∙ lookup-insert_other _ _ _ _ refl
    ∙ lookup-insert_other _ _ _ _ refl
    ∙ lookup-insert_other _ _ _ _ refl
    ∙ lookup-insert_self _ _ _

lookup-host :
    (dns lint : Bool) (txt_func_map : Dict Function)
    → lookup (codes "getHostByName") (
        insert_if
          (not dns)
          (codes "getHostByName")
          no_host
          (bind_functions lint (func_map txt_func_map)))
      ≡ (if dns then lookup (codes "getHostByName") txt_func_map else some no_host)
unfolding text_eq insert
lookup-host false lint m =
    lookup-insert_self (codes "getHostByName") no_host (bind_functions lint (func_map m))
lookup-host true lint m =
    lookup-bind_functions lint (codes "getHostByName") _ (ground arith)
    ∙ lookup-func_map (codes "getHostByName") m (ground arith)
    ∙ lookup-delete (codes "expandenv") (codes "getHostByName") (delete (codes "env") m)
    ∙ lookup-delete (codes "env") (codes "getHostByName") m

-- Whatever functions sprig has and however the engine is configured, no template can call the functions
-- that read the environment; a lookup of resources asks the cluster unless the engine lints; and a host
-- name is not looked up unless the engine enables it.
pub lookup-init_fun_map_isolated :
    (e : Engine) (txt_func_map : Dict Function)
    → (lookup (codes "env") (init_fun_map e txt_func_map) ≡ none)
      × (lookup (codes "expandenv") (init_fun_map e txt_func_map) ≡ none)
      × (lookup (codes "lookup") (init_fun_map e txt_func_map)
          ≡ (if e.lint_mode then some (placeholder (codes "lookup")) else some lookup_resource))
      × (lookup (codes "getHostByName") (init_fun_map e txt_func_map)
          ≡ (if e.enable_dns then lookup (codes "getHostByName") txt_func_map else some no_host))
unfolding init_fun_map text_eq insert
lookup-init_fun_map_isolated e m = (
  lookup-init_fun_map e (codes "env") m refl
      ∙ lookup-bind_functions e.lint_mode (codes "env") _ (ground arith)
      ∙ lookup-func_map_env m,
  lookup-init_fun_map e (codes "expandenv") m refl
      ∙ lookup-bind_functions e.lint_mode (codes "expandenv") _ (ground arith)
      ∙ lookup-func_map_expandenv m,
  lookup-init_fun_map e (codes "lookup") m refl ∙ lookup-bind_functions-lookup e.lint_mode m,
  lookup-host e.enable_dns e.lint_mode m,
)
