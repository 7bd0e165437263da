-- ===== src/Helm/Functions.antt =====
-- The functions that templates can call: pkg/engine/helm/funcs.go and initFunMap of engine.go. The maps
-- of package sprig and the codecs are parameters.
pub mod Data
pub mod Laws
pub mod Warning
pub mod Required
use talm.Base.{Bool, true, false, not, [], ◌∷◌, ◌++◌, if◌then◌else◌, is_nil}
use talm.Base.Text.{Text, codes, text_eq}
use talm.Base.Dict.{Dict, lookup, insert}
use talm.Base.Result.{Error, Result, ok, err, errorf}
use talm.Engine.Values.{Value, null, text}

-- What a name of the function map stands for: a function of sprig, one of funcs.go, a placeholder of
-- funcMap, or a function that initFunMap binds.
pub data Function : Type 0 where
  sprig : Text → Function
  to_toml to_yaml from_yaml from_yaml_array to_json from_json from_json_array : Function
  placeholder : Text → Function
  include tpl required fail lookup_resource no_host : Function

-- `delete(m, k)`
unfoldable pub delete {ℓ} : {V : Type ℓ} → Text → Dict V → Dict V
delete k [] = []
delete k ((j, v) ∷ m) = let rest = delete k m in if text_eq j k then rest else (j, v) ∷ rest

-- `for k, v := range extra { f[k] = v }`
unfoldable pub insert_all {ℓ} : {V : Type ℓ} → Dict V → Dict V → Dict V
insert_all [] f = f
insert_all ((k, v) ∷ extra) f = insert_all extra (insert k v f)

abbrev pub extra_functions : Dict Function
extra_functions =
    (codes "toToml", to_toml)
    ∷ (codes "toYaml", to_yaml)
    ∷ (codes "fromYaml", from_yaml)
    ∷ (codes "fromYamlArray", from_yaml_array)
    ∷ (codes "toJson", to_json)
    ∷ (codes "fromJson", from_json)
    ∷ (codes "fromJsonArray", from_json_array)
    ∷ (codes "include", placeholder (codes "include"))
    ∷ (codes "tpl", placeholder (codes "tpl"))
    ∷ (codes "required", placeholder (codes "required"))
    ∷ (codes "lookup", placeholder (codes "lookup"))
    ∷ []

unfoldable pub func_map : Dict Function → Dict Function
unfolding delete insert_all
func_map txt_func_map =
    insert_all extra_functions (delete (codes "expandenv") (delete (codes "env") txt_func_map))

-- `Engine`
pub record Engine : Type 0 where
  pub strict : Bool
  pub lint_mode : Bool
  pub enable_dns : Bool

abbrev pub insert_if : Bool → Text → Function → Dict Function → Dict Function
insert_if b name f functions = if b then insert name f functions else functions

-- The functions that are bound whatever the engine's configuration, and the lookup of resources.
abbrev pub bind_functions : Bool → Dict Function → Dict Function
bind_functions lint_mode functions = insert_if (not lint_mode) (codes "lookup") lookup_resource (
    insert (codes "fail") fail (
      insert (codes "required") required
        (insert (codes "tpl") tpl (insert (codes "include") include functions))))

unfoldable pub init_fun_map : Engine → Dict Function → Dict Function
unfolding func_map
init_fun_map e txt_func_map =
    insert_if (not e.enable_dns) (codes "getHostByName") no_host
      (bind_functions e.lint_mode (func_map txt_func_map))

unfoldable pub warn_wrap : Text → Text
warn_wrap warn = codes "HELM_ERR_START" ++ warn ++ codes "HELM_ERR_END"

-- A required value is missing when it is nil or an empty string.
unfoldable pub is_missing : Value → Bool
is_missing null = true
is_missing (text s) = is_nil s
is_missing _ = false

-- `errors.Errorf(warnWrap(warn))`: the message is a format without arguments, which is a parameter.
unfoldable pub required_value : (Text → Error) → Engine → Text → Value → Result Value
unfolding is_missing warn_wrap
required_value errorf_format e warn val =
    if is_missing val
    then if e.lint_mode then ok (text []) else err (errorf_format (warn_wrap warn))
    else ok val

unfoldable pub fail_template : Engine → Text → Result Text
unfolding warn_wrap
fail_template e msg = if e.lint_mode then ok [] else err (errorf "%s" (warn_wrap msg ∷ []))
