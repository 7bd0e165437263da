-- ===== src/Engine/Load/Laws.antt =====
-- The order of the sources, and the first failure.
use mathlib.Core.Path.{fun_ext}
use talm.Engine.Values.Laws.{get_path-merge_maps_override, IsMap, get_path, is_table}
use talm.Yaml.{content}
use talm.Base.Result.{wrap-eq-ok, ok_injective, >>=_assoc, >>=-eq-ok, ok, ◌>>=◌, Result}
use talm.Base.Text.{Text}
use talm.Base.{subst, sym, ap, ◌∙◌, refl, false, some, [], ◌∷◌, ◌≡◌, List, ◌++◌}
use talm.Engine.Values.{Value, Fields, end, merge_maps}
use talm.Engine.Load.{
  ValueOptions, Sources, each, value_file, json_value, set_value, literal_value, load_values,
}

each-append :
    (body : Text → Fields → Result Fields) (xs ys : List Text) (base : Fields)
    → each body (xs ++ ys) base ≡ (each body xs base >>= each body ys)
unfolding each
each-append body [] ys base = refl
each-append body (x ∷ xs) ys base =
    ap (λ (f : Fields → Result Fields). body x base >>= f) (fun_ext (each-append body xs ys))
    ∙ sym (>>=_assoc (body x base) (each body xs) (each body ys))

-- A loop whose body succeeds where another does has the result of that other loop.
each-transfer :
    (f g : Text → Fields → Result Fields)
    → ((v : Text) (b x : Fields) → f v b ≡ ok x → g v b ≡ ok x)
    → (vs : List Text) (base : Fields) {r : Fields} → each f vs base ≡ ok r
    → each g vs base ≡ ok r
unfolding each
each-transfer f g t [] base h = h
each-transfer f g t (v ∷ vs) base h =
    let (b, e, h') = >>=-eq-ok (f v base) (each f vs) h in
    rw (t v base b e) (each-transfer f g t vs b h')

-- Options with values files alone.
abbrev pub only_files : List Text → ValueOptions
only_files files = record {
  value_files = files;
  json_values = [];
  values = [];
  string_values = [];
  file_values = [];
  literal_values = [];
}

value_file-ok :
    (s : Sources) (file content : Text) (m base : Fields)
    → s.read_file file ≡ ok content
    → s.unmarshal_yaml content ≡ ok m
    → value_file s file base ≡ ok (merge_maps base m)
unfolding value_file
value_file-ok s file content m base e u = rw (e, u)

-- A loop ends with what its last round makes.
each-last :
    (f : Text → Fields → Result Fields) (vs : List Text) (v : Text) (base : Fields) {r : Fields}
    → each f (vs ++ v ∷ []) base ≡ ok r
    → (b : Fields) × (f v b ≡ ok r)
unfolding each
each-last f vs v base {r} h =
    let (b, _, last) =
      >>=-eq-ok (each f vs base) (each f (v ∷ []))
        (subst (λ (x : Result Fields). x ≡ ok r) (each-append f vs (v ∷ []) base) h) in
    let (c, e, same) = >>=-eq-ok (f v b) ok last in (b, e ∙ same)

-- The last values file wins: if values come from files alone and are loaded, they have each value
-- of the last file that is no map, at any path.
pub load_values-last_file :
    (s : Sources) (files : List Text) (file content k : Text) (path : List Text) (m : Fields)
    (v : Value) {r : Fields}
    → load_values s (only_files (files ++ file ∷ [])) ≡ ok r
    → s.read_file file ≡ ok content
    → s.unmarshal_yaml content ≡ ok m
    → IsMap m
    → get_path k path m ≡ some v
    → is_table v ≡ false
    → get_path k path r ≡ some v
unfolding load_values each
load_values-last_file s files file content k path m v h e u i g t =
    let (b, loaded, same) = >>=-eq-ok (each (value_file s) (files ++ file ∷ []) end) ok h in
    let (a, last) = each-last (value_file s) files file end loaded in
    let merge = sym (value_file-ok s file content m a e u) ∙ last ∙ same in
    subst (λ (x : Fields). get_path k path x ≡ some v) (ok_injective _ _ merge)
      (get_path-merge_maps_override path k a m v i g t)

set_of_literal :
    (s : Sources) (v : Text) (b x : Fields) → literal_value s v b ≡ ok x → set_value s v b ≡ ok x
unfolding literal_value set_value
set_of_literal s v b x h = (wrap-eq-ok _ _ _).1 ((wrap-eq-ok _ _ _).0 h)

-- Options with values of `--set` and `--set-literal` behind any files and JSON values.
abbrev pub set_options : List Text → List Text → List Text → List Text → ValueOptions
set_options files jsons sets literals = record {
  value_files = files;
  json_values = jsons;
  values = sets;
  string_values = [];
  file_values = [];
  literal_values = literals;
}

-- `--set-literal` is `--set`: literal values that are loaded without string and file values give
-- what the same values give behind those of `--set`, whatever strvals reads into them.
pub load_values-literal_values :
    (s : Sources) (files jsons sets literals : List Text) {r : Fields}
    → load_values s (set_options files jsons sets literals) ≡ ok r
    → load_values s (set_options files jsons (sets ++ literals) []) ≡ ok r
unfolding load_values each
load_values-literal_values s files jsons sets literals h =
    let (b, e, h₁) = >>=-eq-ok (each (value_file s) files end) _ h in
    let (c, f, h₂) = >>=-eq-ok (each (json_value s) jsons b) _ h₁ in
    let (d, g, h₃) = >>=-eq-ok (each (set_value s) sets c) _ h₂ in
    let again = each-transfer (literal_value s) (set_value s) (set_of_literal s) literals d h₃ in
    rw (e, f, each-append, g, again)
