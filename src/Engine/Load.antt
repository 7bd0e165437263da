-- ===== src/Engine/Load.antt =====
-- loadValues. Files, the YAML and JSON decoders into a map, and Helm's strvals are parameters:
-- strvals changes the map in place, so here it returns the changed map.
pub mod Laws
use talm.Modeline.Generate.{body}
use talm.Yaml.{content}
use talm.Base.Result.{wrap, ◌>>=◌, ok, Result}
use talm.Base.Text.{Text}
use talm.Base.{List, [], ◌∷◌, ◌++◌}
use talm.Engine.Values.{Fields, end, merge_maps}

-- The options that loadValues reads.
pub record ValueOptions : Type 0 where
  pub value_files : List Text
  pub json_values : List Text
  pub values : List Text
  pub string_values : List Text
  pub file_values : List Text
  pub literal_values : List Text

pub record Sources : Type 0 where
  pub read_file : Text → Result Text
  pub unmarshal_yaml : Text → Result Fields
  pub unmarshal_json : Text → Result Fields
  pub parse_into : Text → Fields → Result Fields
  pub parse_into_string : Text → Fields → Result Fields

-- A loop `for _, value := range values` that changes the base map.
unfoldable pub each : (Text → Fields → Result Fields) → List Text → Fields → Result Fields
each body [] base = ok base
each body (v ∷ vs) base = body v base >>= each body vs

module _ (s : Sources) where
  unfoldable pub value_file : Text → Fields → Result Fields
  value_file path base = do
    content ← wrap "failed to read values file %s: %w" (path ∷ []) (s.read_file path)
    current ←
        wrap "failed to unmarshal values from file %s: %w" (path ∷ []) (s.unmarshal_yaml content)
    ok (merge_maps base current)

  unfoldable pub json_value : Text → Fields → Result Fields
  json_value v base = do
    current ← wrap "failed to unmarshal JSON value '%s': %w" (v ∷ []) (s.unmarshal_json v)
    ok (merge_maps base current)

  unfoldable pub set_value : Text → Fields → Result Fields
  set_value v base = wrap "failed to parse set value '%s': %w" (v ∷ []) (s.parse_into v base)

  unfoldable pub string_value : Text → Fields → Result Fields
  string_value v base =
      wrap "failed to parse set-string value '%s': %w" (v ∷ []) (s.parse_into_string v base)

  -- The file that is read has the whole value for its name.
  unfoldable pub file_value : Text → Fields → Result Fields
  file_value v base = do
    content ← wrap "failed to read file for set-file value '%s': %w" (v ∷ []) (s.read_file v)
    wrap "failed to parse set-file value '%s': %w" (v ∷ [])
        (s.parse_into (v ++ b'=' ∷ content) base)

  unfoldable pub literal_value : Text → Fields → Result Fields
  literal_value v base =
      wrap "failed to parse set-literal value '%s': %w" (v ∷ []) (s.parse_into v base)

  unfoldable pub load_values : ValueOptions → Result Fields
  unfolding each value_file json_value set_value string_value file_value literal_value
  load_values o = do
    files ← each value_file o.value_files end
    jsons ← each json_value o.json_values files
    sets ← each set_value o.values jsons
    strings ← each string_value o.string_values sets
    set_files ← each file_value o.file_values strings
    each literal_value o.literal_values set_files
