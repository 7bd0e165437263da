-- ===== src/Helm/Files.antt =====
-- pkg/engine/helm/files.go: the files of a chart, as templates get them. The glob library, the YAML
-- encoder behind toYAML and base64 are parameters; bytes are the code points of a text.
pub mod Laws
use talm.Base.{ℕ, ◌==◌, Bool, Option, none, some, List, [], ◌∷◌, if◌then◌else◌}
use talm.Base.Text.{Text}
use talm.Base.Dict.{Dict, lookup, insert}
use talm.Base.FilePath.{base, split}
use talm.Base.Result.{◌>>=◌, Result, ok, panic, or_panic}

-- `chart.File`, whose data may be nil.
pub record ChartFile : Type 0 where
  pub name : Text
  pub contents : Option Text

abbrev pub Files : Type 0
Files = Dict (Option Text)

unfoldable pub new_files_from : Files → List ChartFile → Files
new_files_from files [] = files
new_files_from files (f ∷ from) = new_files_from (insert f.name f.contents files) from

unfoldable pub new_files : List ChartFile → Files
unfolding new_files_from
new_files from = new_files_from [] from

-- Nil or missing data is no text.
abbrev pub data_text : Option (Option Text) → Text
data_text (some (some s)) = s
data_text _ = []

unfoldable pub get : Text → Files → Text
get name f = data_text (lookup name f)

unfoldable pub glob_with : (Text → Bool) → Files → Files
glob_with matches [] = []
glob_with matches ((name, contents) ∷ f) =
    let rest = glob_with matches f in if matches name then (name, contents) ∷ rest else rest

-- `compile` gets a pattern and its separators.
unfoldable pub glob : (Text → List ℕ → Option (Text → Bool)) → Text → Files → Result Files
unfolding glob_with
glob compile pattern f = elim (compile pattern (b'/' ∷ [])) [
  | some matches ↦ ok (glob_with matches f)
  | none ↦ or_panic (compile (b'*' ∷ b'*' ∷ []) []) >>= λ matches. ok (glob_with matches f)
]

unfoldable pub by_base : (Text → Text) → Dict Text → Files → Dict Text
by_base encode m [] = m
by_base encode m ((name, contents) ∷ f) =
    by_base encode (insert (base name) (encode (data_text (some contents))) m) f

unfoldable pub as_config : (Dict Text → Text) → Files → Text
unfolding by_base
as_config to_yaml f = to_yaml (by_base (λ s. s) [] f)

unfoldable pub as_secrets : (Text → Text) → (Dict Text → Text) → Files → Text
unfolding by_base
as_secrets base64 to_yaml f = to_yaml (by_base base64 [] f)

-- The text without a newline at its end.
unfoldable pub drop_newline : Text → Text
drop_newline [] = []
drop_newline (c ∷ []) = if c == 10 then [] else c ∷ []
drop_newline (c ∷ d ∷ s) = c ∷ drop_newline (d ∷ s)

-- The last byte of an empty file is out of range.
abbrev pub lines_of : Option (Option Text) → Result (List Text)
lines_of (some (some [])) = panic
lines_of (some (some (c ∷ s))) = ok (split 10 (drop_newline (c ∷ s)))
lines_of _ = ok []

unfoldable pub lines : Text → Files → Result (List Text)
unfolding drop_newline split
lines path f = lines_of (lookup path f)
