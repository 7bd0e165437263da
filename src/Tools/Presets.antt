-- ===== src/Tools/Presets.antt =====
-- tools/generate_presets.go: the Go source that holds the charts as presets. The formatter go/format is
-- a parameter; what ends the process with log.Fatal is an error.
pub mod Strings
pub mod Order
pub mod Source
use talm.Base.{
  ℕ, zero, suc, ◌==◌, Bool, true, false, not, ◌||◌, Option, none, some, List, [], ◌∷◌, ◌++◌,
  if◌then◌else◌, map,
}
use talm.Base.Text.{Text, codes, text_eq, strip_prefix}
use talm.Helm.Sort.{text_lt}
use talm.Base.Dict.{Dict, lookup, insert}
use talm.Base.Result.{Result, ok, ◌>>=◌}

unfoldable pub insert_string : Text → List Text → List Text
unfolding text_lt
insert_string k [] = k ∷ []
insert_string k (j ∷ keys) =
    let later = insert_string k keys in if text_lt j k then j ∷ later else k ∷ j ∷ keys

-- `sort.Strings`
unfoldable pub sort_strings : List Text → List Text
unfolding insert_string
sort_strings [] = []
sort_strings (k ∷ keys) = insert_string k (sort_strings keys)

-- A back quote ends a raw string: it is written as a string of its own.
unfoldable pub escaped_content : Text → Text
escaped_content [] = []
escaped_content (c ∷ s) =
    let rest = escaped_content s in if c == b'`' then codes "` + \"`\" + `" ++ rest else c ∷ rest

unfoldable pub preset_entry : Text → Text → Text
unfolding escaped_content
preset_entry key content =
    codes "    \"" ++ (key ++ (codes "\": `" ++ (escaped_content content ++ codes "`,\n")))

abbrev pub content_of : Dict Text → Text → Text
content_of files key = elim (lookup key files) [ none ↦ [] | some content ↦ content ]

unfoldable pub preset_entries : Dict Text → List Text → Text
unfolding preset_entry
preset_entries files [] = []
preset_entries files (key ∷ keys) =
    preset_entry key (content_of files key) ++ preset_entries files keys

-- The names for which the test holds, in their order.
unfoldable pub preset_names : (Text → Bool) → List Text → Text
preset_names test [] = []
preset_names test (name ∷ names) =
    let rest = preset_names test names in
    if test name then codes "    \"" ++ (name ++ (codes "\",\n" ++ rest)) else rest

abbrev pub file_key : Text × Text → Text
file_key (k, content) = k

abbrev pub is_generic : Text → Bool
is_generic name = text_eq name (codes "generic")

unfoldable pub generated_source : Dict Text → List Text → Text
unfolding preset_entries preset_names sort_strings
generated_source files chart_names =
    codes "package generated\n\n"
    ++ (codes "var PresetFiles = map[string]string{\n"
        ++ (preset_entries files (sort_strings (map file_key files))
            ++ (codes "}\n\n"
                ++ (codes "var AvailablePresets = []string{\n"
                    ++ (preset_names is_generic chart_names
                        ++ (preset_names (λ name. not (is_generic name)) chart_names
                            ++ codes "}\n"))))))

-- The file that is written.
unfoldable pub generate_code :
    (Text → Result Text) → (Text → Result (Unit {0})) → Dict Text → List Text → Result (Unit {0})
unfolding generated_source
generate_code format_source write_file files chart_names =
    format_source (generated_source files chart_names) >>= write_file

-- White space of a regular expression.
abbrev is_re_space : ℕ → Bool
is_re_space c = c == 9 || c == 10 || c == 12 || c == 13 || c == 32

abbrev starts_word : Option Text → Bool
starts_word none = false
starts_word (some []) = false
starts_word (some (c ∷ s)) = not (is_re_space c)

-- What is done with the text ahead: it is copied, dropped for some code points and then up to the next
-- space, or dropped up to there.
pub data Mode : Type 0 where
  copy : Mode
  drop : ℕ → Mode

-- `regexp.MustCompile("(name|version): \S+").ReplaceAll(content, "$1: %s")`
unfoldable pub chart_template : Mode → Text → Text
unfolding strip_prefix
chart_template mode [] = []
chart_template (drop (suc n)) (c ∷ s) = chart_template (drop n) s
chart_template (drop zero) (c ∷ s) = elim (is_re_space c) [
  | true ↦ c ∷ chart_template copy s
  | false ↦ chart_template (drop zero) s
]
chart_template copy (c ∷ s) = elim (starts_word (strip_prefix (codes "name: ") (c ∷ s))) [
  | true ↦ codes "name: %s" ++ chart_template (drop 5) s
  | false ↦ elim (starts_word (strip_prefix (codes "version: ") (c ∷ s))) [
    | true ↦ codes "version: %s" ++ chart_template (drop 8) s
    | false ↦ c ∷ chart_template copy s
  ]
]

-- The directory tree under charts/, in the order of filepath.Walk.
mutual
  pub data Node : Type 0 where
    file : Text → Result Text → Node
    symlink : Text → Node
    directory : Text → Nodes → Node

  pub data Nodes : Type 0 where
    no_nodes : Nodes
    node : Node → Nodes → Nodes

-- `filesMap` and `chartNames`
pub record Found : Type 0 where
  pub files : Dict Text
  pub chart_names : List Text

-- The path below `dir`, which is empty at the top.
abbrev below : Text → Text → Text
below [] name = name
below (c ∷ dir) name = (c ∷ dir) ++ b'/' ∷ name

abbrev file_content : Text → Text → Text
file_content name content =
    if text_eq name (codes "Chart.yaml") then chart_template copy content else content

-- A directory right below charts/ is a chart; the library is no preset.
abbrev found_directory : Text → Text → Found → Found
found_directory [] name found =
    if text_eq name (codes "talm")
    then found
    else record found { chart_names = found.chart_names ++ name ∷ [] }
found_directory (c ∷ dir) name found = found

-- A symbolic link ends the walk of its directory.
unfoldable pub walk : Text → Nodes → Found → Result Found
unfolding insert chart_template
walk dir no_nodes found = ok found
walk dir (node (symlink name) nodes) found = ok found
walk dir (node (file name content) nodes) found = content >>= λ c.
    walk dir nodes
      (record found { files = insert (below dir name) (file_content name c) found.files })
walk dir (node (directory name inside) nodes) found =
    walk (below dir name) inside (found_directory dir name found) >>= λ walked.
    walk dir nodes walked
