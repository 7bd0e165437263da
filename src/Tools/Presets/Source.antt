-- ===== src/Tools/Presets/Source.antt =====
-- The generated source of tools/generate_presets.go, read back as the Go compiler reads it.
use talm.Base.{
  ℕ, zero, suc, ◌<◌, ◌≡◌, refl, ap, ◌∙◌, Bool, true, ◌&&◌, Option, none, some, List, [], ◌∷◌, ◌++◌,
  map, length, arith, append_assoc, All, Bool-cases, inl, inr, subst, sym,
}
use talm.Base.Text.{Text, text_eq, codes, strip_prefix}
use talm.Base.Dict.{Dict, lookup}
use talm.Base.Text.Laws.{text_eq_refl}
use mathlib.Core.List.{Permᴰ}
use talm.Helm.Sort.Order.{IsAscending}
use talm.Tools.Presets.Order.{sort_strings-IsAscending, sort_strings-perm, All-sort_strings}
use talm.Tools.Presets.{
  escaped_content, preset_entry, preset_entries, content_of, file_key, sort_strings, insert_string,
  generated_source,
}
use talm.Tools.Presets.Strings.{
  Place, raw, quoted, read_string, without_returns, is_plain_key, read_string-escaped_content,
  read_string-key,
}

abbrev pub Entry : Type 0
Entry = Text × Text

-- Between a string and what stands behind it.
abbrev behind : Text → Option (Text × Text) → Option (Text × Text)
behind p none = none
behind p (some (value, s)) = elim (strip_prefix p s) [
  | none ↦ none
  | some rest ↦ some (value, rest)
]

abbrev string_behind : Place → Text → Text → Text → Option (Text × Text)
string_behind place before after s = elim (strip_prefix before s) [
  | none ↦ none
  | some rest ↦ behind after (read_string place rest)
]

abbrev entry_value : Text → Option (Text × Text) → Option (Entry × Text)
entry_value key none = none
entry_value key (some (content, rest)) = some ((key, content), rest)

abbrev entry_behind : Option (Text × Text) → Option (Entry × Text)
entry_behind none = none
entry_behind (some (key, s)) = entry_value key (string_behind raw (codes " `") (codes ",\n") s)

-- One line of the map literal.
unfoldable pub read_entry : Text → Option (Entry × Text)
unfolding read_string strip_prefix
read_entry s = entry_behind (string_behind quoted (codes "    \"") (codes ":") s)

read_entry-preset_entry :
    (key content rest : Text)
    → is_plain_key key ≡ true
    → read_entry (preset_entry key content ++ rest) ≡ some ((key, without_returns content), rest)
unfolding read_entry preset_entry strip_prefix
read_entry-preset_entry key content rest plain =
    let line_end = escaped_content content ++ codes "`,\n" in
    ap (λ s. entry_behind (behind (codes ":") (read_string quoted s)))
      (append_assoc key (codes "\": `" ++ line_end) rest)
    ∙ ap (λ o. entry_behind (behind (codes ":") o))
        (read_string-key key (codes " `" ++ (line_end ++ rest)) plain)
    ∙ ap (λ s. entry_value key (behind (codes ",\n") (read_string raw s)))
        (append_assoc (escaped_content content) (codes "`,\n") rest)
    ∙ ap (λ o. entry_value key (behind (codes ",\n") o))
        (read_string-escaped_content content (10 ∷ rest))

abbrev push_entry : Entry → Option (List Entry) → Option (List Entry)
push_entry entry none = none
push_entry entry (some entries) = some (entry ∷ entries)

abbrev then_more : Option (Entry × Text) → (Text → Option (List Entry)) → Option (List Entry)
then_more none more = none
then_more (some (entry, s)) more = push_entry entry (more s)

-- The lines of the map literal up to its closing brace, on fuel.
unfoldable pub read_entries : ℕ → Text → Option (List Entry)
unfolding read_entry
read_entries zero s = none
read_entries (suc fuel) s = elim (strip_prefix (codes "}\n") s) [
  | some rest ↦ some []
  | none ↦ then_more (read_entry s) (read_entries fuel)
]

-- The map that the generated source declares.
unfoldable pub read_presets : ℕ → Text → Option (List Entry)
unfolding read_entries
read_presets fuel s =
    elim (strip_prefix (codes "package generated\n\nvar PresetFiles = map[string]string{\n") s) [
      | none ↦ none
      | some rest ↦ read_entries fuel rest
    ]

abbrev pub all_plain : List Text → Bool
all_plain [] = true
all_plain (key ∷ keys) = is_plain_key key && all_plain keys

abbrev compiled : Dict Text → Text → Entry
compiled files key = (key, without_returns (content_of files key))

read_entries-preset_entries :
    (files : Dict Text) (keys : List Text) (rest : Text) (fuel : ℕ)
    → all_plain keys ≡ true
    → length keys < fuel
    → read_entries fuel (preset_entries files keys ++ (codes "}\n" ++ rest))
      ≡ some (map (compiled files) keys)
unfolding read_entries preset_entries
read_entries-preset_entries files keys rest zero plain enough = absurd (omega arith)
read_entries-preset_entries files [] rest (suc fuel) plain enough = refl
read_entries-preset_entries files (key ∷ keys) rest (suc fuel) plain enough =
    let content = content_of files key in
    let end = codes "}\n" ++ rest in
    ap (λ s. then_more (read_entry s) (read_entries fuel))
      (append_assoc (preset_entry key content) (preset_entries files keys) end)
    ∙ ap (λ e. then_more e (read_entries fuel))
        (read_entry-preset_entry key content (preset_entries files keys ++ end) (ground arith))
    ∙ ap (push_entry (compiled files key))
        (read_entries-preset_entries files keys rest fuel (ground arith) (omega arith))

all_plain-insert_string :
    (key : Text) (keys : List Text)
    → is_plain_key key ≡ true
    → all_plain keys ≡ true
    → all_plain (insert_string key keys) ≡ true
unfolding insert_string
all_plain-insert_string key [] first h = ground arith
all_plain-insert_string key (k ∷ keys) first h =
    ground (arith, all_plain-insert_string key keys first)

all_plain-sort_strings :
    (keys : List Text) → all_plain keys ≡ true → all_plain (sort_strings keys) ≡ true
unfolding sort_strings
all_plain-sort_strings [] h = refl
all_plain-sort_strings (key ∷ keys) h =
    all_plain-insert_string key (sort_strings keys) (ground arith)
      (all_plain-sort_strings keys (ground arith))

length-insert_string :
    (key : Text) (keys : List Text) → length (insert_string key keys) ≡ suc (length keys)
unfolding insert_string
length-insert_string key [] = refl
length-insert_string key (k ∷ keys) = ground (arith, length-insert_string key keys)

length-sort_strings : (keys : List Text) → length (sort_strings keys) ≡ length keys
unfolding sort_strings
length-sort_strings [] = refl
length-sort_strings (key ∷ keys) =
    length-insert_string key (sort_strings keys) ∙ ap suc (length-sort_strings keys)

-- What the compiler makes of a file: its path, and its text without the carriage returns.
pub data IsPreset (files : Dict Text) : Entry → Type 0 where
  preset :
      (key content : Text)
      → lookup key files ≡ some content
      → IsPreset files (key, without_returns content)

-- The files have one of this path.
abbrev HasFile : Dict Text → Text → Type 0
HasFile files key = (content : Text) × (lookup key files ≡ some content)

HasFile-cons :
    (entry : Entry) (files : Dict Text) (key : Text)
    → HasFile files key
    → HasFile (entry ∷ files) key
unfolding lookup
HasFile-cons (k, v) files key (content, h) = elim (Bool-cases (text_eq k key)) [
  | inl e ↦ rw e (v, refl)
  | inr e ↦ rw e (content, h)
]

All-HasFile-cons :
    (entry : Entry) (files : Dict Text) (keys : List Text)
    → All (HasFile files) keys
    → All (HasFile (entry ∷ files)) keys
All-HasFile-cons entry files [] h = tt
All-HasFile-cons entry files (key ∷ keys) (h, hs) =
    (HasFile-cons entry files key h, All-HasFile-cons entry files keys hs)

HasFile-file_key : (files : Dict Text) → All (HasFile files) (map file_key files)
unfolding lookup
HasFile-file_key [] = tt
HasFile-file_key ((k, v) ∷ files) =
    ((v, rw (text_eq_refl k) refl), All-HasFile-cons (k, v) files _ (HasFile-file_key files))

content_of-found :
    (files : Dict Text) (key : Text) {content : Text}
    → lookup key files ≡ some content
    → content_of files key ≡ content
content_of-found files key found = rw (found, content_of) refl

compiled-IsPreset :
    (files : Dict Text) (keys : List Text)
    → All (HasFile files) keys
    → All (IsPreset files) (map (compiled files) keys)
compiled-IsPreset files [] h = tt
compiled-IsPreset files (key ∷ keys) ((content, found), hs) = (
  subst (λ c. IsPreset files (key, without_returns c)) (sym (content_of-found files key found))
      (preset key content found),
  compiled-IsPreset files keys hs,
)

map-file_key-compiled :
    (files : Dict Text) (keys : List Text) → map file_key (map (compiled files) keys) ≡ keys
map-file_key-compiled files [] = refl
map-file_key-compiled files (key ∷ keys) = ap (λ ks. key ∷ ks) (map-file_key-compiled files keys)

-- The generated source declares the presets: where no path of a file has a quote, a backslash or a
-- newline in it, the map literal reads back as the files, each once, in the ascending order of their
-- paths, each with its text without the carriage returns. A fuel above the number of files is enough.
pub read_presets-generated_source :
    (files : Dict Text) (chart_names : List Text) (fuel : ℕ)
    → all_plain (map file_key files) ≡ true
    → length (map file_key files) < fuel
    → (entries : List Entry) × (read_presets fuel (generated_source files chart_names)
        ≡ some entries)
      × IsAscending (map file_key entries)
      × Permᴰ (map file_key entries) (map file_key files)
      × All (IsPreset files) entries
unfolding read_presets generated_source strip_prefix
read_presets-generated_source files chart_names fuel plain enough =
    let names = map file_key files in
    let keys = sort_strings names in
    let back = sym (map-file_key-compiled files keys) in
    (
      map (compiled files) keys,
      read_entries-preset_entries files keys _ fuel (all_plain-sort_strings names plain)
          (omega (arith, length-sort_strings names)),
      subst IsAscending back (sort_strings-IsAscending names),
      subst (λ ks. Permᴰ ks names) back (sort_strings-perm names),
      compiled-IsPreset files keys
          (All-sort_strings (HasFile files) names (HasFile-file_key files)),
    )
