-- ===== src/Modeline.antt =====
-- pkg/modeline/modeline.go: the comment line that keeps a node file's connection options. A file
-- system is the function that opens a file: its content, or an error. Reads that fail once the
-- file is open are not modelled; the scanner's limit on a line is.
pub mod Pairs
pub mod Generate
pub mod Laws
use talm.Base.{ℕ, ◌+◌, none, some, List, [], ◌∷◌, ◌++◌, if◌then◌else◌, ◌==◌, ltb}
use talm.Base.Text.{Text, codes, text_eq, strip_prefix, trim_space, split₂, cut}
use talm.Base.Result.{wrap, Result, ok, err, errorf, wrapped, Error, ◌>>=◌}
use talm.Json.{Slice, marshal, unmarshal}

pub record Config : Type 0 where
  pub nodes : Slice
  pub endpoints : Slice
  pub templates : Slice

abbrev pub empty : Config
empty = record { nodes = none; endpoints = none; templates = none }

abbrev pub prefix : Text
prefix = codes "# talm: "

-- The switch on the key of a part.
unfoldable pub assign : Text → Slice → Config → Config
assign key arr c =
    if text_eq key (codes "nodes")
    then record c { nodes = arr }
    else if text_eq key (codes "endpoints")
    then record c { endpoints = arr }
    else if text_eq key (codes "templates")
    then record c { templates = arr }
    else c

abbrev invalid_part : Text → Error
invalid_part part = errorf "invalid format of modeline part: %s" (part ∷ [])

abbrev invalid_array : Text → Text → Error
invalid_array key val = errorf "error parsing JSON array for key %s, value %s" (key ∷ val ∷ [])

-- One round of the loop over the parts.
unfoldable pub parse_part : Config → Text → Result Config
unfolding assign
parse_part c part = elim (cut b'=' (trim_space part)) [
  | none ↦ err (invalid_part part)
  | some (key, val) ↦ elim (unmarshal val) [
    | none ↦ err (invalid_array key val)
    | some arr ↦ ok (assign key arr c)
  ]
]

unfoldable pub parse_parts : Config → List Text → Result Config
parse_parts c [] = ok c
parse_parts c (part ∷ parts) = parse_part c part >>= λ d. parse_parts d parts

unfoldable pub parse_modeline : Text → Result Config
unfolding parse_parts
parse_modeline line = elim (strip_prefix prefix (trim_space line)) [
  | none ↦ err (errorf "modeline prefix not found" [])
  | some content ↦ parse_parts empty (split₂ b',' b' ' content)
]

unfoldable pub generate_modeline : Slice → Slice → Slice → Text
generate_modeline nodes endpoints templates =
    codes "# talm: nodes="
    ++ (marshal nodes
        ++ (codes ", endpoints="
            ++ (marshal endpoints ++ (codes ", templates=" ++ marshal templates))))

-- The bytes of a code point in UTF-8.
abbrev width : ℕ → ℕ
width c = if ltb c 0x80 then 1 else if ltb c 0x800 then 2 else if ltb c 0x10000 then 3 else 4

-- `bufio.MaxScanTokenSize`
abbrev pub max_token : ℕ
max_token = 65536

pub data Scan : Type 0 where
  line : Text → Scan
  too_long : Scan
  at_end : Scan

abbrev drop_return : Text → Text
drop_return [] = []
drop_return (c ∷ []) = if c == 13 then [] else c ∷ []
drop_return (c ∷ d ∷ s) = c ∷ drop_return (d ∷ s)

-- The scanner with `taken` in its buffer, `size` bytes long.
unfoldable pub scan_from : Text → ℕ → Text → Scan
scan_from taken size [] = if ltb size max_token then line (drop_return taken) else too_long
scan_from taken size (c ∷ s) =
    let more = scan_from (taken ++ c ∷ []) (size + width c) s in
    if ltb size max_token then (if c == 10 then line (drop_return taken) else more) else too_long

-- The first `scanner.Scan()`, on the whole content.
unfoldable pub scan : Text → Scan
unfolding scan_from
scan [] = at_end
scan (c ∷ s) = scan_from [] 0 (c ∷ s)

-- What follows the first `Scan`.
unfoldable pub parse_scan : Scan → Result Config
parse_scan (line first) = parse_modeline first
parse_scan too_long = err (
    wrapped "error reading first line of config file: %v" []
      (errorf "bufio.Scanner: token too long" []))
parse_scan at_end = err (errorf "config file is empty" [])

unfoldable pub read_and_parse_modeline : (Text → Result Text) → Text → Result Config
unfolding scan parse_scan
read_and_parse_modeline open_file path = do
  content ← wrap "error opening config file: %v" [] (open_file path)
  parse_scan (scan content)
