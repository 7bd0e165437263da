-- ===== src/Json.antt =====
-- What the program uses of encoding/json: `Marshal` of a `[]string`, and `Unmarshal` into one.
-- A text is valid UTF-8, so a list of code points; a slice is nil or holds items.
pub mod RoundTrip
use talm.Base.{
  ℕ, ◌+◌, ◌-◌, ◌*◌, ◌/◌, ◌%◌, Bool, true, false, ◌&&◌, ◌||◌, Option, none, some, List, [], ◌∷◌,
  ◌++◌, if◌then◌else◌, ◌==◌, leb, ltb,
}
use talm.Base.Text.{Text, codes}

-- A `[]string`; `none` is the nil slice.
abbrev pub Slice : Type 0
Slice = Option (List Text)

abbrev pub items : Slice → List Text
items none = []
items (some xs) = xs

abbrev hex_digit : ℕ → ℕ
hex_digit d = if ltb d 10 then 48 + d else 87 + d

abbrev backslash : ℕ → Text
backslash c = 92 ∷ c ∷ []

-- `\u00xx` and, for the two line separators, `\u202x`
abbrev unicode_escape : ℕ → ℕ → ℕ → Text
unicode_escape high a c = 92 ∷ b'u' ∷ high ∷ b'0' ∷ hex_digit a ∷ hex_digit c ∷ []

-- `appendString`, with HTML escapes on, as `Marshal` calls it
unfoldable pub escape_char : ℕ → Text
escape_char c =
    if c == 34 || c == 92
    then backslash c
    else if c == 8
    then backslash b'b'
    else if c == 12
    then backslash b'f'
    else if c == 10
    then backslash b'n'
    else if c == 13
    then backslash b'r'
    else if c == 9
    then backslash b't'
    else if ltb c 32 || c == b'<' || c == b'>' || c == b'&'
    then unicode_escape b'0' (c / 16) (c % 16)
    else if c == 0x2028 || c == 0x2029
    then unicode_escape b'2' 2 (c % 16)
    else c ∷ []

-- The escaped characters of a string, in front of what follows them.
unfoldable pub escape_onto : Text → Text → Text
escape_onto [] rest = rest
escape_onto (c ∷ s) rest = escape_char c ++ escape_onto s rest

unfoldable pub marshal_items : List Text → Text
unfolding escape_onto
marshal_items [] = b']' ∷ []
marshal_items (x ∷ []) = 34 ∷ escape_onto x (34 ∷ b']' ∷ [])
marshal_items (x ∷ y ∷ xs) = 34 ∷ escape_onto x (34 ∷ b',' ∷ marshal_items (y ∷ xs))

-- `json.Marshal` of a `[]string`
unfoldable pub marshal : Slice → Text
unfolding marshal_items
marshal none = codes "null"
marshal (some xs) = b'[' ∷ marshal_items xs

-- Where the scanner stands. `null_tail` holds the letters of `null` that are still to come.
pub data Mode : Type 0 where
  before_value : Mode
  null_tail : Text → Mode
  before_first before_next : Mode
  null_item : Text → Mode
  in_string in_escape : Mode
  in_unicode : ℕ → ℕ → Mode
  after_item : Mode
  after_null after_array : Mode

pub record Decoder : Type 0 where
  pub mode : Mode
  pub read : List Text
  pub current : Text

abbrev is_blank : ℕ → Bool
is_blank c = c == 32 || c == 9 || c == 10 || c == 13

abbrev goto : Mode → Decoder → Option Decoder
goto m d = some (record d { mode = m })

abbrev pub push : ℕ → Decoder → Option Decoder
push c d = some (record d { current = d.current ++ c ∷ []; mode = in_string })

hex_value : ℕ → Option ℕ
hex_value c =
    if leb 48 c && leb c 57
    then some (c - 48)
    else if leb b'a' c && leb c b'f'
    then some (c - 87)
    else if leb b'A' c && leb c b'F'
    then some (c - 55)
    else none

-- Surrogates come from `\u` escapes alone: a pair is joined, and any other is U+FFFD.
abbrev is_high : ℕ → Bool
is_high c = leb 0xD800 c && ltb c 0xDC00

abbrev is_low : ℕ → Bool
is_low c = leb 0xDC00 c && ltb c 0xE000

unfoldable pub join_surrogates : Text → Text
join_surrogates [] = []
join_surrogates (c ∷ []) = (if is_high c || is_low c then 0xFFFD else c) ∷ []
join_surrogates (c ∷ d ∷ s) =
    let pair = ((c - 0xD800) * 0x400 + (d - 0xDC00) + 0x10000) ∷ join_surrogates s in
    let single = (if is_high c || is_low c then 0xFFFD else c) ∷ join_surrogates (d ∷ s) in
    if is_high c && is_low d then pair else single

abbrev pub end_item : Text → Decoder → Option Decoder
end_item x d = some (record { mode = after_item; read = d.read ++ x ∷ []; current = [] })

-- The letters still to come of `null`.
literal : Text → ℕ → (Text → Option Decoder) → Option Decoder → Option Decoder
literal [] c more last = none
literal (x ∷ []) c more last = if x == c then last else none
literal (x ∷ y ∷ xs) c more last = if x == c then more (y ∷ xs) else none

step_item : Bool → Decoder → ℕ → Option Decoder
step_item first d c =
    if is_blank c
    then some d
    else if c == 34
    then goto in_string d
    else if c == b'n'
    then goto (null_item (codes "ull")) d
    else if first && c == b']'
    then goto after_array d
    else none

step_string : Decoder → ℕ → Option Decoder
unfolding join_surrogates
step_string d c =
    if c == 34
    then end_item (join_surrogates d.current) d
    else if c == 92
    then goto in_escape d
    else if ltb c 32
    then none
    else push c d

step_escape : Decoder → ℕ → Option Decoder
step_escape d c =
    if c == 34 || c == 92 || c == b'/'
    then push c d
    else if c == b'b'
    then push 8 d
    else if c == b'f'
    then push 12 d
    else if c == b'n'
    then push 10 d
    else if c == b'r'
    then push 13 d
    else if c == b't'
    then push 9 d
    else if c == b'u'
    then goto (in_unicode 3 0) d
    else none

-- One more digit of a `\u` escape, with `left` more behind it.
step_unicode : ℕ → ℕ → Decoder → ℕ → Option Decoder
unfolding hex_value
step_unicode left v d c = elim (hex_value c) [
  | none ↦ none
  | some h ↦ if left == 0 then push (v * 16 + h) d else goto (in_unicode (left - 1) (v * 16 + h)) d
]

unfoldable pub step_in : Mode → Decoder → ℕ → Option Decoder
unfolding literal step_item step_string step_escape step_unicode
step_in before_value d c =
    if is_blank c
    then some d
    else if c == b'n'
    then goto (null_tail (codes "ull")) d
    else if c == b'['
    then goto before_first d
    else none
step_in (null_tail xs) d c = literal xs c (λ ys. goto (null_tail ys) d) (goto after_null d)
step_in before_first d c = step_item true d c
step_in before_next d c = step_item false d c
step_in (null_item xs) d c = literal xs c (λ ys. goto (null_item ys) d) (end_item [] d)
step_in in_string d c = step_string d c
step_in in_escape d c = step_escape d c
step_in (in_unicode left v) d c = step_unicode left v d c
step_in after_item d c =
    if is_blank c
    then some d
    else if c == b','
    then goto before_next d
    else if c == b']'
    then goto after_array d
    else none
step_in after_null d c = if is_blank c then some d else none
step_in after_array d c = if is_blank c then some d else none

-- At the end of the input the value must be complete.
unfoldable pub finish : Mode → Decoder → Option Slice
finish after_null d = some none
finish after_array d = some (some d.read)
finish _ d = none

unfoldable pub run : Decoder → Text → Option Slice
unfolding finish step_in
run d [] = finish d.mode d
run d (c ∷ s) = elim (step_in d.mode d c) [ none ↦ none | some e ↦ run e s ]

abbrev pub initial : Decoder
initial = record { mode = before_value; read = []; current = [] }

-- `json.Unmarshal` into an empty `[]string`; `none` is an error, of syntax or of type.
unfoldable pub unmarshal : Text → Option Slice
unfolding run
unmarshal s = run initial s
