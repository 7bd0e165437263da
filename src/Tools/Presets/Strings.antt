-- ===== src/Tools/Presets/Strings.antt =====
-- Go's string literals, as tools/generate_presets.go writes them and the compiler reads them.
use talm.Base.{
  ==_iff, subst, ℕ, ◌==◌, ◌≡◌, refl, sym, ap, ◌∙◌, Bool, Bool-cases, true, false, not, ◌&&◌, ◌||◌,
  inl, inr, Option, none, some, [], ◌∷◌, ◌++◌, if◌then◌else◌, arith,
}
use talm.Base.Text.{Text, codes}
use talm.Tools.Presets.{escaped_content}

-- Where a reader of Go's string expressions stands: in a raw or a quoted string, behind one, or behind
-- one, two or three code points of ` + `.
pub data Place : Type 0 where
  raw quoted closed spaced added opening : Place

abbrev cons : ℕ → Option (Text × Text) → Option (Text × Text)
cons c none = none
cons c (some (s, rest)) = some (c ∷ s, rest)

-- The value of a sum of string literals, and what stands behind it. A raw string drops carriage returns.
unfoldable pub read_string : Place → Text → Option (Text × Text)
read_string closed [] = some ([], [])
read_string place [] = none
read_string raw (c ∷ s) = elim (c == b'`') [
  | true ↦ read_string closed s
  | false ↦ elim (c == 13) [ true ↦ read_string raw s | false ↦ cons c (read_string raw s) ]
]
read_string quoted (c ∷ s) = elim (c == b'"') [
  | true ↦ read_string closed s
  | false ↦ elim (c == b'\\' || c == 10) [ true ↦ none | false ↦ cons c (read_string quoted s) ]
]
read_string closed (c ∷ s) = elim (c == b' ') [
  | true ↦ read_string spaced s
  | false ↦ some ([], c ∷ s)
]
read_string spaced (c ∷ s) = elim (c == b'+') [ true ↦ read_string added s | false ↦ none ]
read_string added (c ∷ s) = elim (c == b' ') [ true ↦ read_string opening s | false ↦ none ]
read_string opening (c ∷ s) = elim (c == b'`') [
  | true ↦ read_string raw s
  | false ↦ elim (c == b'"') [ true ↦ read_string quoted s | false ↦ none ]
]

unfoldable pub without_returns : Text → Text
without_returns [] = []
without_returns (c ∷ s) = let rest = without_returns s in if c == 13 then rest else c ∷ rest

-- An escaped content in a raw string reads back as the content.
abbrev pub ReadsContent : Text → Text → Type 0
ReadsContent content rest =
    read_string raw (escaped_content content ++ (codes "`," ++ rest))
    ≡ some (without_returns content, codes "," ++ rest)

cons_read :
    (c : ℕ) {o : Option (Text × Text)} (s rest : Text)
    → o ≡ some (s, rest)
    → cons c o ≡ some (c ∷ s, rest)
cons_read c s rest h = ap (cons c) h

ReadsContent-back_quote : (s rest : Text) → ReadsContent s rest → ReadsContent (b'`' ∷ s) rest
unfolding read_string escaped_content without_returns
ReadsContent-back_quote s rest h = cons_read b'`' (without_returns s) (codes "," ++ rest) h

ReadsContent-return : (s rest : Text) → ReadsContent s rest → ReadsContent (13 ∷ s) rest
unfolding read_string escaped_content without_returns
ReadsContent-return s rest h = h

read_string_plain :
    (c : ℕ) (s : Text)
    → (c == b'`') ≡ false
    → (c == 13) ≡ false
    → read_string raw (c ∷ s) ≡ cons c (read_string raw s)
unfolding read_string
read_string_plain c s quote return = ground arith

escaped_content_plain :
    (c : ℕ) (s : Text) → (c == b'`') ≡ false → escaped_content (c ∷ s) ≡ c ∷ escaped_content s
unfolding escaped_content
escaped_content_plain c s quote = rw quote refl

without_returns_plain :
    (c : ℕ) (s : Text) → (c == 13) ≡ false → without_returns (c ∷ s) ≡ c ∷ without_returns s
unfolding without_returns
without_returns_plain c s return = rw return refl

ReadsContent-plain :
    (c : ℕ) (s rest : Text)
    → (c == b'`') ≡ false
    → (c == 13) ≡ false
    → ReadsContent s rest
    → ReadsContent (c ∷ s) rest
ReadsContent-plain c s rest quote return h =
    ap (λ e. read_string raw (e ++ (codes "`," ++ rest))) (escaped_content_plain c s quote)
    ∙ read_string_plain c (escaped_content s ++ (codes "`," ++ rest)) quote return
    ∙ cons_read c (without_returns s) (codes "," ++ rest) h
    ∙ ap (λ w. some (w, codes "," ++ rest)) (sym (without_returns_plain c s return))

pub read_string-escaped_content : (content rest : Text) → ReadsContent content rest
unfolding read_string escaped_content without_returns
read_string-escaped_content [] rest = refl
read_string-escaped_content (c ∷ s) rest = elim (Bool-cases (c == b'`')) [
  | inl quote ↦
      subst (λ d. ReadsContent (d ∷ s) rest) (sym ((==_iff c b'`').0 quote))
        (ReadsContent-back_quote s rest (read_string-escaped_content s rest))
  | inr plain ↦ elim (Bool-cases (c == 13)) [
    | inl return ↦
        subst (λ d. ReadsContent (d ∷ s) rest) (sym ((==_iff c 13).0 return))
          (ReadsContent-return s rest (read_string-escaped_content s rest))
    | inr other ↦ ReadsContent-plain c s rest plain other (read_string-escaped_content s rest)
  ]
]

-- A key that a quoted string holds as it is.
abbrev pub is_plain_key : Text → Bool
is_plain_key [] = true
is_plain_key (c ∷ s) = not (c == b'"') && (not (c == b'\\' || c == 10) && is_plain_key s)

-- A quoted string that a colon follows.
pub read_string-key :
    (key rest : Text)
    → is_plain_key key ≡ true
    → read_string quoted (key ++ (codes "\":" ++ rest)) ≡ some (key, codes ":" ++ rest)
unfolding read_string
read_string-key [] rest plain = refl
read_string-key (c ∷ key) rest plain = ground (arith, read_string-key key rest)
