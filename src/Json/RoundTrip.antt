-- ===== src/Json/RoundTrip.antt =====
-- A marshalled slice is read back as it was.
use talm.Base.{
  ℕ, ◌+◌, ◌*◌, ◌/◌, ◌%◌, ◌<◌, false, ◌||◌, none, some, List, [], ◌∷◌, ◌++◌, ◌≡◌, refl, arith, All,
  append-nil, append_assoc, ◌∙◌,
}
use talm.Base.Text.{Text}
use talm.Json.{
  Slice, items, Decoder, escape_char, escape_onto, unicode_escape, marshal_items, marshal, run,
  step_in, hex_digit, hex_value, unmarshal, join_surrogates, is_high, is_low, Mode, in_string,
  before_next, after_item,
}

-- A code point that a valid Go string can hold: no surrogate.
abbrev pub IsScalar : ℕ → Type 0
IsScalar c = (is_high c || is_low c) ≡ false

hex_value-hex_digit : (d : ℕ) → d < 16 → hex_value (hex_digit d) ≡ some d
unfolding hex_value
hex_value-hex_digit d h = ground arith

join_surrogates-IsScalar : (s : Text) → All IsScalar s → join_surrogates s ≡ s
unfolding join_surrogates
join_surrogates-IsScalar [] h = refl
join_surrogates-IsScalar (c ∷ []) (h, _) = ground arith
join_surrogates-IsScalar (c ∷ d ∷ s) (h, hs) = ground (arith, join_surrogates-IsScalar (d ∷ s) hs)

-- Four digits behind `\u` give one character.
run-unicode_escape :
    (high h a c : ℕ) (d : Decoder) (rest : Text)
    → d.mode ≡ in_string
    → hex_value high ≡ some h
    → a < 16
    → c < 16
    → run d (unicode_escape high a c ++ rest)
      ≡ run (record d { current = d.current ++ (((h * 16 + 0) * 16 + a) * 16 + c) ∷ [] }) rest
unfolding run step_in
run-unicode_escape high h a c d rest m e p q =
    ground (arith, hex_value-hex_digit a p, hex_value-hex_digit c q)

run-escape_char :
    (c : ℕ) (d : Decoder) (rest : Text)
    → d.mode ≡ in_string
    → run d (escape_char c ++ rest) ≡ run (record d { current = d.current ++ c ∷ [] }) rest
unfolding run escape_char
run-escape_char c d rest m = ground (arith, run-unicode_escape b'0' 0 (c / 16) (c % 16) d rest m)

-- A whole string, up to and with its closing quote.
run-escape_onto :
    (s : Text) (d : Decoder) (rest : Text)
    → d.mode ≡ in_string
    → run d (escape_onto s (34 ∷ rest))
      ≡ run
          (record {
            mode = after_item;
            read = d.read ++ join_surrogates (d.current ++ s) ∷ [];
            current = [];
          })
          rest
unfolding escape_onto
run-escape_onto [] d rest m = rw append-nil (unfold run step_in in ground arith)
run-escape_onto (c ∷ s) d rest m =
    run-escape_char c d (escape_onto s (34 ∷ rest)) m
    ∙ run-escape_onto s (record d { current = d.current ++ c ∷ [] }) rest m
    ∙ rw append_assoc

abbrev at : Mode → List Text → Decoder
at m xs = record { mode = m; read = xs; current = [] }

-- A string with its quotes, where an item may begin.
run-item :
    (s : Text) (xs : List Text) (rest : Text)
    → All IsScalar s
    → run (at in_string xs) (escape_onto s (34 ∷ rest)) ≡ run (at after_item (xs ++ s ∷ [])) rest
run-item s xs rest h =
    rw (run-escape_onto s (at in_string xs) rest refl, join_surrogates-IsScalar s h)

-- The items left to write, behind those that are read.
run-marshal_items :
    (x : Text) (ys xs : List Text)
    → All (All IsScalar) (x ∷ ys)
    → run (at before_next xs) (marshal_items (x ∷ ys)) ≡ some (some (xs ++ x ∷ ys))
unfolding marshal_items run step_in
run-marshal_items x [] xs (h, _) = rw (run-item x xs (b']' ∷ []) h)
run-marshal_items x (y ∷ ys) xs (h, hs) =
    rw (run-item x xs (b',' ∷ marshal_items (y ∷ ys)) h)
      (run-marshal_items y ys (xs ++ x ∷ []) hs ∙ rw append_assoc)

-- A nil slice and one with any items are read back as they were written.
pub unmarshal-marshal : (v : Slice) → All (All IsScalar) (items v) → unmarshal (marshal v) ≡ some v
unfolding unmarshal marshal run step_in
unmarshal-marshal none h = refl
unmarshal-marshal (some []) h = refl
unmarshal-marshal (some (x ∷ [])) h = run-marshal_items x [] [] h
unmarshal-marshal (some (x ∷ y ∷ xs)) h = run-marshal_items x (y ∷ xs) [] h
