-- ===== src/Tests/Modeline.antt =====
-- A modeline with two nodes.
use talm.Base.{◌≢◌, Bool, ◌≡◌, refl, some, none, [], ◌∷◌, ◌++◌, ◌<◌, arith, All}
use talm.Base.Text.{codes}
use talm.Base.Result.{ok}
use talm.Modeline.Pairs.{read_pairs}
use talm.Json.{escape_char, Slice, marshal, unmarshal, items}
use talm.Json.RoundTrip.{IsScalar, unmarshal-marshal}
use talm.Modeline.{generate_modeline, read_and_parse_modeline, max_token}
use talm.Modeline.Generate.{IsPlain}
use talm.Modeline.Laws.{bytes, read_and_parse_modeline-generate_modeline}

abbrev two : Slice
two = some (codes "1.2" ∷ (codes "é" ∷ []))

abbrev one : Slice
one = some (codes "t" ∷ [])

two-IsScalar : All (All IsScalar) (items two)
two-IsScalar = ((refl, (refl, (refl, tt))), ((refl, tt), tt))

some-ne-none : {b : Bool} → some b ≢ none
some-ne-none h = cc

two-IsPlain : IsPlain two
unfolding read_pairs
two-IsPlain = (two-IsScalar, (some-ne-none, (some-ne-none, tt)))

one-IsPlain : IsPlain one
unfolding read_pairs
one-IsPlain = (((refl, tt), tt), (some-ne-none, tt))

unmarshal-marshal_example : unmarshal (marshal two) ≡ some two
unmarshal-marshal_example = unmarshal-marshal two two-IsScalar

below_limit : bytes (generate_modeline two none one) < max_token
unfolding generate_modeline marshal escape_char
below_limit = omega arith

read_and_parse_modeline-generate_modeline_example :
    read_and_parse_modeline
      (λ path. ok (generate_modeline two none one ++ 10 ∷ codes "x"))
      (codes "f")
    ≡ ok (record { nodes = two; endpoints = none; templates = one })
read_and_parse_modeline-generate_modeline_example =
    read_and_parse_modeline-generate_modeline two none one
      (λ path. ok (generate_modeline two none one ++ 10 ∷ codes "x")) (codes "f") (codes "x") refl
      below_limit two-IsPlain (tt, tt) one-IsPlain
