-- ===== src/Modeline/Laws.antt =====
-- A generated modeline as the first line of a file, and the loop over the parts.
use talm.Base.Text.Laws.{ends_solid-append, ends_solid}
use talm.Base.Text.{is_space, count, Text}
use talm.Base.{
  ℕ, ◌+◌, ◌<◌, ◌≡◌, refl, ap, ◌∙◌, true, none, some, List, [], ◌∷◌, ◌++◌, append-nil, append_assoc,
  arith,
}
use talm.Base.Result.{Result, ok}
use talm.Json.{Slice, marshal, marshal_items, escape_onto, escape_char}
use talm.Modeline.{
  line, width, max_token, drop_return, scan_from, scan, prefix, generate_modeline,
  read_and_parse_modeline,
}
use talm.Modeline.Generate.{
  IsPlain, body, behind_nodes, behind_endpoints, ends_solid-body, parse_modeline-generate_modeline,
}

-- The bytes of a text in UTF-8.
abbrev pub bytes : Text → ℕ
bytes [] = 0
bytes (c ∷ s) = width c + bytes s

scan_from-line :
    (s taken rest : Text) (size : ℕ)
    → count 10 s ≡ 0
    → size + bytes s < max_token
    → scan_from taken size (s ++ 10 ∷ rest) ≡ line (drop_return (taken ++ s))
unfolding scan_from count
scan_from-line [] taken rest size h k = rw append-nil (ground arith)
scan_from-line (c ∷ s) taken rest size h k =
    ground (
      arith,
      scan_from-line s (taken ++ c ∷ []) rest (size + width c),
      append_assoc taken (c ∷ []) s,
    )

is_space_return : is_space 13 ≡ true
unfolding is_space
is_space_return = refl

drop_return_solid : (s : Text) → ends_solid s ≡ true → drop_return s ≡ s
drop_return_solid [] h = refl
drop_return_solid (c ∷ []) h = ground (arith, is_space_return)
drop_return_solid (c ∷ d ∷ s) h = ap (◌∷◌ c) (drop_return_solid (d ∷ s) h)

count-append : (c : ℕ) (s t : Text) → count c (s ++ t) ≡ count c s + count c t
unfolding count
count-append c [] t = omega arith
count-append c (d ∷ s) t = omega (arith, count-append c s t)

count-escape_char : (c : ℕ) (t : Text) → count 10 (escape_char c ++ t) ≡ count 10 t
unfolding count escape_char
count-escape_char c t = ground arith

count-escape_onto : (s t : Text) → count 10 (escape_onto s t) ≡ count 10 t
unfolding escape_onto
count-escape_onto [] t = refl
count-escape_onto (c ∷ s) t = count-escape_char c (escape_onto s t) ∙ count-escape_onto s t

count-marshal_items : (xs : List Text) → count 10 (marshal_items xs) ≡ 0
unfolding marshal_items count
count-marshal_items [] = refl
count-marshal_items (x ∷ []) = ground (arith, count-escape_onto x (34 ∷ b']' ∷ []))
count-marshal_items (x ∷ y ∷ xs) =
    ground (
      arith,
      count-escape_onto x (34 ∷ b',' ∷ marshal_items (y ∷ xs)),
      count-marshal_items (y ∷ xs),
    )

-- Newlines are escaped.
count-marshal : (v : Slice) → count 10 (marshal v) ≡ 0
unfolding marshal count
count-marshal none = refl
count-marshal (some xs) = omega (arith, count-marshal_items xs)

module _ (nodes endpoints templates : Slice) where
  count-generate_modeline : count 10 (generate_modeline nodes endpoints templates) ≡ 0
  unfolding generate_modeline count
  count-generate_modeline = omega (
    arith,
    count-append 10 (marshal nodes) (behind_nodes endpoints templates),
    count-append 10 (marshal endpoints) (behind_endpoints templates),
    count-marshal nodes,
    count-marshal endpoints,
    count-marshal templates,
  )

  ends_solid-generate_modeline : ends_solid (generate_modeline nodes endpoints templates) ≡ true
  unfolding generate_modeline
  ends_solid-generate_modeline =
      ends_solid-append prefix (body nodes endpoints templates)
        (ends_solid-body nodes endpoints templates)

  scan-line :
      (rest : Text)
      → bytes (generate_modeline nodes endpoints templates) < max_token
      → scan (generate_modeline nodes endpoints templates ++ 10 ∷ rest)
        ≡ line (generate_modeline nodes endpoints templates)
  unfolding scan generate_modeline
  scan-line rest k =
      scan_from-line (generate_modeline nodes endpoints templates) [] rest 0 count-generate_modeline
        (omega arith)
      ∙ ap line (drop_return_solid _ ends_solid-generate_modeline)

  -- A file whose first line was generated gives back the three slices, whatever follows, if the
  -- line is below the scanner's limit, every value is valid Unicode and none holds `, `.
  pub read_and_parse_modeline-generate_modeline :
      (open_file : Text → Result Text) (path rest : Text)
      → open_file path ≡ ok (generate_modeline nodes endpoints templates ++ 10 ∷ rest)
      → bytes (generate_modeline nodes endpoints templates) < max_token
      → IsPlain nodes
      → IsPlain endpoints
      → IsPlain templates
      → read_and_parse_modeline open_file path
        ≡ ok (record { nodes = nodes; endpoints = endpoints; templates = templates })
  unfolding read_and_parse_modeline
  read_and_parse_modeline-generate_modeline open_file path rest h k n e t =
      rw (h, scan-line rest k) (parse_modeline-generate_modeline nodes endpoints templates n e t)
