-- ===== src/Modeline/Generate.antt =====
-- `GenerateModeline` and `ParseModeline` are inverse, unless a value holds `, `.
use talm.Base.Result.{ok}
use talm.Base.Text.Laws.{trim_space_solid, ends_solid, ends_solid-append}
use talm.Base.Text.{strip_prefix, text_eq, split₂, codes, Text, is_space, cut}
use talm.Base.{ℕ, ◌≡◌, refl, true, false, none, some, List, [], ◌∷◌, ◌++◌, All}
use talm.Json.{escape_char, Slice, items, marshal, marshal_items, escape_onto}
use talm.Json.RoundTrip.{IsScalar, unmarshal-marshal}
use talm.Modeline.{
  empty, parse_parts, prefix, Config, assign, parse_part, parse_modeline, generate_modeline,
}
use talm.Modeline.Pairs.{
  split₂_from-part, split₂_from-last, read_pairs, read_pairs-marshal, LacksPairs,
}

ends_solid-escape_onto : (s t : Text) → ends_solid t ≡ true → ends_solid (escape_onto s t) ≡ true
unfolding escape_onto
ends_solid-escape_onto [] t h = h
ends_solid-escape_onto (c ∷ s) t h =
    ends_solid-append (escape_char c) (escape_onto s t) (ends_solid-escape_onto s t h)

ends_solid-cons : (c : ℕ) (s : Text) → ends_solid s ≡ true → ends_solid (c ∷ s) ≡ true
ends_solid-cons c s h = ends_solid-append (c ∷ []) s h

ends_solid-marshal_items : (xs : List Text) → ends_solid (marshal_items xs) ≡ true
unfolding marshal_items is_space
ends_solid-marshal_items [] = refl
ends_solid-marshal_items (x ∷ []) =
    let close : Text = 34 ∷ b']' ∷ [] in
    ends_solid-cons 34 (escape_onto x close) (ends_solid-escape_onto x close refl)
ends_solid-marshal_items (x ∷ y ∷ xs) =
    let more = marshal_items (y ∷ xs) in
    let close : Text = 34 ∷ b',' ∷ more in
    let solid = ends_solid-append (34 ∷ b',' ∷ []) more (ends_solid-marshal_items (y ∷ xs)) in
    ends_solid-cons 34 (escape_onto x close) (ends_solid-escape_onto x close solid)

ends_solid-marshal : (v : Slice) → ends_solid (marshal v) ≡ true
unfolding marshal is_space
ends_solid-marshal none = refl
ends_solid-marshal (some xs) = ends_solid-cons b'[' (marshal_items xs) (ends_solid-marshal_items xs)

-- Each value is made of Unicode scalars and holds no comma before a space.
abbrev pub IsPlain : Slice → Type 0
IsPlain v = All (All IsScalar) (items v) × All LacksPairs (items v)

-- A part `key=…` assigns the slice that was marshalled. The letters of the key come first.
parse_part-marshal :
    (c : Config) (x : ℕ) (key : Text) (v : Slice)
    → is_space x ≡ false
    → cut b'=' (x ∷ (key ++ b'=' ∷ marshal v)) ≡ some (x ∷ key, marshal v)
    → All (All IsScalar) (items v)
    → parse_part c (x ∷ (key ++ b'=' ∷ marshal v)) ≡ ok (assign (x ∷ key) v c)
unfolding parse_part
parse_part-marshal c x key v h k s = rw (
  trim_space_solid x (key ++ b'=' ∷ marshal v) h (
      ends_solid-append (x ∷ key) (b'=' ∷ marshal v)
        (ends_solid-cons b'=' (marshal v) (ends_solid-marshal v))),
  k,
  unmarshal-marshal v s,
  parse_part,
)

abbrev pub part : Text → Slice → Text
part key v = key ++ b'=' ∷ marshal v

abbrev pub behind_endpoints : Slice → Text
behind_endpoints templates = codes ", " ++ part (codes "templates") templates

abbrev pub behind_nodes : Slice → Slice → Text
behind_nodes endpoints templates =
    codes ", endpoints=" ++ (marshal endpoints ++ behind_endpoints templates)

abbrev pub body : Slice → Slice → Slice → Text
body nodes endpoints templates =
    codes "nodes=" ++ (marshal nodes ++ behind_nodes endpoints templates)

module _ (nodes endpoints templates : Slice) where
  split₂-body :
      All LacksPairs (items nodes)
      → All LacksPairs (items endpoints)
      → All LacksPairs (items templates)
      → split₂ b',' b' ' (body nodes endpoints templates)
        ≡ part (codes "nodes") nodes
          ∷ part (codes "endpoints") endpoints
          ∷ part (codes "templates") templates
          ∷ []
  unfolding split₂
  split₂-body n e t = rw (
    split₂_from-part (part (codes "nodes") nodes) [] _
        (unfold read_pairs in read_pairs-marshal nodes n),
    split₂_from-part (part (codes "endpoints") endpoints) [] _
        (unfold read_pairs in read_pairs-marshal endpoints e),
    split₂_from-last (part (codes "templates") templates) []
        (unfold read_pairs in read_pairs-marshal templates t),
  )

  pub ends_solid-body : ends_solid (body nodes endpoints templates) ≡ true
  ends_solid-body =
      let t =
        ends_solid-append (codes ", templates=") (marshal templates)
          (ends_solid-marshal templates) in
      let e = ends_solid-append (marshal endpoints) (behind_endpoints templates) t in
      let n =
        ends_solid-append (codes ", endpoints=") (marshal endpoints ++ behind_endpoints templates)
          e in
      ends_solid-append (codes "nodes=") (marshal nodes ++ behind_nodes endpoints templates)
        (ends_solid-append (marshal nodes) (behind_nodes endpoints templates) n)

  -- The three parts fill the three fields.
  parse_parts-body :
      All (All IsScalar) (items nodes)
      → All (All IsScalar) (items endpoints)
      → All (All IsScalar) (items templates)
      → parse_parts empty (
          part (codes "nodes") nodes
          ∷ part (codes "endpoints") endpoints
          ∷ part (codes "templates") templates
          ∷ [])
        ≡ ok (record { nodes = nodes; endpoints = endpoints; templates = templates })
  unfolding parse_parts assign text_eq is_space cut
  parse_parts-body n e t = rw (
    parse_part-marshal empty b'n' (codes "odes") nodes refl refl n,
    parse_part-marshal _ b'e' (codes "ndpoints") endpoints refl refl e,
    parse_part-marshal _ b't' (codes "emplates") templates refl refl t,
  )

  -- What is generated is read back, nil slices included, if every value is valid Unicode and none
  -- holds `, `.
  pub parse_modeline-generate_modeline :
      IsPlain nodes
      → IsPlain endpoints
      → IsPlain templates
      → parse_modeline (generate_modeline nodes endpoints templates)
        ≡ ok (record { nodes = nodes; endpoints = endpoints; templates = templates })
  unfolding parse_modeline generate_modeline strip_prefix is_space
  parse_modeline-generate_modeline (ns, np) (es, ep) (ts, tp) =
      rw
        (
          trim_space_solid b'#' (codes " talm: " ++ body nodes endpoints templates) refl
              (ends_solid-append prefix (body nodes endpoints templates) ends_solid-body),
          split₂-body np ep tp,
          parse_modeline,
        )
        (parse_parts-body ns es ts)
