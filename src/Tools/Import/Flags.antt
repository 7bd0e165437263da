-- ===== src/Tools/Import/Flags.antt =====
-- The field that tools/import_commands.go adds to the flags of a command.
use talm.Base.{
  ◌≡◌, refl, Bool, Bool-cases, true, false, ◌&&◌, ◌||◌, inl, inr, List, [], ◌∷◌, ◌++◌, arith,
}
use talm.Base.Text.{Text, codes, text_eq}
use talm.Base.Text.Laws.{text_eq_refl}
use talm.Tools.Syntax.{
  Field, TypeExpr, struct, other_type, TypeSpec, ValueSpec, Decl, types, variables, function,
  prototype, other_decl, Stmts, no_stmts, declare, nested, stmt, GoFile,
}
use talm.Tools.Import.{
  add_to_types, add_to_variables, inspect_decl, inspect_stmts, inspect_decls, add_field_to_struct,
  append_stmts, with_init_code, insert_init_code, add_field, with_struct, new_variable, has_name,
  is_struct,
}

-- The struct has the field.
abbrev pub same_field : Text → Text → Field → Bool
same_field type_name name f = elim f.names [
  | [] ↦ false
  | n ∷ ns ↦ text_eq n name && text_eq f.type_name type_name
]

abbrev pub some_field : Text → Text → List Field → Bool
some_field type_name name [] = false
some_field type_name name (f ∷ fields) =
    same_field type_name name f || some_field type_name name fields

abbrev pub holds_field : Text → Text → TypeExpr → Bool
holds_field type_name name (struct fields) = some_field type_name name fields
holds_field type_name name (other_type t) = false

-- Where one of two tests held before, one of two holds.
either :
    {a b c d : Bool}
    → (a ≡ true → c ≡ true)
    → (b ≡ true → d ≡ true)
    → (a || b) ≡ true
    → (c || d) ≡ true
either {a} {b} {c} {d} f g h = ground arith

-- The flags of a command are a struct with the field: a type named behind the variable, or a variable.
module _ (var_name type_name name : Text) where
  abbrev pub types_hold : List TypeSpec → Bool
  types_hold [] = false
  types_hold (ts ∷ specs) =
      (text_eq ts.name (var_name ++ codes "Type") && holds_field type_name name ts.type_expr)
      || types_hold specs

  abbrev pub variables_hold : List ValueSpec → Bool
  variables_hold [] = false
  variables_hold (vs ∷ specs) =
      (has_name var_name vs.names && holds_field type_name name vs.type_expr)
      || variables_hold specs

  unfoldable mutual
    pub decl_holds : Decl → Bool
    decl_holds (types specs) = types_hold specs
    decl_holds (variables specs) = variables_hold specs
    decl_holds (function f body) = stmts_hold body
    decl_holds (prototype f) = false
    decl_holds (other_decl t) = false

    pub stmts_hold : Stmts → Bool
    stmts_hold no_stmts = false
    stmts_hold (declare decl stmts) = decl_holds decl || stmts_hold stmts
    stmts_hold (nested t inside stmts) = stmts_hold inside || stmts_hold stmts
    stmts_hold (stmt t stmts) = stmts_hold stmts

  unfoldable pub decls_hold : List Decl → Bool
  decls_hold [] = false
  decls_hold (decl ∷ decls) = decl_holds decl || decls_hold decls

  some_field-append :
      (fields : List Field)
      → some_field type_name name
          (fields ++ record { names = name ∷ []; type_name = type_name } ∷ [])
        ≡ true
  some_field-append [] = ground (arith, text_eq_refl name, text_eq_refl type_name)
  some_field-append (f ∷ fields) = ground (arith, some_field-append fields)

  abbrev new_field : Field
  new_field = record { names = name ∷ []; type_name = type_name }

  holds_field-add_field :
      (t : TypeExpr)
      → is_struct t ≡ true
      → holds_field type_name name (add_field new_field t) ≡ true
  holds_field-add_field (struct fields) h = some_field-append fields
  holds_field-add_field (other_type t) h = cc

  types_hold-add_to_types :
      (specs : List TypeSpec)
      → (add_to_types var_name new_field specs).1 ≡ true
      → types_hold (add_to_types var_name new_field specs).0 ≡ true
  unfolding add_to_types
  types_hold-add_to_types [] h = cc
  types_hold-add_to_types (ts ∷ specs) h =
      ground (arith, types_hold-add_to_types specs, holds_field-add_field ts.type_expr)

  variables_hold-add_to_variables :
      (specs : List ValueSpec)
      → (add_to_variables var_name new_field specs).1 ≡ true
      → variables_hold (add_to_variables var_name new_field specs).0 ≡ true
  unfolding add_to_variables
  variables_hold-add_to_variables [] h = cc
  variables_hold-add_to_variables (vs ∷ specs) h =
      ground (arith, variables_hold-add_to_variables specs, holds_field-add_field vs.type_expr)

  mutual
    unfolding inspect_decl decl_holds

    decl_holds-inspect_decl :
        (decl : Decl)
        → (inspect_decl var_name new_field decl).1 ≡ true
        → decl_holds (inspect_decl var_name new_field decl).0 ≡ true
    decl_holds-inspect_decl (types specs) h = types_hold-add_to_types specs h
    decl_holds-inspect_decl (variables specs) h = variables_hold-add_to_variables specs h
    decl_holds-inspect_decl (function f body) h = stmts_hold-inspect_stmts body h
    decl_holds-inspect_decl (prototype f) h = h
    decl_holds-inspect_decl (other_decl t) h = h

    stmts_hold-inspect_stmts :
        (stmts : Stmts)
        → (inspect_stmts var_name new_field stmts).1 ≡ true
        → stmts_hold (inspect_stmts var_name new_field stmts).0 ≡ true
    stmts_hold-inspect_stmts no_stmts h = h
    stmts_hold-inspect_stmts (declare decl stmts) h =
        either (decl_holds-inspect_decl decl) (stmts_hold-inspect_stmts stmts) h
    stmts_hold-inspect_stmts (nested t inside stmts) h =
        either (stmts_hold-inspect_stmts inside) (stmts_hold-inspect_stmts stmts) h
    stmts_hold-inspect_stmts (stmt t stmts) h = stmts_hold-inspect_stmts stmts h

  decls_hold-inspect_decls :
      (decls : List Decl)
      → (inspect_decls var_name new_field decls).1 ≡ true
      → decls_hold (inspect_decls var_name new_field decls).0 ≡ true
  unfolding inspect_decls decls_hold
  decls_hold-inspect_decls [] h = h
  decls_hold-inspect_decls (decl ∷ decls) h =
      either (decl_holds-inspect_decl decl) (decls_hold-inspect_decls decls) h

  decls_hold-append :
      (decls : List Decl) → decls_hold (decls ++ new_variable var_name new_field ∷ []) ≡ true
  unfolding decls_hold decl_holds
  decls_hold-append [] =
      ground (arith, text_eq_refl var_name, text_eq_refl name, text_eq_refl type_name)
  decls_hold-append (decl ∷ decls) = ground (arith, decls_hold-append decls)

  decls_hold-with_struct :
      (node : GoFile) (r : List Decl × Bool)
      → (r.1 ≡ true → decls_hold r.0 ≡ true)
      → decls_hold (with_struct var_name new_field node r).decls ≡ true
  decls_hold-with_struct node (decls, true) h = h refl
  decls_hold-with_struct node (decls, false) h = decls_hold-append decls

  pub decls_hold-add_field_to_struct :
      (node : GoFile) → decls_hold (add_field_to_struct var_name type_name name node).decls ≡ true
  unfolding add_field_to_struct
  decls_hold-add_field_to_struct node =
      decls_hold-with_struct node (inspect_decls var_name new_field node.decls)
        (decls_hold-inspect_decls node.decls)

  stmts_hold-append_stmts :
      (code body : Stmts) → stmts_hold body ≡ true → stmts_hold (append_stmts code body) ≡ true
  unfolding append_stmts decl_holds
  stmts_hold-append_stmts no_stmts body h = h
  stmts_hold-append_stmts (declare d code) body h =
      ground (arith, stmts_hold-append_stmts code body h)
  stmts_hold-append_stmts (nested t i code) body h =
      ground (arith, stmts_hold-append_stmts code body h)
  stmts_hold-append_stmts (stmt t code) body h = stmts_hold-append_stmts code body h

  decl_holds-with_init_code :
      (code : Stmts) (decl : Decl)
      → decl_holds decl ≡ true
      → decl_holds (with_init_code code decl) ≡ true
  unfolding decl_holds
  decl_holds-with_init_code code (types specs) h = h
  decl_holds-with_init_code code (variables specs) h = h
  decl_holds-with_init_code code (function f body) h =
      elim (Bool-cases (text_eq f (codes "init"))) [
        | inl is_init ↦ rw is_init (stmts_hold-append_stmts code body h)
        | inr other ↦ rw other h
      ]
  decl_holds-with_init_code code (prototype f) h = h
  decl_holds-with_init_code code (other_decl t) h = h

  pub decls_hold-insert_init_code :
      (code : Stmts) (decls : List Decl)
      → decls_hold decls ≡ true
      → decls_hold (insert_init_code code decls) ≡ true
  unfolding insert_init_code decls_hold
  decls_hold-insert_init_code code [] h = h
  decls_hold-insert_init_code code (decl ∷ decls) h =
      either (decl_holds-with_init_code code decl) (decls_hold-insert_init_code code decls) h
