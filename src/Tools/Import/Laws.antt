-- ===== src/Tools/Import/Laws.antt =====
-- What tools/import_commands.go leaves in the tree of an imported file.
use talm.Base.{
  ◌≡◌, refl, sym, ◌∙◌, Bool, Bool-cases, true, false, inl, inr, List, [], ◌∷◌, ◌++◌, ap,
  append_assoc, if◌then◌else◌,
}
use talm.Base.Text.{Text, codes, text_eq}
use talm.Base.Result.{ok_injective, ok, wrap, wrap-eq-ok, >>=-eq-ok}
use talm.Tools.Syntax.{
  Field, Decl, types, variables, function, prototype, other_decl, Stmts, GoFile, no_stmts, declare,
  nested, stmt,
}
use talm.Tools.Import.{
  add_field_to_struct, append_stmts, insert_init_code, transformed, flags_name, change_package_name,
  with_struct, GoTools, process_file, init_code, imported_source, command_init_code,
  sub_command_code, sub_commands, add_sub_commands,
}
use talm.Tools.Import.Flags.{
  decls_hold, decls_hold-add_field_to_struct, decls_hold-insert_init_code,
}

-- The statements `new` are those of `code` and then those of `old`.
pub data Begins : Stmts → Stmts → Stmts → Type 0 where
  no_code : (old : Stmts) → Begins no_stmts old old
  declares :
      (d : Decl) (code old new : Stmts)
      → Begins code old new
      → Begins (declare d code) old (declare d new)
  nests :
      (t : Text) (inside code old new : Stmts)
      → Begins code old new
      → Begins (nested t inside code) old (nested t inside new)
  states :
      (t : Text) (code old new : Stmts)
      → Begins code old new
      → Begins (stmt t code) old (stmt t new)

append_stmts-Begins : (code body : Stmts) → Begins code body (append_stmts code body)
unfolding append_stmts
append_stmts-Begins no_stmts body = no_code body
append_stmts-Begins (declare d code) body =
    declares d code body (append_stmts code body) (append_stmts-Begins code body)
append_stmts-Begins (nested t inside code) body =
    nests t inside code body (append_stmts code body) (append_stmts-Begins code body)
append_stmts-Begins (stmt t code) body =
    states t code body (append_stmts code body) (append_stmts-Begins code body)

-- Every function named init begins with the code.
abbrev pub InitsBegin : Stmts → List Decl → Type 0
InitsBegin code [] = Unit
InitsBegin code (function name body ∷ decls) =
    (if text_eq name (codes "init") then ((old : Stmts) × Begins code old body) else Unit)
    × InitsBegin code decls
InitsBegin code (decl ∷ decls) = InitsBegin code decls

InitsBegin-insert_init_code :
    (code : Stmts) (decls : List Decl) → InitsBegin code (insert_init_code code decls)
unfolding insert_init_code
InitsBegin-insert_init_code code [] = tt
InitsBegin-insert_init_code code (function name body ∷ decls) =
    elim (Bool-cases (text_eq name (codes "init"))) [
      | inl is_init ↦
          rw is_init (
            rw is_init (body, append_stmts-Begins code body),
            InitsBegin-insert_init_code code decls,
          )
      | inr other ↦ rw other (rw other tt, InitsBegin-insert_init_code code decls)
    ]
InitsBegin-insert_init_code code (types specs ∷ decls) = InitsBegin-insert_init_code code decls
InitsBegin-insert_init_code code (variables specs ∷ decls) = InitsBegin-insert_init_code code decls
InitsBegin-insert_init_code code (prototype name ∷ decls) = InitsBegin-insert_init_code code decls
InitsBegin-insert_init_code code (other_decl t ∷ decls) = InitsBegin-insert_init_code code decls

name-with_struct :
    (var_name : Text) (field : Field) (node : GoFile) (r : List Decl × Bool)
    → (with_struct var_name field node r).name ≡ node.name
name-with_struct var_name field node (decls, true) = refl
name-with_struct var_name field node (decls, false) = refl

name-add_field_to_struct :
    (var_name type_name name : Text) (node : GoFile)
    → (add_field_to_struct var_name type_name name node).name ≡ node.name
unfolding add_field_to_struct
name-add_field_to_struct var_name type_name name node = name-with_struct var_name _ node _

name_changed :
    (node : GoFile) → (change_package_name (codes "commands") node).name ≡ codes "commands"
unfolding change_package_name
name_changed node = refl

-- What is wanted of the tree of an imported file.
abbrev pub IsImported : Text → Stmts → GoFile → Type 0
IsImported cmd_name code node =
    (node.name ≡ codes "commands")
    × (decls_hold (cmd_name ++ codes "CmdFlags") (codes "[]string") (codes "configFiles") node.decls
        ≡ true)
    × InitsBegin code node.decls

transformed-IsImported :
    (cmd_name : Text) (code : Stmts) (node : GoFile)
    → IsImported cmd_name code (transformed cmd_name code node)
unfolding transformed
transformed-IsImported cmd_name code node =
    let old = change_package_name (codes "commands") node in
    let flags =
      add_field_to_struct (flags_name cmd_name) (codes "[]string") (codes "configFiles") old in
    (
      name-add_field_to_struct (flags_name cmd_name) (codes "[]string") (codes "configFiles") old
          ∙ name_changed node,
      decls_hold-insert_init_code (flags_name cmd_name) (codes "[]string") (codes "configFiles")
          code flags.decls
          (decls_hold-add_field_to_struct (flags_name cmd_name) (codes "[]string")
            (codes "configFiles") old),
      InitsBegin-insert_init_code code flags.decls,
    )

-- The text registers the flag for config files.
abbrev pub Registers : Text → Text → Type 0
Registers cmd_name t =
    (rest : Text) × (t
      ≡ cmd_name
        ++ (codes "Cmd.Flags().StringSliceVarP(&"
            ++ (cmd_name ++ (codes "CmdFlags.configFiles, \"file\", \"f\", nil," ++ rest))))

command_init_code-Registers : (cmd_name : Text) → Registers cmd_name (command_init_code cmd_name)
unfolding command_init_code
command_init_code-Registers cmd_name = (_, refl)

Registers-append : (cmd_name t more : Text) → Registers cmd_name t → Registers cmd_name (t ++ more)
Registers-append cmd_name t more (rest, h) =
    let tail = codes "CmdFlags.configFiles, \"file\", \"f\", nil," ++ rest in
    let flags = codes "Cmd.Flags().StringSliceVarP(&" ++ (cmd_name ++ tail) in
    (
      rest ++ more,
      ap (λ x. x ++ more) h
          ∙ append_assoc cmd_name flags more
          ∙ ap (λ x. cmd_name ++ (codes "Cmd.Flags().StringSliceVarP(&" ++ x))
              (append_assoc cmd_name tail more),
    )

add_sub_commands-Registers :
    (cmd_name code : Text) (subs : List Text)
    → Registers cmd_name code
    → Registers cmd_name (add_sub_commands code subs)
add_sub_commands-Registers cmd_name code [] h = h
add_sub_commands-Registers cmd_name code (sub ∷ subs) h =
    add_sub_commands-Registers cmd_name (code ++ sub_command_code sub) subs
      (Registers-append cmd_name code (sub_command_code sub) h)

-- What is written for a file is, below a line that says how it was made, the text of a tree that belongs to package commands, in which the flags
-- of the command are a struct with the list of config files, whether there was one before or not, and
-- every init function begins with the code that was parsed: its text starts with the registration of
-- the flag `file`.
pub process_file-IsImported :
    (tools : GoTools) (talos_version cmd_name content : Text) {out : Text}
    → process_file tools talos_version cmd_name content ≡ ok out
    → (tree : GoFile) × (code : Stmts) × (code_text printed : Text) × Registers cmd_name code_text
      × (tools.parse_body (codes "func() { " ++ (code_text ++ codes " }")) ≡ ok code)
      × IsImported cmd_name code tree
      × (tools.format_node tree ≡ ok printed)
      × (out
          ≡ codes "// Code generated by go run tools/import_commands.go --talos-version "
            ++ (talos_version ++ b' ' ∷ (cmd_name ++ (codes "\n// DO NOT EDIT.\n\n" ++ printed))))
unfolding process_file init_code
process_file-IsImported tools talos_version cmd_name content h =
    let (node, _, h₁) = >>=-eq-ok (wrap _ _ (tools.parse_file (imported_source content))) _ h in
    let (code, parsed, h₂) = >>=-eq-ok (wrap _ _ (tools.parse_body _)) _ h₁ in
    let (printed, made, h₃) =
      >>=-eq-ok (wrap _ _ (tools.format_node (transformed cmd_name code node))) _ h₂ in
    (
      transformed cmd_name code node,
      code,
      init_code cmd_name,
      printed,
      add_sub_commands-Registers cmd_name (command_init_code cmd_name) (sub_commands cmd_name)
          (command_init_code-Registers cmd_name),
      (wrap-eq-ok "Failed to parse init code: %s" [] _).0 parsed,
      transformed-IsImported cmd_name code node,
      (wrap-eq-ok "Failed to format the AST: %s" [] _).0 made,
      sym (ok_injective _ _ h₃),
    )
