-- ===== src/Tools/Import.antt =====
-- tools/import_commands.go: talosctl's commands, copied and given a step that takes over the modelines
-- of config files. The download, go/parser and go/format are parameters; what ends the process with
-- log.Fatalf is an error.
pub mod Flags
pub mod Laws
use mathlib.Core.List.{reverse}
use talm.Base.{
  ℕ, zero, suc, ◌-◌, Bool, true, false, ◌&&◌, ◌||◌, List, [], ◌∷◌, ◌++◌, if◌then◌else◌, length,
}
use talm.Base.Text.{Text, codes, text_eq, has_prefix, trim_prefix}
use talm.Base.FilePath.{base}
use talm.Base.Dict.{Dict, insert}
use talm.Base.Result.{Result, ok, err, wrap, ◌>>=◌}
use talm.Tools.Syntax.{
  Field, TypeExpr, struct, other_type, TypeSpec, ValueSpec, Decl, types, variables, function,
  prototype, other_decl, Stmts, no_stmts, declare, nested, stmt, GoFile,
}

unfoldable pub change_package_name : Text → GoFile → GoFile
change_package_name name node = record node { name = name }

abbrev is_struct : TypeExpr → Bool
is_struct (struct fields) = true
is_struct (other_type t) = false

abbrev add_field : Field → TypeExpr → TypeExpr
add_field field (struct fields) = struct (fields ++ field ∷ [])
add_field field (other_type t) = other_type t

-- The name without `Type` is the variable's, and the type is a struct.
abbrev pub is_flags_type : Text → TypeSpec → Bool
is_flags_type var_name ts = text_eq ts.name (var_name ++ codes "Type") && is_struct ts.type_expr

abbrev has_name : Text → List Text → Bool
has_name var_name (name ∷ []) = text_eq name var_name
has_name var_name _ = false

abbrev pub is_flags_variable : Text → ValueSpec → Bool
is_flags_variable var_name vs = has_name var_name vs.names && is_struct vs.type_expr

-- The first specification that matches gets the field.
unfoldable pub add_to_types : Text → Field → List TypeSpec → List TypeSpec × Bool
add_to_types var_name field [] = ([], false)
add_to_types var_name field (ts ∷ specs) =
    let (rest, found) = add_to_types var_name field specs in
    if is_flags_type var_name ts
    then (record ts { type_expr = add_field field ts.type_expr } ∷ specs, true)
    else (ts ∷ rest, found)

unfoldable pub add_to_variables : Text → Field → List ValueSpec → List ValueSpec × Bool
add_to_variables var_name field [] = ([], false)
add_to_variables var_name field (vs ∷ specs) =
    let (rest, found) = add_to_variables var_name field specs in
    if is_flags_variable var_name vs
    then (record vs { type_expr = add_field field vs.type_expr } ∷ specs, true)
    else (vs ∷ rest, found)

-- The visits of `ast.Inspect`, and whether one of them found the struct. A declaration in which it was
-- found does not end the others' visits.
unfoldable mutual
  unfolding add_to_types add_to_variables

  pub inspect_decl : Text → Field → Decl → Decl × Bool
  inspect_decl var_name field (types specs) =
      let (added, found) = add_to_types var_name field specs in (types added, found)
  inspect_decl var_name field (variables specs) =
      let (added, found) = add_to_variables var_name field specs in (variables added, found)
  inspect_decl var_name field (prototype name) = (prototype name, false)
  inspect_decl var_name field (function name body) =
      let (added, found) = inspect_stmts var_name field body in (function name added, found)
  inspect_decl var_name field (other_decl t) = (other_decl t, false)

  pub inspect_stmts : Text → Field → Stmts → Stmts × Bool
  inspect_stmts var_name field no_stmts = (no_stmts, false)
  inspect_stmts var_name field (declare decl stmts) =
      let (d, found) = inspect_decl var_name field decl in
      let (rest, later) = inspect_stmts var_name field stmts in (declare d rest, found || later)
  inspect_stmts var_name field (nested t inside stmts) =
      let (i, found) = inspect_stmts var_name field inside in
      let (rest, later) = inspect_stmts var_name field stmts in (nested t i rest, found || later)
  inspect_stmts var_name field (stmt t stmts) =
      let (rest, later) = inspect_stmts var_name field stmts in (stmt t rest, later)

unfoldable pub inspect_decls : Text → Field → List Decl → List Decl × Bool
unfolding inspect_decl
inspect_decls var_name field [] = ([], false)
inspect_decls var_name field (decl ∷ decls) =
    let (d, found) = inspect_decl var_name field decl in
    let (rest, later) = inspect_decls var_name field decls in (d ∷ rest, found || later)

-- The variable that is made where there is no struct.
abbrev new_variable : Text → Field → Decl
new_variable var_name field =
    variables (record { names = var_name ∷ []; type_expr = struct (field ∷ []) } ∷ [])

abbrev with_struct : Text → Field → GoFile → List Decl × Bool → GoFile
with_struct var_name field node (decls, true) = record node { decls = decls }
with_struct var_name field node (decls, false) = record node {
  decls = decls ++ new_variable var_name field ∷ [];
}

unfoldable pub add_field_to_struct : Text → Text → Text → GoFile → GoFile
unfolding inspect_decls
add_field_to_struct var_name field_type field_name node =
    let field : Field = record { names = field_name ∷ []; type_name = field_type } in
    with_struct var_name field node (inspect_decls var_name field node.decls)

unfoldable pub append_stmts : Stmts → Stmts → Stmts
append_stmts no_stmts body = body
append_stmts (declare d stmts) body = declare d (append_stmts stmts body)
append_stmts (nested t inside stmts) body = nested t inside (append_stmts stmts body)
append_stmts (stmt t stmts) body = stmt t (append_stmts stmts body)

abbrev pub with_init_code : Stmts → Decl → Decl
with_init_code init_code (function name body) =
    if text_eq name (codes "init")
    then function name (append_stmts init_code body)
    else function name body
with_init_code init_code decl = decl

-- The statements of the code, in front of every init function.
unfoldable pub insert_init_code : Stmts → List Decl → List Decl
unfolding append_stmts
insert_init_code init_code [] = []
insert_init_code init_code (decl ∷ decls) =
    with_init_code init_code decl ∷ insert_init_code init_code decls

-- `strings.ReplaceAll`, with `skip` code points of an occurrence left; `old` is not empty.
unfoldable pub replace_all : Text → Text → ℕ → Text → Text
replace_all old new skip [] = []
replace_all old new (suc skip) (c ∷ s) = replace_all old new skip s
replace_all old new zero (c ∷ s) = elim (has_prefix (c ∷ s) old) [
  | true ↦ new ++ replace_all old new (length old - 1) s
  | false ↦ c ∷ replace_all old new zero s
]

-- Texts with the command's name between them.
abbrev around : Text → List Text → Text
around name [] = []
around name (t ∷ []) = t
around name (t ∷ u ∷ texts) = t ++ (name ++ around name (u ∷ texts))

abbrev flag_text : Text
flag_text =
    codes
      ".configFiles, \"file\", \"f\", nil, \"specify config files or patches in a YAML file (can specify multiple)\")\n\t"

unfoldable pub command_init_code : Text → Text
command_init_code cmd_name = around cmd_name (
    []
    ∷ codes "Cmd.Flags().StringSliceVarP(&"
    ∷ (codes "CmdFlags" ++ flag_text)
    ∷ codes
        "Cmd.PreRunE = func(cmd *cobra.Command, args []string) error {\n\t\tnodesFromArgs := len(GlobalArgs.Nodes) > 0\n\t\tendpointsFromArgs := len(GlobalArgs.Endpoints) > 0\n\t\tfor _, configFile := range "
    ∷ codes
        "CmdFlags.configFiles {\n\t\t\tif err :=\tprocessModelineAndUpdateGlobals(configFile,\tnodesFromArgs, endpointsFromArgs, false); err != nil {\n\t\t\t\treturn err\n\t\t\t}\n\t\t}\n\t\treturn nil\n\t}\n\t"
    ∷ [])

-- What is added for a command below another.
unfoldable pub sub_command_code : Text → Text
sub_command_code sub_cmd_name = around sub_cmd_name (
    codes "\n\n\t"
    ∷ (codes ".Flags().StringSliceVarP(&etcdCmdFlags" ++ flag_text)
    ∷ codes ".PreRunE = etcdCmd.PreRunE\n\t\t"
    ∷ [])

abbrev sub_commands : Text → List Text
sub_commands cmd_name =
    if text_eq cmd_name (codes "etcd")
    then codes "etcdAlarmCmd"
      ∷ codes "etcdDefragCmd"
      ∷ codes "etcdForfeitLeadershipCmd"
      ∷ codes "etcdLeaveCmd"
      ∷ codes "etcdMemberListCmd"
      ∷ codes "etcdMemberRemoveCmd"
      ∷ codes "etcdSnapshotCmd"
      ∷ codes "etcdStatusCmd"
      ∷ codes "etcdAlarmListCmd"
      ∷ codes "etcdAlarmDisarmCmd"
      ∷ []
    else if text_eq cmd_name (codes "image")
    then codes "imageDefaultCmd" ∷ codes "imageListCmd" ∷ codes "imagePullCmd" ∷ []
    else []

abbrev add_sub_commands : Text → List Text → Text
add_sub_commands code [] = code
add_sub_commands code (sub ∷ subs) = add_sub_commands (code ++ sub_command_code sub) subs

unfoldable pub init_code : Text → Text
unfolding command_init_code sub_command_code
init_code cmd_name = add_sub_commands (command_init_code cmd_name) (sub_commands cmd_name)

-- `strings.TrimSuffix`
unfoldable pub trim_suffix : Text → Text → Text
unfolding trim_prefix
trim_suffix s suffix = reverse (trim_prefix (reverse s) (reverse suffix))

-- go/parser on a file and on a function literal with statements, and go/format.
pub record GoTools : Type 0 where
  pub parse_file : Text → Result GoFile
  pub parse_body : Text → Result Stmts
  pub format_node : GoFile → Result Text

unfoldable pub imported_source : Text → Text
unfolding replace_all
imported_source src =
    replace_all (codes "github.com/siderolabs/talos/internal")
      (codes "github.com/aenix-io/talm/internal") 0
      (replace_all (codes "\"f\"") (codes "\"F\"") 0 src)

abbrev pub flags_name : Text → Text
flags_name cmd_name = cmd_name ++ codes "CmdFlags"

-- The tree of the file with what the tool puts into it.
unfoldable pub transformed : Text → Stmts → GoFile → GoFile
unfolding change_package_name add_field_to_struct insert_init_code
transformed cmd_name code node =
    let flags =
      add_field_to_struct (flags_name cmd_name) (codes "[]string") (codes "configFiles")
        (change_package_name (codes "commands") node) in
    record flags { decls = insert_init_code code flags.decls }

module _ (tools : GoTools) where
  -- What is written for the content of a file.
  unfoldable pub process_file : Text → Text → Text → Result Text
  unfolding imported_source init_code transformed
  process_file talos_version cmd_name content =
      wrap "Failed to parse file: %s" [] (tools.parse_file (imported_source content)) >>= λ node.
      wrap "Failed to parse init code: %s" []
        (tools.parse_body (codes "func() { " ++ (init_code cmd_name ++ codes " }")))
      >>= λ code.
          wrap "Failed to format the AST: %s" []
            (tools.format_node (transformed cmd_name code node))
          >>= λ out. ok (
              codes "// Code generated by go run tools/import_commands.go --talos-version "
              ++ (talos_version ++ b' ' ∷ (cmd_name ++ (codes "\n// DO NOT EDIT.\n\n" ++ out))))

  -- The command's name, by which the source of `list` calls itself `ls`.
  unfoldable pub command_name : Text → Text
  unfolding base trim_suffix text_eq
  command_name cmd =
      let name = trim_suffix (base (cmd ++ codes ".go")) (codes ".go") in
      if text_eq name (codes "list") then codes "ls" else name

  -- The files that are written for the commands.
  unfoldable pub import_commands :
      (Text → Result Text) → Text → List Text → Dict Text → Result (Dict Text)
  unfolding process_file command_name
  import_commands download talos_version [] written = ok written
  import_commands download talos_version (cmd ∷ cmds) written =
      wrap "Error downloading file: %s" [] (download (cmd ++ codes ".go")) >>= λ content.
      process_file talos_version (command_name cmd) content >>= λ out.
      import_commands download talos_version cmds
        (insert (codes "pkg/commands/imported_" ++ (cmd ++ codes ".go")) out written)
