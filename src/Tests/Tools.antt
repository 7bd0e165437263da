-- ===== src/Tests/Tools.antt =====
-- The generated presets at small inputs.
use talm.Tools.Syntax.{GoFile, Stmts, function, variables, stmt, no_stmts, struct}
use talm.Tools.Import.{GoTools, process_file, transformed, imported_source}
use talm.Tools.Import.Laws.{Registers, IsImported, process_file-IsImported}
use talm.Base.{List, All, ◌++◌, ◌≡◌, refl, some, [], ◌∷◌, map, arith}
use talm.Base.Text.{has_prefix, text_eq, codes}
use talm.Base.Dict.{lookup, Dict}
use talm.Base.Text.{Text}
use mathlib.Core.List.{Permᴰ}
use talm.Helm.Sort.Order.{IsAscending}
use talm.Base.Result.{ok}
use talm.Tools.Presets.{copy, chart_template, generated_source, file_key}
use talm.Tools.Presets.Source.{Entry, IsPreset, read_presets, read_presets-generated_source}

abbrev two_presets : Dict Text
two_presets = (codes "generic/b", codes "x`y\r") ∷ (codes "generic/a", codes "{{ . }}\n") ∷ []

read_presets-generated_source_example :
    (entries : List Entry) × (read_presets 3 (generated_source two_presets (codes "generic" ∷ []))
      ≡ some entries)
    × IsAscending (map file_key entries)
    × Permᴰ (map file_key entries) (map file_key two_presets)
    × All (IsPreset two_presets) entries
read_presets-generated_source_example =
    read_presets-generated_source two_presets (codes "generic" ∷ []) 3 refl (omega arith)

presets :
    read_presets 3 (generated_source two_presets (codes "generic" ∷ []))
    ≡ some ((codes "generic/a", codes "{{ . }}\n") ∷ (codes "generic/b", codes "x`y") ∷ [])
unfolding read_presets generated_source lookup text_eq
presets = refl

chart_yaml :
    chart_template copy (codes "type: x\nname: talm\nversion: 1.2\n")
    ≡ codes "type: x\nname: %s\nversion: %s\n"
unfolding chart_template
chart_yaml = refl

-- A command whose flags have no struct yet.
abbrev disks : GoFile
disks = record {
  name = codes "talos";
  decls = function (codes "init") (stmt (codes "addCommand(disksCmd)") no_stmts) ∷ [];
}

abbrev code : Stmts
code = stmt (codes "flag") (stmt (codes "disksCmd.PreRunE = run") no_stmts)

abbrev tools : GoTools
tools = record {
  parse_file = λ t. ok disks;
  parse_body = λ t. ok code;
  format_node = λ node. ok (node.name ++ 10 ∷ []);
}

process_file-IsImported_example :
    (tree : GoFile) × (body : Stmts) × (code_text printed : Text) × Registers
      (codes "disks")
      code_text
    × (tools.parse_body (codes "func() { " ++ (code_text ++ codes " }")) ≡ ok body)
    × IsImported (codes "disks") body tree
    × (tools.format_node tree ≡ ok printed)
    × (codes
          "// Code generated by go run tools/import_commands.go --talos-version v1 disks\n// DO NOT EDIT.\n\ncommands\n"
        ≡ codes "// Code generated by go run tools/import_commands.go --talos-version "
          ++ (codes "v1" ++ b' ' ∷ (codes "disks" ++ (codes "\n// DO NOT EDIT.\n\n" ++ printed))))
unfolding process_file transformed
process_file-IsImported_example =
    process_file-IsImported tools (codes "v1") (codes "disks") (codes "package talos") refl

transformed_disks :
    (transformed (codes "disks") code disks).decls
    ≡ function (codes "init") (
        stmt
          (codes "flag")
          (stmt (codes "disksCmd.PreRunE = run") (stmt (codes "addCommand(disksCmd)") no_stmts)))
      ∷ variables (
          record {
            names = codes "disksCmdFlags" ∷ [];
            type_expr =
                struct
                  (record { names = codes "configFiles" ∷ []; type_name = codes "[]string" } ∷ []);
          }
          ∷ [])
      ∷ []
unfolding transformed text_eq
transformed_disks = refl

short_flag : imported_source (codes "x, \"f\", y") ≡ codes "x, \"F\", y"
unfolding imported_source has_prefix
short_flag = refl
