-- ===== src/Tools/Syntax.antt =====
-- The part of a Go file's syntax tree that tools/import_commands.go looks at and changes: declarations
-- of types and variables, and functions with the statements in them. All else is kept as text.
use talm.Base.{List}
use talm.Base.Text.{Text}

-- `ast.Field`, and a type, which is a struct or not.
pub record Field : Type 0 where
  pub names : List Text
  pub type_name : Text

pub data TypeExpr : Type 0 where
  struct : List Field → TypeExpr
  other_type : Text → TypeExpr

pub record TypeSpec : Type 0 where
  pub name : Text
  pub type_expr : TypeExpr

pub record ValueSpec : Type 0 where
  pub names : List Text
  pub type_expr : TypeExpr

-- A prototype is a function without a body. Statements hold declarations, and statements with others in them, such
-- as blocks and function literals.
mutual
  pub data Decl : Type 0 where
    types : List TypeSpec → Decl
    variables : List ValueSpec → Decl
    function : Text → Stmts → Decl
    prototype : Text → Decl
    other_decl : Text → Decl

  pub data Stmts : Type 0 where
    no_stmts : Stmts
    declare : Decl → Stmts → Stmts
    nested : Text → Stmts → Stmts → Stmts
    stmt : Text → Stmts → Stmts

-- `ast.File`
pub record GoFile : Type 0 where
  pub name : Text
  pub decls : List Decl
