-- ===== src/Tools.antt =====
-- tools/: the programs that generate source code of talm.
pub mod Presets
pub mod Syntax
pub mod Import
