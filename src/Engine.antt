-- ===== src/Engine.antt =====
-- pkg/engine/engine.go: values, the configuration bundle, and the rendering of templates.
pub mod Values
pub mod Load
pub mod Bundle
pub mod Render
pub mod Template
pub mod Lookup
