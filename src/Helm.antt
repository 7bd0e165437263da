-- ===== src/Helm.antt =====
-- pkg/engine/helm: talm's copy of Helm's template engine, changed to look up Talos resources.
pub mod Sort
pub mod Files
pub mod Render
pub mod Include
pub mod Functions
pub mod Charts
