-- ===== src/Tools.antt =====
-- The guards and the registry of the tools: pkg/tools.
pub mod Paths
pub mod Workspace
pub mod Links
pub mod Unlinked
mod Examples
