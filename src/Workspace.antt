-- ===== src/Workspace.antt =====
-- internal/workspace: the loaded workspace with its index, and the runtime of open documents.
pub mod Index
pub mod Overlay
pub mod Runtime
