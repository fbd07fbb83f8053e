-- ===== src/Diff.antt =====
-- internal/diff: the semantic comparison of two snapshots.
pub mod Canonical
pub mod Fields
pub mod Database
