-- ===== src/Value.antt =====
-- Decoded values, and the operations of internal/data/util.go and internal/scalar on them.
pub mod Defs
pub mod Maps
pub mod Merge
pub mod Normalize
pub mod Scalar
