-- ===== src/Store.antt =====
-- internal/data: the store of the objects in the files of a repository.
pub mod Defs
pub mod Paths
pub mod Identifier
pub mod Derived
pub mod Files
pub mod Load
pub mod LoadAll
pub mod Operations
