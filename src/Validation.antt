-- ===== src/Validation.antt =====
-- internal/validation: the checks of the objects of a repository.
pub mod Types
pub mod Field
pub mod Schema
pub mod Index
pub mod References
pub mod Phases
