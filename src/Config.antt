-- ===== src/Config.antt =====
-- internal/config: the configuration, and how it is normalised.
pub mod Model
pub mod Raw
pub mod Load
pub mod IsA
pub mod Names
pub mod References
pub mod Cycles
pub mod Graph
pub mod Inherit
pub mod Types
pub mod Links
pub mod Fields
pub mod PathSource
