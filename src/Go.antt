-- ===== src/Go.antt =====
-- The parts of Go and of its standard library that the program relies on.
pub mod Map
pub mod Order
pub mod Int
pub mod Parse
pub mod Text
pub mod FilePath
