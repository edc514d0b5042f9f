-- ===== src/Json.antt =====
-- JSON values as Python holds them, and the built-in operations that the services apply to them.
mod Data
pub mod Builtins
pub use Data.*
