-- ===== src/Prelude/Rows.antt =====
-- Rows of a table with a key.
mod Evolution
mod Updates
pub use Evolution.*
pub use Updates.*
