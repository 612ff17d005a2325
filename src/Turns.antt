-- ===== src/Turns.antt =====
-- The rows of turns and the leases of their two phases: infrastructure/postgres/repositories.py of
-- src/ai_rpg.
pub mod Rows
pub mod Leases
pub mod Commits
pub mod Calls
pub mod Resolve
pub mod Phases
pub mod Steps
pub mod World
