-- ===== src/Domain.antt =====
-- The contracts of src/ai_rpg/domain: commands, states, results and events.
pub mod Results
pub mod Character
pub mod Commands
pub mod Events
pub mod Accepted
