-- ===== src/Scenario.antt =====
-- Scenario definitions (src/ai_rpg/scenarios) and their progress (application/scenarios.py).
pub mod Model
pub mod Intent
pub mod Lore
pub mod Progress
pub mod Validate
