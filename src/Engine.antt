-- ===== src/Engine.antt =====
-- The rule engine of src/ai_rpg/engine: random sources, dice and the two rulesets.
pub mod Random
pub mod Dice
pub mod Ruleset
