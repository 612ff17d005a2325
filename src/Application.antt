-- ===== src/Application.antt =====
-- The application layer of src/ai_rpg/application: what a turn's resolution is made of.
pub mod Ports
pub mod Mutations
pub mod Resolution
pub mod Combat
