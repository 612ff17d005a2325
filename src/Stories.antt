-- ===== src/Stories.antt =====
-- Stories and their drafts: contracts/stories.py, application/stories.py and
-- infrastructure/postgres/stories.py of src/ai_rpg.
pub mod Json
pub mod Drafts
pub mod Ledger
