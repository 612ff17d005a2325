-- ===== src/Authoring.antt =====
-- The jobs that write drafts with a model: application/story_jobs.py, contracts/story_jobs.py,
-- infrastructure/postgres/job_models.py and story_jobs.py of src/ai_rpg.
pub mod Tables
pub mod Rows
pub mod Jobs
pub mod Requests
pub mod Phases
pub mod Calls
pub mod Keeps
pub mod Steps
