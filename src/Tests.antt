-- ===== src/Tests.antt =====
-- The theorems at concrete inputs.
mod Sources
mod Engine
mod Fold
mod Commits
mod Scenarios
mod Publics
mod Budgets
mod Jobs
mod Turns
mod Replays
