-- ===== src/Application/Resolution.antt =====
-- application/resolution.py: a turn's bundle is checked and projected onto events, mutations and a
-- state version.
pub mod Equality
pub mod Reactions
pub mod Events
pub mod Project
