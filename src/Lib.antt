-- ===== src/Lib.antt =====
-- The game core of the adventure service (src/ai_rpg): a turn's actions are resolved by a ruleset
-- with dice, a fight may answer with one enemy reaction, a scenario's progress follows from the
-- outcome, and the whole is checked once more and projected onto events, mutations and a state
-- version. A turn is stored by transactions: a worker leases its resolution and then its narration,
-- every call of a model is counted before it is made, and a commit is fenced by the lease's epoch.
-- Stories are written by jobs that workers claim in the same way, and the calls of both are admitted
-- by the limits of use.
--
-- Files and code:
--   Prelude        lists, tests, keys, dicts, integers and errors shared by all parts
--   Text           texts as lists of code points, decimal numbers, regular expressions (Text/Regex)
--   Domain         src/ai_rpg/domain: models.py (Character), commands.py (Commands), results.py
--                  (Results), events.py (Events); Accepted has the values that validators accept
--   Engine         src/ai_rpg/engine: dice.py (Random, Dice), ruleset.py (Ruleset: resolve_skill_check,
--                  resolve_attack, resolve_use_item; Ruleset/Open: open_modifier)
--   Scenario       src/ai_rpg/scenarios/models.py (Model, Validate: valid_graph and
--                  _validate_initialization), src/ai_rpg/contracts/llm_decisions.py (Intent),
--                  src/ai_rpg/application/legacy_scenario_policy.py (Lore),
--                  src/ai_rpg/application/scenarios.py (Progress: definition_for, _current_scene;
--                  Progress/Bindings: bind_*; Progress/Registered: progress_for; Progress/Open:
--                  progress_open; Progress/Public: public_context_for, public_protected_facts)
--   Application    src/ai_rpg/application/ports/repositories.py (Ports), src/ai_rpg/application/combat.py
--                  (Combat, with Combat/Characters and Combat/Update: resolve_enemy_reaction),
--                  src/ai_rpg/application/resolution.py (Mutations: _canonical_mutations;
--                  Resolution/Reactions: _validate_enemy_reactions;
--                  Resolution/Events: _events; Resolution/Project: project_resolution)
--   Budget         src/ai_rpg/llm/budget.py (CallBudget)
--   Usage          src/ai_rpg/infrastructure/postgres/community.py (reserve_usage)
--   Stories        src/ai_rpg/contracts/stories.py (Json: the values of a draft), and in
--                  src/ai_rpg/infrastructure/postgres: story_models.py (Drafts), stories.py (Ledger:
--                  owners, drafts by revision and the requests that were answered)
--   Authoring      src/ai_rpg/infrastructure/postgres/job_models.py and src/ai_rpg/contracts/story_jobs.py
--                  (Tables, Rows), src/ai_rpg/application/story_jobs.py and
--                  src/ai_rpg/infrastructure/postgres/story_jobs.py (Jobs: claim, reserve_call,
--                  record_usage, succeed, fail; Requests: enqueue, edit_outline, cancel; Calls: all of
--                  them as steps; Phases, Keeps, Steps and Calls/...: what the steps keep)
--   Turns          src/ai_rpg/infrastructure/postgres/models.py and scenario_source.py (Rows),
--                  src/ai_rpg/infrastructure/postgres/repositories.py (Leases: how both phases
--                  are acquired and routed; Commits: finalize_not_applied, commit_narrative; Calls:
--                  save_conditionally, reserve, record_failure; Resolve: commit_resolution; World:
--                  all of them as steps; Phases, Steps and World/...: what the steps keep)
--   Tests          the theorems at concrete inputs
--
-- How the code is modelled. A UUID is a number, a reference a string, and a text that is shown or
-- parsed a list of code points. A Python int that may be negative is an integer of Prelude/Int, any
-- other is a native number, where `max(0, a - b)` is the truncated difference. An exception is a value
-- of Prelude/Errors with its class and message, and a function that may raise returns a Result; tests
-- that only raise are rows of a condition and an error. A pydantic model is a record, and its
-- validator a function that returns the record or raises. A function that rolls dice threads the
-- state of a random source, which is a parameter with the law that its numbers lie between the ends;
-- secrets.randbelow is a parameter too. The factories of ids are parameters: the n-th id of a call.
-- Python's `is` on actions is a parameter. Snapshots keep the fields that the modelled code reads.
--
-- A table is a list of rows, and a transaction a function from the tables and its reading of the
-- clock to a Result of new tables, whose errors leave the tables as they were; UPDATE changes the rows
-- with a key (Prelude/Rows), and SELECT ... FOR UPDATE SKIP LOCKED has the locked rows as an argument.
-- Transactions of several workers are a step relation, in any order and with any arguments. Points in
-- time are microseconds. The hash of a content, the rights of a turn's principal, and the updates of the
-- tables of characters and stocks in commit_resolution are parameters.
--
-- Loops are structural recursion. The fuel of `decimal_fuel` in Text is the number that is printed,
-- which has no more digits than that; `ends` in Text/Regex is by recursion on the expression.
--
-- Not modelled: the HTTP interface, the language models and configuration, which are input and output
-- around this core; the workers' own loops; accept_pending, save_risk_proposal and the queries of the
-- repositories; the saving and publishing of stories, compile_draft, and the adoption of proposals; the
-- bounds of fields of scenario definitions; validate_transition_request, whose pattern looks ahead.
pub mod Prelude
pub mod Text
pub mod Domain
pub mod Engine
pub mod Scenario
pub mod Application
pub mod Budget
pub mod Turns
pub mod Usage
pub mod Stories
pub mod Authoring
pub mod Tests
