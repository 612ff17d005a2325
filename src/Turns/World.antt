-- ===== src/Turns/World.antt =====
-- The transactions of the workers, one after another, as steps over the tables of turns
-- (infrastructure/postgres/repositories.py). One that raises changes nothing.
pub mod Writes
pub mod Ends
pub mod Resolved
pub mod Counts
pub mod Fences
pub mod Lost
pub mod Replays
use ai_rpg.Prelude.{
  ℕ, ◌≡◌, String, Bool, true, false, ◌||◌, Option, List, ◌∷◌, map, contains, id_eq, Result, ok, ◌≤◌,
}
use ai_rpg.Domain.Results.{Uuid}
use ai_rpg.Text.{Text}
use ai_rpg.Usage.{Settings, UsageTables}
use ai_rpg.Application.Ports.{CommitBundle}
use ai_rpg.Application.Mutations.{CanonicalMutation}
use ai_rpg.Application.Resolution.Reactions.{TurnCommitContext}
use ai_rpg.Turns.Rows.{TurnModel, CampaignModel, Route, TurnTables}
use ai_rpg.Turns.Leases.{
  LeaseLimits, acquire_resolution, acquire_narration, record_initial_route, promote_to_mechanical,
}
use ai_rpg.Turns.Commits.{
  LlmPhase, ChoiceDraft, NarrativeCommit, finalize_not_applied, commit_narrative,
}
use ai_rpg.Turns.Calls.{FailureDisposition, save_conditionally, reserve, record_failure}
use ai_rpg.Turns.Resolve.{ScenarioTables, commit_resolution}
use ai_rpg.Turns.Steps.{IsTurnRow}

pub record World : Type 0 where
  pub tables : TurnTables
  pub usage : UsageTables
  pub scenario : ScenarioTables

abbrev pub with_turns : World → List TurnModel → World
with_turns w turns = record w { tables = record w.tables { turns = turns } }

pub data Call (w w' : World) : Type 0 where
  -- A turn that the intake adds: its id is new, it has no narration and no calls.
  opens :
      (t : TurnModel)
      → contains t.id (map (λ u. u.id) w.tables.turns) ≡ false
      → IsTurnRow t
      → w' ≡ with_turns w (t ∷ w.tables.turns)
      → Call w w'
  takes_resolution :
      (limits : LeaseLimits) (asked : Option Uuid) (locked : Uuid → Bool) (started now : ℕ)
      → w'
        ≡ with_turns w
            (acquire_resolution limits asked locked started now w.tables.campaigns w.tables.turns).1
      → Call w w'
  takes_narration :
      (limits : LeaseLimits) (asked : Option Uuid) (locked : Uuid → Bool) (started now : ℕ)
      → w'
        ≡ with_turns w
            (acquire_narration limits asked locked started now w.tables.campaigns w.tables.turns).1
      → Call w w'
  routes :
      (turn_id : Uuid) (worker_epoch : ℕ) (route : Route) (version : String) (reasons : List String)
      (now : ℕ)
      → w'
        ≡ with_turns w
            (record_initial_route turn_id worker_epoch route version reasons now w.tables.turns).1
      → Call w w'
  promotes :
      (turn_id : Uuid) (worker_epoch now : ℕ)
      → w' ≡ with_turns w (promote_to_mechanical turn_id worker_epoch now w.tables.turns).1
      → Call w w'
  finalizes :
      (turn_id : Uuid) (worker_epoch : ℕ) (narration : Text) (now : ℕ) (event_id : Uuid)
      (done : Bool) (after : TurnTables)
      → finalize_not_applied turn_id worker_epoch narration now event_id w.tables ≡ ok (done, after)
      → w' ≡ record w { tables = after }
      → Call w w'
  commits_narrative :
      (authorized : TurnModel → Bool) (commit : NarrativeCommit) (started now : ℕ) (event_id : Uuid)
      (version : Option ℕ) (after : TurnTables)
      → commit_narrative authorized commit started now event_id w.tables ≡ ok (version, after)
      → w' ≡ record w { tables = after }
      → Call w w'
  commits :
      (authorized : TurnModel → Bool) (is_open : CampaignModel → Bool)
      (context_of : TurnModel → TurnCommitContext) (event_id_factory : ℕ → Uuid)
      (check_mutations write_mutations : List CanonicalMutation → Result (Unit {0}))
      (bundle : CommitBundle) (started now : ℕ) (version : Option ℕ) (after : TurnTables)
      (scenario : ScenarioTables)
      → commit_resolution authorized is_open context_of event_id_factory check_mutations
          write_mutations bundle started now w.tables w.scenario
        ≡ ok (version, after, scenario)
      → w' ≡ record w { tables = after; scenario = scenario }
      → Call w w'
  saves :
      (campaign_id turn_id : Uuid) (worker_epoch : ℕ) (narration : Text)
      (choices : List ChoiceDraft) (fallback_reason : Option String) (now : ℕ) (event_id : Uuid)
      (done : Bool) (after : TurnTables)
      → save_conditionally campaign_id turn_id worker_epoch narration choices fallback_reason now
          event_id w.tables
        ≡ ok (done, after)
      → w' ≡ record w { tables = after }
      → Call w w'
  reserves :
      (settings : Settings) (turn_id : Uuid) (phase : LlmPhase) (worker_epoch started now later : ℕ)
      (done : Bool) (usage : UsageTables) (turns : List TurnModel)
      → reserve settings turn_id phase worker_epoch started now later w.usage w.tables
        ≡ ok (done, usage, turns)
      → w' ≡ record (with_turns w turns) { usage = usage }
      → Call w w'
  fails :
      (turn_id : Uuid) (phase : LlmPhase) (worker_epoch : ℕ) (code : String) (max_attempts now : ℕ)
      (disposition : Option FailureDisposition) (turns : List TurnModel)
      → record_failure turn_id phase worker_epoch code max_attempts now w.tables
        ≡ ok (disposition, turns)
      → w' ≡ with_turns w turns
      → Call w w'

pub data Calls (w : World) : World → Type 0 where
  here : Calls w w
  then_call : {mid last : World} → Calls w mid → Call mid last → Calls w last
