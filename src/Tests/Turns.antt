-- ===== src/Tests/Turns.antt =====
-- A world with one turn: waiting, taken, and told.
use ai_rpg.Prelude.{
  ℕ, ◌≡◌, refl, true, false, Bool, some, none, Option, List, [], ◌∷◌, ok, inl, arith, Result,
}
use ai_rpg.Prelude.Rows.{Among}
use ai_rpg.Domain.Results.{Uuid}
use ai_rpg.Text.{Text}
use ai_rpg.Application.Ports.{CommitBundle}
use ai_rpg.Application.Mutations.{CanonicalMutation}
use ai_rpg.Application.Resolution.Reactions.{TurnCommitContext}
use ai_rpg.Turns.Rows.{
  ResolutionStatus, pending, committed, NarrationStatus, unwritten, completed, PhaseColumns,
  TurnModel, CampaignModel, narrative,
}
use ai_rpg.Turns.Leases.{
  LeaseLimits, acquire_resolution, record_initial_route, promote_to_mechanical,
}
use ai_rpg.Turns.Commits.{resolution_phase, NarrativeCommit, finalize_not_applied, commit_narrative}
use ai_rpg.Turns.Resolve.{commit_resolution}
use ai_rpg.Turns.Phases.{turn_phase, EndedAs, IsTold}
use ai_rpg.Turns.World.{World, with_turns, Calls, here, then_call, takes_resolution}
use ai_rpg.Turns.World.Fences.{HasTurns, LaterTurn, Calls-HasTurns, Calls-LaterTurn, Calls-EndedAs}
use ai_rpg.Turns.World.Lost.{WroteNothing, CommittedNothing, Refused, FailedNothing, lost_worker}
use ai_rpg.Turns.Calls.{reserve, record_failure}
use ai_rpg.Tests.Jobs.{settings}

abbrev columns : ℕ → PhaseColumns
columns epoch = record {
  worker_epoch = epoch;
  lease_until = none;
  attempt_count = 0;
  started_at = none;
  deadline = none;
  next_attempt_at = none;
  failure_code = none;
}

abbrev turn_with : ResolutionStatus → NarrationStatus → ℕ → Option ℕ → Option Text → TurnModel
turn_with status telling epoch version narration = record {
  id = 80;
  campaign_id = 90;
  scene_id = 70;
  created_by = 7;
  actor_id = 1;
  committed_state_version = version;
  route = none;
  initial_route = none;
  routing_rule_version = none;
  routing_reason_codes = none;
  resolution_status = status;
  narration_status = telling;
  llm_call_count = 0;
  llm_call_budget = 3;
  resolution = columns epoch;
  narrating = columns 0;
  committed_at = none;
  narration_input = none;
  narration = narration;
  recovery_reason = none;
  created_at = 1;
}

-- Its first worker gave it back, and a second one did.
abbrev waiting_turn : TurnModel
waiting_turn = turn_with pending unwritten 2 none none

abbrev told_turn : TurnModel
told_turn = turn_with committed completed 1 (some 4) (some (b'a' ∷ []))

abbrev world : TurnModel → World
world t = record {
  tables = record {
    campaigns =
        record { id = 90; state_version = 4; event_sequence = 6; story_lifecycle = some "active" }
        ∷ [];
    turns = t ∷ [];
    events = [];
    choices = [];
    actions = [];
  };
  usage = record { reservations = []; usage_paused = false; turns = [] };
  scenario = record { scenes = []; runs = []; flags = []; facts = [] };
}

abbrev limits : LeaseLimits
limits = record { lease_seconds = 30; max_attempts = 3; deadline_seconds = 120 }

abbrev free : Uuid → Bool
free id = false

abbrev taken : TurnModel → World
taken t =
    with_turns (world t)
      (acquire_resolution limits none free 5 5 (world t).tables.campaigns (t ∷ [])).1

taken-Calls : (t : TurnModel) → Calls (world t) (taken t)
taken-Calls t = then_call here (takes_resolution limits none free 5 5 refl)

waiting-HasTurns : HasTurns (world waiting_turn)
waiting-HasTurns = record {
  ids = refl;
  rows = (record { ordered = refl; within = omega arith }, tt);
}

told-HasTurns : HasTurns (world told_turn)
told-HasTurns = record { ids = refl; rows = (record { ordered = refl; within = omega arith }, tt) }

Calls-HasTurns_example : HasTurns (taken waiting_turn)
Calls-HasTurns_example =
    Calls-HasTurns (world waiting_turn) (taken waiting_turn) (taken-Calls waiting_turn)
      waiting-HasTurns

Calls-LaterTurn_example : LaterTurn waiting_turn (taken waiting_turn)
Calls-LaterTurn_example =
    Calls-LaterTurn (world waiting_turn) (taken waiting_turn) waiting_turn
      (taken-Calls waiting_turn) waiting-HasTurns (inl refl)

Calls-EndedAs_example :
    (u : TurnModel) × Among u (taken told_turn).tables.turns
    × (u.id ≡ 80)
    × EndedAs committed (some 4) (turn_phase u)
    × IsTold (some (b'a' ∷ [])) (turn_phase u)
unfolding turn_phase
Calls-EndedAs_example =
    Calls-EndedAs (world told_turn) (taken told_turn) told_turn committed (some 4)
      (some (b'a' ∷ [])) (taken-Calls told_turn) told-HasTurns (inl refl) (refl, refl) refl

abbrev commit : NarrativeCommit
commit = record {
  campaign_id = 90;
  turn_id = 80;
  scene_id = 70;
  worker_epoch = 1;
  base_state_version = 4;
  narration = [];
  choices = [];
}

abbrev bundle : CommitBundle
bundle = record {
  campaign_id = 90;
  scene_id = 70;
  turn_id = 80;
  worker_epoch = 1;
  base_state_version = 4;
  actions = [];
  narration_input = record {
    player_text = [];
    committed_state_version = 4;
    resolved_actions = [];
    enemy_reactions = [];
    max_actions = 3;
  };
  scenario_update = none;
  enemy_reactions = [];
}

abbrev authorized : TurnModel → Bool
authorized t = true

abbrev is_open : CampaignModel → Bool
is_open c = true

abbrev context_of : TurnModel → TurnCommitContext
context_of t = record {
  scene_id = t.scene_id;
  actor_id = t.actor_id;
  max_actions = 3;
  enemy_id = none;
}

abbrev event_ids : ℕ → Uuid
event_ids n = n

abbrev accepts : List CanonicalMutation → Result (Unit {0})
accepts mutations = ok tt

lost_worker_example :
    (record_initial_route 80 1 narrative "v1" [] 6 (taken waiting_turn).tables.turns
      ≡ (false, (taken waiting_turn).tables.turns))
    × (promote_to_mechanical 80 1 6 (taken waiting_turn).tables.turns
        ≡ (false, (taken waiting_turn).tables.turns))
    × WroteNothing
        (finalize_not_applied 80 1 [] 6 500 (taken waiting_turn).tables)
        (taken waiting_turn).tables
    × WroteNothing
        (commit_narrative authorized commit 6 6 500 (taken waiting_turn).tables)
        (taken waiting_turn).tables
    × CommittedNothing
        (commit_resolution authorized is_open context_of event_ids accepts accepts bundle 6 6
          (taken waiting_turn).tables
          (taken waiting_turn).scenario)
        (taken waiting_turn).tables
        (taken waiting_turn).scenario
    × Refused
        (reserve settings 80 resolution_phase 1 6 6 6
          (taken waiting_turn).usage
          (taken waiting_turn).tables)
        (taken waiting_turn).usage
        (taken waiting_turn).tables.turns
    × FailedNothing
        (record_failure 80 resolution_phase 1 "timeout" 3 6 (taken waiting_turn).tables)
        (taken waiting_turn).tables.turns
unfolding turn_phase
lost_worker_example =
    lost_worker authorized is_open context_of event_ids accepts accepts (world waiting_turn)
      (taken waiting_turn) waiting_turn narrative "v1" [] [] commit bundle 6 6 500 settings 6
      "timeout" 3 (taken-Calls waiting_turn) waiting-HasTurns (inl refl) (omega arith) refl refl
      refl
