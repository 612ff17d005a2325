-- ===== src/Tests/Replays.antt =====
-- A turn of two actions whose bundle is committed, and committed again by another worker.
use ai_rpg.Prelude.{◌≡◌, refl, true, Bool, some, none, List, [], ◌∷◌, ok, Result}
use ai_rpg.Application.Ports.{CommitBundle}
use ai_rpg.Application.Mutations.{CanonicalMutation}
use ai_rpg.Application.Resolution.Reactions.{TurnCommitContext}
use ai_rpg.Turns.Rows.{TurnModel, CampaignModel, TurnTables, PhaseColumns, resolving, unwritten}
use ai_rpg.Turns.Resolve.{
  ScenarioTables, commit_resolution, check_scenario, write_scenario, write_projection,
}
use ai_rpg.Domain.Results.{Uuid}
use ai_rpg.Turns.Commits.{write_turn}
use ai_rpg.Turns.Leases.{LeaseLimits, acquire_narration}
use ai_rpg.Prelude.{false, arith}
use ai_rpg.Turns.World.{World, with_turns, here, then_call, takes_narration}
use ai_rpg.Turns.World.Fences.{HasTurns}
use ai_rpg.Turns.World.Replays.{commit_resolution_twice}
use ai_rpg.Tests.Fold.{bundle, turn, ids, projection, projected}

abbrev columns : PhaseColumns
columns = record {
  worker_epoch = 1;
  lease_until = some 30;
  attempt_count = 1;
  started_at = some 5;
  deadline = some 100;
  next_attempt_at = none;
  failure_code = none;
}

abbrev resolved_turn : TurnModel
resolved_turn = record {
  id = 80;
  campaign_id = 90;
  scene_id = 60;
  created_by = 7;
  actor_id = 1;
  committed_state_version = none;
  route = none;
  initial_route = none;
  routing_rule_version = none;
  routing_reason_codes = none;
  resolution_status = resolving;
  narration_status = unwritten;
  llm_call_count = 0;
  llm_call_budget = 3;
  resolution = columns;
  narrating = columns;
  committed_at = none;
  narration_input = none;
  narration = none;
  recovery_reason = none;
  created_at = 1;
}

abbrev campaign : CampaignModel
campaign = record {
  id = 90;
  state_version = 7;
  event_sequence = 20;
  story_lifecycle = some "active";
}

abbrev tables : TurnTables
tables = record {
  campaigns = campaign ∷ [];
  turns = resolved_turn ∷ [];
  events = [];
  choices = [];
  actions = [];
}

abbrev scenario : ScenarioTables
scenario = record { scenes = []; runs = []; flags = []; facts = [] }

abbrev authorized : TurnModel → Bool
authorized t = true

abbrev is_open : CampaignModel → Bool
is_open c = true

abbrev context_of : TurnModel → TurnCommitContext
context_of t = turn

abbrev accepts : List CanonicalMutation → Result (Unit {0})
accepts mutations = ok tt

abbrev committed_tables : TurnTables
committed_tables = write_projection bundle projection 6 campaign resolved_turn tables

first_commit :
    commit_resolution authorized is_open context_of ids accepts accepts bundle 6 7 tables scenario
    ≡ ok (some 8, committed_tables, scenario)
unfolding commit_resolution check_scenario write_scenario
first_commit = rw projected refl

abbrev other_worker : CommitBundle
other_worker = record bundle { worker_epoch = 2; base_state_version = 8 }

abbrev world : TurnTables → World
world t = record {
  tables = t;
  usage = record { reservations = []; usage_paused = false; turns = [] };
  scenario = scenario;
}

world-HasTurns : HasTurns (world tables)
world-HasTurns = record { ids = refl; rows = (record { ordered = refl; within = omega arith }, tt) }

abbrev limits : LeaseLimits
limits = record { lease_seconds = 30; max_attempts = 3; deadline_seconds = 120 }

abbrev free : Uuid → Bool
free id = false

-- Another worker takes the narration in between.
abbrev later : World
later =
    with_turns (world committed_tables)
      (acquire_narration limits none free 7 7 committed_tables.campaigns committed_tables.turns).1

commit_resolution_twice_example :
    commit_resolution authorized is_open context_of ids accepts accepts other_worker 8 9
      later.tables later.scenario
    ≡ ok (some 8, later.tables, later.scenario)
unfolding write_projection write_turn
commit_resolution_twice_example =
    commit_resolution_twice authorized is_open context_of ids accepts accepts (world tables) later
      bundle other_worker 6 7 8 9 committed_tables scenario (some 8)
      (record campaign { state_version = 8; event_sequence = 28 }) world-HasTurns first_commit
      (then_call here (takes_narration limits none free 7 7 refl)) refl refl refl
