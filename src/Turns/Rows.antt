-- ===== src/Turns/Rows.antt =====
-- infrastructure/postgres/models.py: the columns of a turn that the workers read and write, with
-- those of its campaign. The columns of the two phases have the same names behind `resolution_` and
-- `narration_`, and are two records here. Times are microseconds since the epoch.
use ai_rpg.Prelude.{
  ℕ, String, Bool, false, Option, none, some, List, leb, ltb, ◌==◌, id_eq, ref_eq, option_eq,
}
use ai_rpg.Domain.Results.{Uuid, ActionResult}
use ai_rpg.Domain.Commands.{Command}
use ai_rpg.Application.Ports.{MechanicalNarrationInput}
use ai_rpg.Text.{Text}

pub data ResolutionStatus : Type 0 where
  pending : ResolutionStatus
  resolving : ResolutionStatus
  committed : ResolutionStatus
  not_applied : ResolutionStatus
  failed : ResolutionStatus

pub data NarrationStatus : Type 0 where
  -- `pending`
  unwritten : NarrationStatus
  generating : NarrationStatus
  completed : NarrationStatus
  fallback : NarrationStatus

pub data Route : Type 0 where
  narrative : Route
  mechanical : Route

pub record PhaseColumns : Type 0 where
  pub worker_epoch : ℕ
  pub lease_until : Option ℕ
  pub attempt_count : ℕ
  pub started_at : Option ℕ
  pub deadline : Option ℕ
  pub next_attempt_at : Option ℕ
  pub failure_code : Option String

pub record TurnModel : Type 0 where
  pub id : Uuid
  pub campaign_id : Uuid
  pub scene_id : Uuid
  pub created_by : Uuid
  pub actor_id : Uuid
  pub committed_state_version : Option ℕ
  pub route : Option Route
  pub initial_route : Option Route
  pub routing_rule_version : Option String
  pub routing_reason_codes : Option (List String)
  pub resolution_status : ResolutionStatus
  pub narration_status : NarrationStatus
  pub llm_call_count : ℕ
  pub llm_call_budget : ℕ
  pub resolution : PhaseColumns
  pub narrating : PhaseColumns
  pub committed_at : Option ℕ
  pub narration_input : Option MechanicalNarrationInput
  pub narration : Option Text
  pub recovery_reason : Option String
  pub created_at : ℕ

-- A campaign, with the lifecycle of the story that it plays, where it plays one.
pub record CampaignModel : Type 0 where
  pub id : Uuid
  pub state_version : ℕ
  pub event_sequence : ℕ
  pub story_lifecycle : Option String

-- An event of a campaign; its payload is that of a narration, or of a domain event.
pub record EventModel : Type 0 where
  pub id : Uuid
  pub campaign_id : Uuid
  pub turn_id : Uuid
  pub sequence : ℕ
  pub state_version : ℕ
  pub is_narration : Bool

pub record TurnChoiceModel : Type 0 where
  pub id : Uuid
  pub campaign_id : Uuid
  pub scene_id : Uuid
  pub source_turn_id : Uuid
  pub actor_id : Uuid
  pub ordinal : ℕ
  pub label : Text
  pub state_version : ℕ

-- An action of a turn; its kinds are those of its command and its result, and its ruleset version is
-- left out.
pub record ActionModel : Type 0 where
  pub id : Uuid
  pub campaign_id : Uuid
  pub turn_id : Uuid
  pub ordinal : ℕ
  pub actor_id : Uuid
  pub target_id : Option Uuid
  pub item_id : Option Uuid
  pub command : Command
  pub result : ActionResult

pub record TurnTables : Type 0 where
  pub campaigns : List CampaignModel
  pub turns : List TurnModel
  pub events : List EventModel
  pub choices : List TurnChoiceModel
  pub actions : List ActionModel

abbrev pub is_past : ℕ → Option ℕ → Bool
is_past now none = false
is_past now (some at) = leb at now

abbrev pub is_before : ℕ → Option ℕ → Bool
is_before now none = false
is_before now (some at) = ltb at now

abbrev pub is_ahead : ℕ → Option ℕ → Bool
is_ahead now none = false
is_ahead now (some at) = ltb now at

abbrev pub is_stopped : CampaignModel → Bool
is_stopped c = c.story_lifecycle == some "blocked"
