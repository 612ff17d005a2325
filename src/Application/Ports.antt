-- ===== src/Application/Ports.antt =====
-- application/ports/repositories.py: the values that cross the persistence boundary.
use ai_rpg.Prelude.{ℕ, String, Bool, Option, List}
use ai_rpg.Prelude.Int.{ℤ}
use ai_rpg.Text.{Text}
use ai_rpg.Domain.Results.{Uuid, ActionResult, ResolvedAction, ResolvedEnemyReaction}
use ai_rpg.Domain.Commands.{Command}
use ai_rpg.Domain.Events.{RngMetadata, EnemyReaction, FactKind}
use ai_rpg.Scenario.Model.{Ref, ScenarioDefinition}

pub record ScenarioSceneSnapshot : Type 0 where
  pub id : Uuid
  pub sequence : ℕ
  pub status : String

pub record ScenarioFact : Type 0 where
  pub fact_ref : Ref
  pub kind : FactKind
  pub public_text : Text
  pub scene_id : Uuid

pub record ScenarioRunSnapshot : Type 0 where
  pub campaign_id : Uuid
  pub scenario_ref : Ref
  pub scenario_version : ℕ
  pub status : String
  pub ending_ref : Option Ref
  pub scenes : List ScenarioSceneSnapshot
  pub flags : List Ref
  pub elapsed_actions : ℕ
  pub alert_level : ℤ
  pub facts : List ScenarioFact
  pub story_version_id : Option Uuid
  pub definition : Option ScenarioDefinition
  pub public_title : Option Text

-- The rows of a canonical snapshot that the enemy's reaction reads.
pub record CharacterRow : Type 0 where
  pub entity_id : Uuid
  pub current_hp : ℤ
  pub max_hp : ℤ
  pub defense : ℤ
  pub attack_bonus : ℤ

pub record EntityRow : Type 0 where
  pub id : Uuid
  pub ref : Ref
  pub kind : String
  pub is_archived : Bool

pub record SceneEntityRow : Type 0 where
  pub entity_id : Uuid
  pub is_public : Bool
  pub is_attack_reachable : Bool

pub record CanonicalSnapshot : Type 0 where
  pub campaign_id : Uuid
  pub state_version : ℕ
  pub characters : List CharacterRow
  pub entities : List EntityRow
  pub scene_entities : List SceneEntityRow
  pub scenario_run : Option ScenarioRunSnapshot

pub record ResolutionWorkItem : Type 0 where
  pub turn_id : Uuid
  pub campaign_id : Uuid
  pub scene_id : Uuid
  pub actor_id : Uuid

pub record ActionRecord : Type 0 where
  pub command : Command
  pub result : ActionResult
  pub rng : List RngMetadata

pub record ScenarioProgressUpdate : Type 0 where
  pub from_scene_id : Uuid
  pub to_scene_id : Option Uuid
  pub add_flags : List Ref
  pub ending_ref : Option Ref
  pub elapsed_actions : ℕ
  pub alert_delta : ℤ
  pub facts : List ScenarioFact

-- contracts/responses.py: the fields of the narration input that a projection compares.
pub record MechanicalNarrationInput : Type 0 where
  pub player_text : Text
  pub committed_state_version : ℕ
  pub resolved_actions : List ResolvedAction
  pub enemy_reactions : List ResolvedEnemyReaction
  -- `output_limits.max_actions`
  pub max_actions : ℕ

pub record CommitBundle : Type 0 where
  pub campaign_id : Uuid
  pub scene_id : Uuid
  pub turn_id : Uuid
  pub worker_epoch : ℕ
  pub base_state_version : ℕ
  pub actions : List ActionRecord
  pub narration_input : MechanicalNarrationInput
  pub scenario_update : Option ScenarioProgressUpdate
  pub enemy_reactions : List EnemyReaction
