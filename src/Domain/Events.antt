-- ===== src/Domain/Events.antt =====
-- domain/events.py: the events of the append-only store.
use ai_rpg.Prelude.{
  ℕ, String, Option, List, [], ◌∷◌, Bool, true, false, ◌&&◌, not, is_some, Result, ok, value_error,
  if◌then◌else◌, ◌||◌, ◌>>◌, checks, Error, nat_eq,
}
use ai_rpg.Prelude.Int.{ℤ}
use ai_rpg.Text.{Text}
use ai_rpg.Domain.Results.{
  Uuid, DiceResult, DamageApplied, HealingApplied, ItemConsumed, ActionResult, AppliedResult,
}
use ai_rpg.Domain.Commands.{AttackCommand}

pub data RngSource : Type 0 where
  secure seeded_test recorded_replay : RngSource

pub record RngMetadata : Type 0 where
  pub source : RngSource
  pub implementation_version : Text
  pub draw_index : ℕ

pub record EnemyReaction : Type 0 where
  pub command : AttackCommand
  pub result : AppliedResult
  pub rng : List RngMetadata

pub data FactKind : Type 0 where
  place person clue route : FactKind

pub record GeneratedFact : Type 0 where
  pub fact_ref : String
  pub kind : FactKind
  pub public_text : Text
  pub scene_id : Uuid

pub record ScenarioProgressedPayload : Type 0 where
  pub from_scene_id : Uuid
  pub to_scene_id : Option Uuid
  pub add_flags : List String
  pub ending_ref : Option String
  pub elapsed_actions : ℕ
  pub alert_delta : ℤ
  pub facts : List GeneratedFact

pub data Payload : Type 0 where
  dice_rolled : DiceResult → RngMetadata → Payload
  damage_applied : DamageApplied → Payload
  healing_applied : HealingApplied → Payload
  item_consumed : ItemConsumed → Payload
  action_resolved : ActionResult → Payload
  enemy_reaction_resolved : EnemyReaction → Payload
  scenario_progressed : ScenarioProgressedPayload → Payload
  narration_generated : Text → Bool → Payload

pub record DomainEvent : Type 0 where
  pub id : Uuid
  pub campaign_id : Uuid
  pub scene_id : Option Uuid
  pub turn_id : Option Uuid
  pub action_id : Option Uuid
  pub sequence : ℕ
  pub state_version : ℕ
  pub payload : Payload

-- The events of an action, which name their scene, turn and action.
abbrev pub is_action_event : Payload → Bool
is_action_event (dice_rolled roll rng) = true
is_action_event (damage_applied d) = true
is_action_event (healing_applied h) = true
is_action_event (item_consumed c) = true
is_action_event (action_resolved r) = true
is_action_event _ = false

-- The constructor: the type of each field, `consistent_parents`, and the narrowed fields of the
-- subclasses, which all name a scene and a turn, and an action just when they belong to one.
unfoldable pub event_guards : DomainEvent → List (Bool × Error)
event_guards e =
    (nat_eq e.sequence 0, value_error "EventBase.sequence")
    ∷ (not (is_some e.scene_id) || not (is_some e.turn_id), value_error "scene_id, turn_id")
    ∷ (
      if is_action_event e.payload then not (is_some e.action_id) else is_some e.action_id,
      value_error "action_id",
    )
    ∷ (is_some e.turn_id && not (is_some e.scene_id), value_error "Turn Eventにはscene_idが必要です")
    ∷ (is_some e.action_id && not (is_some e.turn_id), value_error "Action Eventにはturn_idが必要です")
    ∷ []

unfoldable pub domain_event : DomainEvent → Result DomainEvent
domain_event e = do checks (event_guards e); ok e
