-- ===== src/Scenario/Model.antt =====
-- scenarios/models.py: the typed definition of a scenario. References are texts.
use ai_rpg.Prelude.{ℕ, String, Bool, Option, List, Eq, true, false, ◌≡◌, ◌↔◌, arith}
use ai_rpg.Prelude.Int.{ℤ}
use ai_rpg.Text.{Text}

abbrev pub Ref : Type 0
Ref = String

pub data Visibility : Type 0 where
  public secret author_only : Visibility

pub data Capability : Type 0 where
  skill_checks combat item_use open_actions protected_facts : Capability

abbrev pub capability_beq : Capability → Capability → Bool
capability_beq skill_checks skill_checks = true
capability_beq combat combat = true
capability_beq item_use item_use = true
capability_beq open_actions open_actions = true
capability_beq protected_facts protected_facts = true
capability_beq _ _ = false

pub capability_beq_iff : (a b : Capability) → (capability_beq a b ≡ true) ↔ (a ≡ b)
capability_beq_iff skill_checks skill_checks = ground arith
capability_beq_iff _ _ = ground arith

instance abbrev pub capability_eq : Eq Capability
capability_eq = record { beq = capability_beq; beq_iff = capability_beq_iff }

pub data CharacterKind : Type 0 where
  npc monster : CharacterKind

pub data DamageDice : Type 0 where
  d4 d6 : DamageDice

pub record InitialCharacter : Type 0 where
  pub ref : Ref
  pub label : Text
  pub kind : CharacterKind
  pub max_hp : ℕ
  pub defense : ℤ
  pub attack_bonus : ℤ

pub record InitialWeapon : Type 0 where
  pub damage_expression : DamageDice
  pub damage_bonus : ℕ

pub record InitialItem : Type 0 where
  pub ref : Ref
  pub label : Text
  -- `effect_ref`, whose only value is the healing potion
  pub is_potion : Bool
  pub weapon : Option InitialWeapon
  pub owner_ref : Option Ref
  pub quantity : ℕ
  pub equipped : Bool

pub record InitialPlacement : Type 0 where
  pub entity_ref : Ref
  pub scene_ref : Ref
  pub visibility : Visibility
  pub attackable : Bool

pub record ScenarioInitialization : Type 0 where
  pub characters : List InitialCharacter
  pub items : List InitialItem
  pub placements : List InitialPlacement

pub record ScenarioEndingOverride : Type 0 where
  pub requires_flags : List Ref
  pub ending_ref : Ref

pub record ScenarioEffect : Type 0 where
  pub next_scene_ref : Option Ref
  pub ending_ref : Option Ref
  pub add_flags : List Ref
  pub overrides : List ScenarioEndingOverride

-- The fields that the three kinds of actions share, those of `ScenarioActionConditions` first.
pub record ActionConditions : Type 0 where
  pub required_flags : List Ref
  pub disabled_flags : List Ref
  pub action_ref : Ref
  pub label : Text

pub record DirectScenarioAction : Type 0 where
  pub conditions : ActionConditions
  pub open conditions use *
  pub public_fact : Text
  pub success : ScenarioEffect

pub data Difficulty : Type 0 where
  easy normal hard : Difficulty

pub record SkillScenarioAction : Type 0 where
  pub conditions : ActionConditions
  pub open conditions use *
  pub check_ref : Difficulty
  pub skill_ref : Ref
  pub success : ScenarioEffect
  pub failure : ScenarioEffect

pub record AttackScenarioAction : Type 0 where
  pub conditions : ActionConditions
  pub open conditions use *
  pub target_ref : Ref
  pub defeated : ScenarioEffect

-- `ScenarioActionDefinition`
pub data ScenarioAction : Type 0 where
  direct : DirectScenarioAction → ScenarioAction
  skill : SkillScenarioAction → ScenarioAction
  attack : AttackScenarioAction → ScenarioAction

abbrev pub conditions_of : ScenarioAction → ActionConditions
conditions_of (direct a) = a.conditions
conditions_of (skill a) = a.conditions
conditions_of (attack a) = a.conditions

pub record ScenarioCombatDefinition : Type 0 where
  pub enemy_ref : Ref
  pub started_flag : Ref
  pub defeat_ending_ref : Ref
  pub damage_expression : DamageDice
  pub damage_bonus : ℕ

pub record SceneDefinition : Type 0 where
  pub scene_ref : Ref
  pub sequence : ℕ
  pub title : Text
  pub description : Text
  pub actions : List ScenarioAction
  pub npc_notes : List Text
  pub combat : Option ScenarioCombatDefinition
  pub open_flags : List Ref
  pub open_destinations : List Ref

pub record ScenarioFlagDefinition : Type 0 where
  pub flag_ref : Ref
  pub public_fact : Text

pub data RewardTier : Type 0 where
  full reduced no_reward : RewardTier

pub record RewardRule : Type 0 where
  pub tier : RewardTier
  pub description : Text

pub record EndingDefinition : Type 0 where
  pub ending_ref : Ref
  pub title : Text
  pub summary : Text
  pub required_flags : List Ref
  pub reward : Option RewardRule

pub data ProtectedKind : Type 0 where
  location motive rule existence : ProtectedKind

pub record ProtectedFact : Type 0 where
  pub fact_ref : Ref
  pub kind : ProtectedKind
  pub statement : Text
  pub scene_ref : Option Ref
  pub visibility : Visibility
  pub reveal_flag_ref : Option Ref
  pub entity_ref : Option Ref
  pub acquired_flag_ref : Option Ref

pub record BoundedWorld : Type 0 where
  pub region_name : Text
  pub boundary : Text
  pub goal_scene_ref : Ref
  pub goal_flag_ref : Ref
  pub outside_ending_ref : Ref
  pub protected_facts : List ProtectedFact
  pub protected_terms : List Text
  pub impossible_destinations : List Text

pub data RulesetRef : Type 0 where
  mvp_v1 mvp_v2 : RulesetRef

abbrev pub is_v2 : RulesetRef → Bool
is_v2 mvp_v1 = false
is_v2 mvp_v2 = true

pub record ScenarioDefinition : Type 0 where
  -- 1 or 2
  pub schema_version : ℕ
  pub scenario_ref : Ref
  pub version : ℕ
  pub title : Text
  pub objective : Text
  pub scenes : List SceneDefinition
  pub flags : List ScenarioFlagDefinition
  pub endings : List EndingDefinition
  pub ruleset_ref : RulesetRef
  pub world : Option BoundedWorld
  pub required_capabilities : List Capability
  pub initialization : Option ScenarioInitialization
