-- ===== src/Scenario/Validate.antt =====
-- scenarios/models.py: `ScenarioDefinition.valid_graph`, which every definition passes when it is
-- built. Its tests are one row, in the order in which they are made.
pub mod Initialization
pub mod Known
use Prim.Native.String.{◌++◌ as joined}
use ai_rpg.Prelude.{
  ℕ, String, Bool, true, false, not, ◌&&◌, ◌||◌, Option, none, some, List, [], ◌∷◌, ◌++◌, map,
  Error, value_error, Result, checks, nat_eq, any, concat_map, contains, subset, disjoint,
  is_unique, is_some, id_eq, ref_eq, ◌==◌,
}
use ai_rpg.Scenario.Model.{
  Ref, ScenarioDefinition, SceneDefinition, ScenarioAction, direct, skill, attack, conditions_of,
  ScenarioEffect, ScenarioEndingOverride, ScenarioCombatDefinition, EndingDefinition, BoundedWorld,
  ProtectedFact, SkillScenarioAction,
}
use ai_rpg.Scenario.Validate.Initialization.{known, initialization_guards}

abbrev pub scene_refs : ScenarioDefinition → List Ref
scene_refs definition = map (λ s. s.scene_ref) definition.scenes

abbrev pub flag_refs : ScenarioDefinition → List Ref
flag_refs definition = map (λ f. f.flag_ref) definition.flags

abbrev pub ending_refs : ScenarioDefinition → List Ref
ending_refs definition = map (λ e. e.ending_ref) definition.endings

abbrev pub action_refs : ScenarioDefinition → List Ref
action_refs definition =
    concat_map (λ s. map (λ a. (conditions_of a).action_ref) s.actions) definition.scenes

unfoldable pub unique_guards : ScenarioDefinition → List (Bool × Error)
unique_guards definition =
    let sequences = map (λ s. s.sequence) definition.scenes in
    (not (is_unique (scene_refs definition)), value_error "Scene参照は一意である必要があります")
    ∷ (not (is_unique sequences), value_error "Scene sequence参照は一意である必要があります")
    ∷ (not (is_unique (action_refs definition)), value_error "Action参照は一意である必要があります")
    ∷ (not (is_unique (flag_refs definition)), value_error "Flag参照は一意である必要があります")
    ∷ (not (is_unique (ending_refs definition)), value_error "Ending参照は一意である必要があります")
    ∷ (not (contains 1 sequences), value_error "初期Sceneにはsequence 1が必要です")
    ∷ []

unfoldable pub world_guards : ScenarioDefinition → Option BoundedWorld → List (Bool × Error)
world_guards definition none = []
world_guards definition (some world) =
    (
      not (contains world.goal_scene_ref (scene_refs definition)),
      value_error "world goal scene references an unknown Scene",
    )
    ∷ (
      not (contains world.goal_flag_ref (flag_refs definition)),
      value_error "world goal flag references an unknown Flag",
    )
    ∷ (
      not (contains world.outside_ending_ref (ending_refs definition)),
      value_error "world outside ending references an unknown Ending",
    )
    ∷ (
      not (is_unique (map (λ f. f.fact_ref) world.protected_facts)),
      value_error "protected fact references must be unique",
    )
    ∷ (
      any (λ f. not (known f.scene_ref (scene_refs definition))) world.protected_facts,
      value_error "protected fact references an unknown Scene",
    )
    ∷ (
      any (λ e. not (is_some e.reward)) definition.endings,
      value_error "bounded scenario endings need a reward rule",
    )
    ∷ []

abbrev pub ending_guard : ScenarioDefinition → EndingDefinition → List (Bool × Error)
ending_guard definition ending =
    (
      not (subset ending.required_flags (flag_refs definition)),
      value_error "Ending references an unknown Flag",
    )
    ∷ []

abbrev pub is_attack_on : Ref → ScenarioAction → Bool
is_attack_on ref (attack a) = a.target_ref == ref
is_attack_on ref _ = false

unfoldable pub combat_guards :
    ScenarioDefinition → SceneDefinition → Option ScenarioCombatDefinition → List (Bool × Error)
combat_guards definition scene none = []
combat_guards definition scene (some combat) =
    (
      not (any (is_attack_on combat.enemy_ref) scene.actions),
      value_error "Combat enemy must match an attack target in the same scene",
    )
    ∷ (
      not (contains combat.started_flag (flag_refs definition)),
      value_error "Combat started_flag references an unknown flag",
    )
    ∷ (
      not (contains combat.defeat_ending_ref (ending_refs definition)),
      value_error "Combat defeat_ending_ref references an unknown ending",
    )
    ∷ []

-- `SUPPORTED_SKILL_REFS`
abbrev pub supported_skill_refs : List Ref
supported_skill_refs = "perception" ∷ "persuasion" ∷ "stealth" ∷ []

abbrev pub skill_guard : ScenarioAction → List (Bool × Error)
skill_guard (skill a) =
    (
      not (contains a.skill_ref supported_skill_refs),
      value_error (joined "未対応の技能参照です: " a.skill_ref),
    )
    ∷ []
skill_guard _ = []

abbrev pub effects_of : ScenarioAction → List ScenarioEffect
effects_of (direct a) = a.success ∷ []
effects_of (skill a) = a.success ∷ a.failure ∷ []
effects_of (attack a) = a.defeated ∷ []

abbrev pub override_guards : ScenarioDefinition → ScenarioEndingOverride → List (Bool × Error)
override_guards definition o =
    (
      not (subset o.requires_flags (flag_refs definition)),
      value_error "Ending overrideが存在しないFlagを参照しています",
    )
    ∷ (
      not (contains o.ending_ref (ending_refs definition)),
      value_error "Ending overrideが存在しないEndingを参照しています",
    )
    ∷ []

-- An f-string with a reference that may be missing; it is only raised where there is one.
abbrev pub unknown_ref : String → Option Ref → Error
unknown_ref message none = value_error message
unknown_ref message (some ref) = value_error (joined message ref)

abbrev pub has_overrides : List ScenarioEndingOverride → Bool
has_overrides [] = false
has_overrides (o ∷ os) = true

unfoldable pub effect_guards : ScenarioDefinition → ScenarioEffect → List (Bool × Error)
effect_guards definition effect =
    (
      is_some effect.next_scene_ref && is_some effect.ending_ref,
      value_error "Scene遷移とEndingは同時に指定できません",
    )
    ∷ (
      not (known effect.next_scene_ref (scene_refs definition)),
      unknown_ref "存在しないScene参照です: " effect.next_scene_ref,
    )
    ∷ (
      not (known effect.ending_ref (ending_refs definition)),
      unknown_ref "存在しないEnding参照です: " effect.ending_ref,
    )
    ∷ (not (subset effect.add_flags (flag_refs definition)), value_error "存在しないFlag参照です")
    ∷ (
      has_overrides effect.overrides && not (is_some effect.ending_ref),
      value_error "Ending overrideにはbase Endingが必要です",
    )
    ∷ concat_map (override_guards definition) effect.overrides

unfoldable pub action_guards : ScenarioDefinition → ScenarioAction → List (Bool × Error)
action_guards definition action =
    let conditions = conditions_of action in
    (
      not (subset (conditions.required_flags ++ conditions.disabled_flags) (flag_refs definition)),
      value_error "Action条件が存在しないFlagを参照しています",
    )
    ∷ (
      not (disjoint conditions.required_flags conditions.disabled_flags),
      value_error "Actionの必須Flagと無効化Flagは重複できません",
    )
    ∷ (skill_guard action ++ concat_map (effect_guards definition) (effects_of action))

unfoldable pub scene_guards : ScenarioDefinition → SceneDefinition → List (Bool × Error)
scene_guards definition scene =
    (
      not (subset scene.open_flags (flag_refs definition)),
      value_error "Scene open_flags references an unknown Flag",
    )
    ∷ (
      not (subset scene.open_destinations (scene_refs definition)),
      value_error "Scene open_destinations references an unknown Scene",
    )
    ∷ (combat_guards definition scene scene.combat
        ++ concat_map (action_guards definition) scene.actions)

unfoldable pub graph_guards : ScenarioDefinition → List (Bool × Error)
graph_guards definition =
    unique_guards definition
    ++ (world_guards definition definition.world
        ++ (concat_map (ending_guard definition) definition.endings
            ++ concat_map (scene_guards definition) definition.scenes))

unfoldable pub valid_graph : ScenarioDefinition → Result (Unit {0})
valid_graph definition = checks (
    graph_guards definition
    ++ initialization_guards definition (scene_refs definition) (flag_refs definition))
