-- ===== src/Scenario/Progress.antt =====
-- application/scenarios.py: the saved run is held against its definition, and every part of the
-- progress starts from the scene that is active.
pub mod Bindings
pub mod Registered
pub mod Open
pub mod Public
use ai_rpg.Prelude.{
  ℕ, String, Bool, true, false, not, ◌&&◌, ◌||◌, Option, none, some, List, [], ◌∷◌, map, Result, ok,
  err, ◌>>=◌, ◌>>◌, raise_if, checks, or_raise, scenario_state, action_unavailable, Error, any,
  keep, find, contains, subset, disjoint, is_unique, is_some, length, nat_eq, id_eq, ref_eq,
  pair_eq, ◌==◌, lookup, if◌then◌else◌, option_eq,
}
use ai_rpg.Text.{Text}
use ai_rpg.Scenario.Model.{
  Ref, ScenarioDefinition, SceneDefinition, ScenarioAction, conditions_of, ActionConditions,
  BoundedWorld, ProtectedFact, is_v2,
}
use ai_rpg.Scenario.Lore.{impossible_trip}
use ai_rpg.Application.Ports.{ScenarioRunSnapshot, ScenarioSceneSnapshot}

-- scenarios/catalog.py: `ScenarioCatalog`, by reference and version.
abbrev pub Catalog : Type 0
Catalog = List ((Ref × ℕ) × ScenarioDefinition)

-- `definition_for` of a run that carries its definition, or of one that names it.
abbrev pub pinned_definition : ScenarioRunSnapshot → ScenarioDefinition → Result ScenarioDefinition
pinned_definition run definition = do
  raise_if
      (not (
        definition.scenario_ref == run.scenario_ref
        && nat_eq definition.version run.scenario_version))
      (scenario_state "Pinned definition does not match the saved run")
  ok definition

abbrev pub catalog_definition : Catalog → ScenarioRunSnapshot → Result ScenarioDefinition
catalog_definition catalog run = do
  raise_if (is_some run.story_version_id) (scenario_state "Pinned story definition is missing")
  or_raise (lookup (run.scenario_ref, run.scenario_version) catalog)
      (scenario_state "Scenario定義と保存versionが一致しません")

abbrev pub definition_from :
    Catalog → ScenarioRunSnapshot → Option ScenarioDefinition → Result ScenarioDefinition
definition_from catalog run (some definition) = pinned_definition run definition
definition_from catalog run none = catalog_definition catalog run

unfoldable pub definition_for : Catalog → ScenarioRunSnapshot → Result ScenarioDefinition
definition_for catalog run = definition_from catalog run run.definition

-- The saved scene that is active, with its definition.
pub record Current : Type 0 where
  pub definition : ScenarioDefinition
  pub scene : SceneDefinition
  pub active : ScenarioSceneSnapshot

abbrev pub sequences : List SceneDefinition → List ℕ
sequences = map (λ s. s.sequence)

abbrev pub runtime_sequences : List ScenarioSceneSnapshot → List ℕ
runtime_sequences = map (λ s. s.sequence)

abbrev pub active_scenes : List ScenarioSceneSnapshot → List ScenarioSceneSnapshot
active_scenes = keep (λ s. s.status == "active")

unfoldable pub run_guards : ScenarioRunSnapshot → ScenarioDefinition → List (Bool × Error)
run_guards run definition =
    let defined = sequences definition.scenes in
    let saved = runtime_sequences run.scenes in
    (
      not (run.status == "active") || is_some run.ending_ref,
      scenario_state "Scenario runがactive状態ではありません",
    )
    ∷ (
      not (is_unique saved) || not (subset saved defined && subset defined saved),
      scenario_state "Scenario定義とruntime Scene sequenceが一致しません",
    )
    ∷ []

abbrev pub only_one : List ScenarioSceneSnapshot → Result ScenarioSceneSnapshot
only_one (active ∷ []) = ok active
only_one _ = err (scenario_state "active Sceneを一意に解決できません")

-- `_current_scene`
unfoldable pub current_scene : Catalog → ScenarioRunSnapshot → Result Current
current_scene catalog run = do
  definition ← definition_for catalog run
  checks (run_guards run definition)
  active ← only_one (active_scenes run.scenes)
  scene ←
      or_raise (find (λ s. nat_eq s.sequence active.sequence) definition.scenes)
        (scenario_state "active Scene sequenceがScenario定義と一致しません")
  ok (record { definition = definition; scene = scene; active = active })

-- `_action_is_available`
abbrev pub is_available : ActionConditions → List Ref → Bool
is_available a flags = subset a.required_flags flags && disjoint flags a.disabled_flags

unfoldable pub supports_open_actions : Catalog → ScenarioRunSnapshot → Result Bool
supports_open_actions catalog run = do
  definition ← definition_for catalog run
  ok (is_v2 definition.ruleset_ref && is_some definition.world)

-- A flag that may be missing, among a set: `None in flags` is false.
abbrev pub has_flag : Option Ref → List Ref → Bool
has_flag none flags = false
has_flag (some flag) flags = contains flag flags

-- A fact whose flag is added now, outside the fact's scene.
abbrev pub taken_elsewhere : SceneDefinition → List Ref → List Ref → ProtectedFact → Bool
taken_elsewhere scene before added fact =
    has_flag fact.acquired_flag_ref added
    && not (has_flag fact.acquired_flag_ref before)
    && not (fact.scene_ref == some scene.scene_ref)

abbrev pub facts_of : Option BoundedWorld → List ProtectedFact
facts_of none = []
facts_of (some world) = world.protected_facts

-- `_validate_protected_effect`
unfoldable pub validate_protected_effect :
    ScenarioDefinition → SceneDefinition → List Ref → List Ref → Result (Unit {0})
validate_protected_effect definition scene before added =
    raise_if (any (taken_elsewhere scene before added) (facts_of definition.world))
      (action_unavailable "A protected item cannot be acquired outside its authored location")

abbrev pub destinations_of : Option BoundedWorld → List Text
destinations_of none = []
destinations_of (some world) = world.impossible_destinations

-- `validate_player_request`, once the definition is known.
abbrev pub validate_request : ScenarioDefinition → Text → Result (Unit {0})
validate_request definition text =
    raise_if (impossible_trip text (destinations_of definition.world))
      (action_unavailable "探索領域の外へ移動することはできません")

unfoldable pub validate_player_request : Catalog → ScenarioRunSnapshot → Text → Result (Unit {0})
validate_player_request catalog run text = do
  definition ← definition_for catalog run
  validate_request definition text
