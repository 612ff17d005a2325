-- ===== src/Scenario/Progress/Open.antt =====
-- application/scenarios.py: `progress_open`, the progress of a free action.
pub mod Sound
pub mod Effect
use ai_rpg.Prelude.{
  ℕ, String, Bool, true, false, not, ◌&&◌, ◌||◌, Option, none, some, List, [], ◌∷◌, ◌++◌, map,
  Result, ok, err, ◌>>=◌, ◌>>◌, raise_if, checks, or_raise, for_each, Error, action_unavailable,
  stop_iteration, any, keep, find, contains, subset, is_unique, is_some, nat_eq, id_eq, ref_eq,
  list_eq, ◌==◌, if◌then◌else◌,
}
use ai_rpg.Prelude.Int.{ℤ, pos, ◌+ℤ◌, ◌-ℤ◌, leb_ℤ}
use ai_rpg.Text.{Text}
use ai_rpg.Domain.Results.{Uuid}
use ai_rpg.Domain.Events.{FactKind, place, person, clue, route}
use ai_rpg.Scenario.Model.{
  Ref, ScenarioDefinition, SceneDefinition, BoundedWorld, ProtectedFact, EndingDefinition,
  ScenarioInitialization, ScenarioCombatDefinition, is_v2,
}
use ai_rpg.Scenario.Intent.{OpenActionIntent, OpenEffect, OpenFact}
use ai_rpg.Scenario.Lore.{contradicts_legacy_lore}
use ai_rpg.Application.Ports.{
  ScenarioRunSnapshot, ScenarioSceneSnapshot, ScenarioFact, ScenarioProgressUpdate,
}
use ai_rpg.Scenario.Progress.{
  Catalog, Current, current_scene, validate_request, validate_protected_effect,
}
use ai_rpg.Scenario.Progress.Registered.{new_flags}

-- Places and persons are found in their own scene only.
abbrev pub is_fixed : FactKind → Bool
is_fixed place = true
is_fixed person = true
is_fixed clue = false
is_fixed route = false

abbrev pub target_missing : Uuid → Option ScenarioFact → Bool
target_missing active none = true
target_missing active (some fact) = is_fixed fact.kind && not (nat_eq fact.scene_id active)

pub check_target : ScenarioRunSnapshot → Uuid → Option Ref → Result (Unit {0})
check_target run active none = ok tt
check_target run active (some ref) =
    raise_if (target_missing active (find (λ f. f.fact_ref == ref) run.facts))
      (action_unavailable "Target fact is not available here")

-- The endings that only a lost fight leads to.
pub defeat_endings : List SceneDefinition → List Ref
defeat_endings [] = []
defeat_endings (s ∷ rest) = elim s.combat [
  | none ↦ defeat_endings rest
  | some c ↦ c.defeat_ending_ref ∷ defeat_endings rest
]

abbrev pub ending_unmet : List Ref → Option EndingDefinition → Bool
ending_unmet flags none = true
ending_unmet flags (some ending) = not (subset ending.required_flags flags)

unfoldable pub ending_guards : ScenarioDefinition → List Ref → Ref → List (Bool × Error)
unfolding defeat_endings
ending_guards definition flags ending_ref =
    (
      contains ending_ref (defeat_endings definition.scenes),
      action_unavailable "Defeat is resolved by the combat rules",
    )
    ∷ (
      ending_unmet flags (find (λ e. e.ending_ref == ending_ref) definition.endings),
      action_unavailable "Ending conditions are not met",
    )
    ∷ []

pub check_open_ending : ScenarioDefinition → List Ref → Option Ref → Result (Unit {0})
check_open_ending definition flags none = ok tt
check_open_ending definition flags (some ending_ref) =
    checks (ending_guards definition flags ending_ref)

abbrev pub min_ℤ : ℤ → ℤ → ℤ
min_ℤ a b = if leb_ℤ a b then a else b

abbrev pub max_ℤ : ℤ → ℤ → ℤ
max_ℤ a b = if leb_ℤ a b then b else a

-- `max(0, min(5, level + delta)) - level`
unfoldable pub alert_change : ℤ → ℤ → ℤ
alert_change level delta = max_ℤ (pos 0) (min_ℤ (pos 5) (level +ℤ delta)) -ℤ level

-- The saved scene that the effect moves to; none if that is the active one.
pub open_destination : ScenarioRunSnapshot → Current → Option Ref → Result (Option Uuid)
open_destination run current none = ok none
open_destination run current (some ref) = do
  target ←
      or_raise (find (λ s. s.scene_ref == ref) current.definition.scenes)
        (action_unavailable "Destination is outside the scenario")
  raise_if (not (contains target.scene_ref current.scene.open_destinations))
      (action_unavailable "Destination is not reachable from here")
  runtime ← or_raise (find (λ s. nat_eq s.sequence target.sequence) run.scenes) stop_iteration
  ok (if nat_eq runtime.id current.active.id then none else some runtime.id)

abbrev pub authored_refs : Option ScenarioInitialization → List Ref
authored_refs none = []
authored_refs (some initial) =
    map (λ c. c.ref) initial.characters ++ (map (λ i. i.ref) initial.items ++ "hero" ∷ [])

abbrev pub same_kind : FactKind → FactKind → Bool
same_kind place place = true
same_kind person person = true
same_kind clue clue = true
same_kind route route = true
same_kind _ _ = false

-- A saved fact of the same reference that says something else.
abbrev pub conflicts : Uuid → OpenFact → Option ScenarioFact → Bool
conflicts active fact none = false
conflicts active fact (some previous) =
    not (same_kind previous.kind fact.kind)
    || not (previous.public_text == fact.public_text)
    || not (nat_eq previous.scene_id active)

unfoldable pub fact_guards :
    ScenarioRunSnapshot → Current → BoundedWorld → List Ref → OpenFact → List (Bool × Error)
fact_guards run current world resulting fact =
    let definition = current.definition in
    (
      contains fact.fact_ref (map (λ p. p.fact_ref) world.protected_facts),
      action_unavailable "Generated fact reference is protected",
    )
    ∷ (
      nat_eq definition.schema_version 2
          && is_some definition.initialization
          && contains fact.fact_ref (authored_refs definition.initialization),
      action_unavailable "Generated fact cannot replace an authored entity",
    )
    ∷ (
      contradicts_legacy_lore definition fact.public_text resulting,
      action_unavailable "A proposed fact contradicts protected lore",
    )
    ∷ (
      conflicts current.active.id fact (find (λ f. f.fact_ref == fact.fact_ref) run.facts),
      action_unavailable "Generated fact reference conflicts",
    )
    ∷ []

abbrev pub check_fact :
    ScenarioRunSnapshot → Current → BoundedWorld → List Ref → OpenFact → Result (Unit {0})
check_fact run current world resulting fact = do
  validate_request current.definition fact.public_text
  checks (fact_guards run current world resulting fact)

abbrev pub is_new : ScenarioRunSnapshot → OpenFact → Bool
is_new run fact = not (contains fact.fact_ref (map (λ f. f.fact_ref) run.facts))

abbrev pub saved_fact : Uuid → OpenFact → ScenarioFact
saved_fact active fact = record {
  fact_ref = fact.fact_ref;
  kind = fact.kind;
  public_text = fact.public_text;
  scene_id = active;
}

-- The tests of the flags that the effect adds.
unfoldable pub flag_guards : Current → BoundedWorld → List Ref → List (Bool × Error)
flag_guards current world added =
    (
      not (subset added current.scene.open_flags),
      action_unavailable "Proposed flags are not allowed here",
    )
    ∷ (
      contains world.goal_flag_ref added && not (current.scene.scene_ref == world.goal_scene_ref),
      action_unavailable "The goal object is not at this location",
    )
    ∷ []

unfoldable pub progress_effect :
    ScenarioRunSnapshot → Current → BoundedWorld → OpenEffect → Result ScenarioProgressUpdate
unfolding check_open_ending open_destination
progress_effect run current world effect = do
  let resulting = run.flags ++ effect.add_flags
  checks (flag_guards current world effect.add_flags)
  validate_protected_effect current.definition current.scene run.flags effect.add_flags
  check_open_ending current.definition resulting effect.ending_ref
  to_scene ← open_destination run current effect.next_scene_ref
  raise_if (not (is_unique (map (λ f. f.fact_ref) effect.facts)))
      (action_unavailable "Duplicate generated fact references")
  for_each (check_fact run current world resulting) effect.facts
  ok (record {
    from_scene_id = current.active.id;
    to_scene_id = to_scene;
    add_flags = new_flags run.flags effect.add_flags;
    ending_ref = effect.ending_ref;
    elapsed_actions = 1;
    alert_delta = alert_change run.alert_level effect.alert_delta;
    facts = map (saved_fact current.active.id) (keep (is_new run) effect.facts);
  })

-- The world of a scenario that takes free actions.
abbrev pub open_world : Current → Option BoundedWorld → Result BoundedWorld
open_world current none = err (action_unavailable "This scenario does not accept open actions")
open_world current (some world) = do
  raise_if (not (is_v2 current.definition.ruleset_ref))
      (action_unavailable "This scenario does not accept open actions")
  ok world

-- The outcome is a success (`true`) or a failure.
abbrev pub chosen_effect : OpenActionIntent → Bool → Option OpenEffect
chosen_effect intent true = some intent.success
chosen_effect intent false = intent.failure

unfoldable pub progress_open :
    Catalog → ScenarioRunSnapshot → OpenActionIntent → Bool → Result ScenarioProgressUpdate
unfolding check_target
progress_open catalog run intent is_success = do
  current ← current_scene catalog run
  world ← open_world current current.definition.world
  validate_request current.definition intent.approach
  check_target run current.active.id intent.target_fact_ref
  effect ←
      or_raise (chosen_effect intent is_success)
        (action_unavailable "The proposed action has no failure effect")
  progress_effect run current world effect
