-- ===== src/Scenario/Progress/Registered.antt =====
-- application/scenarios.py: `progress_for`, the progress of a registered action.
use ai_rpg.Prelude.{
  ℕ, Bool, not, Option, none, some, List, [], ◌∷◌, ◌++◌, Result, ok, ◌>>=◌, ◌>>◌, raise_if,
  or_raise, scenario_state, action_unavailable, stop_iteration, any, keep, find, contains, subset,
  nat_eq, id_eq, ref_eq, option_eq, ◌==◌, if◌then◌else◌,
}
use ai_rpg.Prelude.Int.{pos}
use ai_rpg.Domain.Results.{Uuid, Outcome, success, failure, neutral}
use ai_rpg.Scenario.Model.{
  Ref, ScenarioDefinition, ScenarioAction, direct, skill, attack, ScenarioEffect,
  ScenarioEndingOverride, is_v2,
}
use ai_rpg.Application.Ports.{ScenarioRunSnapshot, ScenarioSceneSnapshot, ScenarioProgressUpdate}
use ai_rpg.Scenario.Progress.{Catalog, Current, current_scene, validate_protected_effect}

-- The effect of an outcome; none where the action makes no progress. `target_hp_after` is what an
-- attack left its target.
unfoldable pub effect_for : ScenarioAction → Outcome → Option ℕ → Option ScenarioEffect
effect_for (direct a) failure hp = none
effect_for (direct a) outcome hp = some a.success
effect_for (skill a) neutral hp = none
effect_for (skill a) success hp = some a.success
effect_for (skill a) failure hp = some a.failure
effect_for (attack a) outcome hp = if hp == some 0 then some a.defeated else none

-- The first override whose flags are set gives the ending.
unfoldable pub ending_of : Option Ref → List ScenarioEndingOverride → List Ref → Option Ref
ending_of base [] flags = base
ending_of base (o ∷ rest) flags =
    if subset o.requires_flags flags then some o.ending_ref else ending_of base rest flags

-- The check of an ending's flags that schema 2 makes. An unknown ending is a `StopIteration`.
unfoldable pub check_ending : ScenarioDefinition → Option Ref → List Ref → Result (Unit {0})
check_ending definition none flags = ok tt
check_ending definition (some ending_ref) flags =
    if not (nat_eq definition.schema_version 2) then ok tt else do
      ending ← or_raise (find (λ e. e.ending_ref == ending_ref) definition.endings) stop_iteration
      raise_if (not (subset ending.required_flags flags))
          (action_unavailable "Ending conditions are not met")

-- The saved scene that a reference names.
unfoldable pub saved_scene :
    ScenarioDefinition → List ScenarioSceneSnapshot → Option Ref → Result (Option Uuid)
saved_scene definition saved none = ok none
saved_scene definition saved (some ref) = do
  target ← or_raise (find (λ s. s.scene_ref == ref) definition.scenes) stop_iteration
  runtime ← or_raise (find (λ s. nat_eq s.sequence target.sequence) saved) stop_iteration
  ok (some runtime.id)

abbrev pub new_flags : List Ref → List Ref → List Ref
new_flags flags added = keep (λ flag. not (contains flag flags)) added

unfoldable pub progress_effect :
    ScenarioRunSnapshot → Current → ScenarioEffect → Result (Option ScenarioProgressUpdate)
unfolding ending_of check_ending saved_scene
progress_effect run current effect = do
  let ending = ending_of effect.ending_ref effect.overrides run.flags
  validate_protected_effect current.definition current.scene run.flags effect.add_flags
  check_ending current.definition ending (run.flags ++ effect.add_flags)
  to_scene ← saved_scene current.definition run.scenes effect.next_scene_ref
  ok (
      some (record {
        from_scene_id = current.active.id;
        to_scene_id = to_scene;
        add_flags = new_flags run.flags effect.add_flags;
        ending_ref = ending;
        elapsed_actions = if is_v2 current.definition.ruleset_ref then 1 else 0;
        alert_delta = pos 0;
        facts = [];
      }))

abbrev pub progress_if :
    ScenarioRunSnapshot → Current → Option ScenarioEffect → Result (Option ScenarioProgressUpdate)
progress_if run current none = ok none
progress_if run current (some effect) = progress_effect run current effect

-- `is_same` stands for Python's `is` on the actions of a definition.
unfoldable pub progress_for :
    (ScenarioAction → ScenarioAction → Bool)
    → Catalog
    → ScenarioRunSnapshot
    → ScenarioAction
    → Outcome
    → Option ℕ
    → Result (Option ScenarioProgressUpdate)
progress_for is_same catalog run binding outcome target_hp_after = do
  current ← current_scene catalog run
  raise_if (not (any (λ action. is_same action binding) current.scene.actions))
      (scenario_state "Action bindingが現在Sceneと一致しません")
  progress_if run current (effect_for binding outcome target_hp_after)
