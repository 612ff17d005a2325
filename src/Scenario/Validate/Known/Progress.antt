-- ===== src/Scenario/Validate/Known/Progress.antt =====
-- The progress of a registered action does not fail on a reference.
use ai_rpg.Prelude.{
  scenario_state, ℕ, ◌≡◌, ◌≢◌, refl, Bool, true, false, not, ◌&&◌, Option, none, some, List, [],
  ◌∷◌, Error, ok, checks, AllFalse, checks-AllFalse, All, find, subset, nat_eq, is_some, id_eq,
  ref_eq, ◌==◌, Bool-cases, inl, inr, raise_if, or_raise, arith, any,
}
use ai_rpg.Scenario.Model.{ScenarioDefinition, ScenarioAction, ScenarioEffect}
use ai_rpg.Application.Ports.{ScenarioRunSnapshot, ScenarioSceneSnapshot}
use ai_rpg.Scenario.Progress.{Current, sequences, runtime_sequences}
use ai_rpg.Scenario.Validate.{effects_of, valid_graph}
use ai_rpg.Prelude.{
  from_some, any-All, find-All, or_raise-eq-ok, >>=-eq-ok, from_ok, pair_eq, option_eq,
}
use mathlib.Core.Path.{subst}
use ai_rpg.Domain.Results.{Outcome, success, failure, neutral}
use ai_rpg.Scenario.Model.{direct, skill, attack}
use ai_rpg.Scenario.Progress.{
  Catalog, definition_from, definition_for, active_scenes, run_guards, only_one, current_scene,
}
use ai_rpg.Scenario.Progress.Registered.{effect_for, progress_if, progress_for}
use ai_rpg.Scenario.Validate.Known.{
  NotStop, NeverStops, NeverStops-cases, NeverStops-raise_if, NeverStops-or_raise, IsKnownEffect,
  valid_graph-IsKnownEffect, progress_effect-NeverStops,
}

definition_from-NeverStops :
    (catalog : Catalog) (run : ScenarioRunSnapshot) (o : Option ScenarioDefinition)
    → NeverStops (definition_from catalog run o)
definition_from-NeverStops catalog run (some d) =
    elim (NeverStops-cases
      (raise_if (not (d.scenario_ref == run.scenario_ref && nat_eq d.version run.scenario_version))
        (scenario_state "Pinned definition does not match the saved run"))
      (NeverStops-raise_if _ _ tt)) [ inl (e, h, n) ↦ rw h n | inr (_, h) ↦ rw h tt ]
definition_from-NeverStops catalog run none =
    elim (NeverStops-cases
      (raise_if (is_some run.story_version_id)
        (scenario_state "Pinned story definition is missing"))
      (NeverStops-raise_if _ _ tt)) [
        | inl (e, h, n) ↦ rw h n
        | inr (_, h) ↦ rw h (NeverStops-or_raise _ _ tt)
      ]

checks-NeverStops : (l : List (Bool × Error)) → All (λ row. NotStop row.1) l → NeverStops (checks l)
checks-NeverStops [] h = tt
checks-NeverStops ((true, e) ∷ l) h = h.0
checks-NeverStops ((false, e) ∷ l) h = checks-NeverStops l h.1

run_guards-NeverStops :
    (run : ScenarioRunSnapshot) (definition : ScenarioDefinition)
    → NeverStops (checks (run_guards run definition))
unfolding run_guards
run_guards-NeverStops run definition = checks-NeverStops (run_guards run definition) (tt, (tt, tt))

only_one-NeverStops : (l : List ScenarioSceneSnapshot) → NeverStops (only_one l)
only_one-NeverStops [] = tt
only_one-NeverStops (a ∷ []) = tt
only_one-NeverStops (a ∷ b ∷ l) = tt

current_scene-NeverStops :
    (catalog : Catalog) (run : ScenarioRunSnapshot) → NeverStops (current_scene catalog run)
unfolding current_scene definition_for
current_scene-NeverStops catalog run =
    elim (NeverStops-cases (definition_from catalog run run.definition)
      (definition_from-NeverStops catalog run run.definition)) [
        | inl (e, h, n) ↦ rw h n
        | inr (d, h) ↦
            elim (NeverStops-cases (checks (run_guards run d)) (run_guards-NeverStops run d)) [
              | inl (e, h₁, n) ↦ rw (h, h₁) n
              | inr (_, h₁) ↦
                  elim (NeverStops-cases (only_one (active_scenes run.scenes))
                    (only_one-NeverStops _)) [
                      | inl (e, h₂, n) ↦ rw (h, h₁, h₂) n
                      | inr (active, h₂) ↦
                          elim (NeverStops-cases
                            (or_raise (find (λ s. nat_eq s.sequence active.sequence) d.scenes)
                              (scenario_state "active Scene sequenceがScenario定義と一致しません"))
                            (NeverStops-or_raise _ _ tt)) [
                              | inl (e, h₃, n) ↦ rw (h, h₁, h₂, h₃) n
                              | inr (scene, h₃) ↦ rw (h, h₁, h₂, h₃) tt
                            ]
                    ]
            ]
      ]

-- What the active scene's definition is, and that the run has all of its scenes.
abbrev IsCurrent : Catalog → ScenarioRunSnapshot → Current → Type 0
IsCurrent catalog run current =
    (definition_for catalog run ≡ ok current.definition)
    × (subset (sequences current.definition.scenes) (runtime_sequences run.scenes) ≡ true)
    × (find (λ s. nat_eq s.sequence current.active.sequence) current.definition.scenes
        ≡ some current.scene)

run_guards-subset :
    (run : ScenarioRunSnapshot) (definition : ScenarioDefinition)
    → AllFalse (run_guards run definition)
    → subset (sequences definition.scenes) (runtime_sequences run.scenes) ≡ true
unfolding run_guards
run_guards-subset run definition h = ground arith

current_scene-IsCurrent :
    (catalog : Catalog) (run : ScenarioRunSnapshot) (current : Current)
    → current_scene catalog run ≡ ok current
    → IsCurrent catalog run current
unfolding current_scene
current_scene-IsCurrent catalog run current h =
    let (d, given, h₁) = >>=-eq-ok (definition_for catalog run) _ h in
    let (_, guards, h₂) = >>=-eq-ok (checks (run_guards run d)) _ h₁ in
    let (active, one, h₃) = >>=-eq-ok (only_one (active_scenes run.scenes)) _ h₂ in
    let (scene, found, h₄) =
      >>=-eq-ok
        (or_raise (find (λ s. nat_eq s.sequence active.sequence) d.scenes)
          (scenario_state "active Scene sequenceがScenario定義と一致しません"))
        _ h₃ in
    subst (IsCurrent catalog run) (from_ok h₄) (
      given,
      run_guards-subset run d (checks-AllFalse (run_guards run d) guards),
      or_raise-eq-ok _ _ scene found,
    )

none-neq-some : (effect : ScenarioEffect) → none ≢ some effect
none-neq-some effect h = cc

effect_for-All :
    (P : ScenarioEffect → Type 0) (a : ScenarioAction) (outcome : Outcome) (hp : Option ℕ)
    (effect : ScenarioEffect)
    → effect_for a outcome hp ≡ some effect
    → All P (effects_of a)
    → P effect
unfolding effect_for
effect_for-All P (direct a) failure hp effect h k = cc
effect_for-All P (direct a) success hp effect h k = subst P (from_some h) k.0
effect_for-All P (direct a) neutral hp effect h k = subst P (from_some h) k.0
effect_for-All P (skill a) neutral hp effect h k = cc
effect_for-All P (skill a) success hp effect h k = subst P (from_some h) k.0
effect_for-All P (skill a) failure hp effect h k = subst P (from_some h) k.1.0
effect_for-All P (attack a) outcome hp effect h k = elim (Bool-cases (hp == some 0)) [
  | inl down ↦ subst P (from_some (rw down at h)) k.0
  | inr up ↦ absurd (none-neq-some effect (rw up at h))
]

progress_if-NeverStops :
    (run : ScenarioRunSnapshot) (current : Current) (o : Option ScenarioEffect)
    → ((effect : ScenarioEffect) → o ≡ some effect → IsKnownEffect current.definition effect)
    → subset (sequences current.definition.scenes) (runtime_sequences run.scenes) ≡ true
    → NeverStops (progress_if run current o)
progress_if-NeverStops run current none k covered = tt
progress_if-NeverStops run current (some effect) k covered =
    progress_effect-NeverStops run current effect (k effect refl) covered

-- The effects of every action of the active scene are known.
known_actions :
    (catalog : Catalog) (run : ScenarioRunSnapshot) (current : Current)
    → IsCurrent catalog run current
    → valid_graph current.definition ≡ ok tt
    → All (λ a. All (IsKnownEffect current.definition) (effects_of a)) current.scene.actions
known_actions catalog run current here valid =
    find-All (λ s. All (λ a. All (IsKnownEffect current.definition) (effects_of a)) s.actions)
      (λ s. nat_eq s.sequence current.active.sequence) current.definition.scenes current.scene
      here.2 (valid_graph-IsKnownEffect current.definition valid)

-- The progress of a registered action raises no `StopIteration`: each scene and each ending that
-- its effect names is found, provided that the run's definition is one that could be built, and
-- that actions which are the same object are equal.
pub progress_for-NeverStops :
    (is_same : ScenarioAction → ScenarioAction → Bool) (catalog : Catalog)
    (run : ScenarioRunSnapshot) (binding : ScenarioAction) (outcome : Outcome) (hp : Option ℕ)
    → ((a b : ScenarioAction) → is_same a b ≡ true → a ≡ b)
    → ((d : ScenarioDefinition) → definition_for catalog run ≡ ok d → valid_graph d ≡ ok tt)
    → NeverStops (progress_for is_same catalog run binding outcome hp)
unfolding progress_for
progress_for-NeverStops is_same catalog run binding outcome hp same valid =
    elim (NeverStops-cases (current_scene catalog run) (current_scene-NeverStops catalog run)) [
      | inl (e, h, n) ↦ rw h n
      | inr (current, h) ↦
          let here = current_scene-IsCurrent catalog run current h in
          let actions = known_actions catalog run current here (valid current.definition here.0) in
          let is_bound : ScenarioAction → Bool = λ action. is_same action binding in
          elim (Bool-cases (any is_bound current.scene.actions)) [
            | inr unbound ↦ rw (h, unbound) tt
            | inl bound ↦
                let (action, is_it, effects) =
                  any-All (λ a. All (IsKnownEffect current.definition) (effects_of a)) is_bound
                    current.scene.actions bound actions in
                let known_effects =
                  subst (λ a. All (IsKnownEffect current.definition) (effects_of a))
                    (same action binding is_it) effects in
                rw (h, bound)
                  (progress_if-NeverStops run current (effect_for binding outcome hp)
                    (λ effect e.
                      effect_for-All (IsKnownEffect current.definition) binding outcome hp effect e
                        known_effects)
                    here.1)
          ]
    ]
