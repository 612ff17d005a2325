-- ===== src/Scenario/Validate/Known.antt =====
-- What `valid_graph` is for: the references of a valid definition are found.
pub mod Progress
use ai_rpg.Prelude.{
  String, All-map, scenario_state, ℕ, ◌≡◌, ◌≢◌, refl, ap, Bool, true, false, not, ◌&&◌, ◌||◌,
  Option, none, some, List, [], ◌∷◌, ◌++◌, map, Error, Result, ok, err, ◌>>=◌, ◌>>◌, checks,
  AllFalse, checks-AllFalse, AllFalse-append, AllFalse-concat_map, All, Eq, find, find-holds,
  concat_map, contains, subset, nat_eq, is_some, id_eq, ref_eq, ◌==◌, not-eq-false, and-eq-true,
  Bool-cases, inl, inr, raise_if, or_raise, stop_iteration, action_unavailable, if◌then◌else◌,
  arith, any, ◌⊎◌,
}
use ai_rpg.Domain.Results.{Uuid}
use ai_rpg.Scenario.Model.{
  Ref, ScenarioDefinition, SceneDefinition, ScenarioAction, ScenarioEffect, ScenarioEndingOverride,
  EndingDefinition,
}
use ai_rpg.Application.Ports.{ScenarioRunSnapshot, ScenarioSceneSnapshot, ScenarioProgressUpdate}
use ai_rpg.Scenario.Progress.{
  Current, sequences, runtime_sequences, validate_protected_effect, taken_elsewhere, facts_of,
}
use ai_rpg.Scenario.Progress.Registered.{ending_of, check_ending, saved_scene, progress_effect}
use ai_rpg.Scenario.Validate.{
  scene_refs, ending_refs, flag_refs, effects_of, override_guards, effect_guards, action_guards,
  skill_guard, combat_guards, scene_guards, unique_guards, world_guards, ending_guard, graph_guards,
  valid_graph,
}
use ai_rpg.Scenario.Validate.Initialization.{known, initialization_guards}

module _ {A K : Type 0} ⦃e : Eq K⦄ where
  find-contains :
      (key : A → K) (k : K) (xs : List A)
      → contains k (map key xs) ≡ true
      → (x : A) × (find (λ y. key y == k) xs ≡ some x)
  find-contains key k [] h = cc
  find-contains key k (x ∷ xs) h = elim (Bool-cases (key x == k)) [
    | inl here ↦ (x, rw here refl)
    | inr away ↦ let (y, found) = find-contains key k xs (rw away at h) in (y, rw away found)
  ]

  contains-find :
      (key : A → K) (p : A → Bool) (x : A) (xs : List A)
      → find p xs ≡ some x
      → contains (key x) (map key xs) ≡ true
  contains-find key p x [] h = cc
  contains-find key p x (y ∷ ys) h =
      ground (arith, e.beq_iff (key y) (key x), contains-find key p x ys)

module _ {K : Type 0} ⦃e : Eq K⦄ where
  contains-subset :
      (k : K) (xs ys : List K) → subset xs ys ≡ true → contains k xs ≡ true → contains k ys ≡ true
  contains-subset k [] ys h m = cc
  contains-subset k (x ∷ xs) ys h m = ground (arith, e.beq_iff x k, contains-subset k xs ys)

-- A computation that may raise, but no `StopIteration`.
abbrev pub NotStop : Error → Type 0
NotStop stop_iteration = ⊥
NotStop e = Unit {0}

abbrev pub NeverStops {ℓ} : {A : Type ℓ} → Result A → Type 0
NeverStops (ok a) = Unit
NeverStops (err e) = NotStop e

-- It raises another error or returns.
pub NeverStops-cases {ℓ} :
    {A : Type ℓ} (m : Result A)
    → NeverStops m
    → ((e : Error) × (m ≡ err e) × NotStop e) ⊎ ((a : A) × (m ≡ ok a))
NeverStops-cases (ok a) h = inr (a, refl)
NeverStops-cases (err e) h = inl (e, refl, h)

pub NeverStops-raise_if : (b : Bool) (e : Error) → NotStop e → NeverStops (raise_if b e)
NeverStops-raise_if true e h = h
NeverStops-raise_if false e h = tt

pub NeverStops-or_raise :
    {A : Type 0} (o : Option A) (e : Error) → NotStop e → NeverStops (or_raise o e)
NeverStops-or_raise none e h = h
NeverStops-or_raise (some a) e h = tt

-- A missing ending, or one of the definition.
ending_of-known :
    (definition : ScenarioDefinition) (base : Option Ref) (os : List ScenarioEndingOverride)
    (flags : List Ref)
    → known base (ending_refs definition) ≡ true
    → All (λ o. AllFalse (override_guards definition o)) os
    → known (ending_of base os flags) (ending_refs definition) ≡ true
unfolding ending_of
ending_of-known definition base [] flags h k = h
ending_of-known definition base (o ∷ os) flags h k =
    elim (Bool-cases (subset o.requires_flags flags)) [
      | inl met ↦ rw met (not-eq-false _ k.0.1.0)
      | inr unmet ↦ rw unmet (ending_of-known definition base os flags h k.1)
    ]

check_ending-NeverStops :
    (definition : ScenarioDefinition) (ending : Option Ref) (flags : List Ref)
    → known ending (ending_refs definition) ≡ true
    → NeverStops (check_ending definition ending flags)
unfolding check_ending
check_ending-NeverStops definition none flags h = tt
check_ending-NeverStops definition (some ref) flags h =
    elim (Bool-cases (nat_eq definition.schema_version 2)) [
      | inl v2 ↦
          let (ending, found) = find-contains (λ x. x.ending_ref) ref definition.endings h in
          rw (v2, found) (NeverStops-raise_if (not (subset ending.required_flags flags)) _ tt)
      | inr v1 ↦ rw v1 tt
    ]

saved_scene-NeverStops :
    (definition : ScenarioDefinition) (saved : List ScenarioSceneSnapshot) (ref : Option Ref)
    → known ref (scene_refs definition) ≡ true
    → subset (sequences definition.scenes) (runtime_sequences saved) ≡ true
    → NeverStops (saved_scene definition saved ref)
unfolding saved_scene
saved_scene-NeverStops definition saved none h k = tt
saved_scene-NeverStops definition saved (some ref) h k =
    let (target, found) = find-contains (λ s. s.scene_ref) ref definition.scenes h in
    let defined =
      contains-find (λ s. s.sequence) (λ s. s.scene_ref == ref) target definition.scenes found in
    let kept =
      contains-subset target.sequence (sequences definition.scenes) (runtime_sequences saved) k
        defined in
    let (runtime, got) = find-contains (λ s. s.sequence) target.sequence saved kept in
    rw (found, got) tt

-- What a definition's effects refer to is known.
abbrev pub IsKnownEffect : ScenarioDefinition → ScenarioEffect → Type 0
IsKnownEffect definition effect = AllFalse (effect_guards definition effect)

action_lem :
    (definition : ScenarioDefinition) (a : ScenarioAction)
    → AllFalse (action_guards definition a)
    → AllFalse (skill_guard a ++ concat_map (effect_guards definition) (effects_of a))
unfolding action_guards
action_lem definition a h = h.1.1

scene_lem :
    (definition : ScenarioDefinition) (s : SceneDefinition)
    → AllFalse (scene_guards definition s)
    → AllFalse
        (combat_guards definition s s.combat ++ concat_map (action_guards definition) s.actions)
unfolding scene_guards
scene_lem definition s h = h.1.1

pub valid_graph-IsKnownEffect :
    (definition : ScenarioDefinition)
    → valid_graph definition ≡ ok tt
    → All
        (λ s. All (λ a. All (IsKnownEffect definition) (effects_of a)) s.actions)
        definition.scenes
unfolding valid_graph graph_guards
valid_graph-IsKnownEffect definition h =
    let all_rows =
      checks-AllFalse
        (graph_guards definition
          ++ initialization_guards definition (scene_refs definition) (flag_refs definition))
        h in
    let graph = (AllFalse-append (graph_guards definition) _ all_rows).0 in
    let after_unique = (AllFalse-append (unique_guards definition) _ graph).1 in
    let after_world =
      (AllFalse-append (world_guards definition definition.world) _ after_unique).1 in
    let scenes =
      (AllFalse-append (concat_map (ending_guard definition) definition.endings) _ after_world).1 in
    All-map
      (λ s rows.
        All-map
          (λ a checked.
            AllFalse-concat_map (effect_guards definition) (effects_of a)
              (AllFalse-append (skill_guard a) _ (action_lem definition a checked)).1)
          s.actions
          (AllFalse-concat_map (action_guards definition) s.actions
            (AllFalse-append (combat_guards definition s s.combat) _
              (scene_lem definition s rows)).1))
      definition.scenes (AllFalse-concat_map (scene_guards definition) definition.scenes scenes)

-- The saved run has every scene of its definition, as `current_scene` checks.
pub progress_effect-NeverStops :
    (run : ScenarioRunSnapshot) (current : Current) (effect : ScenarioEffect)
    → IsKnownEffect current.definition effect
    → subset (sequences current.definition.scenes) (runtime_sequences run.scenes) ≡ true
    → NeverStops (progress_effect run current effect)
unfolding progress_effect effect_guards validate_protected_effect
progress_effect-NeverStops run current effect known_refs covered =
    let definition = current.definition in
    let ending = ending_of effect.ending_ref effect.overrides run.flags in
    let overrides_known =
      AllFalse-concat_map (override_guards definition) effect.overrides known_refs.1.1.1.1.1 in
    let ending_known =
      ending_of-known definition effect.ending_ref effect.overrides run.flags
        (not-eq-false _ known_refs.1.1.0) overrides_known in
    let taken =
      raise_if
        (any (taken_elsewhere current.scene run.flags effect.add_flags) (facts_of definition.world))
        (action_unavailable "A protected item cannot be acquired outside its authored location") in
    let checked = check_ending definition ending (run.flags ++ effect.add_flags) in
    let moved = saved_scene definition run.scenes effect.next_scene_ref in
    elim (NeverStops-cases taken (NeverStops-raise_if _ _ tt)) [
      | inl (e, h, n) ↦ rw h n
      | inr (_, h) ↦
          elim (NeverStops-cases checked (
            check_ending-NeverStops definition ending (run.flags ++ effect.add_flags)
              ending_known)) [
                | inl (e, h₁, n) ↦ rw (h, h₁) n
                | inr (_, h₁) ↦
                    elim (NeverStops-cases moved (
                      saved_scene-NeverStops definition run.scenes effect.next_scene_ref
                        (not-eq-false _ known_refs.1.0) covered)) [
                          | inl (e, h₂, n) ↦ rw (h, h₁, h₂) n
                          | inr (to, h₂) ↦ rw (h, h₁, h₂) tt
                        ]
              ]
    ]
