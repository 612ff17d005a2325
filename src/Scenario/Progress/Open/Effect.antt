-- ===== src/Scenario/Progress/Open/Effect.antt =====
-- What a free action's progress may do: all of it.
use ai_rpg.Prelude.{
  ◌≡◌, refl, ap, Bool, true, false, not, ◌&&◌, Option, none, some, List, [], ◌∷◌, ◌++◌, map, ok,
  contains, subset, is_unique, keep, any, ref_eq, id_eq, ◌==◌, checks, checks-AllFalse,
  raise_if-eq-ok, >>=-eq-ok, from_ok, not-eq-false, for_each, All, find-holds, or_raise,
  or_raise-eq-ok, for_each-eq-ok, action_unavailable,
}
use mathlib.Core.Path.{subst}
use ai_rpg.Prelude.Rows.{Among, find-Among}
use ai_rpg.Prelude.Int.{pos, ◌+ℤ◌, ◌≤ℤ◌}
use ai_rpg.Scenario.Model.{Ref, ScenarioDefinition, BoundedWorld, EndingDefinition, is_v2}
use ai_rpg.Scenario.Intent.{OpenActionIntent, OpenEffect, OpenFact}
use ai_rpg.Application.Ports.{ScenarioRunSnapshot, ScenarioProgressUpdate}
use ai_rpg.Scenario.Progress.{
  Catalog, Current, current_scene, taken_elsewhere, facts_of, validate_request,
  validate_protected_effect,
}
use ai_rpg.Scenario.Progress.Registered.{new_flags}
use ai_rpg.Scenario.Progress.Open.{
  defeat_endings, ending_unmet, ending_guards, check_open_ending, open_destination, fact_guards,
  check_fact, is_new, saved_fact, flag_guards, progress_effect, open_world, chosen_effect,
  check_target, progress_open,
}
use ai_rpg.Scenario.Progress.Open.Sound.{
  alert_change_bounds, IsReachable, open_destination-IsReachable,
}

-- An ending is one of the definition that no lost fight leads to, with its flags set.
abbrev pub IsOpenEnding : ScenarioDefinition → List Ref → Option Ref → Type 0
IsOpenEnding definition flags none = Unit {0}
IsOpenEnding definition flags (some ref) =
    (contains ref (defeat_endings definition.scenes) ≡ false)
    × (ending : EndingDefinition) × Among ending definition.endings
    × (ending.ending_ref ≡ ref)
    × (subset ending.required_flags flags ≡ true)

ending_met :
    (flags : List Ref) (o : Option EndingDefinition)
    → ending_unmet flags o ≡ false
    → (e : EndingDefinition) × (o ≡ some e) × (subset e.required_flags flags ≡ true)
ending_met flags none h = cc
ending_met flags (some e) h = (e, refl, not-eq-false _ h)

check_open_ending-IsOpenEnding :
    (definition : ScenarioDefinition) (flags : List Ref) (ref : Option Ref)
    → check_open_ending definition flags ref ≡ ok tt
    → IsOpenEnding definition flags ref
unfolding check_open_ending ending_guards
check_open_ending-IsOpenEnding definition flags none h = tt
check_open_ending-IsOpenEnding definition flags (some ref) h =
    let guards = checks-AllFalse (ending_guards definition flags ref) h in
    let (ending, found, met) = ending_met flags _ guards.1.0 in
    (
      guards.0,
      ending,
      find-Among (λ e. e.ending_ref == ref) definition.endings ending found,
      (ref_eq.beq_iff ending.ending_ref ref).0
          (find-holds (λ e. e.ending_ref == ref) definition.endings ending found),
      met,
    )

-- What the progress of an effect, in a scene and a world, is made of.
pub record IsOpenProgress (run : ScenarioRunSnapshot) (current : Current) (world : BoundedWorld)
    (effect : OpenEffect) (update : ScenarioProgressUpdate) : Type 0 where
  leaves : update.from_scene_id ≡ current.active.id
  allowed : subset effect.add_flags current.scene.open_flags ≡ true
  added : update.add_flags ≡ new_flags run.flags effect.add_flags
  goal :
      contains world.goal_flag_ref effect.add_flags ≡ true
      → (current.scene.scene_ref == world.goal_scene_ref) ≡ true
  at_home :
      any
        (taken_elsewhere current.scene run.flags effect.add_flags)
        (facts_of current.definition.world)
      ≡ false
  arrives : IsReachable run current effect.next_scene_ref update.to_scene_id
  asked_end : update.ending_ref ≡ effect.ending_ref
  ends : IsOpenEnding current.definition (run.flags ++ effect.add_flags) update.ending_ref
  elapsed : update.elapsed_actions ≡ 1
  calm : pos 0 ≤ℤ run.alert_level +ℤ update.alert_delta
  alarmed : run.alert_level +ℤ update.alert_delta ≤ℤ pos 5
  alerted :
      pos 0 ≤ℤ run.alert_level +ℤ effect.alert_delta
      → run.alert_level +ℤ effect.alert_delta ≤ℤ pos 5
      → run.alert_level +ℤ update.alert_delta ≡ run.alert_level +ℤ effect.alert_delta
  distinct : is_unique (map (λ f. f.fact_ref) effect.facts) ≡ true
  unprotected :
      All
        (λ f. contains f.fact_ref (map (λ p. p.fact_ref) world.protected_facts) ≡ false)
        effect.facts
  saved : update.facts ≡ map (saved_fact current.active.id) (keep (is_new run) effect.facts)

fact_unprotected :
    (run : ScenarioRunSnapshot) (current : Current) (world : BoundedWorld) (flags : List Ref)
    (f : OpenFact)
    → check_fact run current world flags f ≡ ok tt
    → contains f.fact_ref (map (λ p. p.fact_ref) world.protected_facts) ≡ false
unfolding fact_guards
fact_unprotected run current world flags f h =
    let (_, asked, h1) = >>=-eq-ok (validate_request current.definition f.public_text) _ h in
    (checks-AllFalse (fact_guards run current world flags f) h1).0

goal_here : (at_goal here : Bool) → (at_goal && not here) ≡ false → at_goal ≡ true → here ≡ true
goal_here true here h e = not-eq-false here h
goal_here false here h e = cc

facts_unprotected :
    (run : ScenarioRunSnapshot) (current : Current) (world : BoundedWorld) (flags : List Ref)
    (fs : List OpenFact)
    → All (λ f. check_fact run current world flags f ≡ ok tt) fs
    → All (λ f. contains f.fact_ref (map (λ p. p.fact_ref) world.protected_facts) ≡ false) fs
facts_unprotected run current world flags [] h = tt
facts_unprotected run current world flags (f ∷ fs) h = (
  fact_unprotected run current world flags f h.0,
  facts_unprotected run current world flags fs h.1,
)

progress_effect-IsOpenProgress :
    (run : ScenarioRunSnapshot) (current : Current) (world : BoundedWorld) (effect : OpenEffect)
    (update : ScenarioProgressUpdate)
    → progress_effect run current world effect ≡ ok update
    → IsOpenProgress run current world effect update
unfolding progress_effect flag_guards validate_protected_effect
progress_effect-IsOpenProgress run current world effect update h =
    let flags = run.flags ++ effect.add_flags in
    let (_, guards, h1) = >>=-eq-ok (checks (flag_guards current world effect.add_flags)) _ h in
    let passed = checks-AllFalse (flag_guards current world effect.add_flags) guards in
    let (kept, h2) =
      raise_if-eq-ok
        (any (taken_elsewhere current.scene run.flags effect.add_flags)
          (facts_of current.definition.world))
        _ _ update h1 in
    let (_, ended, h3) =
      >>=-eq-ok (check_open_ending current.definition flags effect.ending_ref) _ h2 in
    let (to, moved, h4) = >>=-eq-ok (open_destination run current effect.next_scene_ref) _ h3 in
    let (unique, h5) =
      raise_if-eq-ok (not (is_unique (map (λ f. f.fact_ref) effect.facts))) _ _ update h4 in
    let (_, checked, h6) =
      >>=-eq-ok (for_each (check_fact run current world flags) effect.facts) _ h5 in
    let bounds = alert_change_bounds run.alert_level effect.alert_delta in
    subst (IsOpenProgress run current world effect) (from_ok h6) (record {
      leaves = refl;
      allowed = not-eq-false _ passed.0;
      added = refl;
      goal = goal_here _ _ passed.1.0;
      at_home = kept;
      arrives = open_destination-IsReachable run current effect.next_scene_ref to moved;
      asked_end = refl;
      ends = check_open_ending-IsOpenEnding current.definition flags effect.ending_ref ended;
      elapsed = refl;
      calm = bounds.0;
      alarmed = bounds.1;
      alerted = bounds.2;
      distinct = not-eq-false _ unique;
      unprotected =
          facts_unprotected run current world flags effect.facts (for_each-eq-ok _ _ checked);
      saved = refl;
    })

abbrev pub IsOpenStep :
    Catalog → ScenarioRunSnapshot → OpenActionIntent → Bool → ScenarioProgressUpdate → Type 0
IsOpenStep catalog run intent is_success update =
    (current : Current) × (world : BoundedWorld) × (effect : OpenEffect) × (current_scene catalog
        run
      ≡ ok current)
    × (current.definition.world ≡ some world)
    × (is_v2 current.definition.ruleset_ref ≡ true)
    × (chosen_effect intent is_success ≡ some effect)
    × IsOpenProgress run current world effect update

open_world-eq-ok :
    (current : Current) (o : Option BoundedWorld) (world : BoundedWorld)
    → open_world current o ≡ ok world
    → (o ≡ some world) × (is_v2 current.definition.ruleset_ref ≡ true)
open_world-eq-ok current none world h = cc
open_world-eq-ok current (some w) world h =
    let (v2, h1) = raise_if-eq-ok (not (is_v2 current.definition.ruleset_ref)) _ (ok w) world h in
    (ap some (from_ok h1), not-eq-false _ v2)

-- A free action that makes progress does so from the active scene of a v2 scenario with a world, by
-- the effect of its outcome. That effect adds allowed flags only, the goal's flag only in the goal's
-- scene and no protected item away from its place. It moves to the run's saved scene of the one of the
-- definition that the effect names and that the active scene leads to, and stays only where the effect
-- names none or that scene is the active one; it ends the run just as the effect asks, in an ending of
-- the definition whose flags are then set and that no lost fight leads to; it counts one action; the
-- alert level stays between 0 and 5, and moves as the effect asks where that stays there too; and the
-- facts saved are those of the effect that are new, none of them under a protected reference.
pub progress_open-IsOpenStep :
    (catalog : Catalog) (run : ScenarioRunSnapshot) (intent : OpenActionIntent) (is_success : Bool)
    (update : ScenarioProgressUpdate)
    → progress_open catalog run intent is_success ≡ ok update
    → IsOpenStep catalog run intent is_success update
unfolding progress_open
progress_open-IsOpenStep catalog run intent is_success update h =
    let (current, here, h1) = >>=-eq-ok (current_scene catalog run) _ h in
    let (world, opened, h2) = >>=-eq-ok (open_world current current.definition.world) _ h1 in
    let (_, asked, h3) = >>=-eq-ok (validate_request current.definition intent.approach) _ h2 in
    let (_, seen, h4) =
      >>=-eq-ok (check_target run current.active.id intent.target_fact_ref) _ h3 in
    let (effect, chosen, h5) =
      >>=-eq-ok
        (or_raise (chosen_effect intent is_success)
          (action_unavailable "The proposed action has no failure effect"))
        _ h4 in
    let (same_world, v2) = open_world-eq-ok current current.definition.world world opened in
    (
      current,
      world,
      effect,
      here,
      same_world,
      v2,
      or_raise-eq-ok _ _ effect chosen,
      progress_effect-IsOpenProgress run current world effect update h5,
    )
