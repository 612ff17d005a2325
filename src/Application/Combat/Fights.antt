-- ===== src/Application/Combat/Fights.antt =====
-- What the enemy's turn may come to: a reaction, or nothing for a reason.
use ai_rpg.Prelude.{
  Bool, true, false, ◌&&◌, ◌||◌, not, Option, none, some, List, [], ◌∷◌, ok, nat_eq, length, any,
  find, contains, id_eq, ref_eq, ℕ, nat_eq_iff, arith,
}
use ai_rpg.Domain.Results.{Uuid, AppliedResult}
use ai_rpg.Domain.Character.{CharacterState}
use ai_rpg.Scenario.Model.{Ref, ScenarioCombatDefinition}
use ai_rpg.Scenario.Progress.{Catalog, Current, current_scene}
use ai_rpg.Application.Ports.{
  ScenarioRunSnapshot, EntityRow, CanonicalSnapshot, ResolutionWorkItem, ActionRecord,
  ScenarioProgressUpdate,
}
use ai_rpg.Application.Resolution.Reactions.{is_applied}
use ai_rpg.Prelude.{
  ◌≡◌, ◌≤◌, ◌⊎◌, inl, inr, refl, Bool-cases, from_ok, not-eq-false, raise_if-eq-ok,
}
use mathlib.Core.Path.{subst}
use ai_rpg.Engine.Ruleset.Attack.{IsAttackOutcome}
use ai_rpg.Application.Combat.{
  CombatResolution, leaves_scene, is_enemy_row, is_present, present_enemy, is_attacked, rng_count,
  rng_from, reaction_command, ReactionContext,
}
use ai_rpg.Application.Combat.Update.{combat_update}
use ai_rpg.Application.Combat.Standing.{IsStanding}

-- The enemy that may react: a living npc of the configured reference, public and in reach.
pub record IsEnemy (snapshot : CanonicalSnapshot) (ref : Ref) (enemy : EntityRow) : Type 0 where
  pub found : find (is_enemy_row ref) snapshot.entities ≡ some enemy
  pub present : any (is_present enemy.id) snapshot.scene_entities ≡ true

-- The reaction as a whole: one attack on the acting character by the enemy, with its outcome.
pub record IsReaction (ctx : ReactionContext) (work : ResolutionWorkItem)
    (actions : List ActionRecord) (update : Option ScenarioProgressUpdate)
    (run : ScenarioRunSnapshot) (combat : ScenarioCombatDefinition) (enemy_id : Uuid)
    (attacker target : CharacterState) (result : AppliedResult) (r : CombatResolution)
    : Type 0 where
  pub is_attacker : enemy_id ≡ attacker.id
  pub is_target : work.actor_id ≡ target.id
  pub attacker_up : 1 ≤ attacker.current_hp
  pub target_up : 1 ≤ target.current_hp
  pub outcome :
      IsAttackOutcome (reaction_command work combat ctx.reaction_id enemy_id attacker) target result
  pub reacted :
      r.reactions
      ≡ record {
        command = reaction_command work combat ctx.reaction_id enemy_id attacker;
        result = result;
        rng =
            rng_from ctx.rng_source ctx.rng_implementation_version
              (rng_count actions)
              (length result.dice);
      }
        ∷ []
  pub updated :
      r.scenario_update ≡ combat_update work.scene_id run combat result.state_changes update

-- Why the enemy reacts: the player did something that was applied and stays in the scene, which has
-- a fight that is going on or that the player has just started.
pub record IsFight (snapshot : CanonicalSnapshot) (actions : List ActionRecord)
    (update : Option ScenarioProgressUpdate) (run : ScenarioRunSnapshot)
    (combat : ScenarioCombatDefinition) (enemy : EntityRow) : Type 0 where
  pub acted : any (λ a. is_applied a.result) actions ≡ true
  pub stays : leaves_scene update ≡ false
  pub is_enemy : IsEnemy snapshot combat.enemy_ref enemy
  pub started : (contains combat.started_flag run.flags || is_attacked enemy.id actions) ≡ true

-- The scene where the run is, by the definitions of the catalog, and its fight, if it has one.
pub record IsScene (snapshot : CanonicalSnapshot) (catalog : Option Catalog)
    (run : ScenarioRunSnapshot) (combat : Option ScenarioCombatDefinition) : Type 0 where
  pub scenarios : Catalog
  pub current : Current
  pub is_run : snapshot.scenario_run ≡ some run
  pub is_catalog : catalog ≡ some scenarios
  pub is_current : current_scene scenarios run ≡ ok current
  pub has_fight : current.scene.combat ≡ combat

-- Why the enemy does not react. `down`: the enemy or the acting character has no hit points left.
pub data IsQuiet (work : ResolutionWorkItem) (snapshot : CanonicalSnapshot)
    (actions : List ActionRecord) (update : Option ScenarioProgressUpdate)
    (catalog : Option Catalog) : Type 0 where
  no_scenario :
      (snapshot.scenario_run ≡ none) ⊎ (catalog ≡ none)
      → IsQuiet work snapshot actions update catalog
  no_fight :
      (run : ScenarioRunSnapshot)
      → IsScene snapshot catalog run none
      → IsQuiet work snapshot actions update catalog
  nothing_done :
      any (λ a. is_applied a.result) actions ≡ false → IsQuiet work snapshot actions update catalog
  leaves : leaves_scene update ≡ true → IsQuiet work snapshot actions update catalog
  not_started :
      (run : ScenarioRunSnapshot) (combat : ScenarioCombatDefinition) (enemy : EntityRow)
      → IsScene snapshot catalog run (some combat)
      → IsEnemy snapshot combat.enemy_ref enemy
      → contains combat.started_flag run.flags ≡ false
      → is_attacked enemy.id actions ≡ false
      → IsQuiet work snapshot actions update catalog
  down :
      (run : ScenarioRunSnapshot) (combat : ScenarioCombatDefinition) (enemy : EntityRow)
      (c : CharacterState) (id : Uuid)
      → IsScene snapshot catalog run (some combat)
      → IsEnemy snapshot combat.enemy_ref enemy
      → (id ≡ enemy.id) ⊎ (id ≡ work.actor_id)
      → IsStanding snapshot.characters actions id c
      → c.current_hp ≡ 0
      → IsQuiet work snapshot actions update catalog

pub either_down : (m n : ℕ) → (nat_eq m 0 || nat_eq n 0) ≡ true → (m ≡ 0) ⊎ (n ≡ 0)
either_down m n h = elim (Bool-cases (nat_eq m 0)) [
  | inl zero_m ↦ inl ((nat_eq_iff m 0).0 zero_m)
  | inr some_m ↦ inr ((nat_eq_iff n 0).0 (ground arith))
]

pub over_because :
    {work : ResolutionWorkItem} {snapshot : CanonicalSnapshot} {catalog : Option Catalog}
    (actions : List ActionRecord) (update : Option ScenarioProgressUpdate)
    → (not (any (λ a. is_applied a.result) actions) || leaves_scene update) ≡ true
    → IsQuiet work snapshot actions update catalog
over_because actions update h = elim (Bool-cases (any (λ a. is_applied a.result) actions)) [
  | inl acted ↦ leaves (rw acted at h)
  | inr idle ↦ nothing_done idle
]

pub neither : (a b : Bool) → (not a && not b) ≡ true → (a ≡ false) × (b ≡ false)
neither a b h = (ground arith, ground arith)

pub present_enemy-eq-ok :
    (snapshot : CanonicalSnapshot) (o : Option EntityRow) (enemy : EntityRow)
    → present_enemy snapshot o ≡ ok enemy
    → (o ≡ some enemy) × (any (is_present enemy.id) snapshot.scene_entities ≡ true)
present_enemy-eq-ok snapshot none enemy h = cc
present_enemy-eq-ok snapshot (some e) enemy h =
    let (here, same) =
      raise_if-eq-ok (not (any (is_present e.id) snapshot.scene_entities)) _ _ enemy h in
    subst (λ x. (some e ≡ some x) × (any (is_present x.id) snapshot.scene_entities ≡ true))
      (from_ok same) (refl, not-eq-false _ here)

pub either_on : (a b : Bool) → (not a && not b) ≡ false → (a || b) ≡ true
either_on true b h = refl
either_on false b h = not-eq-false b h

pub acts_and_stays : (a b : Bool) → (not a || b) ≡ false → (a ≡ true) × (b ≡ false)
acts_and_stays true b h = (refl, h)
acts_and_stays false b h = cc
