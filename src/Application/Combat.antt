-- ===== src/Application/Combat.antt =====
-- application/combat.py: `resolve_enemy_reaction`, the enemy's turn after the player's actions.
pub mod Characters
pub mod Update
pub mod Standing
pub mod Fights
pub mod Reaction
pub mod Accepted
pub mod Progress
use ai_rpg.Prelude.{
  ℕ, zero, suc, ◌+◌, String, Bool, true, false, ◌&&◌, ◌||◌, not, Option, none, some, List, [], ◌∷◌,
  ◌++◌, Result, ok, err, raise_if, or_raise, Error, value_error, key_error, nat_eq, length, any,
  find, contains, lookup, insert, ◌==◌, id_eq, ref_eq, is_some, if◌then◌else◌,
}
use ai_rpg.Prelude.{◌>>=◌ as and_then}
use ai_rpg.Prelude.Int.{ℤ, pos}
use ai_rpg.Text.{Text, codes}
use ai_rpg.Domain.Results.{
  Uuid, DiceResult, StateChange, damage, healing, consumed, AppliedResult, ActionResult, applied,
  not_applicable,
}
use ai_rpg.Domain.Character.{CharacterState, character_state}
use ai_rpg.Domain.Commands.{AttackCommand, Command, attack}
use ai_rpg.Domain.Events.{EnemyReaction, RngMetadata, RngSource}
use ai_rpg.Engine.Random.{RandomSource, Draw, pure, lift, ◌>>=◌, ◌>>◌}
use ai_rpg.Engine.Ruleset.{resolve_attack}
use ai_rpg.Scenario.Model.{Ref, DamageDice, d4, d6, ScenarioCombatDefinition}
use ai_rpg.Scenario.Progress.{Catalog, current_scene}
use ai_rpg.Application.Ports.{
  ScenarioRunSnapshot, CharacterRow, EntityRow, SceneEntityRow, CanonicalSnapshot,
  ResolutionWorkItem, ActionRecord, ScenarioProgressUpdate, ScenarioFact,
}
use ai_rpg.Application.Resolution.Reactions.{is_applied}
use ai_rpg.Application.Mutations.{changes_of}
use ai_rpg.Application.Combat.Characters.{characters_from, apply_actions}
use ai_rpg.Application.Combat.Update.{combat_update}

pub record CombatResolution : Type 0 where
  pub reactions : List EnemyReaction
  pub scenario_update : Option ScenarioProgressUpdate

abbrev pub dice_text : DamageDice → Text
dice_text d4 = codes "1d4"
dice_text d6 = codes "1d6"

-- Whether the player's own progress already leaves the scene or ends the run.
abbrev pub leaves_scene : Option ScenarioProgressUpdate → Bool
leaves_scene none = false
leaves_scene (some u) = is_some u.to_scene_id || is_some u.ending_ref

abbrev pub is_enemy_row : Ref → EntityRow → Bool
is_enemy_row ref e = e.ref == ref && e.kind == "npc" && not e.is_archived

abbrev pub is_present : Uuid → SceneEntityRow → Bool
is_present id row = row.entity_id == id && row.is_public && row.is_attack_reachable

-- The enemy's row, if it is in the scene for all to see and in reach.
abbrev pub present_enemy : CanonicalSnapshot → Option EntityRow → Result EntityRow
present_enemy snapshot none = err (value_error "Configured enemy is not in the active public scene")
present_enemy snapshot (some e) =
    and_then
      (raise_if (not (any (is_present e.id) snapshot.scene_entities))
        (value_error "Configured enemy is not in the active public scene"))
      (λ _. ok e)

abbrev pub attacks : Uuid → Command → Bool
attacks enemy (attack c) = c.target_id == enemy
attacks enemy _ = false

abbrev pub is_attacked : Uuid → List ActionRecord → Bool
is_attacked enemy = any (λ a. attacks enemy a.command && is_applied a.result)

abbrev pub rng_count : List ActionRecord → ℕ
rng_count [] = 0
rng_count (a ∷ rest) = length a.rng + rng_count rest

-- The metadata of so many dice, from a draw index on.
unfoldable pub rng_from : RngSource → Text → ℕ → ℕ → List RngMetadata
rng_from source version first zero = []
rng_from source version first (suc count) =
    record { source = source; implementation_version = version; draw_index = first }
    ∷ rng_from source version (first + 1) count

abbrev pub reaction_command :
    ResolutionWorkItem → ScenarioCombatDefinition → Uuid → Uuid → CharacterState → AttackCommand
reaction_command work combat reaction_id enemy_id attacker = record {
  base = record {
    action_id = reaction_id;
    campaign_id = work.campaign_id;
    turn_id = work.turn_id;
    actor_id = enemy_id;
    ordinal = 1;
  };
  target_id = work.actor_id;
  weapon_id = none;
  attack_bonus = attacker.attack_bonus;
  damage_expression = dice_text combat.damage_expression;
  damage_bonus = pos combat.damage_bonus;
}

-- What the function is given beside the turn: the identifier that the factory makes next, and the
-- source and version that its dice are recorded under.
pub record ReactionContext : Type 0 where
  pub reaction_id : Uuid
  pub rng_source : RngSource
  pub rng_implementation_version : Text

module _ {S : Type 0} (source : RandomSource S) (ctx : ReactionContext) where
  -- The enemy's attack, where both are still up.
  unfoldable pub react :
      ResolutionWorkItem
      → List ActionRecord
      → Option ScenarioProgressUpdate
      → ScenarioRunSnapshot
      → ScenarioCombatDefinition
      → Uuid
      → CharacterState
      → CharacterState
      → Draw S CombatResolution
  unfolding rng_from
  react work actions update run combat enemy_id attacker target =
      let command = reaction_command work combat ctx.reaction_id enemy_id attacker in
      do
        result ← resolve_attack source command attacker target
        pure (record {
          reactions =
              record {
                command = command;
                result = result;
                rng =
                    rng_from ctx.rng_source ctx.rng_implementation_version (rng_count actions)
                      (length result.dice);
              }
              ∷ [];
          scenario_update = combat_update work.scene_id run combat result.state_changes update;
        })

  abbrev pub unchanged : Option ScenarioProgressUpdate → Draw S CombatResolution
  unchanged update = pure (record { reactions = []; scenario_update = update })

  -- Nothing happens where one of the two is down.
  abbrev pub react_if_up :
      Bool → Option ScenarioProgressUpdate → Draw S CombatResolution → Draw S CombatResolution
  react_if_up true update m = unchanged update
  react_if_up false update m = m

  -- From the enemy's row on.
  unfoldable pub enemy_turn :
      ResolutionWorkItem
      → CanonicalSnapshot
      → List ActionRecord
      → Option ScenarioProgressUpdate
      → ScenarioRunSnapshot
      → ScenarioCombatDefinition
      → EntityRow
      → Draw S CombatResolution
  unfolding characters_from apply_actions
  enemy_turn work snapshot actions update run combat enemy =
      if not (contains combat.started_flag run.flags) && not (is_attacked enemy.id actions)
      then unchanged update
      else do
        saved ← lift (characters_from [] snapshot.characters)
        characters ← lift (apply_actions saved actions)
        attacker ← lift (or_raise (lookup enemy.id characters) key_error)
        target ← lift (or_raise (lookup work.actor_id characters) key_error)
        react_if_up (nat_eq attacker.current_hp 0 || nat_eq target.current_hp 0) update
            (react work actions update run combat enemy.id attacker target)

  -- In a scene with a fight.
  unfoldable pub fight :
      ResolutionWorkItem
      → CanonicalSnapshot
      → List ActionRecord
      → Option ScenarioProgressUpdate
      → ScenarioRunSnapshot
      → Option ScenarioCombatDefinition
      → Draw S CombatResolution
  fight work snapshot actions update run none = unchanged update
  fight work snapshot actions update run (some combat) =
      if not (any (λ a. is_applied a.result) actions) || leaves_scene update
      then unchanged update
      else do
        enemy ←
            lift (present_enemy snapshot (find (is_enemy_row combat.enemy_ref) snapshot.entities))
        enemy_turn work snapshot actions update run combat enemy

  unfoldable pub in_scenario :
      ResolutionWorkItem
      → CanonicalSnapshot
      → List ActionRecord
      → Option ScenarioProgressUpdate
      → Option ScenarioRunSnapshot
      → Option Catalog
      → Draw S CombatResolution
  in_scenario work snapshot actions update (some run) (some catalog) = do
    current ← lift (current_scene catalog run)
    fight work snapshot actions update run current.scene.combat
  in_scenario work snapshot actions update _ _ = unchanged update

  unfoldable pub resolve_enemy_reaction :
      ResolutionWorkItem
      → CanonicalSnapshot
      → List ActionRecord
      → Option ScenarioProgressUpdate
      → Option Catalog
      → Draw S CombatResolution
  unfolding in_scenario
  resolve_enemy_reaction work snapshot actions update catalog =
      in_scenario work snapshot actions update snapshot.scenario_run catalog
