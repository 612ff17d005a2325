-- ===== src/Tests/Commits.antt =====
-- The enemy's turn in the small scenario, and its commit.
use ai_rpg.Prelude.{
  ◌≡◌, refl, true, false, none, some, List, [], ◌∷◌, ok, contains, id_eq, ref_eq, arith,
}
use ai_rpg.Prelude.Int.{pos, ◌+ℤ◌}
use ai_rpg.Text.{codes, read_number, lower, remove_spaces, decimal, signed}
use ai_rpg.Domain.Results.{
  dice_result, damage_applied, applied_result, damage, success, AppliedResult, applied,
}
use ai_rpg.Domain.Character.{character_state}
use ai_rpg.Domain.Commands.{AttackCommand, scenario_action}
use ai_rpg.Domain.Events.{secure}
use ai_rpg.Engine.Dice.{parse_dice, normalize, roll, draw_rolls}
use ai_rpg.Engine.Ruleset.{
  hit_fact, attack_guards, resolve_attack, resolve_attack_roll, resolve_hit,
}
use ai_rpg.Scenario.Progress.{current_scene, definition_for, run_guards}
use ai_rpg.Application.Ports.{
  CanonicalSnapshot, ResolutionWorkItem, ActionRecord, ScenarioProgressUpdate, CommitBundle,
}
use ai_rpg.Application.Combat.{
  CombatResolution, ReactionContext, resolve_enemy_reaction, fight, enemy_turn, react, rng_from,
}
use ai_rpg.Application.Combat.Characters.{
  apply_changes, apply_change, apply_actions, characters_from,
}
use ai_rpg.Application.Combat.Update.{combat_update}
use ai_rpg.Application.Combat.Reaction.{IsResolved, resolve_enemy_reaction_lem}
use ai_rpg.Application.Combat.Accepted.{
  IsTurnEnemy, validate_enemy_reactions-resolve_enemy_reaction,
}
use ai_rpg.Application.Resolution.Reactions.{
  TurnCommitContext, action_ids, validate_enemy_reactions,
}
use ai_rpg.Tests.Sources.{counting}
use ai_rpg.Tests.Scenarios.{catalog, run}

abbrev work : ResolutionWorkItem
work = record { turn_id = 80; campaign_id = 90; scene_id = 61; actor_id = 1 }

abbrev snapshot : CanonicalSnapshot
snapshot = record {
  campaign_id = 90;
  state_version = 7;
  characters =
      record {
        entity_id = 1;
        current_hp = pos 2;
        max_hp = pos 12;
        defense = pos 11;
        attack_bonus = pos 3;
      }
      ∷ record {
        entity_id = 2;
        current_hp = pos 6;
        max_hp = pos 6;
        defense = pos 12;
        attack_bonus = pos 2;
      }
      ∷ [];
  entities =
      record { id = 1; ref = "hero"; kind = "player"; is_archived = false }
      ∷ record { id = 2; ref = "goblin"; kind = "npc"; is_archived = false }
      ∷ [];
  scene_entities = record { entity_id = 2; is_public = true; is_attack_reachable = true } ∷ [];
  scenario_run = some (record run { flags = "fighting" ∷ [] });
}

abbrev waited : List ActionRecord
waited =
    record {
      command = scenario_action (record {
        base = record { action_id = 70; campaign_id = 90; turn_id = 80; actor_id = 1; ordinal = 1 };
        action_ref = "open_door";
      });
      result =
          applied (record {
            outcome = success;
            facts = codes "done" ∷ [];
            dice = [];
            state_changes = [];
          });
      rng = [];
    }
    ∷ []

abbrev ctx : ReactionContext
ctx = record { reaction_id = 71; rng_source = secure; rng_implementation_version = codes "1" }

-- The state 11 rolls 12 and 1: a hit for 2, which is all that the hero has left.
abbrev bite : AppliedResult
bite = record {
  outcome = success;
  facts = hit_fact 2 ∷ [];
  dice =
      record { expression = codes "1d20+2"; rolls = 12 ∷ []; modifier = pos 2; total = pos 14 }
      ∷ record { expression = codes "1d4"; rolls = 1 ∷ []; modifier = pos 0; total = pos 1 }
      ∷ [];
  state_changes = damage (record { target_id = 1; amount = 2; hp_before = 2; hp_after = 0 }) ∷ [];
}

abbrev bites : AttackCommand
bites = record {
  base = record { action_id = 71; campaign_id = 90; turn_id = 80; actor_id = 2; ordinal = 1 };
  target_id = 1;
  weapon_id = none;
  attack_bonus = pos 2;
  damage_expression = codes "1d4";
  damage_bonus = pos 1;
}

abbrev lost : ScenarioProgressUpdate
lost = record {
  from_scene_id = 61;
  to_scene_id = none;
  add_flags = [];
  ending_ref = some "defeat";
  elapsed_actions = 0;
  alert_delta = pos 0;
  facts = [];
}

abbrev bitten : CombatResolution
bitten = record {
  reactions =
      record {
        command = bites;
        result = bite;
        rng =
            record { source = secure; implementation_version = codes "1"; draw_index = 0 }
            ∷ record { source = secure; implementation_version = codes "1"; draw_index = 1 }
            ∷ [];
      }
      ∷ [];
  scenario_update = some lost;
}

reacted :
    (resolve_enemy_reaction counting ctx work snapshot waited none (some catalog) 11).0 ≡ ok bitten
unfolding resolve_enemy_reaction current_scene definition_for run_guards fight enemy_turn
    character_state apply_changes apply_change apply_actions characters_from react resolve_attack
    resolve_attack_roll resolve_hit attack_guards roll draw_rolls parse_dice read_number normalize
    lower remove_spaces signed decimal dice_result hit_fact damage_applied applied_result ◌+ℤ◌
    combat_update rng_from
reacted = refl

resolve_enemy_reaction_lem_example :
    IsResolved counting ctx work snapshot waited none (some catalog) bitten
resolve_enemy_reaction_lem_example =
    resolve_enemy_reaction_lem counting ctx work snapshot waited none (some catalog) 11 bitten
      reacted

abbrev bundle : CommitBundle
bundle = record {
  campaign_id = 90;
  scene_id = 61;
  turn_id = 80;
  worker_epoch = 1;
  base_state_version = 7;
  actions = waited;
  narration_input = record {
    player_text = codes "wait";
    committed_state_version = 8;
    resolved_actions = [];
    enemy_reactions = [];
    max_actions = 3;
  };
  scenario_update = some lost;
  enemy_reactions = bitten.reactions;
}

abbrev turn : TurnCommitContext
turn = record { scene_id = 61; actor_id = 1; max_actions = 3; enemy_id = some 2 }

fresh : contains ctx.reaction_id (action_ids waited) ≡ false
fresh = refl

turn_enemy : IsTurnEnemy turn bitten.reactions
turn_enemy = ((refl, λ h. omega (arith, h)), tt)

validate_enemy_reactions-resolve_enemy_reaction_example :
    validate_enemy_reactions bundle turn bitten.reactions ≡ ok tt
validate_enemy_reactions-resolve_enemy_reaction_example =
    validate_enemy_reactions-resolve_enemy_reaction counting ctx work snapshot waited none
      (some catalog) 11 bitten bundle turn reacted refl refl refl refl fresh refl turn_enemy
