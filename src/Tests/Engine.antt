-- ===== src/Tests/Engine.antt =====
-- Dice and rulesets at concrete inputs.
use ai_rpg.Prelude.{
  ℕ, ◌≤◌, ◌≡◌, refl, true, none, some, [], ◌∷◌, ok, contains, ref_eq, option_eq, arith,
}
use ai_rpg.Prelude.Int.{◌+ℤ◌, pos, negsuc}
use ai_rpg.Text.{codes, read_number, lower, remove_spaces, decimal, signed}
use ai_rpg.Domain.Results.{
  AppliedResult, DiceResult, dice_result, damage_applied, applied_result, damage, healing, consumed,
  success,
}
use ai_rpg.Domain.Commands.{CommandBase, AttackCommand, SkillCheckCommand, UseItemCommand}
use ai_rpg.Engine.Random.{secure_randint, secure_randint_bounds}
use ai_rpg.Engine.Dice.{DiceExpression, parse_dice, normalize, roll, draw_rolls}
use ai_rpg.Engine.Dice.Notation.{IsRollable, parse_dice-IsRollable, show_dice, parse_dice-show_dice}
use ai_rpg.Engine.Dice.Rolls.{IsRollOf, roll_lem}
use ai_rpg.Engine.Ruleset.{
  hit_fact, attack_guards, skills, d20, resolve_hit, resolve_attack_roll, resolve_skill_check,
  resolve_attack, resolve_use_item,
}
use ai_rpg.Engine.Ruleset.Attack.{
  IsReady, IsAttackOutcome, resolve_attack-IsAttackOutcome, d20_expression,
}
use ai_rpg.Engine.Ruleset.AttackTotal.{resolve_attack_total}
use ai_rpg.Engine.Ruleset.Skills.{IsCheckOutcome, resolve_skill_check_lem}
use ai_rpg.Engine.Ruleset.Items.{IsUsable, healed, taken, resolve_use_item_lem}
use ai_rpg.Tests.Sources.{counting, counting_secrets, hero, goblin}

secure_randint_bounds_example :
    (1 ≤ (secure_randint counting_secrets 1 20 33).0)
    × ((secure_randint counting_secrets 1 20 33).0 ≤ 20)
secure_randint_bounds_example = secure_randint_bounds counting_secrets 1 20 33 (omega arith)

abbrev two_dice : DiceExpression
two_dice = record { count = 2; sides = 6; modifier = negsuc 0 }

two_dice-IsRollable : IsRollable two_dice
two_dice-IsRollable = record {
  count_bounds = omega arith;
  sides_bounds = omega arith;
  modifier_bounds = omega arith;
}

parse_dice-show_dice_example : parse_dice (show_dice two_dice) ≡ some two_dice
parse_dice-show_dice_example = parse_dice-show_dice two_dice two_dice-IsRollable

parse_two_dice : parse_dice (normalize (codes "2D6 - 1")) ≡ some two_dice
unfolding parse_dice read_number normalize lower remove_spaces
parse_two_dice = refl

parse_dice-IsRollable_example : IsRollable two_dice
parse_dice-IsRollable_example =
    parse_dice-IsRollable (normalize (codes "2D6 - 1")) two_dice parse_two_dice

roll_lem_example :
    (r : DiceResult) × ((roll counting (codes "2D6 - 1") 4).0 ≡ ok r)
    × IsRollOf (normalize (codes "2D6 - 1")) two_dice r
roll_lem_example = roll_lem counting (codes "2D6 - 1") two_dice 4 parse_two_dice

abbrev base : CommandBase
base = record { action_id = 70; campaign_id = 90; turn_id = 80; actor_id = 1; ordinal = 1 }

abbrev check : SkillCheckCommand
check = record {
  base = base;
  skill_ref = "stealth";
  objective = codes "hide";
  target_id = none;
  modifier = pos 2;
  difficulty_class = 12;
}

known_skill : contains check.skill_ref skills ≡ true
known_skill = refl

resolve_skill_check_lem_example :
    (r : AppliedResult) × (d : DiceResult) × ((resolve_skill_check counting check hero 9).0 ≡ ok r)
    × IsRollOf (normalize (d20 (pos 2))) (d20_expression (pos 2)) d
    × IsCheckOutcome check r d
resolve_skill_check_lem_example =
    resolve_skill_check_lem counting check hero 9 (omega arith) known_skill (omega arith)
      (omega arith)

abbrev strike : AttackCommand
strike = record {
  base = base;
  target_id = 2;
  weapon_id = none;
  attack_bonus = pos 3;
  damage_expression = codes "1d6";
  damage_bonus = pos 1;
}

abbrev one_die : DiceExpression
one_die = record { count = 1; sides = 6; modifier = pos 0 }

parse_one_die : parse_dice (normalize strike.damage_expression) ≡ some one_die
unfolding parse_dice read_number normalize lower remove_spaces
parse_one_die = refl

strike-IsReady : IsReady strike hero goblin
strike-IsReady = record {
  same_actor = refl;
  same_target = refl;
  actor_up = omega arith;
  target_up = omega arith;
  bonus_bounds = omega arith;
}

resolve_attack_total_example :
    (r : AppliedResult) × ((resolve_attack counting strike hero goblin 11).0 ≡ ok r)
resolve_attack_total_example =
    resolve_attack_total counting strike hero goblin one_die 11 strike-IsReady parse_one_die
      (omega arith)

-- The state 11 rolls 12 and 1: a hit for 2.
abbrev hit : AppliedResult
hit = record {
  outcome = success;
  facts = hit_fact 2 ∷ [];
  dice =
      record { expression = codes "1d20+3"; rolls = 12 ∷ []; modifier = pos 3; total = pos 15 }
      ∷ record { expression = codes "1d6"; rolls = 1 ∷ []; modifier = pos 0; total = pos 1 }
      ∷ [];
  state_changes = damage (record { target_id = 2; amount = 2; hp_before = 6; hp_after = 4 }) ∷ [];
}

struck : (resolve_attack counting strike hero goblin 11).0 ≡ ok hit
unfolding resolve_attack resolve_attack_roll resolve_hit attack_guards roll draw_rolls parse_dice
    read_number normalize lower remove_spaces signed decimal dice_result hit_fact damage_applied
    applied_result ◌+ℤ◌
struck = refl

resolve_attack-IsAttackOutcome_example :
    (strike.actor_id ≡ hero.id)
    × (strike.target_id ≡ goblin.id)
    × (1 ≤ hero.current_hp)
    × (1 ≤ goblin.current_hp)
    × IsAttackOutcome strike goblin hit
resolve_attack-IsAttackOutcome_example =
    resolve_attack-IsAttackOutcome counting strike hero goblin 11 hit struck

abbrev drink : UseItemCommand
drink = record { base = base; item_id = 5; target_id = some 1; effect_ref = "healing_potion" }

drink-IsUsable : IsUsable drink hero (pos 2)
drink-IsUsable = record {
  same_actor = refl;
  same_target = refl;
  actor_up = omega arith;
  potion_effect = refl;
  in_stock = omega arith;
}

resolve_use_item_lem_example :
    (r : AppliedResult) × (amount : ℕ) × ((resolve_use_item counting drink hero hero (pos 2) 3).0
      ≡ ok r)
    × (r.outcome ≡ success)
    × (r.state_changes ≡ healing (healed hero amount) ∷ consumed (taken drink hero (pos 2)) ∷ [])
    × (3 ≤ amount)
    × (amount ≤ 8)
resolve_use_item_lem_example =
    resolve_use_item_lem counting drink hero (pos 2) 3 drink-IsUsable (omega arith) (omega arith)
