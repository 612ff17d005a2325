-- ===== src/Engine/Ruleset/AttackTotal.antt =====
-- An attack whose command fits its characters is resolved without an error.
use ai_rpg.Prelude.{◌-◌, ◌<◌, ◌≡◌, refl, ◌∙◌, some, [], ◌∷◌, ok, arith, Bool-cases, inl, inr}
use ai_rpg.Prelude.Int.{pos, ◌+ℤ◌, ◌≤ℤ◌, leb_ℤ, int_laws, pos_part-le, neg_part-le}
use ai_rpg.Domain.Results.{DiceResult, DamageApplied, damage, success, failure, AppliedResult}
use ai_rpg.Domain.Accepted.{damage_applied_accepts, applied_result_accepts}
use ai_rpg.Domain.Character.{CharacterState}
use ai_rpg.Domain.Commands.{AttackCommand}
use ai_rpg.Engine.Random.{RandomSource, bind-ok, checks-bind-ok}
use ai_rpg.Engine.Dice.{DiceExpression, parse_dice, normalize, roll}
use ai_rpg.Engine.Dice.Notation.{parse_dice-IsRollable}
use ai_rpg.Engine.Dice.Rolls.{roll_lem}
use ai_rpg.Engine.Ruleset.{
  attack_guards, d20, miss_fact, hit_fact, resolve_hit, resolve_attack_roll, resolve_attack,
}
use ai_rpg.Engine.Ruleset.Attack.{
  IsReady, d20_expression, parse_dice-d20, damage_of, attack_guards-AllFalse,
}
use ai_rpg.Engine.Ruleset.Facts.{IsModest, miss_fact_fits, hit_fact_fits, total_modest}

module _ {S : Type 0} (source : RandomSource S) where
  resolve_hit_total :
      (command : AttackCommand) (target : CharacterState) (a : DiceResult) (d : DiceExpression)
      (s : S)
      → parse_dice (normalize command.damage_expression) ≡ some d
      → command.damage_bonus ≤ℤ pos 1000
      → (r : AppliedResult) × ((resolve_hit source command target a s).0 ≡ ok r)
  unfolding resolve_hit
  resolve_hit_total command target a d s parsed bonus =
      let (damage_roll, rolled, spec) = roll_lem source command.damage_expression d s parsed in
      let rollable = parse_dice-IsRollable (normalize command.damage_expression) d parsed in
      let modest = total_modest (normalize command.damage_expression) d damage_roll rollable spec in
      let amount = damage_of command damage_roll in
      let small : amount < 10000 = omega (
        arith,
        pos_part-le (damage_roll.total +ℤ command.damage_bonus) 3100
            (omega (int_laws, modest.1, bonus)),
      ) in
      let fits = hit_fact_fits amount small in
      let change : DamageApplied = record {
        target_id = target.id;
        amount = amount;
        hp_before = target.current_hp;
        hp_after = target.current_hp - amount;
      } in
      (
        record {
          outcome = success;
          facts = hit_fact amount ∷ [];
          dice = a ∷ damage_roll ∷ [];
          state_changes = damage change ∷ [];
        },
        bind-ok (roll source command.damage_expression) _ s damage_roll rolled
            ∙ rw (damage_applied_accepts change refl) (
                applied_result_accepts success (hit_fact amount) (a ∷ damage_roll ∷ [])
                  (damage change ∷ []) fits.0 fits.1),
      )

  resolve_attack_roll_total :
      (command : AttackCommand) (target : CharacterState) (a : DiceResult) (d : DiceExpression)
      (s : S)
      → IsModest a.total
      → parse_dice (normalize command.damage_expression) ≡ some d
      → command.damage_bonus ≤ℤ pos 1000
      → (r : AppliedResult) × ((resolve_attack_roll source command target a s).0 ≡ ok r)
  unfolding resolve_attack_roll
  resolve_attack_roll_total command target a d s modest parsed bonus =
      elim (Bool-cases (leb_ℤ target.defense a.total)) [
        | inl reach ↦ rw reach (resolve_hit_total command target a d s parsed bonus)
        | inr miss ↦
            let fits = miss_fact_fits a.total modest in
            let missed : AppliedResult = record {
              outcome = failure;
              facts = miss_fact a.total ∷ [];
              dice = a ∷ [];
              state_changes = [];
            } in
            (
              missed,
              rw miss
                  (applied_result_accepts failure (miss_fact a.total) (a ∷ []) [] fits.0 fits.1),
            )
      ]

  -- An attack returns a result when its command names the actor and the target, both have hit
  -- points left, the attack bonus is at most 100 either way, the damage expression parses and the
  -- damage bonus is at most 1000.
  pub resolve_attack_total :
      (command : AttackCommand) (actor target : CharacterState) (d : DiceExpression) (s : S)
      → IsReady command actor target
      → parse_dice (normalize command.damage_expression) ≡ some d
      → command.damage_bonus ≤ℤ pos 1000
      → (r : AppliedResult) × ((resolve_attack source command actor target s).0 ≡ ok r)
  unfolding resolve_attack
  resolve_attack_total command actor target d s ready parsed bonus =
      let m = command.attack_bonus in
      let (a, rolled, spec) =
        roll_lem source (d20 m) (d20_expression m) s
          (parse_dice-d20 m ready.bonus_bounds.0 ready.bonus_bounds.1) in
      let modest =
        total_modest (normalize (d20 m)) (d20_expression m) a
          (record {
            count_bounds = omega arith;
            sides_bounds = omega arith;
            modifier_bounds = ready.bonus_bounds;
          })
          spec in
      let (r, e) =
        resolve_attack_roll_total command target a d (roll source (d20 m) s).1
          (omega (arith, pos_part-le a.total 2100 modest.1, neg_part-le a.total 99 modest.0)) parsed
          bonus in
      (
        r,
        checks-bind-ok (attack_guards command actor target) _ s r
            (attack_guards-AllFalse command actor target ready)
            (bind-ok (roll source (d20 m)) _ s a rolled ∙ e),
      )
