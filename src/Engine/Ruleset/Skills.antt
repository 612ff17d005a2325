-- ===== src/Engine/Ruleset/Skills.antt =====
-- What a skill check returns.
use ai_rpg.Prelude.{
  ◌≤◌, ◌≡◌, refl, ◌∙◌, true, ◌↔◌, [], ◌∷◌, ok, arith, contains, ref_eq, if◌then◌else◌, AllFalse,
}
use ai_rpg.Prelude.Int.{ℤ, pos, negsuc, pos_part-le, neg_part-le, ◌≤ℤ◌, leb_ℤ}
use ai_rpg.Domain.Results.{DiceResult, Outcome, success, failure, AppliedResult}
use ai_rpg.Domain.Accepted.{applied_result_accepts}
use ai_rpg.Domain.Character.{CharacterState}
use ai_rpg.Domain.Commands.{SkillCheckCommand}
use ai_rpg.Engine.Random.{RandomSource, bind-ok, checks-bind-ok}
use ai_rpg.Engine.Dice.{normalize, roll}
use ai_rpg.Engine.Dice.Rolls.{IsRollOf, roll_lem}
use ai_rpg.Engine.Ruleset.{skills, skill_guards, d20, check_fact, resolve_skill_check}
use ai_rpg.Engine.Ruleset.Attack.{d20_expression, parse_dice-d20}
use ai_rpg.Engine.Ruleset.Facts.{check_fact_fits, total_modest}

abbrev pub outcome_of : SkillCheckCommand → ℤ → Outcome
outcome_of command total = if leb_ℤ (pos command.difficulty_class) total then success else failure

-- A check succeeds exactly when its total reaches the difficulty class.
pub record IsCheckOutcome (command : SkillCheckCommand) (r : AppliedResult) (d : DiceResult)
    : Type 0 where
  pub one_die : r.dice ≡ d ∷ []
  pub unchanged : r.state_changes ≡ []
  pub decided : (r.outcome ≡ success) ↔ (pos command.difficulty_class ≤ℤ d.total)
  pub otherwise : (r.outcome ≡ failure) ↔ (¬ (pos command.difficulty_class ≤ℤ d.total))

skill_guards-AllFalse :
    (command : SkillCheckCommand) (actor : CharacterState)
    → 1 ≤ actor.current_hp
    → contains command.skill_ref skills ≡ true
    → AllFalse (skill_guards command actor)
unfolding skill_guards
skill_guards-AllFalse command actor up known = (ground arith, (rw known refl, tt))

outcome_of-success :
    (command : SkillCheckCommand) (total : ℤ)
    → (outcome_of command total ≡ success) ↔ (pos command.difficulty_class ≤ℤ total)
outcome_of-success command total = (λ h. ground arith, λ h. ground arith)

outcome_of-failure :
    (command : SkillCheckCommand) (total : ℤ)
    → (outcome_of command total ≡ failure) ↔ (¬ (pos command.difficulty_class ≤ℤ total))
outcome_of-failure command total = (λ h. ground arith, λ h. ground arith)

module _ {S : Type 0} (source : RandomSource S) where
  -- A check of a known skill, by an actor with hit points left and with a modifier of at most 100
  -- either way, returns one roll of a twenty-sided die and that modifier, changes nothing, succeeds
  -- exactly when the total reaches the difficulty class and fails exactly when it does not.
  pub resolve_skill_check_lem :
      (command : SkillCheckCommand) (actor : CharacterState) (s : S)
      → 1 ≤ actor.current_hp
      → contains command.skill_ref skills ≡ true
      → negsuc 99 ≤ℤ command.modifier
      → command.modifier ≤ℤ pos 100
      → (r : AppliedResult) × (d : DiceResult) × ((resolve_skill_check source command actor s).0
          ≡ ok r)
        × IsRollOf (normalize (d20 command.modifier)) (d20_expression command.modifier) d
        × IsCheckOutcome command r d
  unfolding resolve_skill_check
  resolve_skill_check_lem command actor s up known lo hi =
      let m = command.modifier in
      let (d, rolled, spec) =
        roll_lem source (d20 m) (d20_expression m) s (parse_dice-d20 m lo hi) in
      let modest =
        total_modest (normalize (d20 m)) (d20_expression m) d
          (record {
            count_bounds = omega arith;
            sides_bounds = omega arith;
            modifier_bounds = (lo, hi);
          })
          spec in
      let outcome = outcome_of command d.total in
      let fits =
        check_fact_fits outcome d.total
          (omega (arith, pos_part-le d.total 2100 modest.1, neg_part-le d.total 99 modest.0)) in
      let r : AppliedResult = record {
        outcome = outcome;
        facts = check_fact outcome d.total ∷ [];
        dice = d ∷ [];
        state_changes = [];
      } in
      (
        r,
        d,
        checks-bind-ok (skill_guards command actor) _ s r
            (skill_guards-AllFalse command actor up known)
            (bind-ok (roll source (d20 m)) _ s d rolled
              ∙ applied_result_accepts outcome (check_fact outcome d.total) (d ∷ []) [] fits.0
                  fits.1),
        spec,
        record {
          one_die = refl;
          unchanged = refl;
          decided = outcome_of-success command d.total;
          otherwise = outcome_of-failure command d.total;
        },
      )
