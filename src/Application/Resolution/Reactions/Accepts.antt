-- ===== src/Application/Resolution/Reactions/Accepts.antt =====
-- What the engine determined passes the checks of a reaction.
use ai_rpg.Prelude.{
  ℕ, ◌-◌, ◌≡◌, refl, sym, ap, ◌∙◌, true, ◌&&◌, List, [], ◌∷◌, ok, arith, length, all, list_eq,
  id_eq, nat_eq_iff, leb,
}
use ai_rpg.Prelude.Int.{pos, ◌+ℤ◌, int_eq, pos_part}
use ai_rpg.Text.{Text}
use ai_rpg.Domain.Results.{DiceResult, StateChange, damage, Outcome, success, failure}
use ai_rpg.Domain.Character.{CharacterState}
use ai_rpg.Domain.Commands.{AttackCommand}
use ai_rpg.Engine.Dice.{normalize, sum}
use ai_rpg.Engine.Dice.Rolls.{RolledFrom, WithinSides}
use ai_rpg.Engine.Ruleset.{d20}
use ai_rpg.Engine.Ruleset.Attack.{IsAttackParts}
use ai_rpg.Application.Resolution.Reactions.{
  TurnCommitContext, validate_reaction_die, validate_outcome,
}

within_sides :
    (sides : ℕ) (xs : List ℕ)
    → WithinSides sides xs
    → all (λ value. leb 1 value && leb value sides) xs ≡ true
within_sides sides [] h = refl
within_sides sides (x ∷ xs) h = ground (arith, within_sides sides xs h.1)

-- A result that an expression can lead to passes the check of a reaction's die against it.
pub validate_reaction_die-RolledFrom :
    (expression : Text) (r : DiceResult)
    → RolledFrom expression r
    → validate_reaction_die r expression ≡ ok tt
unfolding validate_reaction_die
validate_reaction_die-RolledFrom expression r (d, parsed, spec) = rw (
  parsed,
  (list_eq.beq_iff r.expression (normalize expression)).1 spec.same_text,
  (nat_eq_iff (length r.rolls) d.count).1 spec.counted,
  within_sides d.sides r.rolls spec.within,
  (int_eq.beq_iff r.modifier d.modifier).1 spec.same_modifier,
  (int_eq.beq_iff r.total (pos (sum r.rolls) +ℤ d.modifier)).1 spec.totalled,
)

-- The result of an attack on the turn's actor passes the checks of its outcome, its dice and its
-- damage.
pub validate_outcome-IsAttackParts :
    (command : AttackCommand) (turn : TurnCommitContext) (target : CharacterState) (o : Outcome)
    (dice : List DiceResult) (changes : List StateChange)
    → target.id ≡ turn.actor_id
    → IsAttackParts command target o dice changes
    → validate_outcome command turn o dice changes ≡ ok tt
unfolding validate_outcome
validate_outcome-IsAttackParts command turn target failure (a ∷ []) [] same (miss, rolled) =
    validate_reaction_die-RolledFrom (d20 command.attack_bonus) a rolled
validate_outcome-IsAttackParts command turn target success (a ∷ b ∷ []) (damage d ∷ []) same h =
    rw (
      validate_reaction_die-RolledFrom (d20 command.attack_bonus) a h.1,
      validate_reaction_die-RolledFrom command.damage_expression b h.2,
      (nat_eq_iff d.target_id turn.actor_id).1 (h.3 ∙ same),
      (nat_eq_iff d.amount (pos_part (b.total +ℤ command.damage_bonus))).1 h.4,
      (nat_eq_iff d.hp_after (d.hp_before - d.amount)).1 (h.6 ∙ ap (λ x. x - d.amount) (sym h.5)),
    )
validate_outcome-IsAttackParts command turn target _ _ _ same h = elim h [ ]
