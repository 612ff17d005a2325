-- ===== src/Application/Resolution/Reactions.antt =====
-- application/resolution.py: `_validate_reaction_die` and `_validate_enemy_reactions`.
pub mod Accepts
use ai_rpg.Prelude.{
  ℕ, zero, suc, ◌+◌, ◌-◌, Bool, true, false, ◌&&◌, ◌||◌, not, Option, none, some, List, [], ◌∷◌,
  Result, ok, err, ◌>>◌, ◌>>=◌, raise_if, checks, invalid_bundle, Error, nat_eq, leb, length, any,
  all, map, contains, ◌==◌, id_eq, list_eq, option_eq, if◌then◌else◌,
}
use ai_rpg.Prelude.Int.{ℤ, pos, pos_part, ◌+ℤ◌, int_eq}
use ai_rpg.Text.{Text}
use ai_rpg.Domain.Results.{
  Uuid, DiceResult, StateChange, damage, healing, consumed, Outcome, success, failure, neutral,
  ActionResult, applied, not_applicable,
}
use ai_rpg.Domain.Commands.{AttackCommand, Command, command_base}
use ai_rpg.Domain.Events.{EnemyReaction, RngMetadata}
use ai_rpg.Engine.Dice.{DiceExpression, parse_dice, normalize, sum}
use ai_rpg.Engine.Ruleset.{d20}
use ai_rpg.Application.Ports.{ActionRecord, CommitBundle}

pub record TurnCommitContext : Type 0 where
  pub scene_id : Uuid
  pub actor_id : Uuid
  pub max_actions : ℕ
  pub enemy_id : Option Uuid

-- Whether a roll is not one that the parsed expression can lead to.
abbrev pub misrolled : DiceResult → Text → DiceExpression → Bool
misrolled roll normalized d =
    not (roll.expression == normalized)
    || not (nat_eq (length roll.rolls) d.count)
    || not (all (λ value. leb 1 value && leb value d.sides) roll.rolls)
    || not (roll.modifier == d.modifier)
    || not (roll.total == pos (sum roll.rolls) +ℤ d.modifier)

abbrev pub check_die : DiceResult → Text → Option DiceExpression → Result (Unit {0})
check_die roll normalized none =
    err (invalid_bundle "Enemy reaction has an unsupported dice expression")
check_die roll normalized (some d) =
    raise_if (misrolled roll normalized d)
      (invalid_bundle "Enemy reaction dice do not match the command")

unfoldable pub validate_reaction_die : DiceResult → Text → Result (Unit {0})
validate_reaction_die roll expression =
    let normalized = normalize expression in check_die roll normalized (parse_dice normalized)

abbrev pub is_applied : ActionResult → Bool
is_applied (applied r) = true
is_applied (not_applicable reason) = false

-- The dice of an action that was applied.
abbrev pub dice_count : ActionResult → ℕ
dice_count (applied r) = length r.dice
dice_count (not_applicable reason) = 0

abbrev pub first_draw : List ActionRecord → ℕ
first_draw [] = 0
first_draw (a ∷ rest) = dice_count a.result + first_draw rest

-- `list(range(start, start + count))`
abbrev pub range_from : ℕ → ℕ → List ℕ
range_from start zero = []
range_from start (suc count) = start ∷ range_from (start + 1) count

abbrev pub action_ids : List ActionRecord → List Uuid
action_ids = map (λ a. (command_base a.command).action_id)

unfoldable pub wrong_identity : CommitBundle → TurnCommitContext → AttackCommand → Bool
wrong_identity bundle turn command =
    not (turn.enemy_id == some command.actor_id)
    || command.actor_id == turn.actor_id
    || not (command.target_id == turn.actor_id)
    || not (command.campaign_id == bundle.campaign_id)
    || not (command.turn_id == bundle.turn_id)
    || not (nat_eq command.ordinal 1)
    || contains command.action_id (action_ids bundle.actions)

unfoldable pub wrong_draws : CommitBundle → EnemyReaction → Bool
wrong_draws bundle reaction =
    not (nat_eq (length reaction.rng) (length reaction.result.dice))
    || not (
        map (λ r. r.draw_index) reaction.rng
        == range_from (first_draw bundle.actions) (length reaction.result.dice))

pub validate_damage :
    AttackCommand → TurnCommitContext → DiceResult → StateChange → Result (Unit {0})
validate_damage command turn roll (damage d) =
    raise_if
      (not (d.target_id == turn.actor_id)
        || not (nat_eq d.amount (pos_part (roll.total +ℤ command.damage_bonus)))
        || not (nat_eq d.hp_after (d.hp_before - d.amount)))
      (invalid_bundle "Enemy reaction damage does not match the command")
validate_damage command turn roll _ =
    err (invalid_bundle "Enemy reaction damage does not match the command")

-- A success has two dice and one change, a failure one die and none.
pub validate_outcome :
    AttackCommand
    → TurnCommitContext
    → Outcome
    → List DiceResult
    → List StateChange
    → Result (Unit {0})
unfolding validate_damage
validate_outcome command turn neutral dice changes =
    err (invalid_bundle "Enemy reaction must succeed or fail")
validate_outcome command turn success (a ∷ d ∷ []) (change ∷ []) = do
  validate_reaction_die a (d20 command.attack_bonus)
  validate_reaction_die d command.damage_expression
  validate_damage command turn d change
validate_outcome command turn failure (a ∷ []) [] =
    validate_reaction_die a (d20 command.attack_bonus)
validate_outcome command turn _ _ _ =
    err (invalid_bundle "Enemy reaction outcome, dice and damage do not match")

unfoldable pub reaction_guards :
    CommitBundle → TurnCommitContext → EnemyReaction → List (Bool × Error)
unfolding wrong_identity wrong_draws
reaction_guards bundle turn reaction =
    (
      not (any (λ a. is_applied a.result) bundle.actions),
      invalid_bundle "Enemy reaction requires an applied player action",
    )
    ∷ (
      wrong_identity bundle turn reaction.command,
      invalid_bundle "Enemy reaction identity or parents do not match the Turn",
    )
    ∷ (
      wrong_draws bundle reaction,
      invalid_bundle "Enemy reaction RNG metadata must follow player dice",
    )
    ∷ []

unfoldable pub validate_enemy_reactions :
    CommitBundle → TurnCommitContext → List EnemyReaction → Result (Unit {0})
unfolding validate_outcome
validate_enemy_reactions bundle turn [] = ok tt
validate_enemy_reactions bundle turn (reaction ∷ []) = do
  checks (reaction_guards bundle turn reaction)
  validate_outcome reaction.command turn reaction.result.outcome reaction.result.dice
      reaction.result.state_changes
validate_enemy_reactions bundle turn (first ∷ second ∷ rest) =
    err (invalid_bundle "At most one enemy reaction is allowed")
