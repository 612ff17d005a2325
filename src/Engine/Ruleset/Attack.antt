-- ===== src/Engine/Ruleset/Attack.antt =====
-- What an attack does: the result that it may return, and that it returns one.
use ai_rpg.Prelude.{
  ℕ, ◌-◌, ◌≤◌, ◌≡◌, refl, List, [], ◌∷◌, some, ok, arith, Bool-cases, inl, inr, le→leb, leb→le,
}
use ai_rpg.Prelude.Int.{ℤ, pos, negsuc, pos_part, ◌+ℤ◌, ◌≤ℤ◌, leb_ℤ}
use ai_rpg.Text.{decimal}
use ai_rpg.Domain.Results.{
  DiceResult, DamageApplied, damage_applied, damage, StateChange, Outcome, success, failure,
  AppliedResult,
}
use ai_rpg.Domain.Character.{CharacterState}
use ai_rpg.Domain.Commands.{AttackCommand}
use ai_rpg.Engine.Random.{RandomSource, lift, bind-eq-ok, checks-bind-eq-ok}
use ai_rpg.Prelude.{AllFalse}
use ai_rpg.Domain.Accepted.{applied_result-eq-ok, damage_applied-eq-ok}
use ai_rpg.Engine.Dice.{DiceExpression, parse_dice, normalize, roll}
use ai_rpg.Engine.Dice.Notation.{show_dice, parse_dice-show_dice, normalize-show_dice}
use ai_rpg.Engine.Dice.Rolls.{RolledFrom, roll-RolledFrom}
use ai_rpg.Engine.Ruleset.{attack_guards, d20, resolve_hit, resolve_attack_roll, resolve_attack}

-- The damage that a roll and a bonus make, never below 0.
abbrev pub damage_of : AttackCommand → DiceResult → ℕ
damage_of command r = pos_part (r.total +ℤ command.damage_bonus)

-- What an attack's result says: it fails below the target's defense and changes nothing; otherwise
-- it takes the rolled damage off the target's hit points, down to 0.
abbrev pub IsHit : AttackCommand → CharacterState → DiceResult → DiceResult → DamageApplied → Type 0
IsHit command target attack_roll damage_roll d =
    (target.defense ≤ℤ attack_roll.total)
    × RolledFrom (d20 command.attack_bonus) attack_roll
    × RolledFrom command.damage_expression damage_roll
    × (d.target_id ≡ target.id)
    × (d.amount ≡ damage_of command damage_roll)
    × (d.hp_before ≡ target.current_hp)
    × (d.hp_after ≡ target.current_hp - d.amount)

abbrev pub IsAttackParts :
    AttackCommand → CharacterState → Outcome → List DiceResult → List StateChange → Type 0
IsAttackParts command target failure (attack_roll ∷ []) [] =
    (¬ (target.defense ≤ℤ attack_roll.total)) × RolledFrom (d20 command.attack_bonus) attack_roll
IsAttackParts command target success (attack_roll ∷ damage_roll ∷ []) (damage d ∷ []) =
    IsHit command target attack_roll damage_roll d
IsAttackParts command target _ _ _ = ⊥

abbrev pub IsAttackOutcome : AttackCommand → CharacterState → AppliedResult → Type 0
IsAttackOutcome command target r = IsAttackParts command target r.outcome r.dice r.state_changes

-- The expression `1d20+3` is what `show_dice` writes, so it parses.
abbrev pub d20_expression : ℤ → DiceExpression
d20_expression m = record { count = 1; sides = 20; modifier = m }

d20-eq-show_dice : (m : ℤ) → d20 m ≡ show_dice (d20_expression m)
unfolding decimal
d20-eq-show_dice m = refl

pub parse_dice-d20 :
    (m : ℤ)
    → negsuc 99 ≤ℤ m
    → m ≤ℤ pos 100
    → parse_dice (normalize (d20 m)) ≡ some (d20_expression m)
parse_dice-d20 m lo hi = rw (d20-eq-show_dice m) (
    rw (normalize-show_dice (d20_expression m)) (
      parse_dice-show_dice (d20_expression m) (record {
        count_bounds = omega arith;
        sides_bounds = omega arith;
        modifier_bounds = (lo, hi);
      })))

-- What an attack needs in order to be resolved without an error.
pub record IsReady (command : AttackCommand) (actor target : CharacterState) : Type 0 where
  pub same_actor : command.actor_id ≡ actor.id
  pub same_target : command.target_id ≡ target.id
  pub actor_up : 1 ≤ actor.current_hp
  pub target_up : 1 ≤ target.current_hp
  pub bonus_bounds : (negsuc 99 ≤ℤ command.attack_bonus) × (command.attack_bonus ≤ℤ pos 100)

attack_guards_lem :
    (command : AttackCommand) (actor target : CharacterState)
    → AllFalse (attack_guards command actor target)
    → (command.actor_id ≡ actor.id)
      × (command.target_id ≡ target.id)
      × (1 ≤ actor.current_hp)
      × (1 ≤ target.current_hp)
unfolding attack_guards
attack_guards_lem command actor target h = ground arith

pub attack_guards-AllFalse :
    (command : AttackCommand) (actor target : CharacterState)
    → IsReady command actor target
    → AllFalse (attack_guards command actor target)
unfolding attack_guards
attack_guards-AllFalse command actor target h = ground arith

module _ {S : Type 0} (source : RandomSource S) where
  resolve_hit-IsAttackOutcome :
      (command : AttackCommand) (target : CharacterState) (a : DiceResult) (s : S)
      (r : AppliedResult)
      → RolledFrom (d20 command.attack_bonus) a
      → target.defense ≤ℤ a.total
      → (resolve_hit source command target a s).0 ≡ ok r
      → IsAttackOutcome command target r
  unfolding resolve_hit
  resolve_hit-IsAttackOutcome command target a s r rolled reach h =
      let (roll_result, e, h₁) = bind-eq-ok (roll source command.damage_expression) _ s r h in
      let (d, f, h₂) = bind-eq-ok (lift (damage_applied _)) _ _ r h₁ in
      let same = damage_applied-eq-ok _ d f in
      let (o, dice, changes) = applied_result-eq-ok success _ _ _ r h₂ in
      rw (o, dice, changes, same.0)
        (
          reach,
          rolled,
          roll-RolledFrom source command.damage_expression s roll_result e,
          refl,
          refl,
          refl,
          refl,
        )

  resolve_attack_roll-IsAttackOutcome :
      (command : AttackCommand) (target : CharacterState) (a : DiceResult) (s : S)
      (r : AppliedResult)
      → RolledFrom (d20 command.attack_bonus) a
      → (resolve_attack_roll source command target a s).0 ≡ ok r
      → IsAttackOutcome command target r
  unfolding resolve_attack_roll
  resolve_attack_roll-IsAttackOutcome command target a s r rolled h =
      elim (Bool-cases (leb_ℤ target.defense a.total)) [
        | inl reach ↦
            resolve_hit-IsAttackOutcome command target a s r rolled (leb→le _ _ reach)
              (rw reach at h)
        | inr miss ↦
            let (o, dice, changes) = applied_result-eq-ok failure _ _ _ r (rw miss at h) in
            rw (o, dice, changes) ((λ p. cc (le→leb _ _ p)), rolled)
      ]

  -- If an attack returns a result, then the command names the actor and the target, both have hit
  -- points left, and the result is that of a miss or a hit.
  pub resolve_attack-IsAttackOutcome :
      (command : AttackCommand) (actor target : CharacterState) (s : S) (r : AppliedResult)
      → (resolve_attack source command actor target s).0 ≡ ok r
      → (command.actor_id ≡ actor.id)
        × (command.target_id ≡ target.id)
        × (1 ≤ actor.current_hp)
        × (1 ≤ target.current_hp)
        × IsAttackOutcome command target r
  unfolding resolve_attack
  resolve_attack-IsAttackOutcome command actor target s r h =
      let (guards, h₁) = checks-bind-eq-ok (attack_guards command actor target) _ s r h in
      let (a, e, h₂) = bind-eq-ok (roll source (d20 command.attack_bonus)) _ s r h₁ in
      let ready = attack_guards_lem command actor target guards in
      (
        ready.0,
        ready.1,
        ready.2,
        ready.3,
        resolve_attack_roll-IsAttackOutcome command target a _ r
            (roll-RolledFrom source (d20 command.attack_bonus) s a e) h₂,
      )
