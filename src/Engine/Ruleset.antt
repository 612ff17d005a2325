-- ===== src/Engine/Ruleset.antt =====
-- engine/ruleset.py: `MvpV1Ruleset`, with its dice engine as a random source.
pub mod Open
pub mod Attack
pub mod Facts
pub mod AttackTotal
pub mod Items
pub mod Skills
use ai_rpg.Prelude.{
  ℕ, ◌+◌, ◌-◌, min, String, Bool, true, false, not, ◌||◌, some, List, [], ◌∷◌, ◌++◌, Result, ok,
  err, value_error, raise_if, checks, Error, nat_eq, ltb, if◌then◌else◌, contains, ◌==◌, id_eq,
  ref_eq, option_eq,
}
use ai_rpg.Prelude.Int.{ℤ, pos, pos_part, ◌+ℤ◌, ◌-ℤ◌, leb_ℤ}
use ai_rpg.Text.{Text, codes, decimal, signed, int_text}
use ai_rpg.Domain.Results.{
  DiceResult, DamageApplied, damage_applied, HealingApplied, healing_applied, ItemConsumed,
  item_consumed, damage, healing, consumed, Outcome, success, failure, neutral, AppliedResult,
  applied_result,
}
use ai_rpg.Domain.Character.{CharacterState}
use ai_rpg.Domain.Commands.{AttackCommand, SkillCheckCommand, UseItemCommand}
use ai_rpg.Engine.Random.{RandomSource, Draw, lift, ◌>>=◌, ◌>>◌}
use ai_rpg.Engine.Dice.{roll}

-- `_skills`
abbrev pub skills : List String
skills = "athletics" ∷ "acrobatics" ∷ "perception" ∷ "stealth" ∷ "persuasion" ∷ []

-- `_difficulty_classes`
unfoldable pub difficulty_class : String → Result ℕ
difficulty_class difficulty =
    if difficulty == "easy"
    then ok 8
    else if difficulty == "normal"
    then ok 12
    else if difficulty == "hard"
    then ok 16
    else err (value_error "rulesetに存在しない難易度です")

-- The English word that an f-string prints for an outcome.
abbrev pub outcome_text : Outcome → Text
outcome_text success = codes "success"
outcome_text failure = codes "failure"
outcome_text neutral = codes "neutral"

-- `f"1d20{modifier}"`, with the sign of the modifier always written.
abbrev pub d20 : ℤ → Text
d20 modifier = codes "1d20" ++ signed modifier

-- The facts that the results carry.
unfoldable pub check_fact : Outcome → ℤ → Text
check_fact outcome total =
    codes "技能判定は" ++ (outcome_text outcome ++ (codes "(合計" ++ (int_text total ++ codes ")")))

unfoldable pub miss_fact : ℤ → Text
miss_fact total = codes "攻撃は失敗(合計" ++ (int_text total ++ codes ")")

unfoldable pub hit_fact : ℕ → Text
hit_fact amount = codes "攻撃が命中し" ++ (decimal amount ++ codes "ダメージを与えた")

unfoldable pub heal_fact : ℕ → ℕ → Text
heal_fact before after =
    codes "回復ポーションでHPが"
    ++ (int_text (pos after -ℤ pos before)
        ++ (codes "回復した（" ++ (decimal before ++ (codes "→" ++ (decimal after ++ codes "）")))))

unfoldable pub skill_guards : SkillCheckCommand → CharacterState → List (Bool × Error)
skill_guards command actor =
    (nat_eq actor.current_hp 0, value_error "行動不能なactorです")
    ∷ (not (contains command.skill_ref skills), value_error "rulesetに存在しない技能です")
    ∷ []

unfoldable pub attack_guards : AttackCommand → CharacterState → CharacterState → List (Bool × Error)
attack_guards command actor target =
    (
      not (command.actor_id == actor.id) || not (command.target_id == target.id),
      value_error "CommandとCharacterが一致しません",
    )
    ∷ (nat_eq actor.current_hp 0, value_error "行動不能なactorです")
    ∷ (nat_eq target.current_hp 0, value_error "攻撃対象は行動不能です")
    ∷ []

unfoldable pub item_guards :
    UseItemCommand → CharacterState → CharacterState → ℤ → List (Bool × Error)
item_guards command actor target quantity =
    (
      not (command.actor_id == actor.id) || not (command.target_id == some target.id),
      value_error "CommandとCharacterが一致しません",
    )
    ∷ (nat_eq actor.current_hp 0, value_error "行動不能なactorです")
    ∷ (not (command.effect_ref == "healing_potion"), value_error "rulesetに存在しないitem効果です")
    ∷ (not (target.id == actor.id), value_error "healing_potionの対象は使用者だけです")
    ∷ (not (leb_ℤ (pos 1) quantity), value_error "使用可能な在庫がありません")
    ∷ []

module _ {S : Type 0} (source : RandomSource S) where
  unfoldable pub resolve_skill_check : SkillCheckCommand → CharacterState → Draw S AppliedResult
  resolve_skill_check command actor = do
    lift (checks (skill_guards command actor))
    r ← roll source (d20 command.modifier)
    let outcome = if leb_ℤ (pos command.difficulty_class) r.total then success else failure
    lift (applied_result outcome (check_fact outcome r.total ∷ []) (r ∷ []) [])

  -- What follows an attack roll that reaches the target's defense.
  unfoldable pub resolve_hit : AttackCommand → CharacterState → DiceResult → Draw S AppliedResult
  resolve_hit command target attack_roll = do
    damage_roll ← roll source command.damage_expression
    let amount = pos_part (damage_roll.total +ℤ command.damage_bonus)
    let hp_after = target.current_hp - amount
    change ← lift (
        damage_applied (record {
          target_id = target.id;
          amount = amount;
          hp_before = target.current_hp;
          hp_after = hp_after;
        }))
    lift (
        applied_result success (hit_fact amount ∷ []) (attack_roll ∷ damage_roll ∷ [])
          (damage change ∷ []))

  unfoldable pub resolve_attack_roll :
      AttackCommand → CharacterState → DiceResult → Draw S AppliedResult
  resolve_attack_roll command target attack_roll =
      if not (leb_ℤ target.defense attack_roll.total)
      then lift (applied_result failure (miss_fact attack_roll.total ∷ []) (attack_roll ∷ []) [])
      else resolve_hit command target attack_roll

  unfoldable pub resolve_attack :
      AttackCommand → CharacterState → CharacterState → Draw S AppliedResult
  resolve_attack command actor target = do
    lift (checks (attack_guards command actor target))
    attack_roll ← roll source (d20 command.attack_bonus)
    resolve_attack_roll command target attack_roll

  -- The healing roll's effect on the target, and the item that it took.
  pub resolve_healing :
      UseItemCommand → CharacterState → CharacterState → ℕ → DiceResult → Draw S AppliedResult
  resolve_healing command actor target quantity healing_roll = do
    lift (raise_if (not (leb_ℤ (pos 0) healing_roll.total)) (value_error "HealingApplied.amount"))
    let amount = pos_part healing_roll.total
    let hp_after = min target.max_hp (target.current_hp + amount)
    healed ← lift (
        healing_applied (record {
          target_id = target.id;
          amount = amount;
          hp_before = target.current_hp;
          hp_after = hp_after;
          max_hp = target.max_hp;
        }))
    used ← lift (
        item_consumed (record {
          owner_id = actor.id;
          item_id = command.item_id;
          quantity_before = quantity;
          quantity_after = quantity - 1;
        }))
    lift (
        applied_result success (heal_fact target.current_hp hp_after ∷ []) (healing_roll ∷ [])
          (healing healed ∷ consumed used ∷ []))

  unfoldable pub resolve_use_item :
      UseItemCommand → CharacterState → CharacterState → ℤ → Draw S AppliedResult
  resolve_use_item command actor target quantity = do
    lift (checks (item_guards command actor target quantity))
    healing_roll ← roll source (codes "1d6+2")
    resolve_healing command actor target (pos_part quantity) healing_roll
