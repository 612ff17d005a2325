-- ===== src/Domain/Results.antt =====
-- domain/results.py: what the engine determined, with the checks that each contract makes when a
-- value of it is built. UUIDs are numbers.
use ai_rpg.Prelude.{
  ℕ, ◌+◌, ◌-◌, min, Bool, ◌&&◌, not, List, Result, ok, value_error, ◌>>◌, raise_if, leb, ltb,
  length, all, nat_eq,
}
use ai_rpg.Prelude.Int.{ℤ}
use ai_rpg.Text.{Text}

abbrev pub Uuid : Type 0
Uuid = ℕ

pub record DiceResult : Type 0 where
  pub expression : Text
  pub rolls : List ℕ
  pub modifier : ℤ
  pub total : ℤ

-- The bounds of the fields: `ShortText`, `list[PositiveInt]` of 1 to 100 entries.
abbrev pub dice_result_fields : DiceResult → Bool
dice_result_fields d =
    leb 1 (length d.expression)
    && leb (length d.expression) 500
    && (leb 1 (length d.rolls) && leb (length d.rolls) 100)
    && all (leb 1) d.rolls

unfoldable pub dice_result : Text → List ℕ → ℤ → ℤ → Result DiceResult
dice_result expression rolls modifier total =
    let d : DiceResult = record {
      expression = expression;
      rolls = rolls;
      modifier = modifier;
      total = total;
    } in
    do raise_if (not (dice_result_fields d)) (value_error "DiceResult"); ok d

pub record DamageApplied : Type 0 where
  pub target_id : Uuid
  pub amount : ℕ
  pub hp_before : ℕ
  pub hp_after : ℕ

-- `max(0, hp_before - amount)` is the truncated difference.
abbrev pub damage_transition : DamageApplied → Bool
damage_transition d = nat_eq d.hp_after (d.hp_before - d.amount)

unfoldable pub damage_applied : DamageApplied → Result DamageApplied
damage_applied d = do raise_if (not (damage_transition d)) (value_error "damageとHP遷移が一致しません"); ok d

pub record HealingApplied : Type 0 where
  pub target_id : Uuid
  pub amount : ℕ
  pub hp_before : ℕ
  pub hp_after : ℕ
  pub max_hp : ℕ

unfoldable pub healing_applied : HealingApplied → Result HealingApplied
healing_applied h = do
  raise_if (nat_eq h.max_hp 0) (value_error "HealingApplied.max_hp")
  raise_if (ltb h.max_hp h.hp_before) (value_error "回復前HPがmax_hpを超えています")
  raise_if (not (nat_eq h.hp_after (min h.max_hp (h.hp_before + h.amount))))
      (value_error "healingとHP遷移が一致しません")
  ok h

pub record ItemConsumed : Type 0 where
  pub owner_id : Uuid
  pub item_id : Uuid
  pub quantity_before : ℕ
  pub quantity_after : ℕ

unfoldable pub item_consumed : ItemConsumed → Result ItemConsumed
item_consumed c = do
  raise_if (nat_eq c.quantity_before 0) (value_error "ItemConsumed.quantity_before")
  raise_if (not (nat_eq c.quantity_after (c.quantity_before - 1))) (value_error "MVPの消耗品は1個だけ消費します")
  ok c

pub data StateChange : Type 0 where
  damage : DamageApplied → StateChange
  healing : HealingApplied → StateChange
  consumed : ItemConsumed → StateChange

pub data Outcome : Type 0 where
  success failure neutral : Outcome

pub record AppliedResult : Type 0 where
  pub outcome : Outcome
  pub facts : List Text
  pub dice : List DiceResult
  pub state_changes : List StateChange

-- Each fact is a `ShortText`.
abbrev pub is_short : Text → Bool
is_short t = leb 1 (length t) && leb (length t) 500

unfoldable pub applied_result :
    Outcome → List Text → List DiceResult → List StateChange → Result AppliedResult
applied_result outcome facts dice state_changes = do
  raise_if (not (all is_short facts)) (value_error "AppliedResult.facts")
  ok (record { outcome = outcome; facts = facts; dice = dice; state_changes = state_changes })

pub data NotApplicableReason : Type 0 where
  target_unavailable resource_unavailable rule_precondition : NotApplicableReason

pub data ActionResult : Type 0 where
  applied : AppliedResult → ActionResult
  not_applicable : NotApplicableReason → ActionResult

pub record ResolvedAction : Type 0 where
  pub action_id : Uuid
  pub ordinal : ℕ
  pub result : ActionResult

pub record ResolvedEnemyReaction : Type 0 where
  pub reaction_id : Uuid
  pub actor_id : Uuid
  pub target_id : Uuid
  pub result : AppliedResult
