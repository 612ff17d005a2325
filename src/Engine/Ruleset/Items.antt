-- ===== src/Engine/Ruleset/Items.antt =====
-- What the healing potion does.
use ai_rpg.Prelude.{
  ℕ, ◌+◌, ◌-◌, ◌≤◌, ◌<◌, ◌≡◌, refl, ◌∙◌, min, true, some, [], ◌∷◌, ok, arith, length-append,
  AllFalse,
}
use ai_rpg.Prelude.Int.{ℤ, pos, pos_part, pos_part-le, neg_part-le, ◌-ℤ◌, ◌≤ℤ◌, leb_ℤ, int_laws}
use ai_rpg.Text.{codes, decimal, int_text, read_number, lower, remove_spaces}
use ai_rpg.Text.Decimal.{length-int_text, length-decimal}
use ai_rpg.Domain.Results.{
  DiceResult, HealingApplied, ItemConsumed, healing, consumed, success, AppliedResult,
}
use ai_rpg.Domain.Accepted.{healing_applied_accepts, item_consumed_accepts, applied_result_accepts}
use ai_rpg.Domain.Character.{CharacterState}
use ai_rpg.Domain.Commands.{UseItemCommand}
use ai_rpg.Engine.Random.{RandomSource, bind-ok, checks-bind-ok}
use ai_rpg.Engine.Dice.{DiceExpression, parse_dice, normalize, roll}
use ai_rpg.Engine.Dice.Rolls.{roll_lem}
use text.Mathlib.TextEquality.{eq_iff}
use ai_rpg.Engine.Ruleset.{item_guards, heal_fact, resolve_healing, resolve_use_item}
use ai_rpg.Engine.Ruleset.Facts.{FitsContract, total_bounds}

abbrev potion : DiceExpression
potion = record { count = 1; sides = 6; modifier = pos 2 }

parse_dice-potion : parse_dice (normalize (codes "1d6+2")) ≡ some potion
unfolding parse_dice normalize read_number lower remove_spaces
parse_dice-potion = refl

-- A potion can be used on oneself, while one is left.
pub record IsUsable (command : UseItemCommand) (actor : CharacterState) (quantity : ℤ)
    : Type 0 where
  pub same_actor : command.actor_id ≡ actor.id
  pub same_target : command.target_id ≡ some actor.id
  pub actor_up : 1 ≤ actor.current_hp
  pub potion_effect : command.effect_ref ≡ "healing_potion"
  pub in_stock : pos 1 ≤ℤ quantity

item_guards-AllFalse :
    (command : UseItemCommand) (actor : CharacterState) (quantity : ℤ)
    → IsUsable command actor quantity
    → AllFalse (item_guards command actor actor quantity)
unfolding item_guards
item_guards-AllFalse command actor quantity h =
    ground (arith, eq_iff command.effect_ref "healing_potion")

heal_fact_fits :
    (before after : ℕ) → before ≤ after → after < 10000 → FitsContract (heal_fact before after)
unfolding heal_fact
heal_fact_fits before after le small =
    let gained = pos after -ℤ pos before in
    let shown =
      length-int_text gained (omega (arith, pos_part-le gained 9999 (omega int_laws)))
        (omega (arith, neg_part-le gained 0 (omega int_laws))) in
    rw
      (
        length-append (int_text gained) _,
        length-append (decimal before) _,
        length-append (decimal after) (codes "）"),
      )
      (omega (arith, shown, length-decimal before, length-decimal after))

-- The two changes that a used potion makes.
abbrev pub healed : CharacterState → ℕ → HealingApplied
healed actor amount = record {
  target_id = actor.id;
  amount = amount;
  hp_before = actor.current_hp;
  hp_after = min actor.max_hp (actor.current_hp + amount);
  max_hp = actor.max_hp;
}

abbrev pub taken : UseItemCommand → CharacterState → ℤ → ItemConsumed
taken command actor quantity = record {
  owner_id = actor.id;
  item_id = command.item_id;
  quantity_before = pos_part quantity;
  quantity_after = pos_part quantity - 1;
}

abbrev healing_result : UseItemCommand → CharacterState → ℤ → DiceResult → AppliedResult
healing_result command actor quantity d =
    let change = healed actor (pos_part d.total) in
    record {
      outcome = success;
      facts = heal_fact actor.current_hp change.hp_after ∷ [];
      dice = d ∷ [];
      state_changes = healing change ∷ consumed (taken command actor quantity) ∷ [];
    }

not_negative : (m : ℤ) → pos 0 ≤ℤ m → leb_ℤ (pos 0) m ≡ true
not_negative m h = ground arith

module _ {S : Type 0} (source : RandomSource S) where
  resolve_healing_lem :
      (command : UseItemCommand) (actor : CharacterState) (quantity : ℤ) (d : DiceResult) (s : S)
      → IsUsable command actor quantity
      → actor.current_hp ≤ actor.max_hp
      → actor.max_hp < 10000
      → pos 0 ≤ℤ d.total
      → (resolve_healing source command actor actor (pos_part quantity) d s).0
        ≡ ok (healing_result command actor quantity d)
  unfolding resolve_healing
  resolve_healing_lem command actor quantity d s usable within small total =
      let change = healed actor (pos_part d.total) in
      let used = taken command actor quantity in
      let stock : 1 ≤ pos_part quantity = omega (arith, usable.in_stock) in
      let fits = heal_fact_fits actor.current_hp change.hp_after (omega arith) (omega arith) in
      rw
        (
          not_negative d.total total,
          healing_applied_accepts change (omega arith) within refl,
          item_consumed_accepts used stock refl,
        )
        (applied_result_accepts success (heal_fact actor.current_hp change.hp_after) (d ∷ [])
          (healing change ∷ consumed used ∷ []) fits.0 fits.1)

  -- A character with hit points left, at most 9999 of them and no more than its maximum, that has a
  -- healing potion and uses it on itself gets back a success whose two changes heal it by 3 to 8
  -- points, up to its maximum, and take one potion from the stock.
  pub resolve_use_item_lem :
      (command : UseItemCommand) (actor : CharacterState) (quantity : ℤ) (s : S)
      → IsUsable command actor quantity
      → actor.current_hp ≤ actor.max_hp
      → actor.max_hp < 10000
      → (r : AppliedResult) × (amount : ℕ) × ((resolve_use_item source command actor actor quantity
            s).0
          ≡ ok r)
        × (r.outcome ≡ success)
        × (r.state_changes
            ≡ healing (healed actor amount) ∷ consumed (taken command actor quantity) ∷ [])
        × (3 ≤ amount)
        × (amount ≤ 8)
  unfolding resolve_use_item
  resolve_use_item_lem command actor quantity s usable within small =
      let (d, rolled, spec) = roll_lem source (codes "1d6+2") potion s parse_dice-potion in
      let (lo, hi) = total_bounds (normalize (codes "1d6+2")) potion d spec in
      let least : pos 3 ≤ℤ d.total = omega (int_laws, lo) in
      let most : d.total ≤ℤ pos 8 = omega (int_laws, hi) in
      let r = healing_result command actor quantity d in
      (
        r,
        pos_part d.total,
        checks-bind-ok (item_guards command actor actor quantity) _ s r
            (item_guards-AllFalse command actor quantity usable)
            (bind-ok (roll source (codes "1d6+2")) _ s d rolled
              ∙ resolve_healing_lem command actor quantity d _ usable within small
                  (omega (arith, least))),
        refl,
        refl,
        omega (arith, least),
        pos_part-le d.total 8 most,
      )
