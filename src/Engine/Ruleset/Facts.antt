-- ===== src/Engine/Ruleset/Facts.antt =====
-- The facts that results carry fit their contract, and how far the totals of rolls reach.
use ai_rpg.Prelude.{ℕ, ◌*◌, ◌≤◌, ◌<◌, ◌≡◌, arith, length, length-append}
use ai_rpg.Prelude.Int.{ℤ, pos, negsuc, pos_part, neg_part, ◌+ℤ◌, ◌≤ℤ◌, int_laws}
use ai_rpg.Text.{Text, codes, decimal, int_text}
use ai_rpg.Text.Decimal.{length-int_text, length-decimal}
use ai_rpg.Domain.Results.{DiceResult, Outcome, success, failure, neutral}
use ai_rpg.Engine.Dice.{DiceExpression}
use ai_rpg.Engine.Dice.Notation.{IsRollable}
use ai_rpg.Engine.Dice.Rolls.{IsRollOf, sum-WithinSides}
use ai_rpg.Engine.Ruleset.{check_fact, miss_fact, hit_fact}

-- Texts of 1 to 500 characters.
abbrev pub FitsContract : Text → Type 0
FitsContract t = (1 ≤ length t) × (length t ≤ 500)

-- Numbers of at most four digits.
abbrev pub IsModest : ℤ → Type 0
IsModest m = (pos_part m < 10000) × (neg_part m < 10000)

pub miss_fact_fits : (total : ℤ) → IsModest total → FitsContract (miss_fact total)
unfolding miss_fact
miss_fact_fits total h =
    rw (length-append (int_text total) (codes ")")) (omega (arith, length-int_text total h.0 h.1))

pub check_fact_fits :
    (outcome : Outcome) (total : ℤ) → IsModest total → FitsContract (check_fact outcome total)
unfolding check_fact
check_fact_fits success total h =
    rw (length-append (int_text total) (codes ")")) (omega (arith, length-int_text total h.0 h.1))
check_fact_fits failure total h =
    rw (length-append (int_text total) (codes ")")) (omega (arith, length-int_text total h.0 h.1))
check_fact_fits neutral total h =
    rw (length-append (int_text total) (codes ")")) (omega (arith, length-int_text total h.0 h.1))

pub hit_fact_fits : (amount : ℕ) → amount < 10000 → FitsContract (hit_fact amount)
unfolding hit_fact
hit_fact_fits amount h =
    rw (length-append (decimal amount) (codes "ダメージを与えた")) (omega (arith, length-decimal amount h))

-- The total of a roll lies between the smallest and the largest sum, moved by the modifier.
pub total_bounds :
    (t : Text) (d : DiceExpression) (r : DiceResult)
    → IsRollOf t d r
    → (pos d.count +ℤ d.modifier ≤ℤ r.total) × (r.total ≤ℤ pos (d.count * d.sides) +ℤ d.modifier)
total_bounds t d r h =
    let (lo, hi) = sum-WithinSides d.sides r.rolls h.within in
    let counted : length r.rolls * d.sides ≡ d.count * d.sides = rw h.counted in
    rw h.totalled (omega (int_laws, h.counted, counted))

-- Twenty dice of a hundred sides stay within four digits.
pub total_modest :
    (t : Text) (d : DiceExpression) (r : DiceResult)
    → IsRollable d
    → IsRollOf t d r
    → (negsuc 99 ≤ℤ r.total) × (r.total ≤ℤ pos 2100)
total_modest t d r rollable h =
    let (lo, hi) = total_bounds t d r h in
    let most : d.count * d.sides ≤ 2000 = grind arith in
    omega (int_laws, most, rollable.modifier_bounds.0, rollable.modifier_bounds.1)
