-- ===== src/Engine/Dice.antt =====
-- engine/dice.py: dice expressions and `DiceEngine.roll`.
pub mod Notation
pub mod Rolls
use ai_rpg.Prelude.{
  ℕ, zero, suc, ◌+◌, Bool, true, false, ◌&&◌, Option, none, some, List, [], ◌∷◌, ◌++◌, Result, err,
  value_error, leb, nat_eq, if◌then◌else◌,
}
use ai_rpg.Prelude.Int.{ℤ, pos, negsuc, ◌+ℤ◌}
use ai_rpg.Text.{Text, decimal, signed, read_number, remove_spaces, lower}
use ai_rpg.Domain.Results.{DiceResult, dice_result}
use ai_rpg.Engine.Random.{RandomSource, Draw}

pub record DiceExpression : Type 0 where
  pub count : ℕ
  pub sides : ℕ
  pub modifier : ℤ

-- `int("-" + n)`
abbrev pub negate : ℕ → ℤ
negate zero = pos 0
negate (suc n) = negsuc n

-- The pattern `_DICE_PATTERN`, from its end: a modifier up to 100 and nothing after it, sides from
-- 2 to 100, a count from 1 to 20. No number has a leading zero.
parse_amount : ℕ → ℕ → (ℕ → ℤ) → Option (ℕ × Text) → Option DiceExpression
parse_amount count sides sign (some (n, [])) =
    if leb n 100 then some (record { count = count; sides = sides; modifier = sign n }) else none
parse_amount count sides sign _ = none

parse_modifier : ℕ → ℕ → Text → Option DiceExpression
unfolding parse_amount
parse_modifier count sides [] = some (record { count = count; sides = sides; modifier = pos 0 })
parse_modifier count sides (c ∷ t) =
    if nat_eq c b'+'
    then parse_amount count sides pos (read_number t)
    else if nat_eq c b'-'
    then parse_amount count sides negate (read_number t)
    else none

parse_sides : ℕ → Option (ℕ × Text) → Option DiceExpression
unfolding parse_modifier
parse_sides count none = none
parse_sides count (some (sides, t)) =
    if leb 2 sides && leb sides 100 then parse_modifier count sides t else none

parse_count : Option (ℕ × Text) → Option DiceExpression
unfolding parse_sides
parse_count (some (count, c ∷ t)) =
    if nat_eq c b'd' && leb 1 count && leb count 20 then parse_sides count (read_number t) else none
parse_count _ = none

unfoldable pub parse_dice : Text → Option DiceExpression
unfolding parse_count
parse_dice t = parse_count (read_number t)

unfoldable pub normalize : Text → Text
normalize expression = lower (remove_spaces expression)

abbrev pub sum : List ℕ → ℕ
sum [] = 0
sum (x ∷ xs) = x + sum xs

module _ {S : Type 0} (source : RandomSource S) where
  -- `[randint(1, sides) for _ in range(count)]`
  unfoldable pub draw_rolls : ℕ → ℕ → S → List ℕ × S
  draw_rolls zero sides s = ([], s)
  draw_rolls (suc count) sides s =
      let (x, s') = source.randint 1 sides s in
      let (xs, s'') = draw_rolls count sides s' in (x ∷ xs, s'')

  roll_parsed : Text → Option DiceExpression → Draw S DiceResult
  roll_parsed normalized none s = (err (value_error "未対応のダイス式です"), s)
  roll_parsed normalized (some d) s =
      let (rolls, s') = draw_rolls d.count d.sides s in
      (dice_result normalized rolls d.modifier (pos (sum rolls) +ℤ d.modifier), s')

  -- `DiceEngine.roll`
  unfoldable pub roll : Text → Draw S DiceResult
  unfolding roll_parsed
  roll expression s =
      let normalized = normalize expression in roll_parsed normalized (parse_dice normalized) s
