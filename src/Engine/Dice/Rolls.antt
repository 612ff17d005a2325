-- ===== src/Engine/Dice/Rolls.antt =====
-- What a roll returns.
use ai_rpg.Prelude.{
  ℕ, zero, suc, ◌*◌, ◌≤◌, ◌≡◌, refl, true, Option, none, some, List, [], ◌∷◌, arith, length, All,
  all, leb, le→leb, ok, Bool-cases, inl, inr, nat_eq, Option-cases,
}
use mathlib.Core.Path.{subst}
use ai_rpg.Prelude.Int.{ℤ, pos, ◌+ℤ◌}
use ai_rpg.Text.{Text, read_number}
use ai_rpg.Text.Lengths.{length-read_number}
use ai_rpg.Domain.Results.{DiceResult, dice_result}
use ai_rpg.Engine.Random.{RandomSource}
use ai_rpg.Engine.Dice.{
  DiceExpression, negate, parse_amount, parse_modifier, parse_sides, parse_count, parse_dice,
  normalize, sum, draw_rolls, roll_parsed, roll,
}
use ai_rpg.Engine.Dice.Notation.{parse_dice-IsRollable}

-- An expression that parses has at most eleven characters.
amount_ends :
    (count sides : ℕ) (sign : ℕ → ℤ) (r : Option (ℕ × Text)) (d : DiceExpression)
    → parse_amount count sides sign r ≡ some d
    → (n : ℕ) × (r ≡ some (n, [])) × (n ≤ 100)
unfolding parse_amount
amount_ends count sides sign (some (n, [])) d h = (n, refl, ground arith)
amount_ends count sides sign (some (n, c ∷ t)) d h = cc
amount_ends count sides sign none d h = cc

amount_length :
    (count sides : ℕ) (sign : ℕ → ℤ) (t : Text) (d : DiceExpression)
    → parse_amount count sides sign (read_number t) ≡ some d
    → length t ≤ 3
amount_length count sides sign t d h =
    let (n, e, b) = amount_ends count sides sign (read_number t) d h in
    omega (arith, length-read_number t n [] e)

modifier_length :
    (count sides : ℕ) (t : Text) (d : DiceExpression)
    → parse_modifier count sides t ≡ some d
    → length t ≤ 4
unfolding parse_modifier
modifier_length count sides [] d h = omega arith
modifier_length count sides (c ∷ t) d h =
    let plus = amount_length count sides pos t d in
    let minus = amount_length count sides negate t d in
    elim (Bool-cases (nat_eq c b'+')) [
      | inl e ↦ omega (arith, plus (rw e at h))
      | inr e ↦ elim (Bool-cases (nat_eq c b'-')) [
        | inl f ↦ omega (arith, minus (rw f at (rw e at h)))
        | inr f ↦ absurd (ground arith)
      ]
    ]

sides_length :
    (count : ℕ) (t : Text) (d : DiceExpression)
    → parse_sides count (read_number t) ≡ some d
    → length t ≤ 7
unfolding parse_sides
sides_length count t d h = elim (Option-cases (read_number t)) [
  | inl e ↦ absurd (ground arith)
  | inr ((sides, rest), e) ↦
      ground (arith, length-read_number t sides rest e, modifier_length count sides rest d)
]

length-parse_dice : (t : Text) (d : DiceExpression) → parse_dice t ≡ some d → length t ≤ 11
unfolding parse_dice parse_count
length-parse_dice t d h = elim (Option-cases (read_number t)) [
  | inl e ↦ absurd (ground arith)
  | inr ((count, []), e) ↦ absurd (ground arith)
  | inr ((count, c ∷ rest), e) ↦
      ground (arith, length-read_number t count (c ∷ rest) e, sides_length count rest d)
]

nonempty : (t : Text) (d : DiceExpression) → parse_dice t ≡ some d → 1 ≤ length t
unfolding parse_dice read_number parse_count
nonempty [] d h = cc
nonempty (c ∷ t) d h = omega arith

-- The contract accepts a result whose text and entries are within its bounds.
dice_result-eq-ok :
    (r : DiceResult)
    → 1 ≤ length r.expression
    → length r.expression ≤ 11
    → 1 ≤ length r.rolls
    → length r.rolls ≤ 20
    → all (leb 1) r.rolls ≡ true
    → dice_result r.expression r.rolls r.modifier r.total ≡ ok r
unfolding dice_result
dice_result-eq-ok r a b c d e = rw (
  le→leb _ _ a,
  le→leb (length r.expression) 500 (omega arith),
  le→leb _ _ c,
  le→leb (length r.rolls) 100 (omega arith),
  e,
)

-- The entries of a roll lie between 1 and the number of sides, so their sum is bounded too.
abbrev pub WithinSides : ℕ → List ℕ → Type 0
WithinSides sides = All (λ x. (1 ≤ x) × (x ≤ sides))

pub sum-WithinSides :
    (sides : ℕ) (xs : List ℕ)
    → WithinSides sides xs
    → (length xs ≤ sum xs) × (sum xs ≤ length xs * sides)
sum-WithinSides sides [] h = omega arith
sum-WithinSides sides (x ∷ xs) h = grind (arith, sum-WithinSides sides xs h.1)

positive_rolls : (sides : ℕ) (xs : List ℕ) → WithinSides sides xs → all (leb 1) xs ≡ true
positive_rolls sides [] h = refl
positive_rolls sides (x ∷ xs) h = ground (arith, positive_rolls sides xs h.1)

-- The result that the notation promises.
pub record IsRollOf (text : Text) (d : DiceExpression) (r : DiceResult) : Type 0 where
  pub same_text : r.expression ≡ text
  pub counted : length r.rolls ≡ d.count
  pub within : WithinSides d.sides r.rolls
  pub same_modifier : r.modifier ≡ d.modifier
  pub totalled : r.total ≡ pos (sum r.rolls) +ℤ d.modifier

-- A result that an expression can lead to.
abbrev pub RolledFrom : Text → DiceResult → Type 0
RolledFrom expression r =
    (d : DiceExpression) × (parse_dice (normalize expression) ≡ some d)
    × IsRollOf (normalize expression) d r

module _ {S : Type 0} (source : RandomSource S) where
  draw_rolls_lem :
      (count sides : ℕ) (s : S)
      → 1 ≤ sides
      → (length (draw_rolls source count sides s).0 ≡ count)
        × WithinSides sides (draw_rolls source count sides s).0
  unfolding draw_rolls
  draw_rolls_lem zero sides s h = (refl, tt)
  draw_rolls_lem (suc count) sides s h =
      let (x, s') = source.randint 1 sides s in
      let rest = draw_rolls_lem count sides s' h in
      (omega (arith, rest.0), (source.randint_bounds 1 sides s h, rest.1))

  -- An expression whose normal form parses is rolled without an error, and the result has the
  -- normal form, as many entries as dice, each from 1 to the sides, the modifier, and the total of
  -- the entries and the modifier.
  pub roll_lem :
      (expression : Text) (d : DiceExpression) (s : S)
      → parse_dice (normalize expression) ≡ some d
      → (r : DiceResult) × ((roll source expression s).0 ≡ ok r)
        × IsRollOf (normalize expression) d r
  unfolding roll roll_parsed
  roll_lem expression d s h =
      let rollable = parse_dice-IsRollable (normalize expression) d h in
      let drawn = draw_rolls_lem d.count d.sides s (omega arith) in
      let rolls = (draw_rolls source d.count d.sides s).0 in
      let r : DiceResult = record {
        expression = normalize expression;
        rolls = rolls;
        modifier = d.modifier;
        total = pos (sum rolls) +ℤ d.modifier;
      } in
      let accepted =
        dice_result-eq-ok r (nonempty (normalize expression) d h)
          (length-parse_dice (normalize expression) d h) (omega (arith, drawn.0))
          (omega (arith, drawn.0)) (positive_rolls d.sides rolls drawn.1) in
      (
        r,
        rw h accepted,
        record {
          same_text = refl;
          counted = drawn.0;
          within = drawn.1;
          same_modifier = refl;
          totalled = refl;
        },
      )

  roll_parses :
      (expression : Text) (s : S) (r : DiceResult)
      → (roll source expression s).0 ≡ ok r
      → (d : DiceExpression) × (parse_dice (normalize expression) ≡ some d)
  unfolding roll roll_parsed
  roll_parses expression s r h = elim (Option-cases (parse_dice (normalize expression))) [
    | inl e ↦ cc (rw e at h)
    | inr found ↦ found
  ]

  -- A roll that is returned was rolled from its expression.
  pub roll-RolledFrom :
      (expression : Text) (s : S) (r : DiceResult)
      → (roll source expression s).0 ≡ ok r
      → RolledFrom expression r
  roll-RolledFrom expression s r h =
      let (d, e) = roll_parses expression s r h in
      let (r', h', spec) = roll_lem expression d s e in
      let same : r' ≡ r = cc (h, h') in (d, e, subst (IsRollOf (normalize expression) d) same spec)
