-- ===== src/Engine/Dice/Notation.antt =====
-- What the dice notation admits, and that every admitted expression can be written down.
use ai_rpg.Prelude.{
  ℕ, zero, suc, ◌≤◌, ◌≡◌, refl, Option, none, some, List, [], ◌∷◌, ◌++◌, arith, inl, inr,
  Bool-cases, nat_eq, ap,
}
use ai_rpg.Prelude.Int.{ℤ, pos, negsuc, ◌≤ℤ◌}
use ai_rpg.Text.{Text, read_number, decimal, signed}
use ai_rpg.Prelude.{All}
use ai_rpg.Text.{remove_spaces, lower}
use ai_rpg.Text.Decimal.{
  IsPlain, decimal-IsPlain, signed-IsPlain, read_number-decimal, read_number-decimal_end, Stops,
}
use ai_rpg.Engine.Dice.{
  DiceExpression, negate, parse_amount, parse_modifier, parse_sides, parse_count, parse_dice,
  normalize,
}

pub record IsRollable (d : DiceExpression) : Type 0 where
  pub count_bounds : (1 ≤ d.count) × (d.count ≤ 20)
  pub sides_bounds : (2 ≤ d.sides) × (d.sides ≤ 100)
  pub modifier_bounds : (negsuc 99 ≤ℤ d.modifier) × (d.modifier ≤ℤ pos 100)

abbrev InRange : ℤ → Type 0
InRange m = (negsuc 99 ≤ℤ m) × (m ≤ℤ pos 100)

abbrev Fits : ℕ → ℕ → DiceExpression → Type 0
Fits count sides d = (d.count ≡ count) × (d.sides ≡ sides) × InRange d.modifier

parse_amount-Fits :
    (count sides : ℕ) (sign : ℕ → ℤ)
    → ((n : ℕ) → n ≤ 100 → InRange (sign n))
    → (r : Option (ℕ × Text)) (d : DiceExpression) → parse_amount count sides sign r ≡ some d
    → Fits count sides d
unfolding parse_amount
parse_amount-Fits count sides sign range (some (n, [])) d h = ground (arith, range n)
parse_amount-Fits count sides sign range (some (n, c ∷ t)) d h = cc
parse_amount-Fits count sides sign range none d h = cc

negate-InRange : (n : ℕ) → n ≤ 100 → InRange (negate n)
negate-InRange zero h = omega arith
negate-InRange (suc n) h = omega arith

parse_modifier-Fits :
    (count sides : ℕ) (t : Text) (d : DiceExpression)
    → parse_modifier count sides t ≡ some d
    → Fits count sides d
unfolding parse_modifier
parse_modifier-Fits count sides [] d h = ground arith
parse_modifier-Fits count sides (c ∷ t) d h =
    let plus = parse_amount-Fits count sides pos (λ n b. omega arith) (read_number t) d in
    let minus = parse_amount-Fits count sides negate negate-InRange (read_number t) d in
    elim (Bool-cases (nat_eq c b'+')) [
      | inl e ↦ plus (rw e at h)
      | inr e ↦ elim (Bool-cases (nat_eq c b'-')) [
        | inl f ↦ minus (rw f at (rw e at h))
        | inr f ↦ absurd (ground arith)
      ]
    ]

parse_sides-IsRollable :
    (count : ℕ) (r : Option (ℕ × Text)) (d : DiceExpression)
    → 1 ≤ count
    → count ≤ 20
    → parse_sides count r ≡ some d
    → IsRollable d
unfolding parse_sides
parse_sides-IsRollable count none d lo hi h = cc
parse_sides-IsRollable count (some (sides, t)) d lo hi h =
    ground (arith, parse_modifier-Fits count sides t d)

parse_count-IsRollable :
    (r : Option (ℕ × Text)) (d : DiceExpression) → parse_count r ≡ some d → IsRollable d
unfolding parse_count
parse_count-IsRollable none d h = cc
parse_count-IsRollable (some (count, [])) d h = cc
parse_count-IsRollable (some (count, c ∷ t)) d h =
    ground (arith, parse_sides-IsRollable count (read_number t) d)

-- Every expression that parses has 1 to 20 dice of 2 to 100 sides and a modifier up to 100 either
-- way.
pub parse_dice-IsRollable : (t : Text) (d : DiceExpression) → parse_dice t ≡ some d → IsRollable d
unfolding parse_dice
parse_dice-IsRollable t d h = parse_count-IsRollable (read_number t) d h

-- The expression in the form that commands are given: `1d20+3`.
abbrev pub show_dice : DiceExpression → Text
show_dice d = decimal d.count ++ (b'd' ∷ (decimal d.sides ++ signed d.modifier))

signed-Stops : (m : ℤ) → Stops (signed m)
unfolding signed
signed-Stops (pos n) = refl
signed-Stops (negsuc n) = refl

parse_modifier-signed :
    (count sides : ℕ) (m : ℤ)
    → InRange m
    → parse_modifier count sides (signed m)
      ≡ some (record { count = count; sides = sides; modifier = m })
unfolding parse_modifier signed
parse_modifier-signed count sides (pos n) h = rw (read_number-decimal_end n) (ground arith)
parse_modifier-signed count sides (negsuc n) h = rw (read_number-decimal_end (suc n)) (ground arith)

Stops-d : (t : Text) → Stops (b'd' ∷ t)
Stops-d t = refl

-- Every expression in range, written out, is read back as itself.
pub parse_dice-show_dice : (d : DiceExpression) → IsRollable d → parse_dice (show_dice d) ≡ some d
unfolding parse_dice parse_count parse_sides
parse_dice-show_dice d h =
    let tail = decimal d.sides ++ signed d.modifier in
    rw (read_number-decimal d.count (b'd' ∷ tail) (Stops-d tail)) (
      ground (
        arith,
        read_number-decimal d.sides (signed d.modifier) (signed-Stops d.modifier),
        parse_modifier-signed d.count d.sides d.modifier h.modifier_bounds,
      ))

All-append {ℓ κ} :
    {A : Type ℓ} (P : A → Type κ) (xs ys : List A) → All P xs → All P ys → All P (xs ++ ys)
All-append P [] ys h k = k
All-append P (x ∷ xs) ys h k = (h.0, All-append P xs ys h.1 k)

remove_spaces-plain : (t : Text) → All IsPlain t → remove_spaces t ≡ t
unfolding remove_spaces
remove_spaces-plain [] h = refl
remove_spaces-plain (c ∷ t) h = rw h.0.0 (ap (λ u. c ∷ u) (remove_spaces-plain t h.1))

lower-plain : (t : Text) → All IsPlain t → lower t ≡ t
unfolding lower
lower-plain [] h = refl
lower-plain (c ∷ t) h = rw h.0.1 (ap (λ u. c ∷ u) (lower-plain t h.1))

normalize-plain : (t : Text) → All IsPlain t → normalize t ≡ t
unfolding normalize
normalize-plain t h = rw (remove_spaces-plain t h) (lower-plain t h)

pub normalize-show_dice : (d : DiceExpression) → normalize (show_dice d) ≡ show_dice d
normalize-show_dice d = normalize-plain (show_dice d) (
    All-append IsPlain (decimal d.count) _ (decimal-IsPlain d.count) (
      (refl, refl),
      All-append IsPlain (decimal d.sides) _ (decimal-IsPlain d.sides) (signed-IsPlain d.modifier),
    ))
