-- ===== src/Text/Lengths.antt =====
-- How many characters a number is read from.
use ai_rpg.Prelude.{ℕ, ◌+◌, ◌*◌, ◌-◌, ◌≤◌, ◌<◌, ◌≡◌, some, [], ◌∷◌, arith, length}
use ai_rpg.Text.{Text, read_digits, read_number}

read_digits-le : (n : ℕ) (t : Text) → n ≤ (read_digits n t).0
unfolding read_digits
read_digits-le n [] = omega arith
read_digits-le n (c ∷ t) = ground (arith, read_digits-le (n * 10 + (c - b'0')) t)

read_digits_none :
    (n : ℕ) (t : Text)
    → 100 ≤ n
    → (read_digits n t).0 < 1000
    → length t ≤ length (read_digits n t).1
unfolding read_digits
read_digits_none n [] lo hi = omega arith
read_digits_none n (c ∷ t) lo hi = ground (arith, read_digits-le (n * 10 + (c - b'0')) t)

read_digits_one :
    (n : ℕ) (t : Text)
    → 10 ≤ n
    → (read_digits n t).0 < 1000
    → length t ≤ length (read_digits n t).1 + 1
unfolding read_digits
read_digits_one n [] lo hi = omega arith
read_digits_one n (c ∷ t) lo hi = ground (arith, read_digits_none (n * 10 + (c - b'0')) t)

read_digits_two :
    (n : ℕ) (t : Text)
    → 1 ≤ n
    → (read_digits n t).0 < 1000
    → length t ≤ length (read_digits n t).1 + 2
unfolding read_digits
read_digits_two n [] lo hi = omega arith
read_digits_two n (c ∷ t) lo hi = ground (arith, read_digits_one (n * 10 + (c - b'0')) t)

-- A number below 1000 is read from at most three characters.
pub length-read_number :
    (t : Text) (n : ℕ) (rest : Text)
    → read_number t ≡ some (n, rest)
    → n < 1000
    → length t ≤ length rest + 3
unfolding read_number
length-read_number [] n rest e h = cc
length-read_number (c ∷ t) n rest e h = ground (arith, read_digits_two (c - b'0') t)
