-- ===== src/Text/Decimal.antt =====
-- Printing a number in decimal and reading it back.
use ai_rpg.Prelude.{
  ℕ, zero, suc, ◌+◌, ◌-◌, ◌*◌, ◌/◌, ◌%◌, ◌≤◌, ◌<◌, ◌≡◌, refl, inl, inr, true, false, some, [], ◌∷◌,
  ◌++◌, arith, All, Bool-cases, ltb, ◌∙◌,
}
use mathlib.Core.List.{append-nil}
use mathlib.Core.Path.{subst}
use ai_rpg.Prelude.{nat_eq, leb, ◌&&◌, length, length-append}
use ai_rpg.Prelude.Int.{ℤ, pos, negsuc, pos_part, neg_part}
use ai_rpg.Text.{signed, int_text, Text, is_digit, decimal_fuel, decimal, read_digits, read_number}

abbrev AllDigits : Text → Type 0
AllDigits = All (λ c. is_digit c ≡ true)

-- What the digits add to a number that is being read.
value : ℕ → Text → ℕ
value n [] = n
value n (c ∷ t) = value (n * 10 + (c - b'0')) t

value-append : (n : ℕ) (s t : Text) → value n (s ++ t) ≡ value (value n s) t
unfolding value
value-append n [] t = refl
value-append n (c ∷ s) t = value-append (n * 10 + (c - b'0')) s t

AllDigits-append : (s t : Text) → AllDigits s → AllDigits t → AllDigits (s ++ t)
AllDigits-append [] t hs ht = ht
AllDigits-append (c ∷ s) t hs ht = (hs.0, AllDigits-append s t hs.1 ht)

digit_is_digit : (n : ℕ) → n < 10 → is_digit (b'0' + n) ≡ true
digit_is_digit n h = ground arith

decimal_fuel-AllDigits : (fuel n : ℕ) → AllDigits (decimal_fuel fuel n)
unfolding decimal_fuel
decimal_fuel-AllDigits zero n = tt
decimal_fuel-AllDigits (suc fuel) n = elim (Bool-cases (ltb n 10)) [
  | inl small ↦ rw small (digit_is_digit n (ground arith), tt)
  | inr large ↦ rw large (
      AllDigits-append (decimal_fuel fuel (n / 10)) ((b'0' + n % 10) ∷ [])
        (decimal_fuel-AllDigits fuel (n / 10)) (digit_is_digit (n % 10) (omega arith), tt))
]

value-decimal_fuel : (fuel n : ℕ) → n < fuel → value 0 (decimal_fuel fuel n) ≡ n
unfolding decimal_fuel value
value-decimal_fuel zero n h = elim h [ ]
value-decimal_fuel (suc fuel) n h = elim (Bool-cases (ltb n 10)) [
  | inl small ↦ rw small (ground arith)
  | inr large ↦ rw large (
      value-append 0 (decimal_fuel fuel (n / 10)) ((b'0' + n % 10) ∷ [])
      ∙ rw (value-decimal_fuel fuel (n / 10) (ground arith)) (omega arith))
]

-- Reading stops where the digits do.
abbrev pub Stops : Text → Type 0
Stops [] = Unit
Stops (c ∷ t) = is_digit c ≡ false

read_digits-append :
    (n : ℕ) (s t : Text) → AllDigits s → Stops t → read_digits n (s ++ t) ≡ (value n s, t)
unfolding read_digits value
read_digits-append n [] [] hs ht = refl
read_digits-append n [] (c ∷ t) hs ht = ground arith
read_digits-append n (c ∷ s) t hs ht =
    rw hs.0 (read_digits-append (n * 10 + (c - b'0')) s t hs.1 ht)

-- The first digit of a positive number is not 0.
decimal_fuel-head :
    (fuel n : ℕ)
    → 0 < n
    → n < fuel
    → (c : ℕ) × (t : Text) × (decimal_fuel fuel n ≡ c ∷ t) × (b'1' ≤ c) × (c ≤ b'9')
unfolding decimal_fuel
decimal_fuel-head zero n p h = elim h [ ]
decimal_fuel-head (suc fuel) n p h = elim (Bool-cases (ltb n 10)) [
  | inl small ↦ (b'0' + n, [], rw small, ground arith, ground arith)
  | inr large ↦
      let (c, t, e, lo, hi) = decimal_fuel-head fuel (n / 10) (ground arith) (ground arith) in
      (c, t ++ (b'0' + n % 10) ∷ [], rw (large, e), lo, hi)
]

read_number-digits :
    (c : ℕ) (s t : Text)
    → b'1' ≤ c
    → c ≤ b'9'
    → AllDigits s
    → Stops t
    → read_number (c ∷ (s ++ t)) ≡ some (value 0 (c ∷ s), t)
unfolding read_number value
read_number-digits c s t lo hi hs ht = ground (arith, read_digits-append (c - b'0') s t hs ht)

read_number-decimal_fuel :
    (fuel n : ℕ) (t : Text)
    → 0 < n
    → n < fuel
    → Stops t
    → read_number (decimal_fuel fuel n ++ t) ≡ some (n, t)
read_number-decimal_fuel fuel n t p h ht =
    let (c, s, e, lo, hi) = decimal_fuel-head fuel n p h in
    let digits : AllDigits (c ∷ s) = subst AllDigits e (decimal_fuel-AllDigits fuel n) in
    let total : value 0 (c ∷ s) ≡ n = rw (← e) (value-decimal_fuel fuel n h) in
    rw e (rw (read_number-digits c s t lo hi digits.1 ht) (rw total))

-- A number that is printed and read back is the number, with what followed it.
pub read_number-decimal : (n : ℕ) (t : Text) → Stops t → read_number (decimal n ++ t) ≡ some (n, t)
unfolding decimal
read_number-decimal zero [] h = unfold read_number in refl
read_number-decimal zero (c ∷ t) h = unfold read_number in refl
read_number-decimal (suc n) t h =
    read_number-decimal_fuel (suc (suc n)) (suc n) t (omega arith) (omega arith) h

pub read_number-decimal_end : (n : ℕ) → read_number (decimal n) ≡ some (n, [])
read_number-decimal_end n =
    subst (λ t. read_number t ≡ some (n, [])) (append-nil (decimal n)) (read_number-decimal n [] tt)

-- Texts with no space and no capital letter, which `normalize` leaves as they are.
abbrev pub IsPlain : ℕ → Type 0
IsPlain c = (nat_eq c 32 ≡ false) × ((leb b'A' c && leb c b'Z') ≡ false)

digits-IsPlain : (t : Text) → AllDigits t → All IsPlain t
digits-IsPlain [] h = tt
digits-IsPlain (c ∷ t) h = ((ground arith, ground arith), digits-IsPlain t h.1)

pub decimal-IsPlain : (n : ℕ) → All IsPlain (decimal n)
unfolding decimal
decimal-IsPlain n = digits-IsPlain (decimal_fuel (suc n) n) (decimal_fuel-AllDigits (suc n) n)

pub signed-IsPlain : (m : ℤ) → All IsPlain (signed m)
unfolding signed
signed-IsPlain (pos n) = ((refl, refl), decimal-IsPlain n)
signed-IsPlain (negsuc n) = ((refl, refl), decimal-IsPlain (suc n))

-- How long a printed number is.
decimal_fuel-length :
    (fuel n : ℕ)
    → n < fuel
    → (n < 10 → length (decimal_fuel fuel n) ≤ 1)
      × (n < 100 → length (decimal_fuel fuel n) ≤ 2)
      × (n < 1000 → length (decimal_fuel fuel n) ≤ 3)
      × (n < 10000 → length (decimal_fuel fuel n) ≤ 4)
unfolding decimal_fuel
decimal_fuel-length zero n h = elim h [ ]
decimal_fuel-length (suc fuel) n h = elim (Bool-cases (ltb n 10)) [
  | inl small ↦ rw small (omega arith)
  | inr large ↦
      let rest = decimal_fuel fuel (n / 10) in
      let shorter = decimal_fuel-length fuel (n / 10) (ground arith) in
      let ten : 10 ≤ n = ground arith in
      rw (large, length-append rest ((b'0' + n % 10) ∷ [])) (omega arith)
]

pub length-decimal : (n : ℕ) → n < 10000 → length (decimal n) ≤ 4
unfolding decimal
length-decimal n h = (decimal_fuel-length (suc n) n (omega arith)).3 h

pub length-int_text : (m : ℤ) → pos_part m < 10000 → neg_part m < 10000 → length (int_text m) ≤ 5
unfolding int_text
length-int_text (pos n) h k = omega (arith, length-decimal n h)
length-int_text (negsuc n) h k = omega (arith, length-decimal (suc n) k)
