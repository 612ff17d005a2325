-- ===== src/Text.antt =====
-- Python's `str` where the source looks inside it, as the list of its code points.
pub mod Decimal
pub mod Lengths
pub mod Regex
use Prim.Native.Char.{code}
use ai_rpg.Prelude.{
  ℕ, suc, ◌+◌, ◌-◌, ◌*◌, ◌/◌, ◌%◌, String, Bool, true, false, ◌&&◌, List, [], ◌∷◌, ◌++◌, map, leb,
  ltb, nat_eq, if◌then◌else◌, zero, Option, none, some, not, keep,
}
use ai_rpg.Prelude.Int.{ℤ, pos, negsuc}

abbrev pub Text : Type 0
Text = List ℕ

abbrev pub codes : String → Text
codes String.[] = []
codes (String.◌∷◌ c s) = code c ∷ codes s

abbrev pub is_digit : ℕ → Bool
is_digit c = leb b'0' c && leb c b'9'

-- `str(n)` of a number that is not negative.
pub decimal_fuel : ℕ → ℕ → Text
decimal_fuel zero n = []
decimal_fuel (suc fuel) n =
    let shorter = decimal_fuel fuel (n / 10) ++ (b'0' + n % 10) ∷ [] in
    if ltb n 10 then (b'0' + n) ∷ [] else shorter

unfoldable pub decimal : ℕ → Text
unfolding decimal_fuel
decimal n = decimal_fuel (suc n) n

-- `f"{n:+d}"`
unfoldable pub signed : ℤ → Text
signed (pos n) = b'+' ∷ decimal n
signed (negsuc n) = b'-' ∷ decimal (suc n)

-- `str(n)`
unfoldable pub int_text : ℤ → Text
int_text (pos n) = decimal n
int_text (negsuc n) = b'-' ∷ decimal (suc n)

-- The longest run of digits at the front, read onto a number.
pub read_digits : ℕ → Text → ℕ × Text
read_digits n [] = (n, [])
read_digits n (c ∷ t) = if is_digit c then read_digits (n * 10 + (c - b'0')) t else (n, c ∷ t)

-- A number with no leading zero, and what follows it: the alternatives `0|[1-9][0-9]*`.
unfoldable pub read_number : Text → Option (ℕ × Text)
unfolding read_digits
read_number [] = none
read_number (c ∷ t) =
    if not (is_digit c)
    then none
    else if nat_eq c b'0'
    then some (0, t)
    else some (read_digits (c - b'0') t)

-- `str.replace(" ", "")`
unfoldable pub remove_spaces : Text → Text
remove_spaces t = keep (λ c. not (nat_eq c 32)) t

-- `str.lower()` on the letters A to Z. Other code points do not reach a dice expression that is
-- accepted, and none of them is lowered to a character of one.
unfoldable pub lower : Text → Text
lower t = map (λ c. if leb b'A' c && leb c b'Z' then c + 32 else c) t
