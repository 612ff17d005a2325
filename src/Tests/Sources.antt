-- ===== src/Tests/Sources.antt =====
-- A random source that counts, and characters.
use ai_rpg.Prelude.{ℕ, ◌+◌, ◌-◌, ◌%◌, ◌≤◌, ◌<◌, arith}
use native.Mathlib.Nat.{mod-lt}
use ai_rpg.Prelude.Int.{pos}
use ai_rpg.Engine.Random.{RandomSource, Secrets}
use ai_rpg.Domain.Character.{CharacterState}

-- Each number is the lower end and the state's remainder, and the state goes up by 1.
abbrev pub counting_secrets : Secrets ℕ
counting_secrets = record { randbelow = λ n s. (s % n, s + 1); randbelow-lt = λ n s h. mod-lt s h }

abbrev pub counting : RandomSource ℕ
counting = record {
  randint = λ lower upper s. (lower + s % (upper - lower + 1), s + 1);
  randint_bounds = λ lower upper s h. counting_bounds lower upper s h;
}
  where
    counting_bounds :
        (lower upper s : ℕ)
        → lower ≤ upper
        → (lower ≤ lower + s % (upper - lower + 1)) × (lower + s % (upper - lower + 1) ≤ upper)
    counting_bounds lower upper s h =
        let below : s % (upper - lower + 1) < upper - lower + 1 = mod-lt s (omega arith) in
        (omega arith, omega (arith, below))

abbrev pub hero : CharacterState
hero = record { id = 1; current_hp = 8; max_hp = 12; defense = pos 11; attack_bonus = pos 3 }

abbrev pub goblin : CharacterState
goblin = record { id = 2; current_hp = 6; max_hp = 6; defense = pos 12; attack_bonus = pos 2 }
