-- ===== src/Budget.antt =====
-- llm/budget.py: `CallBudget`, the number of requests that may still be sent.
use ai_rpg.Prelude.{
  ℕ, zero, suc, ◌+◌, ◌-◌, ◌≤◌, ◌≡◌, ◌↔◌, refl, true, false, not, Result, ok, ◌>>=◌, ◌>>◌, raise_if,
  value_error, call_budget_exceeded, nat_eq, arith, IsOk, raise_if-eq-ok, from_ok, Bool-cases, inl,
  inr,
}
use mathlib.Core.Path.{subst}
use ai_rpg.Prelude.Int.{ℤ, pos, pos_part, leb_ℤ}

pub record CallBudget : Type 0 where
  pub limit : ℕ
  pub reserved : ℕ

-- The constructor.
unfoldable pub call_budget : ℤ → Result CallBudget
call_budget limit = do
  raise_if (not (leb_ℤ (pos 1) limit)) (value_error "呼び出し上限は1以上である必要があります")
  ok (record { limit = pos_part limit; reserved = 0 })

-- No budget has reserved more than its limit, so the difference is not negative.
abbrev pub remaining : CallBudget → ℕ
remaining b = b.limit - b.reserved

unfoldable pub reserve : CallBudget → Result CallBudget
reserve b = do
  raise_if (nat_eq (remaining b) 0) (call_budget_exceeded "LLM呼び出し予算を使い切りました")
  ok (record b { reserved = b.reserved + 1 })

-- So many reservations, one after another.
unfoldable pub reserve_times : ℕ → CallBudget → Result CallBudget
reserve_times zero b = ok b
reserve_times (suc n) b = reserve b >>= λ next. reserve_times n next

reserve_left :
    (b : CallBudget)
    → nat_eq (remaining b) 0 ≡ false
    → reserve b ≡ ok (record b { reserved = b.reserved + 1 })
unfolding reserve
reserve_left b h = rw h refl

reserve_times_lem :
    (n : ℕ) (b : CallBudget) → b.reserved ≤ b.limit → IsOk (reserve_times n b) ↔ (n ≤ remaining b)
unfolding reserve_times reserve
reserve_times_lem zero b h = (λ k. omega arith, λ k. tt)
reserve_times_lem (suc n) b h = elim (Bool-cases (nat_eq (remaining b) 0)) [
  | inl spent ↦ rw spent (λ k. absurd k, λ k. absurd (none_left spent k))
  | inr left ↦
      let next : CallBudget = record b { reserved = b.reserved + 1 } in
      let rest = reserve_times_lem n next (ground arith) in
      rw left (λ k. ground (arith, rest.0 k), λ k. rest.1 (ground arith))
]
  where
    none_left : nat_eq (remaining b) 0 ≡ true → suc n ≤ remaining b → ⊥
    none_left spent k = ground arith

-- A new budget of a limit gives exactly that many reservations: so many calls in a row are all
-- reserved if and only if they are no more than the limit.
pub reserve_times-call_budget :
    (limit : ℤ) (b : CallBudget) (n : ℕ)
    → call_budget limit ≡ ok b
    → (b.limit ≡ pos_part limit) × (IsOk (reserve_times n b) ↔ (n ≤ pos_part limit))
unfolding call_budget
reserve_times-call_budget limit b n h =
    let (fine, made) = raise_if-eq-ok (not (leb_ℤ (pos 1) limit)) _ _ b h in
    let times =
      reserve_times_lem n (record { limit = pos_part limit; reserved = 0 }) (omega arith) in
    subst (λ x. (x.limit ≡ pos_part limit) × (IsOk (reserve_times n x) ↔ (n ≤ pos_part limit)))
      (from_ok made) (refl, (λ k. omega (arith, times.0 k), λ k. times.1 (omega arith)))
