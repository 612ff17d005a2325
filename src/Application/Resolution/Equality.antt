-- ===== src/Application/Resolution/Equality.antt =====
-- Python's `==` on resolved actions and reactions, which compares field by field.
use ai_rpg.Prelude.{Bool, true, false, List, ◌≡◌, ◌↔◌, refl}
use ai_rpg.Prelude.Int.{ℤ}
use ai_rpg.Domain.Results.{
  DiceResult, StateChange, AppliedResult, ResolvedAction, ResolvedEnemyReaction,
}
use native.Mathlib.Decide.{ℕ_discrete}

abbrev decided {ℓ} : {A : Type ℓ} → Dec A → Bool
decided (yes a) = true
decided (no n) = false

ℤ-discrete : Discrete ℤ
ℤ-discrete = hlevel ℕ_discrete

DiceResult-discrete : Discrete DiceResult
DiceResult-discrete = hlevel (ℕ_discrete, ℤ-discrete)

StateChange-discrete : Discrete StateChange
StateChange-discrete = hlevel ℕ_discrete

AppliedResult-discrete : Discrete AppliedResult
AppliedResult-discrete = hlevel (ℕ_discrete, DiceResult-discrete, StateChange-discrete)

ResolvedActions-discrete : Discrete (List ResolvedAction)
ResolvedActions-discrete = hlevel (ℕ_discrete, AppliedResult-discrete)

ResolvedReactions-discrete : Discrete (List ResolvedEnemyReaction)
ResolvedReactions-discrete = hlevel (ℕ_discrete, AppliedResult-discrete)

pub same_actions : List ResolvedAction → List ResolvedAction → Bool
same_actions xs ys = decided (ResolvedActions-discrete xs ys)

pub same_reactions : List ResolvedEnemyReaction → List ResolvedEnemyReaction → Bool
same_reactions xs ys = decided (ResolvedReactions-discrete xs ys)

decided_iff {ℓ} : {A : Type ℓ} (d : Dec A) → (decided d ≡ true) ↔ A
decided_iff (yes a) = (λ h. a, λ h. refl)
decided_iff (no n) = (λ h. cc (h), λ a. absurd (n a))

pub same_actions_iff : (xs ys : List ResolvedAction) → (same_actions xs ys ≡ true) ↔ (xs ≡ ys)
unfolding same_actions
same_actions_iff xs ys = decided_iff (ResolvedActions-discrete xs ys)

pub same_reactions_iff :
    (xs ys : List ResolvedEnemyReaction) → (same_reactions xs ys ≡ true) ↔ (xs ≡ ys)
unfolding same_reactions
same_reactions_iff xs ys = decided_iff (ResolvedReactions-discrete xs ys)
