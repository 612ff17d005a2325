-- ===== src/Prelude/Lists.antt =====
-- Lists measured by native numbers, and searches in them.
use Prim.Native.Nat.{ℕ, suc, ◌+◌, ◌≤◌, ◌<◌}
use mathlib.Core.Path.{◌≡◌, subst}
use mathlib.Core.Bool.{Bool, true, false, ◌&&◌, ◌||◌}
use mathlib.Core.List.{List, [], ◌∷◌, ◌++◌}
use mathlib.Core.Option.{Option, none, some}
use native.Mathlib.Omega.{arith}
use ai_rpg.Prelude.Tests.{if◌then◌else◌, Bool-cases, from_some}
use mathlib.Core.Logic.{inl, inr}

module _ {ℓ} {A : Type ℓ} where
  abbrev pub length : List A → ℕ
  length [] = 0
  length (x ∷ xs) = suc (length xs)

  abbrev pub any : (A → Bool) → List A → Bool
  any p [] = false
  any p (x ∷ xs) = p x || any p xs

  abbrev pub all : (A → Bool) → List A → Bool
  all p [] = true
  all p (x ∷ xs) = p x && all p xs

  abbrev pub keep : (A → Bool) → List A → List A
  keep p [] = []
  keep p (x ∷ xs) = let rest = keep p xs in if p x then x ∷ rest else rest

  -- `next((x for x in xs if p(x)), None)`
  abbrev pub find : (A → Bool) → List A → Option A
  find p [] = none
  find p (x ∷ xs) = if p x then some x else find p xs

  -- A predicate of every entry.
  abbrev pub All {κ} : (A → Type κ) → List A → Type κ
  All P [] = Unit
  All P (x ∷ xs) = P x × All P xs

  pub length-append : (xs ys : List A) → length (xs ++ ys) ≡ length xs + length ys
  length-append [] ys = omega arith
  length-append (x ∷ xs) ys = omega (arith, length-append xs ys)

  pub all_iff : (p : A → Bool) (xs : List A) → all p xs ≡ true → All (λ x. p x ≡ true) xs
  all_iff p [] h = tt
  all_iff p (x ∷ xs) h = (ground arith, all_iff p xs (ground arith))

  pub find-holds : (p : A → Bool) (xs : List A) (a : A) → find p xs ≡ some a → p a ≡ true
  find-holds p [] a h = cc
  find-holds p (x ∷ xs) a h = ground (arith, find-holds p xs a)

  -- One more entry stays within a bound that an entry that counts leaves room for.
  pub length-keep-bound :
      (p : A → Bool) (x : A) (xs : List A) (n : ℕ)
      → length (keep p xs) ≤ n
      → (p x ≡ true → length (keep p xs) < n)
      → length (keep p (x ∷ xs)) ≤ n
  length-keep-bound p x xs n h room = ground (arith, room)

module _ {ℓ κ} {A : Type ℓ} {B : Type κ} where
  abbrev pub concat_map : (A → List B) → List A → List B
  concat_map f [] = []
  concat_map f (x ∷ xs) = f x ++ concat_map f xs

module _ {ℓ κ} {A : Type ℓ} {P Q : A → Type κ} where
  pub All-map : ((x : A) → P x → Q x) → (xs : List A) → All P xs → All Q xs
  All-map f [] h = tt
  All-map f (x ∷ xs) h = (f x h.0, All-map f xs h.1)

module _ {ℓ κ} {A : Type ℓ} (P : A → Type κ) where
  -- What holds of every entry holds of one that is found.
  pub any-All :
      (p : A → Bool) (xs : List A) → any p xs ≡ true → All P xs → (x : A) × (p x ≡ true) × P x
  any-All p [] h k = cc
  any-All p (x ∷ xs) h k = elim (Bool-cases (p x)) [
    | inl here ↦ (x, here, k.0)
    | inr away ↦ any-All p xs (rw away at h) k.1
  ]

  pub find-All : (p : A → Bool) (xs : List A) (a : A) → find p xs ≡ some a → All P xs → P a
  find-All p [] a h k = cc
  find-All p (x ∷ xs) a h k = elim (Bool-cases (p x)) [
    | inl here ↦ subst P (from_some (rw here at h)) k.0
    | inr away ↦ find-All p xs a (rw away at h) k.1
  ]
