-- ===== src/Prelude/Rows/Evolution.antt =====
-- How each row of a table goes over into that of another, and the rows that a condition selects.
use Prim.Native.Nat.{ℕ, ◌≤◌}
use mathlib.Core.Path.{◌≡◌, refl, subst}
use mathlib.Core.Logic.{◌⊎◌, inl, inr}
use mathlib.Core.Bool.{Bool, true}
use mathlib.Core.Option.{Option, none, some}
use mathlib.Core.List.{List, [], ◌∷◌, map}
use native.Mathlib.Omega.{arith}
use ai_rpg.Prelude.Tests.{if◌then◌else◌, Bool-cases, Option-cases, from_some}
use ai_rpg.Prelude.Keys.{id_eq}
use ai_rpg.Prelude.Lists.{All, find, keep, length}

module _ {ℓ} {A : Type ℓ} where
  -- Row by row.
  abbrev pub Evolves : (A → A → Type 0) → List A → List A → Type 0
  Evolves R [] [] = Unit
  Evolves R [] (y ∷ ys) = ⊥
  Evolves R (x ∷ xs) [] = ⊥
  Evolves R (x ∷ xs) (y ∷ ys) = R x y × Evolves R xs ys

  pub map-Evolves :
      (R : A → A → Type 0) (f : A → A) (xs : List A)
      → ((x : A) → R x (f x))
      → Evolves R xs (map f xs)
  map-Evolves R f [] h = tt
  map-Evolves R f (x ∷ xs) h = (h x, map-Evolves R f xs h)

  pub Evolves-refl : (R : A → A → Type 0) (xs : List A) → ((x : A) → R x x) → Evolves R xs xs
  Evolves-refl R [] f = tt
  Evolves-refl R (x ∷ xs) f = (f x, Evolves-refl R xs f)

  pub Evolves-trans :
      (R : A → A → Type 0) (xs ys zs : List A)
      → ((x y z : A) → R x y → R y z → R x z)
      → Evolves R xs ys
      → Evolves R ys zs
      → Evolves R xs zs
  Evolves-trans R [] [] [] f h k = tt
  Evolves-trans R [] [] (z ∷ zs) f h k = absurd k
  Evolves-trans R [] (y ∷ ys) zs f h k = absurd h
  Evolves-trans R (x ∷ xs) [] zs f h k = absurd h
  Evolves-trans R (x ∷ xs) (y ∷ ys) [] f h k = absurd k
  Evolves-trans R (x ∷ xs) (y ∷ ys) (z ∷ zs) f h k =
      (f x y z h.0 k.0, Evolves-trans R xs ys zs f h.1 k.1)

  pub Evolves-All :
      (R : A → A → Type 0) (P Q : A → Type 0) (xs ys : List A)
      → ((x y : A) → R x y → P x → Q y)
      → Evolves R xs ys
      → All P xs
      → All Q ys
  Evolves-All R P Q [] [] f h k = tt
  Evolves-All R P Q [] (y ∷ ys) f h k = absurd h
  Evolves-All R P Q (x ∷ xs) [] f h k = absurd h
  Evolves-All R P Q (x ∷ xs) (y ∷ ys) f h k = (f x y h.0 k.0, Evolves-All R P Q xs ys f h.1 k.1)

  pub Evolves-map_eq :
      (key : A → ℕ) (R : A → A → Type 0) (xs ys : List A)
      → ((x y : A) → R x y → key y ≡ key x)
      → Evolves R xs ys
      → map key ys ≡ map key xs
  Evolves-map_eq key R [] [] f h = refl
  Evolves-map_eq key R [] (y ∷ ys) f h = absurd h
  Evolves-map_eq key R (x ∷ xs) [] f h = absurd h
  Evolves-map_eq key R (x ∷ xs) (y ∷ ys) f h = cc (f x y h.0, Evolves-map_eq key R xs ys f h.1)

  pub Evolves-weaken :
      (R S : A → A → Type 0) (xs ys : List A)
      → ((x y : A) → R x y → S x y)
      → Evolves R xs ys
      → Evolves S xs ys
  Evolves-weaken R S [] [] f h = tt
  Evolves-weaken R S [] (y ∷ ys) f h = absurd h
  Evolves-weaken R S (x ∷ xs) [] f h = absurd h
  Evolves-weaken R S (x ∷ xs) (y ∷ ys) f h = (f x y h.0, Evolves-weaken R S xs ys f h.1)

  -- A count does not grow where no row comes to be counted.
  pub Evolves-count :
      (p : A → Bool) (R : A → A → Type 0) (xs ys : List A)
      → ((x y : A) → R x y → p y ≡ true → p x ≡ true)
      → Evolves R xs ys
      → length (keep p ys) ≤ length (keep p xs)
  Evolves-count p R [] [] f h = omega arith
  Evolves-count p R [] (y ∷ ys) f h = absurd h
  Evolves-count p R (x ∷ xs) [] f h = absurd h
  Evolves-count p R (x ∷ xs) (y ∷ ys) f h =
      let rest = Evolves-count p R xs ys f h.1 in ground (arith, f x y h.0)

module _ {A : Type 0} where
  abbrev pub Among : A → List A → Type 0
  Among a [] = ⊥
  Among a (x ∷ xs) = (x ≡ a) ⊎ Among a xs

  pub Among-All : (P : A → Type 0) (a : A) (xs : List A) → Among a xs → All P xs → P a
  Among-All P a [] m h = absurd m
  Among-All P a (x ∷ xs) (inl here) h = subst P here h.0
  Among-All P a (x ∷ xs) (inr away) h = Among-All P a xs away h.1

  pub Evolves-Among :
      (R : A → A → Type 0) (xs ys : List A) (a : A)
      → Evolves R xs ys
      → Among a xs
      → (b : A) × Among b ys × R a b
  Evolves-Among R [] ys a h m = absurd m
  Evolves-Among R (x ∷ xs) [] a h m = absurd h
  Evolves-Among R (x ∷ xs) (y ∷ ys) a h (inl same) = (y, inl refl, subst (λ z. R z y) same h.0)
  Evolves-Among R (x ∷ xs) (y ∷ ys) a h (inr away) =
      let (b, m, step) = Evolves-Among R xs ys a h.1 away in (b, inr m, step)

  pub find-Among : (p : A → Bool) (xs : List A) (a : A) → find p xs ≡ some a → Among a xs
  find-Among p [] a h = cc
  find-Among p (x ∷ xs) a h = elim (Bool-cases (p x)) [
    | inl here ↦ inl (from_some (rw here at h))
    | inr away ↦ inr (find-Among p xs a (rw away at h))
  ]

  -- The first, by an order, of the rows that a condition selects.
  abbrev pub first_row : (A → Bool) → (A → A → Bool) → List A → Option A
  first_row p before [] = none
  first_row p before (x ∷ xs) =
      let rest = first_row p before xs in
      if p x
      then elim rest [ none ↦ some x | some y ↦ if before y x then some y else some x ]
      else rest

  pub first_row_lem :
      (p : A → Bool) (before : A → A → Bool) (xs : List A) (a : A)
      → first_row p before xs ≡ some a
      → (p a ≡ true) × Among a xs
  first_row_lem p before [] a h = cc
  first_row_lem p before (x ∷ xs) a h = elim (Bool-cases (p x)) [
    | inl chosen ↦ elim (Option-cases (first_row p before xs)) [
      | inl alone ↦
          let same : x ≡ a = from_some (rw (chosen, alone) at h) in
          subst (λ y. (p y ≡ true) × Among y (x ∷ xs)) same (chosen, inl refl)
      | inr (y, found) ↦
          let (also, among) = first_row_lem p before xs y found in
          elim (Bool-cases (before y x)) [
            | inl earlier ↦
                let same : y ≡ a = from_some (rw (chosen, found, earlier) at h) in
                subst (λ z. (p z ≡ true) × Among z (x ∷ xs)) same (also, inr among)
            | inr later ↦
                let same : x ≡ a = from_some (rw (chosen, found, later) at h) in
                subst (λ z. (p z ≡ true) × Among z (x ∷ xs)) same (chosen, inl refl)
          ]
    ]
    | inr passed ↦
        let (also, among) = first_row_lem p before xs a (rw passed at h) in (also, inr among)
  ]
