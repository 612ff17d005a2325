-- ===== src/Prelude/Rows/Updates.antt =====
-- What holds after the row of a key is written.
use Prim.Native.Nat.{ℕ, suc, ◌≤◌}
use mathlib.Core.Path.{◌≡◌, refl, sym, subst, ap}
use mathlib.Core.Logic.{◌⊎◌, inl, inr}
use mathlib.Core.Bool.{Bool, true, false}
use mathlib.Core.Option.{none, some}
use mathlib.Core.List.{List, [], ◌∷◌, map}
use native.Mathlib.Omega.{arith}
use ai_rpg.Prelude.Tests.{Option-cases, if◌then◌else◌, Bool-cases, from_some, nat_eq, nat_eq_iff}
use ai_rpg.Prelude.Keys.{id_eq, contains, is_unique}
use ai_rpg.Prelude.Lists.{find-holds, All, find, keep, length}
use ai_rpg.Prelude.Rows.Evolution.{Evolves, Among, Among-All, find-Among}

module _ {A : Type 0} (key : A → ℕ) where
  abbrev pub update : ℕ → (A → A) → List A → List A
  update k f xs = map (λ x. if nat_eq (key x) k then f x else x) xs

  -- A row is the only one with its key.
  abbrev pub IsOnly : A → List A → Type 0
  IsOnly a xs = All (λ x. key x ≡ key a → x ≡ a) xs

  absent-IsOnly : (a : A) (xs : List A) → contains (key a) (map key xs) ≡ false → IsOnly a xs
  absent-IsOnly a [] h = tt
  absent-IsOnly a (x ∷ xs) h = (
    λ same. absurd (ground (arith, nat_eq_iff (key a) (key x))),
    absent-IsOnly a xs (ground arith),
  )

  find-contains :
      (p : A → Bool) (xs : List A) (a : A)
      → find p xs ≡ some a
      → contains (key a) (map key xs) ≡ true
  find-contains p [] a h = cc
  find-contains p (x ∷ xs) a h = elim (Bool-cases (p x)) [
    | inl here ↦
        let same : x ≡ a = from_some (rw here at h) in
        subst (λ y. contains (key y) (map key (x ∷ xs)) ≡ true) same
          (ground (arith, nat_eq_iff (key x) (key x)))
    | inr away ↦ let rest = find-contains p xs a (rw away at h) in ground arith
  ]

  pub find-IsOnly :
      (p : A → Bool) (xs : List A) (a : A)
      → is_unique (map key xs) ≡ true
      → find p xs ≡ some a
      → IsOnly a xs
  find-IsOnly p [] a u h = cc
  find-IsOnly p (x ∷ xs) a u h = elim (Bool-cases (p x)) [
    | inl here ↦
        let same : x ≡ a = from_some (rw here at h) in
        (
          λ _. same,
          absent-IsOnly a xs
              (subst (λ y. contains (key y) (map key xs) ≡ false) same (ground arith)),
        )
    | inr away ↦
        let found : find p xs ≡ some a = rw away at h in
        (
          λ same. absurd (twice (find-contains p xs a found) same),
          find-IsOnly p xs a (ground arith) found,
        )
  ]
    where
      twice : contains (key a) (map key xs) ≡ true → key x ≡ key a → ⊥
      twice inside same =
          let also : contains (key x) (map key xs) ≡ true = rw same inside in ground arith

  Among-contains : (xs : List A) (a : A) → Among a xs → contains (key a) (map key xs) ≡ true
  Among-contains [] a m = absurd m
  Among-contains (x ∷ xs) a (inl here) =
      subst (λ y. contains (key y) (map key (x ∷ xs)) ≡ true) here
        (ground (arith, nat_eq_iff (key x) (key x)))
  Among-contains (x ∷ xs) a (inr away) = let rest = Among-contains xs a away in ground arith

  pub Among-IsOnly :
      (xs : List A) (a : A) → is_unique (map key xs) ≡ true → Among a xs → IsOnly a xs
  Among-IsOnly [] a u m = absurd m
  Among-IsOnly (x ∷ xs) a u (inl here) = (
    λ _. here,
    absent-IsOnly a xs (subst (λ y. contains (key y) (map key xs) ≡ false) here (ground arith)),
  )
  Among-IsOnly (x ∷ xs) a u (inr away) = (
    λ same. absurd (twice (Among-contains xs a away) same),
    Among-IsOnly xs a (ground arith) away,
  )
    where
      twice : contains (key a) (map key xs) ≡ true → key x ≡ key a → ⊥
      twice inside same =
          let also : contains (key x) (map key xs) ≡ true = rw same inside in ground arith

  pub update-Evolves :
      (R : A → A → Type 0) (a : A) (f : A → A) (xs : List A)
      → IsOnly a xs
      → ((x : A) → R x x)
      → R a (f a)
      → Evolves R xs (update (key a) f xs)
  update-Evolves R a f [] only same step = tt
  update-Evolves R a f (x ∷ xs) only same step =
      (first (Bool-cases (nat_eq (key x) (key a))), update-Evolves R a f xs only.1 same step)
    where
      first :
          (nat_eq (key x) (key a) ≡ true) ⊎ (nat_eq (key x) (key a) ≡ false)
          → R x (if nat_eq (key x) (key a) then f x else x)
      first (inl here) =
          rw here (subst (λ y. R y (f y)) (sym (only.0 ((nat_eq_iff (key x) (key a)).0 here))) step)
      first (inr away) = rw away (same x)

  pub Among-update :
      (a : A) (f : A → A) (xs : List A) → Among a xs → Among (f a) (update (key a) f xs)
  Among-update a f [] m = absurd m
  Among-update a f (x ∷ xs) (inl same) =
      let here : nat_eq (key x) (key a) ≡ true = rw same ((nat_eq_iff (key a) (key a)).1 refl) in
      rw here (inl (ap f same))
  Among-update a f (x ∷ xs) (inr away) = inr (Among-update a f xs away)

  -- A row that a condition selects is still the one after it is written.
  pub find-update :
      (p : A → Bool) (f : A → A) (xs : List A) (a : A)
      → ((x : A) → p (f x) ≡ p x)
      → find p xs ≡ some a
      → find p (update (key a) f xs) ≡ some (f a)
  find-update p f [] a kept h = cc
  find-update p f (x ∷ xs) a kept h = elim (Bool-cases (p x)) [
    | inl here ↦
        let same : x ≡ a = from_some (rw here at h) in
        let mine : nat_eq (key x) (key a) ≡ true = rw same ((nat_eq_iff (key a) (key a)).1 refl) in
        rw (mine, kept x, here) (ap (λ y. some (f y)) same)
    | inr away ↦
        let rest = find-update p f xs a kept (rw away at h) in
        elim (Bool-cases (nat_eq (key x) (key a))) [
          | inl mine ↦ rw (mine, kept x, away) rest
          | inr other ↦ rw (other, away) rest
        ]
  ]

  absent-update :
      (k : ℕ) (f : A → A) (xs : List A) → contains k (map key xs) ≡ false → update k f xs ≡ xs
  absent-update k f [] h = refl
  absent-update k f (x ∷ xs) h =
      let away : nat_eq (key x) k ≡ false = ground arith in
      rw (away, absent-update k f xs (ground arith)) refl

  -- One row at most comes to be counted.
  pub update-count :
      (p : A → Bool) (k : ℕ) (f : A → A) (xs : List A)
      → is_unique (map key xs) ≡ true
      → length (keep p (update k f xs)) ≤ suc (length (keep p xs))
  update-count p k f [] u = omega arith
  update-count p k f (x ∷ xs) u = elim (Bool-cases (nat_eq (key x) k)) [
    | inl here ↦
        let same : key x ≡ k = (nat_eq_iff (key x) k).0 here in
        let away : contains k (map key xs) ≡ false = rw (sym same) (ground arith) in
        rw (here, absent-update k f xs away) (ground arith)
    | inr away ↦ let rest = update-count p k f xs (ground arith) in rw away (ground arith)
  ]

  -- A row is found by any test that it passes and that only its key passes.
  pub find_only :
      (p : A → Bool) (xs : List A) (a : A)
      → is_unique (map key xs) ≡ true
      → Among a xs
      → p a ≡ true
      → ((x : A) → p x ≡ true → key x ≡ key a)
      → find p xs ≡ some a
  find_only p xs a u among holds only = elim (Option-cases (find p xs)) [
    | inl missing ↦ absurd (never_missing p xs a among holds missing)
    | inr (b, found) ↦
        let same : b ≡ a =
          Among-All (λ x. key x ≡ key a → x ≡ a) b xs (find-Among p xs b found)
            (Among-IsOnly xs a u among) (only b (find-holds p xs b found)) in
        subst (λ x. find p xs ≡ some x) same found
  ]
    where
      never_missing :
          (p : A → Bool) (xs : List A) (a : A) → Among a xs → p a ≡ true → find p xs ≡ none → ⊥
      never_missing p [] a m holds h = m
      never_missing p (x ∷ xs) a (inl same) holds h =
          let here : p x ≡ true = rw same holds in cc (rw here at h)
      never_missing p (x ∷ xs) a (inr m) holds h = elim (Bool-cases (p x)) [
        | inl here ↦ absurd (cc (rw here at h))
        | inr away ↦ never_missing p xs a m holds (rw away at h)
      ]
