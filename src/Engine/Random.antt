-- ===== src/Engine/Random.antt =====
-- engine/dice.py: the random sources. The operating system's randomness and `random.Random` are
-- not the program's code, so a source is an interface over a state of its own.
use ai_rpg.Prelude.{
  ℕ, ◌+◌, ◌-◌, ◌≤◌, ◌<◌, arith, Result, ok, err, Error, Bool, true, false, checks, AllFalse, List,
  [], ◌∷◌, refl, ap, ◌≡◌,
}

-- `RandomSource`: an integer between both ends, which are included.
pub record RandomSource (S : Type 0) : Type 0 where
  pub randint : ℕ → ℕ → S → ℕ × S
  pub randint_bounds :
      (lower upper : ℕ) (s : S)
      → lower ≤ upper
      → (lower ≤ (randint lower upper s).0) × ((randint lower upper s).0 ≤ upper)

-- `secrets.randbelow`: a number below its argument.
pub record Secrets (S : Type 0) : Type 0 where
  pub randbelow : ℕ → S → ℕ × S
  pub randbelow-lt : (n : ℕ) (s : S) → 0 < n → (randbelow n s).0 < n

module _ {S : Type 0} (os : Secrets S) where
  -- `SecureRandomSource.randint`, at a lower end that does not exceed the upper one.
  unfoldable pub secure_randint : ℕ → ℕ → S → ℕ × S
  secure_randint lower upper s = let (n, s') = os.randbelow (upper - lower + 1) s in (n + lower, s')

  -- The secure source gives integers between the two ends it was asked for, both included.
  pub secure_randint_bounds :
      (lower upper : ℕ) (s : S)
      → lower ≤ upper
      → (lower ≤ (secure_randint lower upper s).0) × ((secure_randint lower upper s).0 ≤ upper)
  unfolding secure_randint
  secure_randint_bounds lower upper s h =
      omega (arith, os.randbelow-lt (upper - lower + 1) s (omega arith))

  abbrev pub SecureRandomSource : RandomSource S
  SecureRandomSource = record { randint = secure_randint; randint_bounds = secure_randint_bounds }

-- Computations that draw numbers and may raise. The source's state comes back in either case.
abbrev pub Draw : Type 0 → Type 0 → Type 0
Draw S A = S → Result A × S

module _ {S A : Type 0} where
  abbrev pub pure : A → Draw S A
  pure a s = (ok a, s)

  abbrev pub lift : Result A → Draw S A
  lift r s = (r, s)

module _ {S A B : Type 0} where
  abbrev pub resume : Result A → (A → Draw S B) → Draw S B
  resume (ok a) f s = f a s
  resume (err e) f s = (err e, s)

  infixl 5 ◌>>=◌
  abbrev pub ◌>>=◌ : Draw S A → (A → Draw S B) → Draw S B
  ◌>>=◌ m f s = let (r, s') = m s in resume r f s'

infixl 5 ◌>>◌
abbrev pub ◌>>◌ : {S B : Type 0} → Draw S (Unit {0}) → Draw S B → Draw S B
m >> k = m >>= λ _. k

-- What a computation that returned has passed.
module _ {S A B : Type 0} where
  resume-eq-ok :
      (r : Result A) (f : A → Draw S B) (s : S) (b : B)
      → (resume r f s).0 ≡ ok b
      → (a : A) × (r ≡ ok a) × ((f a s).0 ≡ ok b)
  resume-eq-ok (ok a) f s b h = (a, refl, h)
  resume-eq-ok (err e) f s b h = cc

  pub bind-eq-ok :
      (m : Draw S A) (f : A → Draw S B) (s : S) (b : B)
      → ((m >>= f) s).0 ≡ ok b
      → (a : A) × ((m s).0 ≡ ok a) × ((f a (m s).1).0 ≡ ok b)
  bind-eq-ok m f s b h = let (r, s') = m s in resume-eq-ok r f s' b h

  -- A step that returns can be left out.
  pub bind-ok :
      (m : Draw S A) (f : A → Draw S B) (s : S) (a : A)
      → (m s).0 ≡ ok a
      → ((m >>= f) s).0 ≡ (f a (m s).1).0
  bind-ok m f s a h = ap (λ r. (resume r f (m s).1).0) h

-- A row of tests before the rest.
module _ {S A : Type 0} where
  pub checks-bind-eq-ok :
      (l : List (Bool × Error)) (m : Draw S A) (s : S) (a : A)
      → ((lift (checks l) >> m) s).0 ≡ ok a
      → AllFalse l × ((m s).0 ≡ ok a)
  checks-bind-eq-ok [] m s a h = (tt, h)
  checks-bind-eq-ok ((true, e) ∷ l) m s a h = cc
  checks-bind-eq-ok ((false, e) ∷ l) m s a h =
      let rest = checks-bind-eq-ok l m s a h in ((refl, rest.0), rest.1)

  pub checks-bind :
      (l : List (Bool × Error)) (m : Draw S A) (s : S) → AllFalse l → (lift (checks l) >> m) s ≡ m s
  checks-bind [] m s h = refl
  checks-bind ((true, e) ∷ l) m s h = cc (h.0)
  checks-bind ((false, e) ∷ l) m s h = checks-bind l m s h.1

  pub checks-bind-ok :
      (l : List (Bool × Error)) (m : Draw S A) (s : S) (a : A)
      → AllFalse l
      → (m s).0 ≡ ok a
      → ((lift (checks l) >> m) s).0 ≡ ok a
  checks-bind-ok l m s a h e = rw (checks-bind l m s h) e
