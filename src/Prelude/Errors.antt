-- ===== src/Prelude/Errors.antt =====
-- Exceptions as values: the class that the source raises, with its message, and the steps that a
-- function makes before it returns or raises.
use Prim.Native.Nat.{ℕ}
use Prim.Native.String.{String}
use mathlib.Core.Path.{◌≡◌, refl}
use mathlib.Core.Bool.{Bool, true, false}
use mathlib.Core.Option.{Option, none, some}
use mathlib.Core.List.{List, [], ◌∷◌, ◌++◌}
use ai_rpg.Prelude.Lists.{All, concat_map}

pub data Error : Type 0 where
  value_error : String → Error
  key_error : Error
  stop_iteration : Error
  -- ScenarioStateError
  scenario_state : String → Error
  -- ScenarioActionUnavailableError
  action_unavailable : String → Error
  -- InvalidCommitBundleError
  invalid_bundle : String → Error
  -- CallBudgetExceeded
  call_budget_exceeded : String → Error
  -- StoryError, with its status code
  story_error : String → ℕ → Error
  assertion_error : Error
  -- IntegrityError, of a constraint of the database
  integrity_error : Error
  runtime_error : String → Error
  authorization_error : String → Error
  -- StateVersionConflictError
  version_conflict : String → Error
  -- PhaseDeadlineExceededError
  deadline_exceeded : String → Error
  -- NoResultFound
  no_result : Error

-- A call that returned a value, or the exception that it raised.
pub data Result {ℓ} (V : Type ℓ) : Type ℓ where
  ok : V → Result V
  err : Error → Result V

-- What comes after a call runs on its value; an exception passes through.
module _ {κ ℓ} {V : Type κ} {W : Type ℓ} where
  infixl 5 ◌>>=◌
  abbrev pub ◌>>=◌ : Result V → (V → Result W) → Result W
  ok v >>= next = next v
  err raised >>= next = err raised

module _ {ℓ} {W : Type ℓ} where
  infixl 5 ◌>>◌
  abbrev pub ◌>>◌ : Result (Unit {0}) → Result W → Result W
  first >> rest = first >>= λ _. rest

-- `if test: raise error`
abbrev pub raise_if : Bool → Error → Result (Unit {0})
raise_if true e = err e
raise_if false e = ok tt

-- A row of such tests, made in turn.
abbrev pub checks : List (Bool × Error) → Result (Unit {0})
checks [] = ok tt
checks ((b, e) ∷ rest) = raise_if b e >> checks rest

abbrev pub or_raise {ℓ} : {A : Type ℓ} → Option A → Error → Result A
or_raise none e = err e
or_raise (some a) e = ok a

-- A loop whose body only raises.
abbrev pub for_each {ℓ} : {A : Type ℓ} → (A → Result (Unit {0})) → List A → Result (Unit {0})
for_each f [] = ok tt
for_each f (x ∷ xs) = f x >> for_each f xs

abbrev pub IsOk {ℓ} : {A : Type ℓ} → Result A → Type 0
IsOk (ok a) = Unit
IsOk (err e) = ⊥

-- Every test of a row that passed is false, and such a row passes.
abbrev pub AllFalse : List (Bool × Error) → Type 0
AllFalse [] = Unit
AllFalse ((b, e) ∷ rest) = (b ≡ false) × AllFalse rest

pub checks-AllFalse : (l : List (Bool × Error)) → checks l ≡ ok tt → AllFalse l
checks-AllFalse [] h = tt
checks-AllFalse ((true, e) ∷ rest) h = cc
checks-AllFalse ((false, e) ∷ rest) h = (refl, checks-AllFalse rest h)

pub AllFalse-checks : (l : List (Bool × Error)) → AllFalse l → checks l ≡ ok tt
AllFalse-checks [] h = refl
AllFalse-checks ((true, e) ∷ rest) h = cc (h.0)
AllFalse-checks ((false, e) ∷ rest) h = AllFalse-checks rest h.1

pub raise_if-ok : (b : Bool) (e : Error) → raise_if b e ≡ ok tt → b ≡ false
raise_if-ok true e h = cc
raise_if-ok false e h = refl

-- What a computation that returned has passed.
module _ {ℓ} {A : Type ℓ} where
  pub raise_if-eq-ok :
      (b : Bool) (e : Error) (m : Result A) (a : A)
      → (raise_if b e >> m) ≡ ok a
      → (b ≡ false) × (m ≡ ok a)
  raise_if-eq-ok true e m a h = cc
  raise_if-eq-ok false e m a h = (refl, h)

module _ {κ ℓ} {V : Type κ} {W : Type ℓ} where
  pub >>=-eq-ok :
      (first : Result V) (next : V → Result W) {w : W}
      → (first >>= next) ≡ ok w
      → (v : V) × (first ≡ ok v) × (next v ≡ ok w)
  >>=-eq-ok (ok v) next h = (v, refl, h)
  >>=-eq-ok (err raised) next h = cc

pub from_ok {ℓ} : {A : Type ℓ} {a b : A} → ok a ≡ ok b → a ≡ b
from_ok h = cc

module _ {ℓ} {A : Type ℓ} where
  pub or_raise-eq-ok : (o : Option A) (e : Error) (a : A) → or_raise o e ≡ ok a → o ≡ some a
  or_raise-eq-ok none e a h = cc
  or_raise-eq-ok (some b) e a h = cc

  pub for_each-eq-ok :
      (f : A → Result (Unit {0})) (xs : List A) → for_each f xs ≡ ok tt → All (λ x. f x ≡ ok tt) xs
  for_each-eq-ok f [] h = tt
  for_each-eq-ok f (x ∷ xs) h =
      let (_, first, rest) = >>=-eq-ok (f x) _ h in (first, for_each-eq-ok f xs rest)

-- Rows that are put together pass together.
pub AllFalse-append : (l m : List (Bool × Error)) → AllFalse (l ++ m) → AllFalse l × AllFalse m
AllFalse-append [] m h = (tt, h)
AllFalse-append ((b, e) ∷ l) m h = let rest = AllFalse-append l m h.1 in ((h.0, rest.0), rest.1)

module _ {ℓ} {A : Type ℓ} where
  pub AllFalse-concat_map :
      (f : A → List (Bool × Error)) (xs : List A)
      → AllFalse (concat_map f xs)
      → All (λ x. AllFalse (f x)) xs
  AllFalse-concat_map f [] h = tt
  AllFalse-concat_map f (x ∷ xs) h =
      let parts = AllFalse-append (f x) (concat_map f xs) h in
      (parts.0, AllFalse-concat_map f xs parts.1)
