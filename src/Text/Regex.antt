-- ===== src/Text/Regex.antt =====
-- Python's `re`, as far as the source searches with it: literals, alternatives, sequences and
-- `.{0,n}`. A pattern gives every end that a match from a place can have.
use ai_rpg.Prelude.{
  ℕ, zero, suc, Bool, true, false, ◌||◌, Option, none, some, List, [], ◌∷◌, ◌++◌, nat_eq,
  if◌then◌else◌,
}
use ai_rpg.Text.{Text}

pub data Regex : Type 0 where
  lit : Text → Regex
  seq : Regex → Regex → Regex
  alt : Regex → Regex → Regex
  -- `.{0,n}`
  up_to : ℕ → Regex
  never : Regex

-- What is left of a text behind a prefix.
unfoldable pub strip : Text → Text → Option Text
strip [] t = some t
strip (c ∷ s) [] = none
strip (c ∷ s) (d ∷ t) = let rest = strip s t in if nat_eq c d then rest else none

abbrev to_list : Option Text → List Text
to_list none = []
to_list (some t) = t ∷ []

-- The dot takes any character but the end of a line.
pub skip_up_to : ℕ → Text → List Text
skip_up_to zero t = t ∷ []
skip_up_to (suc n) [] = [] ∷ []
skip_up_to (suc n) (c ∷ t) =
    let further = skip_up_to n t ++ (c ∷ t) ∷ [] in if nat_eq c 10 then (c ∷ t) ∷ [] else further

pub gather : (Text → List Text) → List Text → List Text
gather f [] = []
gather f (t ∷ ts) = f t ++ gather f ts

unfoldable pub ends : Regex → Text → List Text
unfolding strip skip_up_to gather
ends (lit s) t = to_list (strip s t)
ends (seq a b) t = gather (ends b) (ends a t)
ends (alt a b) t = ends a t ++ ends b t
ends (up_to n) t = skip_up_to n t
ends never t = []

abbrev pub is_nonempty {ℓ} : {A : Type ℓ} → List A → Bool
is_nonempty [] = false
is_nonempty (x ∷ xs) = true

-- `re.search(...) is not None`
unfoldable pub search : Regex → Text → Bool
unfolding ends
search r [] = is_nonempty (ends r [])
search r (c ∷ t) = is_nonempty (ends r (c ∷ t)) || search r t

-- `(?:a|b|...)`
abbrev pub one_of : List Text → Regex
one_of [] = never
one_of (s ∷ rest) = alt (lit s) (one_of rest)
