-- ===== src/Authoring/Phases.antt =====
-- What the store of authoring jobs promises of a job, as a machine of its own: a job waits, is
-- held by one worker under an epoch, or has ended; and the phase of a row of the store
-- (infrastructure/postgres/story_jobs.py).
use ai_rpg.Prelude.{ℕ, ◌+◌, Bool, true, false, ◌<◌, ◌≤◌, ◌≡◌, refl, arith, ltb}
use mathlib.Core.Path.{subst, sym}
use ai_rpg.Authoring.Tables.{
  JobState, queued, running, succeeded, failed, cancelled, AuthoringJobModel,
}

pub data Outcome : Type 0 where
  success : Outcome
  failure : Outcome
  cancellation : Outcome

-- The attempts made and the epoch; while it is held, also whether its request was sent.
pub data Phase : Type 0 where
  waiting : ℕ → ℕ → Phase
  held : ℕ → ℕ → Bool → Phase
  ended : Outcome → ℕ → Phase

-- What may happen to a job that has so many attempts.
pub data Move (most : ℕ) : Phase → Phase → Type 0 where
  start : {a e : ℕ} → a < most → Move most (waiting a e) (held (a + 1) (e + 1) false)
  send : {a e : ℕ} → Move most (held a e false) (held a e true)
  -- A lease that ran out, with nothing sent and attempts left.
  requeue : {a e : ℕ} → a < most → Move most (held a e false) (waiting a (e + 1))
  succeed : {a e : ℕ} → Move most (held a e true) (ended success e)
  fail : {a e : ℕ} {sent : Bool} → Move most (held a e sent) (ended failure e)
  -- A lease that ran out.
  expire : {a e : ℕ} {sent : Bool} → Move most (held a e sent) (ended failure (e + 1))
  drop : {a e : ℕ} → Move most (waiting a e) (ended cancellation (e + 1))
  stop : {a e : ℕ} {sent : Bool} → Move most (held a e sent) (ended cancellation (e + 1))

pub data Moves (most : ℕ) (p : Phase) : Phase → Type 0 where
  here : Moves most p p
  then_move : {q r : Phase} → Moves most p q → Move most q r → Moves most p r

pub Moves-trans : {most : ℕ} {p q r : Phase} → Moves most p q → Moves most q r → Moves most p r
Moves-trans left here = left
Moves-trans left (then_move rest move) = then_move (Moves-trans left rest) move

pub one_move : {most : ℕ} {p q : Phase} → Move most p q → Moves most p q
one_move move = then_move here move

-- The attempts made and the epoch.
abbrev pub epoch_of : Phase → ℕ
epoch_of (waiting a e) = e
epoch_of (held a e sent) = e
epoch_of (ended outcome e) = e

abbrev pub HasEnded : Phase → Type 0
HasEnded (ended outcome e) = Unit
HasEnded _ = ⊥

-- A request was sent and may have been answered: the job is held or has ended.
abbrev pub IsSent : Phase → Type 0
IsSent (held a e true) = Unit
IsSent (ended outcome e) = Unit
IsSent _ = ⊥

-- The worker of an epoch has lost the job, once it has ended or its epoch is over.
abbrev pub IsLost : ℕ → Phase → Type 0
IsLost epoch (waiting a e) = epoch < e
IsLost epoch (held a e sent) = epoch < e
IsLost epoch (ended outcome e) = Unit

Move-IsLost : {most : ℕ} {p q : Phase} (epoch : ℕ) → Move most p q → IsLost epoch p → IsLost epoch q
Move-IsLost epoch (start h) l = omega arith
Move-IsLost epoch send l = l
Move-IsLost epoch (requeue h) l = omega arith
Move-IsLost epoch succeed l = tt
Move-IsLost epoch fail l = tt
Move-IsLost epoch expire l = tt
Move-IsLost epoch drop l = tt
Move-IsLost epoch stop l = tt

pub Moves-IsLost :
    {most : ℕ} {p q : Phase} (epoch : ℕ) → Moves most p q → IsLost epoch p → IsLost epoch q
Moves-IsLost epoch here l = l
Moves-IsLost epoch (then_move rest move) l = Move-IsLost epoch move (Moves-IsLost epoch rest l)

Move-HasEnded : {most : ℕ} {p q : Phase} → Move most p q → HasEnded p → ⊥
Move-HasEnded (start h) k = k
Move-HasEnded send k = k
Move-HasEnded (requeue h) k = k
Move-HasEnded succeed k = k
Move-HasEnded fail k = k
Move-HasEnded expire k = k
Move-HasEnded drop k = k
Move-HasEnded stop k = k

pub Moves-HasEnded : {most : ℕ} {p q : Phase} → Moves most p q → HasEnded p → q ≡ p
Moves-HasEnded here k = refl
Moves-HasEnded (then_move rest move) k =
    absurd (Move-HasEnded move (subst HasEnded (sym (Moves-HasEnded rest k)) k))

Move-epoch : {most : ℕ} {p q : Phase} → Move most p q → epoch_of p ≤ epoch_of q
Move-epoch (start h) = omega arith
Move-epoch send = omega arith
Move-epoch (requeue h) = omega arith
Move-epoch succeed = omega arith
Move-epoch fail = omega arith
Move-epoch expire = omega arith
Move-epoch drop = omega arith
Move-epoch stop = omega arith

pub Moves-epoch : {most : ℕ} {p q : Phase} → Moves most p q → epoch_of p ≤ epoch_of q
Moves-epoch here = omega arith
Moves-epoch (then_move rest move) = omega (arith, Moves-epoch rest, Move-epoch move)

Move-IsSent : {most : ℕ} {p q : Phase} → Move most p q → IsSent p → IsSent q
Move-IsSent (start h) k = k
Move-IsSent send k = tt
Move-IsSent (requeue h) k = absurd k
Move-IsSent succeed k = tt
Move-IsSent fail k = tt
Move-IsSent expire k = tt
Move-IsSent drop k = tt
Move-IsSent stop k = tt

pub Moves-IsSent : {most : ℕ} {p q : Phase} → Moves most p q → IsSent p → IsSent q
Moves-IsSent here k = k
Moves-IsSent (then_move rest move) k = Move-IsSent move (Moves-IsSent rest k)

-- The phase of a row.
abbrev pub phase_at : JobState → ℕ → ℕ → Bool → Phase
phase_at queued a e sent = waiting a e
phase_at running a e sent = held a e sent
phase_at succeeded a e sent = ended success e
phase_at failed a e sent = ended failure e
phase_at cancelled a e sent = ended cancellation e

unfoldable pub phase : AuthoringJobModel → Phase
phase j = phase_at j.state j.attempts j.lease_epoch (ltb 0 j.physical_requests)
