-- ===== src/Turns/Phases.antt =====
-- What the workers promise of a turn, as a machine of its own: it is resolved by one worker at a
-- time, then told by one worker at a time; and the phase of a row of turns
-- (infrastructure/postgres/repositories.py).
use ai_rpg.Prelude.{ℕ, ◌+◌, ◌<◌, ◌≡◌, true, Option, arith}
use ai_rpg.Text.{Text}
use ai_rpg.Turns.Rows.{
  ResolutionStatus, pending, resolving, committed, not_applied, failed, NarrationStatus, unwritten,
  generating, completed, fallback, TurnModel,
}
use ai_rpg.Turns.Leases.{is_ended}

-- A worker's phase, with the epoch of its lease.
pub data Stage : Type 0 where
  waiting : ℕ → Stage
  held : ℕ → Stage

-- The epoch of the narration while the turn is resolved; then how the resolution ended, the version
-- it was committed with and its epoch; and at last the narration.
pub data TurnPhase : Type 0 where
  unresolved : Stage → ℕ → TurnPhase
  resolved : ResolutionStatus → Option ℕ → ℕ → Stage → TurnPhase
  told : ResolutionStatus → Option ℕ → ℕ → ℕ → Option Text → TurnPhase

pub data TurnMove : TurnPhase → TurnPhase → Type 0 where
  acquire : {e m : ℕ} → TurnMove (unresolved (waiting e) m) (unresolved (held (e + 1)) m)
  take_over : {e m : ℕ} → TurnMove (unresolved (held e) m) (unresolved (held (e + 1)) m)
  give_back : {e m : ℕ} → TurnMove (unresolved (held e) m) (unresolved (waiting e) m)
  resolve :
      {e m : ℕ} {s : ResolutionStatus} {v : Option ℕ}
      → is_ended s ≡ true
      → TurnMove (unresolved (held e) m) (resolved s v e (waiting m))
  -- A resolution that brings its own narration.
  resolve_told :
      {e m : ℕ} {s : ResolutionStatus} {v : Option ℕ} {n : Option Text}
      → is_ended s ≡ true
      → TurnMove (unresolved (held e) m) (told s v e m n)
  acquire_telling :
      {e m : ℕ} {s : ResolutionStatus} {v : Option ℕ}
      → TurnMove (resolved s v e (waiting m)) (resolved s v e (held (m + 1)))
  take_over_telling :
      {e m : ℕ} {s : ResolutionStatus} {v : Option ℕ}
      → TurnMove (resolved s v e (held m)) (resolved s v e (held (m + 1)))
  give_back_telling :
      {e m : ℕ} {s : ResolutionStatus} {v : Option ℕ}
      → TurnMove (resolved s v e (held m)) (resolved s v e (waiting m))
  tell :
      {e m : ℕ} {s : ResolutionStatus} {v : Option ℕ} {n : Option Text}
      → TurnMove (resolved s v e (held m)) (told s v e m n)

pub data TurnMoves (p : TurnPhase) : TurnPhase → Type 0 where
  here : TurnMoves p p
  then_move : {q r : TurnPhase} → TurnMoves p q → TurnMove q r → TurnMoves p r

pub TurnMoves-trans : {p q r : TurnPhase} → TurnMoves p q → TurnMoves q r → TurnMoves p r
TurnMoves-trans left here = left
TurnMoves-trans left (then_move rest move) = then_move (TurnMoves-trans left rest) move

pub one_move : {p q : TurnPhase} → TurnMove p q → TurnMoves p q
one_move move = then_move here move

-- The worker of a resolution's epoch has lost the turn.
abbrev pub IsLostResolution : ℕ → TurnPhase → Type 0
IsLostResolution epoch (unresolved (waiting e) m) = epoch < e
IsLostResolution epoch (unresolved (held e) m) = epoch < e
IsLostResolution epoch (resolved s v e stage) = Unit
IsLostResolution epoch (told s v e m n) = Unit

TurnMove-IsLostResolution :
    {p q : TurnPhase} (epoch : ℕ)
    → TurnMove p q
    → IsLostResolution epoch p
    → IsLostResolution epoch q
TurnMove-IsLostResolution epoch acquire l = omega arith
TurnMove-IsLostResolution epoch take_over l = omega arith
TurnMove-IsLostResolution epoch give_back l = l
TurnMove-IsLostResolution epoch (resolve h) l = tt
TurnMove-IsLostResolution epoch (resolve_told h) l = tt
TurnMove-IsLostResolution epoch acquire_telling l = tt
TurnMove-IsLostResolution epoch take_over_telling l = tt
TurnMove-IsLostResolution epoch give_back_telling l = tt
TurnMove-IsLostResolution epoch tell l = tt

pub TurnMoves-IsLostResolution :
    {p q : TurnPhase} (epoch : ℕ)
    → TurnMoves p q
    → IsLostResolution epoch p
    → IsLostResolution epoch q
TurnMoves-IsLostResolution epoch here l = l
TurnMoves-IsLostResolution epoch (then_move rest move) l =
    TurnMove-IsLostResolution epoch move (TurnMoves-IsLostResolution epoch rest l)

-- How a resolution ended stays, and the version that it was committed with.
abbrev pub EndedAs : ResolutionStatus → Option ℕ → TurnPhase → Type 0
EndedAs s v (unresolved stage m) = ⊥
EndedAs s v (resolved s' v' e stage) = (s' ≡ s) × (v' ≡ v)
EndedAs s v (told s' v' e m n) = (s' ≡ s) × (v' ≡ v)

TurnMove-EndedAs :
    {p q : TurnPhase} (s : ResolutionStatus) (v : Option ℕ)
    → TurnMove p q
    → EndedAs s v p
    → EndedAs s v q
TurnMove-EndedAs s v acquire h = h
TurnMove-EndedAs s v take_over h = h
TurnMove-EndedAs s v give_back h = h
TurnMove-EndedAs s v (resolve k) h = absurd h
TurnMove-EndedAs s v (resolve_told k) h = absurd h
TurnMove-EndedAs s v acquire_telling h = h
TurnMove-EndedAs s v take_over_telling h = h
TurnMove-EndedAs s v give_back_telling h = h
TurnMove-EndedAs s v tell h = h

pub TurnMoves-EndedAs :
    {p q : TurnPhase} (s : ResolutionStatus) (v : Option ℕ)
    → TurnMoves p q
    → EndedAs s v p
    → EndedAs s v q
TurnMoves-EndedAs s v here h = h
TurnMoves-EndedAs s v (then_move rest move) h =
    TurnMove-EndedAs s v move (TurnMoves-EndedAs s v rest h)

abbrev pub IsTold : Option Text → TurnPhase → Type 0
IsTold n (told s v e m n') = n' ≡ n
IsTold n _ = ⊥

TurnMove-IsTold : {p q : TurnPhase} (n : Option Text) → TurnMove p q → IsTold n p → ⊥
TurnMove-IsTold n acquire h = h
TurnMove-IsTold n take_over h = h
TurnMove-IsTold n give_back h = h
TurnMove-IsTold n (resolve k) h = h
TurnMove-IsTold n (resolve_told k) h = h
TurnMove-IsTold n acquire_telling h = h
TurnMove-IsTold n take_over_telling h = h
TurnMove-IsTold n give_back_telling h = h
TurnMove-IsTold n tell h = h

-- What was told stays.
pub TurnMoves-IsTold : {p q : TurnPhase} (n : Option Text) → TurnMoves p q → IsTold n p → IsTold n q
TurnMoves-IsTold n here h = h
TurnMoves-IsTold n (then_move rest move) h =
    absurd (TurnMove-IsTold n move (TurnMoves-IsTold n rest h))

abbrev pub phase_of_end :
    ResolutionStatus → Option ℕ → ℕ → NarrationStatus → ℕ → Option Text → TurnPhase
phase_of_end s v e unwritten m n = resolved s v e (waiting m)
phase_of_end s v e generating m n = resolved s v e (held m)
phase_of_end s v e completed m n = told s v e m n
phase_of_end s v e fallback m n = told s v e m n

abbrev pub phase_of_row :
    ResolutionStatus → Option ℕ → ℕ → NarrationStatus → ℕ → Option Text → TurnPhase
phase_of_row pending v e status m n = unresolved (waiting e) m
phase_of_row resolving v e status m n = unresolved (held e) m
phase_of_row committed v e status m n = phase_of_end committed v e status m n
phase_of_row not_applied v e status m n = phase_of_end not_applied v e status m n
phase_of_row failed v e status m n = phase_of_end failed v e status m n

unfoldable pub turn_phase : TurnModel → TurnPhase
turn_phase t =
    phase_of_row t.resolution_status t.committed_state_version t.resolution.worker_epoch
      t.narration_status t.narrating.worker_epoch t.narration
