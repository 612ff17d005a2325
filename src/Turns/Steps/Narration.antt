-- ===== src/Turns/Steps/Narration.antt =====
-- The writes of a worker that tells a turn (infrastructure/postgres/repositories.py).
use ai_rpg.Prelude.{
  ℕ, ◌+◌, ◌≡◌, refl, String, Bool, true, false, ◌||◌, Option, none, some, arith, is_some,
  if◌then◌else◌,
}
use ai_rpg.Text.{Text}
use ai_rpg.Turns.Rows.{
  ResolutionStatus, pending, resolving, committed, not_applied, failed, NarrationStatus, unwritten,
  generating, completed, fallback, TurnModel,
}
use ai_rpg.Turns.Leases.{
  LeaseLimits, is_unwritten, is_generating, is_ended, acquire_columns, start_narration,
}
use ai_rpg.Turns.Calls.{saved_turn, failed_narration}
use ai_rpg.Turns.Phases.{
  resolved, held, acquire_telling, take_over_telling, give_back_telling, tell, TurnMoves, here,
  one_move, turn_phase, phase_of_row, phase_of_end,
}
use ai_rpg.Turns.Steps.{IsTurnRow, TurnStep, generating_lem}

-- The phase of a turn whose resolution ended, by the status of its narration.
ended_phase :
    (s : ResolutionStatus) (v : Option ℕ) (e : ℕ) (n : NarrationStatus) (m : ℕ) (text : Option Text)
    → is_ended s ≡ true
    → phase_of_row s v e n m text ≡ phase_of_end s v e n m text
ended_phase pending v e n m text h = cc
ended_phase resolving v e n m text h = cc
ended_phase committed v e n m text h = refl
ended_phase not_applied v e n m text h = refl
ended_phase failed v e n m text h = refl

after_begin :
    (s : ResolutionStatus) (v : Option ℕ) (e : ℕ) (n : NarrationStatus) (m : ℕ) (text : Option Text)
    → (is_unwritten n || is_generating n) ≡ true
    → TurnMoves (phase_of_end s v e n m text) (resolved s v e (held (m + 1)))
after_begin s v e unwritten m text h = one_move acquire_telling
after_begin s v e generating m text h = one_move take_over_telling
after_begin s v e completed m text h = cc
after_begin s v e fallback m text h = cc

pub start_narration-TurnStep :
    (limits : LeaseLimits) (started now : ℕ) (t : TurnModel)
    → IsTurnRow t
    → is_ended t.resolution_status ≡ true
    → (is_unwritten t.narration_status || is_generating t.narration_status) ≡ true
    → TurnStep t (start_narration limits started now t)
unfolding start_narration acquire_columns turn_phase
start_narration-TurnStep limits started now t row ended h = record {
  same = refl;
  moves =
      rw
        (
          ended_phase t.resolution_status t.committed_state_version t.resolution.worker_epoch
              t.narration_status t.narrating.worker_epoch t.narration ended,
          ended_phase t.resolution_status t.committed_state_version t.resolution.worker_epoch
              generating (t.narrating.worker_epoch + 1) t.narration ended,
        )
        (after_begin t.resolution_status t.committed_state_version t.resolution.worker_epoch
          t.narration_status t.narrating.worker_epoch t.narration h);
  calls = omega arith;
  row = record { ordered = ground arith; within = row.within };
}

-- A narration that is being told is that of a turn whose resolution ended.
telling_ended :
    (s : ResolutionStatus) (n : NarrationStatus)
    → is_generating n ≡ true
    → (is_ended s || is_unwritten n) ≡ true
    → is_ended s ≡ true
telling_ended s unwritten h ordered = cc
telling_ended s generating h ordered = ground arith
telling_ended s completed h ordered = cc
telling_ended s fallback h ordered = cc

pub saved_turn-TurnStep :
    (narration : Text) (reason : Option String) (t : TurnModel)
    → IsTurnRow t
    → is_generating t.narration_status ≡ true
    → TurnStep t (saved_turn narration reason t)
unfolding saved_turn turn_phase
saved_turn-TurnStep narration reason t row h =
    let ended = telling_ended t.resolution_status t.narration_status h row.ordered in
    record {
      same = refl;
      moves = after_save t.resolution_status reason ended;
      calls = omega arith;
      row = record { ordered = ground arith; within = row.within };
    }
  where
    after_save :
        (s : ResolutionStatus) (reason : Option String)
        → is_ended s ≡ true
        → TurnMoves
            (phase_of_row s t.committed_state_version t.resolution.worker_epoch t.narration_status
              t.narrating.worker_epoch t.narration)
            (phase_of_row s t.committed_state_version t.resolution.worker_epoch
              (if is_some reason then fallback else completed)
              t.narrating.worker_epoch
              (some narration))
    after_save pending reason k = cc
    after_save resolving reason k = cc
    after_save committed none k = rw (generating_lem t.narration_status h) (one_move tell)
    after_save committed (some r) k = rw (generating_lem t.narration_status h) (one_move tell)
    after_save not_applied none k = rw (generating_lem t.narration_status h) (one_move tell)
    after_save not_applied (some r) k = rw (generating_lem t.narration_status h) (one_move tell)
    after_save failed none k = rw (generating_lem t.narration_status h) (one_move tell)
    after_save failed (some r) k = rw (generating_lem t.narration_status h) (one_move tell)

pub failed_narration-TurnStep :
    (again : Bool) (code : String) (now : ℕ) (t : TurnModel)
    → IsTurnRow t
    → is_generating t.narration_status ≡ true
    → TurnStep t (failed_narration again code now t)
unfolding failed_narration turn_phase
failed_narration-TurnStep true code now t row h =
    let ended = telling_ended t.resolution_status t.narration_status h row.ordered in
    record {
      same = refl;
      moves = after_failure t.resolution_status ended;
      calls = omega arith;
      row = record { ordered = ground arith; within = row.within };
    }
  where
    after_failure :
        (s : ResolutionStatus)
        → is_ended s ≡ true
        → TurnMoves
            (phase_of_row s t.committed_state_version t.resolution.worker_epoch t.narration_status
              t.narrating.worker_epoch t.narration)
            (phase_of_row s t.committed_state_version t.resolution.worker_epoch unwritten
              t.narrating.worker_epoch t.narration)
    after_failure pending k = cc
    after_failure resolving k = cc
    after_failure committed k =
        rw (generating_lem t.narration_status h) (one_move give_back_telling)
    after_failure not_applied k =
        rw (generating_lem t.narration_status h) (one_move give_back_telling)
    after_failure failed k = rw (generating_lem t.narration_status h) (one_move give_back_telling)
failed_narration-TurnStep false code now t row h = record {
  same = refl;
  moves = here;
  calls = omega arith;
  row = record { ordered = row.ordered; within = row.within };
}
