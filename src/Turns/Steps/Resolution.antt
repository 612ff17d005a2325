-- ===== src/Turns/Steps/Resolution.antt =====
-- The writes of a worker that resolves a turn (infrastructure/postgres/repositories.py).
use ai_rpg.Prelude.{ℕ, ◌+◌, ◌<◌, ◌≡◌, refl, String, Bool, true, false, ◌||◌, List, arith}
use ai_rpg.Text.{Text}
use ai_rpg.Turns.Rows.{
  ResolutionStatus, pending, resolving, committed, not_applied, failed, Route, TurnModel,
}
use ai_rpg.Turns.Leases.{
  LeaseLimits, is_pending, is_resolving, acquire_columns, start_resolution, route_turn,
  promote_turn,
}
use ai_rpg.Turns.Commits.{unapplied_turn, narrated_turn}
use ai_rpg.Turns.Calls.{count_call, failed_resolution}
use ai_rpg.Turns.Resolve.{committed_turn}
use ai_rpg.Turns.Phases.{
  unresolved, held, acquire, take_over, give_back, resolve, resolve_told, TurnMoves, here, one_move,
  turn_phase, phase_of_row,
}
use ai_rpg.Application.Ports.{MechanicalNarrationInput}
use ai_rpg.Turns.Steps.{IsTurnRow, TurnStep, resolving_lem, untold, resolving_untold}

pub start_resolution-TurnStep :
    (limits : LeaseLimits) (started now : ℕ) (t : TurnModel)
    → IsTurnRow t
    → (is_pending t.resolution_status || is_resolving t.resolution_status) ≡ true
    → TurnStep t (start_resolution limits started now t)
unfolding start_resolution acquire_columns turn_phase
start_resolution-TurnStep limits started now t row h = record {
  same = refl;
  moves = after_start t.resolution_status h;
  calls = omega arith;
  row = record {
    ordered = untold t.resolution_status t.narration_status h row.ordered;
    within = row.within;
  };
}
  where
    after_start :
        (s : ResolutionStatus)
        → (is_pending s || is_resolving s) ≡ true
        → TurnMoves
            (phase_of_row s t.committed_state_version t.resolution.worker_epoch t.narration_status
              t.narrating.worker_epoch t.narration)
            (unresolved (held (t.resolution.worker_epoch + 1)) t.narrating.worker_epoch)
    after_start pending h = one_move acquire
    after_start resolving h = one_move take_over
    after_start committed h = cc
    after_start not_applied h = cc
    after_start failed h = cc

pub route_turn-TurnStep :
    (route : Route) (version : String) (reasons : List String) (t : TurnModel)
    → IsTurnRow t
    → TurnStep t (route_turn route version reasons t)
unfolding route_turn turn_phase
route_turn-TurnStep route version reasons t row = record {
  same = refl;
  moves = here;
  calls = omega arith;
  row = record { ordered = row.ordered; within = row.within };
}

pub promote_turn-TurnStep : (t : TurnModel) → IsTurnRow t → TurnStep t (promote_turn t)
unfolding promote_turn turn_phase
promote_turn-TurnStep t row = record {
  same = refl;
  moves = here;
  calls = omega arith;
  row = record { ordered = row.ordered; within = row.within };
}

pub count_call-TurnStep :
    (t : TurnModel) → IsTurnRow t → t.llm_call_count < t.llm_call_budget → TurnStep t (count_call t)
unfolding count_call turn_phase
count_call-TurnStep t row room = record {
  same = refl;
  moves = here;
  calls = omega arith;
  row = record { ordered = row.ordered; within = omega arith };
}

pub unapplied_turn-TurnStep :
    (narration : Text) (t : TurnModel)
    → IsTurnRow t
    → is_resolving t.resolution_status ≡ true
    → TurnStep t (unapplied_turn narration t)
unfolding unapplied_turn turn_phase
unapplied_turn-TurnStep narration t row h = record {
  same = refl;
  moves = rw (resolving_lem t.resolution_status h) (one_move (resolve_told refl));
  calls = omega arith;
  row = record { ordered = refl; within = row.within };
}

pub narrated_turn-TurnStep :
    (version started : ℕ) (narration : Text) (t : TurnModel)
    → IsTurnRow t
    → is_resolving t.resolution_status ≡ true
    → TurnStep t (narrated_turn version started narration t)
unfolding narrated_turn turn_phase
narrated_turn-TurnStep version started narration t row h = record {
  same = refl;
  moves = rw (resolving_lem t.resolution_status h) (one_move (resolve_told refl));
  calls = omega arith;
  row = record { ordered = refl; within = row.within };
}

pub committed_turn-TurnStep :
    (version started : ℕ) (told : MechanicalNarrationInput) (t : TurnModel)
    → IsTurnRow t
    → is_resolving t.resolution_status ≡ true
    → TurnStep t (committed_turn version started told t)
unfolding committed_turn turn_phase
committed_turn-TurnStep version started told t row h = record {
  same = refl;
  moves =
      rw (resolving_lem t.resolution_status h, resolving_untold t row h) (one_move (resolve refl));
  calls = omega arith;
  row = record { ordered = refl; within = row.within };
}

pub failed_resolution-TurnStep :
    (again : Bool) (code : String) (now : ℕ) (t : TurnModel)
    → IsTurnRow t
    → is_resolving t.resolution_status ≡ true
    → TurnStep t (failed_resolution again code now t)
unfolding failed_resolution turn_phase
failed_resolution-TurnStep true code now t row h = record {
  same = refl;
  moves = rw (resolving_lem t.resolution_status h) (one_move give_back);
  calls = omega arith;
  row = record {
    ordered = untold t.resolution_status t.narration_status (ground arith) row.ordered;
    within = row.within;
  };
}
failed_resolution-TurnStep false code now t row h = record {
  same = refl;
  moves =
      rw (resolving_lem t.resolution_status h, resolving_untold t row h) (one_move (resolve refl));
  calls = omega arith;
  row = record { ordered = refl; within = row.within };
}
