-- ===== src/Turns/Steps.antt =====
-- Every write to the row of a turn is a move of its phase (infrastructure/postgres/repositories.py).
pub mod Resolution
pub mod Narration
use ai_rpg.Prelude.{
  ℕ, ◌+◌, ◌≤◌, ◌<◌, ◌≡◌, refl, sym, ◌∙◌, String, Bool, true, false, ◌&&◌, ◌||◌, Option, none, some,
  List, arith, ltb, is_some, if◌then◌else◌,
}
use mathlib.Core.Path.{subst, ap}
use ai_rpg.Domain.Results.{Uuid}
use ai_rpg.Text.{Text}
use ai_rpg.Turns.Rows.{
  ResolutionStatus, pending, resolving, committed, not_applied, failed, NarrationStatus, unwritten,
  generating, completed, fallback, Route, TurnModel,
}
use ai_rpg.Turns.Leases.{
  LeaseLimits, is_pending, is_resolving, is_unwritten, is_generating, is_ended, acquire_columns,
  start_resolution, start_narration, route_turn, promote_turn,
}
use ai_rpg.Turns.Commits.{unapplied_turn, narrated_turn}
use ai_rpg.Turns.Calls.{saved_turn, count_call, failed_resolution, failed_narration}
use ai_rpg.Turns.Resolve.{committed_turn}
use ai_rpg.Turns.Phases.{
  TurnPhase, unresolved, resolved, told, waiting, held, TurnMove, acquire, take_over, give_back,
  resolve, resolve_told, acquire_telling, take_over_telling, give_back_telling, tell, TurnMoves,
  here, TurnMoves-trans, one_move, turn_phase, phase_of_row, phase_of_end,
}

-- Whose turn it is, and how many calls of models it may make.
abbrev pub owner_of : TurnModel → Uuid × Uuid × Uuid × Uuid × Uuid × ℕ × ℕ
owner_of t =
    (t.id, t.campaign_id, t.scene_id, t.created_by, t.actor_id, t.llm_call_budget, t.created_at)

-- A turn whose resolution has not ended has no narration, and no turn has made more calls than its
-- budget.
pub record IsTurnRow (t : TurnModel) : Type 0 where
  pub ordered : (is_ended t.resolution_status || is_unwritten t.narration_status) ≡ true
  pub within : t.llm_call_count ≤ t.llm_call_budget

pub record TurnStep (t u : TurnModel) : Type 0 where
  pub same : owner_of u ≡ owner_of t
  pub moves : TurnMoves (turn_phase t) (turn_phase u)
  pub calls : t.llm_call_count ≤ u.llm_call_count
  pub row : IsTurnRow u

pub TurnStep-refl : (t : TurnModel) → IsTurnRow t → TurnStep t t
TurnStep-refl t row = record { same = refl; moves = here; calls = omega arith; row = row }

pub TurnStep-trans : (t u w : TurnModel) → TurnStep t u → TurnStep u w → TurnStep t w
TurnStep-trans t u w first second = record {
  same = second.same ∙ first.same;
  moves = TurnMoves-trans first.moves second.moves;
  calls = omega (arith, first.calls, second.calls);
  row = second.row;
}

pub resolving_lem : (s : ResolutionStatus) → is_resolving s ≡ true → s ≡ resolving
resolving_lem resolving h = refl
resolving_lem pending h = cc
resolving_lem committed h = cc
resolving_lem not_applied h = cc
resolving_lem failed h = cc

pub generating_lem : (s : NarrationStatus) → is_generating s ≡ true → s ≡ generating
generating_lem generating h = refl
generating_lem unwritten h = cc
generating_lem completed h = cc
generating_lem fallback h = cc

pub unwritten_lem : (s : NarrationStatus) → is_unwritten s ≡ true → s ≡ unwritten
unwritten_lem unwritten h = refl
unwritten_lem generating h = cc
unwritten_lem completed h = cc
unwritten_lem fallback h = cc

-- A turn whose resolution has not ended has no narration.
pub untold :
    (s : ResolutionStatus) (n : NarrationStatus)
    → (is_pending s || is_resolving s) ≡ true
    → (is_ended s || is_unwritten n) ≡ true
    → is_unwritten n ≡ true
untold pending n h ordered = ordered
untold resolving n h ordered = ordered
untold committed n h ordered = cc
untold not_applied n h ordered = cc
untold failed n h ordered = cc

pub resolving_untold :
    (t : TurnModel)
    → IsTurnRow t
    → is_resolving t.resolution_status ≡ true
    → t.narration_status ≡ unwritten
resolving_untold t row h =
    unwritten_lem t.narration_status
      (untold t.resolution_status t.narration_status (ground arith) row.ordered)
