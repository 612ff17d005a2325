-- ===== src/Turns/World/Writes.antt =====
-- What each transaction writes into the table of turns (infrastructure/postgres/repositories.py).
use ai_rpg.Prelude.{
  ℕ, String, Bool, true, ◌≡◌, refl, Option, List, map, arith, Option-cases, inl, inr, is_unique,
  id_eq, find, find-holds,
}
use ai_rpg.Prelude.Rows.{
  Evolves, Evolves-refl, Among, find-Among, Among-IsOnly, update, update-Evolves, first_row,
  first_row_lem,
}
use ai_rpg.Domain.Results.{Uuid}
use ai_rpg.Turns.Rows.{TurnModel, CampaignModel, Route}
use ai_rpg.Turns.Leases.{
  LeaseLimits, take, is_spent, is_older, is_resolution_candidate, is_narration_candidate,
  start_resolution, start_narration, acquire_resolution, acquire_narration, update_where,
  route_turn, record_initial_route, promote_turn, promote_to_mechanical,
}
use ai_rpg.Turns.Steps.{IsTurnRow, TurnStep, TurnStep-refl}
use ai_rpg.Turns.Steps.Resolution.{
  start_resolution-TurnStep, route_turn-TurnStep, promote_turn-TurnStep,
}
use ai_rpg.Turns.Steps.Narration.{start_narration-TurnStep}

pub record IsWritten (t u : TurnModel) : Type 0 where
  pub same_id : u.id ≡ t.id
  pub sound : IsTurnRow t → TurnStep t u

pub IsWritten-refl : (t : TurnModel) → IsWritten t t
IsWritten-refl t = record { same_id = refl; sound = TurnStep-refl t }

-- A write that is a move of the row.
pub written : (t u : TurnModel) → (IsTurnRow t → TurnStep t u) → u.id ≡ t.id → IsWritten t u
written t u step same = record { same_id = same; sound = step }

abbrev pub HasTurnIds : List TurnModel → Type 0
HasTurnIds turns = is_unique (map (λ t. t.id) turns) ≡ true

-- The write to a row of the table.
pub row_written :
    (t : TurnModel) (f : TurnModel → TurnModel) (turns : List TurnModel)
    → HasTurnIds turns
    → Among t turns
    → IsWritten t (f t)
    → Evolves IsWritten turns (update (λ u. u.id) t.id f turns)
row_written t f turns u among step =
    update-Evolves (λ u. u.id) IsWritten t f turns (Among-IsOnly (λ u. u.id) turns t u among)
      IsWritten-refl step

take-IsWritten :
    (start : TurnModel → TurnModel) (spent p : TurnModel → Bool) (turns : List TurnModel)
    → HasTurnIds turns
    → ((t : TurnModel) → p t ≡ true → IsWritten t (start t))
    → Evolves IsWritten turns (take start spent (first_row p is_older turns) turns).1
take-IsWritten start spent p turns u step = elim (Option-cases (first_row p is_older turns)) [
  | inl idle ↦ rw idle (Evolves-refl IsWritten turns IsWritten-refl)
  | inr (t, found) ↦
      let (chosen, among) = first_row_lem p is_older turns t found in
      rw found (row_written t start turns u among (step t chosen))
]

start_resolution-IsWritten :
    (limits : LeaseLimits) (asked : Option Uuid) (locked : Uuid → Bool) (started now : ℕ)
    (campaigns : List CampaignModel) (t : TurnModel)
    → is_resolution_candidate limits asked locked now campaigns t ≡ true
    → IsWritten t (start_resolution limits started now t)
unfolding is_resolution_candidate start_resolution
start_resolution-IsWritten limits asked locked started now campaigns t h =
    written t _ (λ row. start_resolution-TurnStep limits started now t row (ground arith)) refl

start_narration-IsWritten :
    (limits : LeaseLimits) (asked : Option Uuid) (locked : Uuid → Bool) (started now : ℕ)
    (campaigns : List CampaignModel) (t : TurnModel)
    → is_narration_candidate limits asked locked now campaigns t ≡ true
    → IsWritten t (start_narration limits started now t)
unfolding is_narration_candidate start_narration
start_narration-IsWritten limits asked locked started now campaigns t h =
    written t _
      (λ row. start_narration-TurnStep limits started now t row (ground arith) (ground arith)) refl

pub acquire_resolution-IsWritten :
    (limits : LeaseLimits) (asked : Option Uuid) (locked : Uuid → Bool) (started now : ℕ)
    (campaigns : List CampaignModel) (turns : List TurnModel)
    → HasTurnIds turns
    → Evolves IsWritten turns (acquire_resolution limits asked locked started now campaigns turns).1
unfolding acquire_resolution
acquire_resolution-IsWritten limits asked locked started now campaigns turns u =
    take-IsWritten (start_resolution limits started now) (λ t. is_spent limits now t.resolution)
      (is_resolution_candidate limits asked locked now campaigns) turns u
      (start_resolution-IsWritten limits asked locked started now campaigns)

pub acquire_narration-IsWritten :
    (limits : LeaseLimits) (asked : Option Uuid) (locked : Uuid → Bool) (started now : ℕ)
    (campaigns : List CampaignModel) (turns : List TurnModel)
    → HasTurnIds turns
    → Evolves IsWritten turns (acquire_narration limits asked locked started now campaigns turns).1
unfolding acquire_narration
acquire_narration-IsWritten limits asked locked started now campaigns turns u =
    take-IsWritten (start_narration limits started now) (λ t. is_spent limits now t.narrating)
      (is_narration_candidate limits asked locked now campaigns) turns u
      (start_narration-IsWritten limits asked locked started now campaigns)

update_where-IsWritten :
    (f : TurnModel → TurnModel) (p : TurnModel → Bool) (turns : List TurnModel)
    → HasTurnIds turns
    → ((t : TurnModel) → p t ≡ true → IsWritten t (f t))
    → Evolves IsWritten turns (update_where f (find p turns) turns).1
update_where-IsWritten f p turns u step = elim (Option-cases (find p turns)) [
  | inl missing ↦ rw missing (Evolves-refl IsWritten turns IsWritten-refl)
  | inr (t, found) ↦
      rw found
        (row_written t f turns u (find-Among p turns t found) (step t (find-holds p turns t found)))
]

pub record_initial_route-IsWritten :
    (turn_id : Uuid) (worker_epoch : ℕ) (route : Route) (version : String) (reasons : List String)
    (now : ℕ) (turns : List TurnModel)
    → HasTurnIds turns
    → Evolves IsWritten turns
        (record_initial_route turn_id worker_epoch route version reasons now turns).1
unfolding record_initial_route route_turn
record_initial_route-IsWritten turn_id worker_epoch route version reasons now turns u =
    update_where-IsWritten (route_turn route version reasons) _ turns u
      λ t h. written t _ (route_turn-TurnStep route version reasons t) refl

pub promote_to_mechanical-IsWritten :
    (turn_id : Uuid) (worker_epoch now : ℕ) (turns : List TurnModel)
    → HasTurnIds turns
    → Evolves IsWritten turns (promote_to_mechanical turn_id worker_epoch now turns).1
unfolding promote_to_mechanical promote_turn
promote_to_mechanical-IsWritten turn_id worker_epoch now turns u =
    update_where-IsWritten promote_turn _ turns u λ t h. written t _ (promote_turn-TurnStep t) refl
