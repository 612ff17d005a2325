-- ===== src/Turns/Leases.antt =====
-- infrastructure/postgres/repositories.py: how the workers of the two phases take a turn, and what
-- a worker that has it writes before its phase ends. A statement reads the clock once here.
-- `locked` says which rows other transactions hold.
use ai_rpg.Prelude.{
  ℕ, ◌+◌, ◌*◌, String, Bool, true, false, ◌&&◌, ◌||◌, not, Option, none, some, List, leb, ltb,
  nat_eq, is_some, find, any, if◌then◌else◌, ◌==◌, id_eq, ref_eq, option_eq, list_eq,
}
use ai_rpg.Prelude.Rows.{update, first_row}
use ai_rpg.Domain.Results.{Uuid}
use ai_rpg.Turns.Rows.{
  ResolutionStatus, pending, resolving, committed, not_applied, failed, NarrationStatus, unwritten,
  generating, Route, narrative, mechanical, PhaseColumns, TurnModel, CampaignModel, is_past,
  is_before, is_ahead, is_stopped,
}

abbrev pub is_pending : ResolutionStatus → Bool
is_pending pending = true
is_pending _ = false

abbrev pub is_resolving : ResolutionStatus → Bool
is_resolving resolving = true
is_resolving _ = false

abbrev pub is_unwritten : NarrationStatus → Bool
is_unwritten unwritten = true
is_unwritten _ = false

abbrev pub is_generating : NarrationStatus → Bool
is_generating generating = true
is_generating _ = false

-- The limits that a worker brings.
pub record LeaseLimits : Type 0 where
  pub lease_seconds : ℕ
  pub max_attempts : ℕ
  pub deadline_seconds : ℕ

-- The attempts or the time of a phase that was started are used up.
abbrev pub is_spent : LeaseLimits → ℕ → PhaseColumns → Bool
is_spent limits now p =
    is_some p.started_at && (leb limits.max_attempts p.attempt_count || is_past now p.deadline)

-- A phase that may be worked on now.
abbrev pub is_due : LeaseLimits → ℕ → PhaseColumns → Bool
is_due limits now p =
    ltb p.attempt_count limits.max_attempts
    && (not (is_some p.deadline) || is_ahead now p.deadline)
    && (not (is_some p.next_attempt_at) || is_past now p.next_attempt_at)

-- What both statements set.
unfoldable pub acquire_columns : LeaseLimits → ℕ → ℕ → PhaseColumns → PhaseColumns
acquire_columns limits started now p = record p {
  worker_epoch = p.worker_epoch + 1;
  lease_until = some (now + limits.lease_seconds * 1000000);
  attempt_count = if is_spent limits now p then p.attempt_count else p.attempt_count + 1;
  started_at = elim p.started_at [ none ↦ some started | some at ↦ some at ];
  deadline = elim p.deadline [
    | none ↦ some (now + limits.deadline_seconds * 1000000)
    | some at ↦ some at
  ];
}

abbrev pub is_asked : Option Uuid → TurnModel → Bool
is_asked none t = true
is_asked (some id) t = t.id == id

-- A campaign whose story an administrator has stopped.
abbrev pub is_running_story : List CampaignModel → TurnModel → Bool
is_running_story campaigns t = not (any (λ c. c.id == t.campaign_id && is_stopped c) campaigns)

-- The candidates for a resolution.
unfoldable pub is_resolution_candidate :
    LeaseLimits → Option Uuid → (Uuid → Bool) → ℕ → List CampaignModel → TurnModel → Bool
is_resolution_candidate limits asked locked now campaigns t =
    is_asked asked t
    && not (locked t.id)
    && is_running_story campaigns t
    && (is_pending t.resolution_status
        || (is_resolving t.resolution_status && is_before now t.resolution.lease_until))
    && (is_due limits now t.resolution || is_spent limits now t.resolution)

abbrev pub is_ended : ResolutionStatus → Bool
is_ended committed = true
is_ended not_applied = true
is_ended failed = true
is_ended _ = false

-- The candidates for a narration.
unfoldable pub is_narration_candidate :
    LeaseLimits → Option Uuid → (Uuid → Bool) → ℕ → List CampaignModel → TurnModel → Bool
is_narration_candidate limits asked locked now campaigns t =
    is_asked asked t
    && not (locked t.id)
    && is_ended t.resolution_status
    && is_running_story campaigns t
    && (is_unwritten t.narration_status
        || (is_generating t.narration_status && is_before now t.narrating.lease_until))
    && (is_due limits now t.narrating || is_spent limits now t.narrating)

-- `ORDER BY created_at,id`
abbrev pub is_older : TurnModel → TurnModel → Bool
is_older t u = ltb t.created_at u.created_at || (nat_eq t.created_at u.created_at && ltb t.id u.id)

unfoldable pub start_resolution : LeaseLimits → ℕ → ℕ → TurnModel → TurnModel
start_resolution limits started now t = record t {
  resolution_status = resolving;
  resolution = acquire_columns limits started now t.resolution;
}

unfoldable pub start_narration : LeaseLimits → ℕ → ℕ → TurnModel → TurnModel
start_narration limits started now t = record t {
  narration_status = generating;
  narrating = acquire_columns limits started now t.narrating;
}

-- The turn that a statement takes, as it then stands, whether only cleaning up is left, and the
-- turns after it.
abbrev pub take :
    (TurnModel → TurnModel)
    → (TurnModel → Bool)
    → Option TurnModel
    → List TurnModel
    → Option (TurnModel × Bool) × List TurnModel
take start spent none turns = (none, turns)
take start spent (some t) turns = (some (start t, spent t), update (λ u. u.id) t.id start turns)

-- `PostgresTurnRepository.acquire_lease`
unfoldable pub acquire_resolution :
    LeaseLimits
    → Option Uuid
    → (Uuid → Bool)
    → ℕ
    → ℕ
    → List CampaignModel
    → List TurnModel
    → Option (TurnModel × Bool) × List TurnModel
acquire_resolution limits asked locked started now campaigns turns =
    take (start_resolution limits started now) (λ t. is_spent limits now t.resolution)
      (first_row (is_resolution_candidate limits asked locked now campaigns) is_older turns) turns

-- `PostgresNarrationRepository.acquire_lease`
unfoldable pub acquire_narration :
    LeaseLimits
    → Option Uuid
    → (Uuid → Bool)
    → ℕ
    → ℕ
    → List CampaignModel
    → List TurnModel
    → Option (TurnModel × Bool) × List TurnModel
acquire_narration limits asked locked started now campaigns turns =
    take (start_narration limits started now) (λ t. is_spent limits now t.narrating)
      (first_row (is_narration_candidate limits asked locked now campaigns) is_older turns) turns

-- The worker of an epoch has the resolution of a turn.
abbrev pub has_resolution : Uuid → ℕ → ℕ → TurnModel → Bool
has_resolution turn_id worker_epoch now t =
    t.id == turn_id
    && nat_eq t.resolution.worker_epoch worker_epoch
    && is_resolving t.resolution_status
    && is_ahead now t.resolution.lease_until

abbrev pub has_narration : Uuid → ℕ → ℕ → TurnModel → Bool
has_narration turn_id worker_epoch now t =
    t.id == turn_id
    && nat_eq t.narrating.worker_epoch worker_epoch
    && is_generating t.narration_status
    && is_ahead now t.narrating.lease_until

-- An UPDATE of the row that a condition selects, and whether there was one.
abbrev pub update_where :
    (TurnModel → TurnModel) → Option TurnModel → List TurnModel → Bool × List TurnModel
update_where f none turns = (false, turns)
update_where f (some t) turns = (true, update (λ u. u.id) t.id f turns)

abbrev pub is_narrative : Option Route → Bool
is_narrative (some narrative) = true
is_narrative _ = false

abbrev pub is_route : Route → Route → Bool
is_route narrative narrative = true
is_route mechanical mechanical = true
is_route _ _ = false

-- No route was recorded, or this one.
abbrev pub is_same_routing : Route → String → List String → TurnModel → Bool
is_same_routing route version reasons t = elim t.initial_route [
  | none ↦ true
  | some r ↦
      is_route r route
      && t.routing_rule_version == some version
      && t.routing_reason_codes == some reasons
]

abbrev pub coalesce : {A : Type 0} → Option A → A → Option A
coalesce none a = some a
coalesce (some b) a = some b

unfoldable pub route_turn : Route → String → List String → TurnModel → TurnModel
route_turn route version reasons t = record t {
  route = coalesce t.route route;
  initial_route = coalesce t.initial_route route;
  routing_rule_version = coalesce t.routing_rule_version version;
  routing_reason_codes = coalesce t.routing_reason_codes reasons;
}

unfoldable pub record_initial_route :
    Uuid → ℕ → Route → String → List String → ℕ → List TurnModel → Bool × List TurnModel
record_initial_route turn_id worker_epoch route version reasons now turns =
    update_where (route_turn route version reasons)
      (find
        (λ t. has_resolution turn_id worker_epoch now t && is_same_routing route version reasons t)
        turns)
      turns

unfoldable pub promote_turn : TurnModel → TurnModel
promote_turn t = record t { route = some mechanical }

unfoldable pub promote_to_mechanical : Uuid → ℕ → ℕ → List TurnModel → Bool × List TurnModel
promote_to_mechanical turn_id worker_epoch now turns =
    update_where promote_turn
      (find (λ t. has_resolution turn_id worker_epoch now t && is_narrative t.route) turns) turns
