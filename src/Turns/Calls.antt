-- ===== src/Turns/Calls.antt =====
-- infrastructure/postgres/repositories.py: what a worker saves of a narration, and the calls of
-- models that a turn may make and that failed.
use ai_rpg.Prelude.{
  ℕ, ◌+◌, String, Bool, true, false, ◌&&◌, ◌||◌, not, Option, none, some, List, [], ◌∷◌, Result, ok,
  err, ◌>>=◌, ◌>>◌, ltb, is_some, find, if◌then◌else◌, ◌==◌, id_eq, story_error,
}
use ai_rpg.Prelude.Rows.{update}
use ai_rpg.Domain.Results.{Uuid}
use ai_rpg.Text.{Text}
use ai_rpg.Usage.{Settings, UsageTables, reserve_usage}
use ai_rpg.Turns.Rows.{
  pending, failed, unwritten, completed, fallback, PhaseColumns, TurnModel, CampaignModel,
  TurnTables, is_ahead,
}
use ai_rpg.Turns.Leases.{is_narrative, has_resolution, has_narration}
use ai_rpg.Turns.Commits.{
  LlmPhase, resolution_phase, narration_phase, campaign_of, authorize_story_run, released,
  write_event, write_turn, add_choices, narration_event, ChoiceDraft,
}

unfoldable pub saved_turn : Text → Option String → TurnModel → TurnModel
saved_turn narration fallback_reason t = record t {
  narration_status = if is_some fallback_reason then fallback else completed;
  narration = some narration;
  recovery_reason = fallback_reason;
  narrating = released t.narrating;
}

abbrev pub version_of : CampaignModel → TurnModel → ℕ
version_of c t = elim t.committed_state_version [ none ↦ c.state_version | some v ↦ v ]

abbrev pub save_row :
    Text
    → List ChoiceDraft
    → Option String
    → Uuid
    → CampaignModel
    → Option TurnModel
    → TurnTables
    → Bool × TurnTables
save_row narration choices fallback_reason event_id c none tables = (false, tables)
save_row narration choices fallback_reason event_id c (some t) tables = (
  true,
  write_event (narration_event event_id t (version_of c t) c) c (
      add_choices t.scene_id t (version_of c t) choices
        (write_turn t (saved_turn narration fallback_reason) tables)),
)

-- The row that the UPDATE selects. A fallback may be saved after the deadline, the reason of which
-- is a text that is not empty.
abbrev pub is_savable : Uuid → Uuid → ℕ → Option String → ℕ → TurnModel → Bool
is_savable campaign_id turn_id worker_epoch fallback_reason now t =
    has_narration turn_id worker_epoch now t
    && t.campaign_id == campaign_id
    && (is_some fallback_reason || is_ahead now t.narrating.deadline)

unfoldable pub save_conditionally :
    Uuid
    → Uuid
    → ℕ
    → Text
    → List ChoiceDraft
    → Option String
    → ℕ
    → Uuid
    → TurnTables
    → Result (Bool × TurnTables)
save_conditionally campaign_id turn_id worker_epoch narration choices fallback_reason now event_id
      tables =
    do
      c ← campaign_of campaign_id tables.campaigns
      authorize_story_run c
      ok (
          save_row narration choices fallback_reason event_id c
            (find (is_savable campaign_id turn_id worker_epoch fallback_reason now) tables.turns)
            tables)

-- The conditions under which the worker of a phase may call a model.
abbrev pub owns : LlmPhase → Uuid → ℕ → ℕ → TurnModel → Bool
owns resolution_phase turn_id worker_epoch now t =
    has_resolution turn_id worker_epoch now t && is_ahead now t.resolution.deadline
owns narration_phase turn_id worker_epoch now t =
    has_narration turn_id worker_epoch now t && is_ahead now t.narrating.deadline

-- A turn whose route is narrative makes one call.
abbrev pub has_budget : TurnModel → Bool
has_budget t =
    ltb t.llm_call_count t.llm_call_budget && (not (is_narrative t.route) || ltb t.llm_call_count 1)

unfoldable pub count_call : TurnModel → TurnModel
count_call t = record t { llm_call_count = t.llm_call_count + 1 }

-- A use that is refused, and a lease that ended meanwhile, roll the count back.
abbrev pub reserve_counted :
    LlmPhase
    → ℕ
    → ℕ
    → TurnModel
    → Result UsageTables
    → UsageTables
    → List TurnModel
    → Result (Bool × UsageTables × List TurnModel)
reserve_counted phase worker_epoch later t (err (story_error code status)) usage turns =
    ok (false, usage, turns)
reserve_counted phase worker_epoch later t (err e) usage turns = err e
reserve_counted phase worker_epoch later t (ok after) usage turns =
    if owns phase t.id worker_epoch later t
    then ok (true, after, update (λ u. u.id) t.id count_call turns)
    else ok (false, usage, turns)

abbrev pub reserve_row :
    Settings
    → LlmPhase
    → ℕ
    → ℕ
    → ℕ
    → Option TurnModel
    → UsageTables
    → List TurnModel
    → Result (Bool × UsageTables × List TurnModel)
reserve_row settings phase worker_epoch started later none usage turns = ok (false, usage, turns)
reserve_row settings phase worker_epoch started later (some t) usage turns =
    reserve_counted phase worker_epoch later t
      (reserve_usage settings t.created_by "llm_game" (t.id ∷ (t.llm_call_count + 1) ∷ []) started
        usage)
      usage turns

abbrev pub of_campaign :
    {A : Type 0} → Uuid → A → (CampaignModel → TurnModel → Result A) → TurnTables → Result A
of_campaign turn_id missing next tables = elim (find (λ t. t.id == turn_id) tables.turns) [
  | none ↦ ok missing
  | some t ↦ campaign_of t.campaign_id tables.campaigns >>= λ c. (authorize_story_run c >> next c t)
]

-- `PostgresLLMCallRepository.reserve`
unfoldable pub reserve :
    Settings
    → Uuid
    → LlmPhase
    → ℕ
    → ℕ
    → ℕ
    → ℕ
    → UsageTables
    → TurnTables
    → Result (Bool × UsageTables × List TurnModel)
reserve settings turn_id phase worker_epoch started now later usage tables =
    of_campaign turn_id (false, usage, tables.turns)
      (λ c t.
        reserve_row settings phase worker_epoch started later
          (find (λ u. owns phase turn_id worker_epoch now u && has_budget u) tables.turns) usage
          tables.turns)
      tables

pub data FailureDisposition : Type 0 where
  retry : FailureDisposition
  terminal : FailureDisposition

unfoldable pub failed_resolution : Bool → String → ℕ → TurnModel → TurnModel
failed_resolution again code now t = record t {
  resolution_status = if again then pending else failed;
  resolution = record t.resolution {
    lease_until = none;
    next_attempt_at = if again then some now else none;
    failure_code = some code;
  };
}

-- A narration that is not tried again stays with its worker, which saves a fallback.
unfoldable pub failed_narration : Bool → String → ℕ → TurnModel → TurnModel
failed_narration again code now t = record t {
  narration_status = if again then unwritten else t.narration_status;
  narrating = record t.narrating {
    lease_until = if again then none else t.narrating.lease_until;
    next_attempt_at = if again then some now else none;
    failure_code = some code;
  };
}

abbrev pub columns_of : LlmPhase → TurnModel → PhaseColumns
columns_of resolution_phase t = t.resolution
columns_of narration_phase t = t.narrating

abbrev pub has_phase : LlmPhase → Uuid → ℕ → ℕ → TurnModel → Bool
has_phase resolution_phase turn_id worker_epoch now t = has_resolution turn_id worker_epoch now t
has_phase narration_phase turn_id worker_epoch now t = has_narration turn_id worker_epoch now t

abbrev pub may_retry : LlmPhase → ℕ → ℕ → TurnModel → Bool
may_retry phase max_attempts now t =
    ltb (columns_of phase t).attempt_count max_attempts
    && is_ahead now (columns_of phase t).deadline
    && has_budget t

abbrev pub fail_phase : LlmPhase → Bool → String → ℕ → TurnModel → TurnModel
fail_phase resolution_phase again code now t = failed_resolution again code now t
fail_phase narration_phase again code now t = failed_narration again code now t

abbrev pub failure_row :
    LlmPhase
    → String
    → ℕ
    → ℕ
    → Option TurnModel
    → List TurnModel
    → Option FailureDisposition × List TurnModel
failure_row phase code max_attempts now none turns = (none, turns)
failure_row phase code max_attempts now (some t) turns =
    let again = may_retry phase max_attempts now t in
    (
      some (if again then retry else terminal),
      update (λ u. u.id) t.id (fail_phase phase again code now) turns,
    )

unfoldable pub record_failure :
    Uuid
    → LlmPhase
    → ℕ
    → String
    → ℕ
    → ℕ
    → TurnTables
    → Result (Option FailureDisposition × List TurnModel)
record_failure turn_id phase worker_epoch code max_attempts now tables =
    of_campaign turn_id (none, tables.turns)
      (λ c t. ok (
        failure_row phase code max_attempts now
          (find (has_phase phase turn_id worker_epoch now) tables.turns) tables.turns))
      tables
