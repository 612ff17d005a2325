-- ===== src/Authoring/Rows.antt =====
-- infrastructure/postgres/story_jobs.py: what each operation writes into the row of a job, and the
-- rows that it selects.
use ai_rpg.Prelude.{
  ℕ, ◌+◌, ◌*◌, String, Bool, true, false, ◌&&◌, ◌||◌, not, Option, none, some, List, [], ◌∷◌, map,
  max, leb, ltb, nat_eq, if◌then◌else◌, ◌==◌, id_eq, length, keep,
}
use ai_rpg.Domain.Results.{Uuid}
use ai_rpg.Stories.Json.{Json}
use ai_rpg.Authoring.Tables.{
  JobState, queued, running, failed, cancelled, AuthoringJobModel, AuthoringAttemptModel,
  AuthoringUsage, JobLease,
}

abbrev pub is_queued : JobState → Bool
is_queued queued = true
is_queued _ = false

abbrev pub is_running : JobState → Bool
is_running running = true
is_running _ = false

-- `state in {"queued", "running"}`
abbrev pub is_active : JobState → Bool
is_active queued = true
is_active running = true
is_active _ = false

-- `lease_until <= now`, which a missing lease does not satisfy.
abbrev pub is_past : ℕ → Option ℕ → Bool
is_past now none = false
is_past now (some until) = leb until now

-- `lease_until > now`
abbrev pub is_ahead : ℕ → Option ℕ → Bool
is_ahead now none = false
is_ahead now (some until) = ltb now until

abbrev pub is_exhausted : AuthoringJobModel → Bool
is_exhausted j = ltb 0 j.physical_requests || leb j.limits.max_attempts j.attempts

-- An expired lease ends; the job waits for another attempt unless a request was reserved or its
-- attempts are used up.
unfoldable pub expire_job : ℕ → AuthoringJobModel → AuthoringJobModel
expire_job now j = record j {
  state = if is_exhausted j then failed else queued;
  error_code =
      if is_exhausted j
      then some
          (if ltb 0 j.physical_requests then "request_outcome_unknown" else "attempts_exhausted")
      else none;
  lease_until = none;
  updated_at = now;
  lease_epoch = j.lease_epoch + 1;
}

unfoldable pub claim_job : ℕ → AuthoringJobModel → AuthoringJobModel
claim_job now j = record j {
  state = running;
  updated_at = now;
  attempts = j.attempts + 1;
  lease_epoch = j.lease_epoch + 1;
  lease_until = some (now + j.limits.lease_seconds * 1000000);
}

unfoldable pub cancel_job : ℕ → AuthoringJobModel → AuthoringJobModel
cancel_job now j = record j {
  state = cancelled;
  error_code = some "cancelled";
  lease_until = none;
  updated_at = now;
  lease_epoch = j.lease_epoch + 1;
}

unfoldable pub reserve_job : ℕ → AuthoringJobModel → AuthoringJobModel
reserve_job now j = record j { physical_requests = 1; updated_at = now }

unfoldable pub account_job :
    AuthoringUsage → Bool → Option String → AuthoringJobModel → AuthoringJobModel
account_job usage complete actual_model j = record j {
  input_tokens = max j.input_tokens usage.input_tokens;
  output_tokens = max j.output_tokens usage.output_tokens;
  usage_complete = j.usage_complete || complete;
  actual_model = elim actual_model [ none ↦ j.actual_model | some m ↦ some m ];
}

-- `_finish`
unfoldable pub finish_job :
    JobState
    → Option String
    → AuthoringUsage
    → Bool
    → Option String
    → ℕ
    → AuthoringJobModel
    → AuthoringJobModel
finish_job state code usage complete actual_model now j = record j {
  state = state;
  error_code = code;
  lease_until = none;
  input_tokens = usage.input_tokens;
  output_tokens = usage.output_tokens;
  usage_complete = complete;
  actual_model = actual_model;
  updated_at = now;
}

-- The outline that a job succeeds with, where it has one.
unfoldable pub write_outline : Option Json → AuthoringJobModel → AuthoringJobModel
write_outline none j = j
write_outline (some outline) j = record j { outline = some outline; outline_revision = 1 }

-- The write to the row of a job.
unfoldable pub update_job :
    Uuid → (AuthoringJobModel → AuthoringJobModel) → List AuthoringJobModel → List AuthoringJobModel
update_job id f jobs = map (λ j. if j.id == id then f j else j) jobs

-- The running jobs whose lease is over, but those that another transaction holds.
unfoldable pub is_expired : (Uuid → Bool) → ℕ → AuthoringJobModel → Bool
is_expired locked now j = is_running j.state && is_past now j.lease_until && not (locked j.id)

unfoldable pub expire_jobs : (Uuid → Bool) → ℕ → List AuthoringJobModel → List AuthoringJobModel
expire_jobs locked now jobs =
    map (λ j. if is_expired locked now j then expire_job now j else j) jobs

abbrev pub running_count : List AuthoringJobModel → ℕ
running_count jobs = length (keep (λ j. is_running j.state) jobs)

abbrev pub active_count : Uuid → List AuthoringJobModel → ℕ
active_count owner jobs =
    length (keep (λ j. j.owner_principal_id == owner && is_active j.state) jobs)

-- `order_by(created_at, id)`
abbrev pub is_before : AuthoringJobModel → AuthoringJobModel → Bool
is_before j k = ltb j.created_at k.created_at || (nat_eq j.created_at k.created_at && ltb j.id k.id)

abbrev pub is_waiting : (Uuid → Bool) → AuthoringJobModel → Bool
is_waiting locked j = is_queued j.state && not (locked j.id)

-- The first of the queued jobs in that order, but those that another transaction holds.
unfoldable pub oldest_queued : (Uuid → Bool) → List AuthoringJobModel → Option AuthoringJobModel
oldest_queued locked [] = none
oldest_queued locked (j ∷ js) =
    let rest = oldest_queued locked js in
    if is_waiting locked j
    then elim rest [ none ↦ some j | some k ↦ if is_before k j then some k else some j ]
    else rest

-- `_end_attempt`
unfoldable pub end_attempt :
    AuthoringJobModel
    → String
    → Option String
    → ℕ
    → List AuthoringAttemptModel
    → List AuthoringAttemptModel
end_attempt job state code now attempts =
    if nat_eq job.lease_epoch 0
    then attempts
    else map
        (λ a.
          if a.job_id == job.id && a.lease_epoch == job.lease_epoch
          then record a { state = state; error_code = code; finished_at = some now }
          else a)
        attempts

unfoldable pub expire_attempts :
    (Uuid → Bool)
    → ℕ
    → List AuthoringJobModel
    → List AuthoringAttemptModel
    → List AuthoringAttemptModel
expire_attempts locked now [] attempts = attempts
expire_attempts locked now (j ∷ js) attempts = expire_attempts locked now js (
    if is_expired locked now j
    then end_attempt j "expired" (some "lease_expired") now attempts
    else attempts)

unfoldable pub lease_of : AuthoringJobModel → JobLease
lease_of j = record {
  id = j.id;
  owner = j.owner_principal_id;
  story_id = j.story_id;
  base_revision = j.base_revision;
  epoch = j.lease_epoch;
  kind = j.kind;
  snapshot = j.snapshot;
  instructions = j.instructions;
  outline = j.approved_outline;
  model_id = j.model_id;
  limits = j.limits;
}
