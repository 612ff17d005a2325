-- ===== src/Authoring/Jobs.antt =====
-- infrastructure/postgres/story_jobs.py: the calls of a worker. A call is a transaction, which
-- writes nothing where it raises. `locked` says which rows other transactions hold.
use ai_rpg.Prelude.{
  ℕ, String, Bool, true, false, ◌&&◌, not, Option, none, some, List, [], ◌∷◌, map, Result, ok,
  ◌>>=◌, ◌>>◌, raise_if, or_raise, story_error, assertion_error, leb, nat_eq, find, if◌then◌else◌,
  ◌==◌, id_eq,
}
use ai_rpg.Domain.Results.{Uuid}
use ai_rpg.Stories.Json.{Json}
use ai_rpg.Stories.Ledger.{StoryTables, owned, editable}
use ai_rpg.Usage.{Settings, UsageTables, reserve_usage}
use ai_rpg.Authoring.Tables.{
  JobState, succeeded, failed, AuthoringLimits, AuthoringJobModel, AuthoringAttemptModel,
  AuthoringProposalModel, StoryProposal, JobTables, JobLease, AuthoringUsage, Clock,
}
use ai_rpg.Authoring.Rows.{
  is_running, is_ahead, claim_job, reserve_job, account_job, finish_job, write_outline, update_job,
  expire_jobs, expire_attempts, running_count, oldest_queued, end_attempt, lease_of,
}

pub record Database : Type 0 where
  pub stories : StoryTables
  pub authoring : JobTables
  pub usage : UsageTables

unfoldable pub new_attempt : ℕ → AuthoringJobModel → AuthoringAttemptModel
new_attempt now j = record {
  job_id = j.id;
  lease_epoch = j.lease_epoch;
  state = "claimed";
  request_reserved = false;
  error_code = none;
  created_at = now;
  finished_at = none;
}

unfoldable pub expire : (Uuid → Bool) → ℕ → JobTables → JobTables
expire locked now t = record t {
  jobs = expire_jobs locked now t.jobs;
  attempts = expire_attempts locked now t.jobs t.attempts;
}

unfoldable pub start : ℕ → AuthoringJobModel → JobTables → JobTables
start now j t = record t {
  jobs = update_job j.id (claim_job now) t.jobs;
  attempts = new_attempt now (claim_job now j) ∷ t.attempts;
}

abbrev pub start_oldest : ℕ → Option AuthoringJobModel → JobTables → Option JobLease × JobTables
start_oldest now none t = (none, t)
start_oldest now (some j) t = (some (lease_of (claim_job now j)), start now j t)

unfoldable pub claim : AuthoringLimits → (Uuid → Bool) → ℕ → JobTables → Option JobLease × JobTables
claim limits locked now t =
    let swept = expire locked now t in
    if leb limits.max_running (running_count swept.jobs)
    then (none, swept)
    else start_oldest now (oldest_queued locked swept.jobs) swept

abbrev pub is_held_by : JobLease → ℕ → AuthoringJobModel → Bool
is_held_by lease now j =
    j.id == lease.id
    && (is_running j.state && (nat_eq j.lease_epoch lease.epoch && is_ahead now j.lease_until))

abbrev pub still_ahead : ℕ → Option AuthoringJobModel → Option AuthoringJobModel
still_ahead now none = none
still_ahead now (some j) = if is_ahead now j.lease_until then some j else none

-- `_fenced`: the row may have been waited for beyond the deadline.
unfoldable pub fenced : JobLease → Clock → List AuthoringJobModel → Option AuthoringJobModel
fenced lease clock jobs = still_ahead clock.held (find (is_held_by lease clock.selected) jobs)

abbrev pub is_attempt : Uuid → ℕ → AuthoringAttemptModel → Bool
is_attempt job_id epoch a = a.job_id == job_id && nat_eq a.lease_epoch epoch

unfoldable pub request_attempt : Uuid → ℕ → List AuthoringAttemptModel → List AuthoringAttemptModel
request_attempt job_id epoch attempts =
    map
      (λ a.
        if is_attempt job_id epoch a
        then record a { request_reserved = true; state = "requested" }
        else a)
      attempts

-- The part of `reserve_call` that has the job.
abbrev pub reserve_fenced :
    Settings → JobLease → Clock → AuthoringJobModel → Database → Result (Bool × Database)
reserve_fenced settings lease clock j db = do
  usage ←
      reserve_usage settings lease.owner "llm_authoring" (j.id ∷ j.attempts ∷ []) clock.started
        db.usage
  raise_if (not (is_ahead clock.written j.lease_until)) (story_error "lease_expired" 409)
  attempt ← or_raise (find (is_attempt j.id lease.epoch) db.authoring.attempts) assertion_error
  ok (
    true,
    record db {
      usage = usage;
      authoring = record db.authoring {
        jobs = update_job j.id (reserve_job clock.written) db.authoring.jobs;
        attempts = request_attempt j.id lease.epoch db.authoring.attempts;
      };
    },
  )

abbrev pub reserve_found :
    Settings → JobLease → Clock → Option AuthoringJobModel → Database → Result (Bool × Database)
reserve_found settings lease clock none db = ok (false, db)
reserve_found settings lease clock (some j) db =
    if not (nat_eq j.physical_requests 0)
    then ok (false, db)
    else reserve_fenced settings lease clock j db

unfoldable pub reserve_call : Settings → JobLease → Clock → Database → Result (Bool × Database)
reserve_call settings lease clock db = do
  story ← owned lease.owner lease.story_id db.stories.stories
  editable story
  reserve_found settings lease clock (fenced lease clock db.authoring.jobs) db

-- `_job`
unfoldable pub job_of : Uuid → Uuid → List AuthoringJobModel → Result AuthoringJobModel
job_of owner job_id jobs =
    or_raise (find (λ j. j.id == job_id && j.owner_principal_id == owner) jobs)
      (story_error "authoring_job_not_found" 404)

abbrev pub account_reserved :
    JobLease
    → AuthoringUsage
    → Bool
    → Option String
    → Option AuthoringAttemptModel
    → JobTables
    → JobTables
account_reserved lease usage complete actual_model none t = t
account_reserved lease usage complete actual_model (some attempt) t =
    if not attempt.request_reserved
    then t
    else record t { jobs = update_job lease.id (account_job usage complete actual_model) t.jobs }

unfoldable pub record_usage :
    JobLease → AuthoringUsage → Bool → Option String → JobTables → Result JobTables
record_usage lease usage complete actual_model t = do
  job ← job_of lease.owner lease.id t.jobs
  ok (
      account_reserved lease usage complete actual_model
        (find (is_attempt lease.id lease.epoch) t.attempts) t)

-- `_finish`, on a job whose row has just been written.
unfoldable pub finish :
    (AuthoringJobModel → AuthoringJobModel)
    → JobState
    → Option String
    → AuthoringUsage
    → Bool
    → Option String
    → ℕ
    → String
    → AuthoringJobModel
    → JobTables
    → JobTables
finish write state code usage complete actual_model now attempt_state j t = record t {
  jobs =
      update_job j.id (λ k. finish_job state code usage complete actual_model now (write k)) t.jobs;
  attempts = end_attempt j attempt_state code now t.attempts;
}

unfoldable pub proposal_row : AuthoringJobModel → StoryProposal → AuthoringProposalModel
proposal_row j proposal = record {
  id = proposal.id;
  job_id = j.id;
  story_id = j.story_id;
  base_revision = j.base_revision;
  payload = proposal;
  is_applied = false;
  applied_revision = none;
  adopted_change_ids = [];
}

abbrev pub add_proposal :
    AuthoringJobModel
    → Option StoryProposal
    → List AuthoringProposalModel
    → List AuthoringProposalModel
add_proposal j none proposals = proposals
add_proposal j (some proposal) proposals = proposal_row j proposal ∷ proposals

unfoldable pub succeed_job :
    Option StoryProposal
    → Option Json
    → AuthoringUsage
    → Option String
    → ℕ
    → AuthoringJobModel
    → JobTables
    → JobTables
succeed_job proposal outline usage actual_model now j t =
    finish (write_outline outline) succeeded none usage true actual_model now "succeeded" j
      (record t { proposals = add_proposal j proposal t.proposals })

abbrev pub succeed_found :
    Option StoryProposal
    → Option Json
    → AuthoringUsage
    → Option String
    → ℕ
    → Option AuthoringJobModel
    → JobTables
    → Result (Bool × JobTables)
succeed_found proposal outline usage actual_model now none t = ok (false, t)
succeed_found proposal outline usage actual_model now (some j) t = do
  raise_if (not (nat_eq j.physical_requests 1)) (story_error "request_not_reserved" 409)
  ok (true, succeed_job proposal outline usage actual_model now j t)

unfoldable pub succeed :
    JobLease
    → Option StoryProposal
    → Option Json
    → AuthoringUsage
    → Option String
    → Clock
    → StoryTables
    → JobTables
    → Result (Bool × JobTables)
succeed lease proposal outline usage actual_model clock stories t = do
  story ← owned lease.owner lease.story_id stories.stories
  editable story
  succeed_found proposal outline usage actual_model clock.written (fenced lease clock t.jobs) t

abbrev pub fail_found :
    String
    → AuthoringUsage
    → Bool
    → Option String
    → ℕ
    → Option AuthoringJobModel
    → JobTables
    → Bool × JobTables
fail_found code usage complete actual_model now none t = (false, t)
fail_found code usage complete actual_model now (some j) t =
    (true, finish (λ k. k) failed (some code) usage complete actual_model now "failed" j t)

unfoldable pub fail :
    JobLease → String → AuthoringUsage → Bool → Option String → Clock → JobTables → Bool × JobTables
fail lease code usage complete actual_model clock t =
    fail_found code usage complete actual_model clock.written (fenced lease clock t.jobs) t
