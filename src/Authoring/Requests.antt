-- ===== src/Authoring/Requests.antt =====
-- infrastructure/postgres/story_jobs.py: what the owner of a story asks for. The hash of a draft
-- (SHA-256 of its canonical JSON) is a parameter, as are the ids that uuid4 makes.
use ai_rpg.Prelude.{
  ℕ, ◌+◌, String, Bool, true, false, ◌&&◌, ◌||◌, not, Option, none, some, List, [], ◌∷◌, Result, ok,
  err, ◌>>=◌, ◌>>◌, raise_if, story_error, value_error, assertion_error, leb, find, if◌then◌else◌,
  ◌==◌, id_eq, option_eq, is_some,
}
use ai_rpg.Domain.Results.{Uuid}
use ai_rpg.Text.{Text}
use ai_rpg.Stories.Json.{Json}
use ai_rpg.Stories.Drafts.{AuthoringDraft}
use ai_rpg.Stories.Ledger.{
  LedgerKey, Operation, Response, draft_response, job_response, owned, editable, draft_at, replay,
  remember,
}
use ai_rpg.Usage.{Settings, reserve_usage}
use ai_rpg.Authoring.Tables.{
  JobKind, outline, concretize, JobState, queued, succeeded, AuthoringLimits, AuthoringJobModel,
  AuthoringProposalModel, AuthoringJob, JobTables, Clock,
}
use ai_rpg.Authoring.Rows.{is_active, cancel_job, update_job, active_count, end_attempt}
use ai_rpg.Authoring.Jobs.{Database, job_of}

-- `_response`
unfoldable pub response_of : List AuthoringProposalModel → AuthoringJobModel → AuthoringJob
response_of proposals job = record {
  id = job.id;
  story_id = job.story_id;
  base_revision = job.base_revision;
  snapshot_hash = job.snapshot_hash;
  kind = job.kind;
  state = job.state;
  model_id = job.model_id;
  actual_model = job.actual_model;
  attempts = job.attempts;
  physical_requests = job.physical_requests;
  input_tokens = job.input_tokens;
  output_tokens = job.output_tokens;
  usage_complete = job.usage_complete;
  error_code = job.error_code;
  created_at = job.created_at;
  updated_at = job.updated_at;
  proposal = find (λ p. p.job_id == job.id) proposals;
  outline = job.outline;
  outline_revision = job.outline_revision;
  approved_outline_revision = job.approved_outline_revision;
}

pub record CreateAuthoringJobRequest : Type 0 where
  pub base_revision : ℕ
  pub kind : JobKind
  pub instructions : Text
  pub outline_job_id : Option Uuid
  pub approved_outline_revision : Option ℕ

abbrev pub is_concretize : JobKind → Bool
is_concretize concretize = true
is_concretize _ = false

abbrev pub is_outline : JobKind → Bool
is_outline outline = true
is_outline _ = false

abbrev pub is_succeeded : JobState → Bool
is_succeeded succeeded = true
is_succeeded _ = false

-- `outline_required`
unfoldable pub outline_required : CreateAuthoringJobRequest → Result (Unit {0})
outline_required r =
    if is_concretize r.kind
    then raise_if (not (is_some r.outline_job_id && is_some r.approved_outline_revision))
        (value_error "Concretize requires an approved outline revision")
    else raise_if (is_some r.outline_job_id || is_some r.approved_outline_revision)
        (value_error "Only concretize accepts an outline")

-- The outline that a request names, which is that of a job of the same draft that succeeded, at
-- the revision that the owner approved.
unfoldable pub approved_outline :
    Uuid
    → Uuid
    → ℕ
    → CreateAuthoringJobRequest
    → Option Uuid
    → List AuthoringJobModel
    → Result (Option Json)
approved_outline owner story_id revision request none jobs = ok none
approved_outline owner story_id revision request (some outline_job_id) jobs = do
  source ← job_of owner outline_job_id jobs
  raise_if
      (not (source.story_id == story_id)
        || not (source.base_revision == revision)
        || not (is_outline source.kind)
        || not (is_succeeded source.state)
        || not (source.approved_outline_revision == request.approved_outline_revision)
        || not (some source.outline_revision == request.approved_outline_revision))
      (story_error "outline_not_approved" 409)
  ok source.outline

unfoldable pub new_job :
    (AuthoringDraft → Text)
    → AuthoringLimits
    → String
    → Uuid
    → Uuid
    → Uuid
    → LedgerKey
    → CreateAuthoringJobRequest
    → AuthoringDraft
    → ℕ
    → Option Json
    → ℕ
    → AuthoringJobModel
new_job content_hash limits model_id id owner story_id key request draft revision plan now =
    record {
      id = id;
      story_id = story_id;
      owner_principal_id = owner;
      request_id = key.request_id;
      input_hash = key.input_hash;
      base_revision = revision;
      snapshot = draft;
      snapshot_hash = content_hash draft;
      kind = request.kind;
      instructions = request.instructions;
      approved_outline = plan;
      model_id = model_id;
      limits = limits;
      state = queued;
      attempts = 0;
      lease_epoch = 0;
      lease_until = none;
      physical_requests = 0;
      input_tokens = 0;
      output_tokens = 0;
      usage_complete = false;
      actual_model = none;
      error_code = none;
      outline = none;
      outline_revision = 0;
      approved_outline_revision = none;
      created_at = now;
      updated_at = now;
    }

module _ (content_hash : AuthoringDraft → Text) (limits : AuthoringLimits)
    (settings : Settings) where
  -- The part of `enqueue` for a request that the ledger does not have.
  abbrev pub enqueue_new :
      String
      → Uuid
      → Uuid
      → LedgerKey
      → CreateAuthoringJobRequest
      → Uuid
      → Clock
      → Database
      → Result (AuthoringJob × Database)
  enqueue_new model_id owner story_id key request job_id clock db = do
    draft ← draft_at story_id (some request.base_revision) db.stories.drafts
    plan ←
        approved_outline owner story_id draft.revision request request.outline_job_id
          db.authoring.jobs
    raise_if (leb limits.max_active_per_owner (active_count owner db.authoring.jobs))
        (story_error "concurrent_usage_limit" 429)
    usage ← reserve_usage settings owner "authoring_job" (job_id ∷ []) clock.started db.usage
    let job =
        new_job content_hash limits model_id job_id owner story_id key request draft.payload
          draft.revision plan clock.written
    let response = response_of db.authoring.proposals job
    ok (
      response,
      record db {
        stories =
            remember owner story_id key ("authoring_job", none) (job_response response) db.stories;
        authoring = record db.authoring { jobs = job ∷ db.authoring.jobs };
        usage = usage;
      },
    )

  -- A request that was answered is answered with its job as it now stands.
  abbrev pub enqueue_again : Uuid → Response → Database → Result (AuthoringJob × Database)
  enqueue_again owner (job_response previous) db = do
    job ← job_of owner previous.id db.authoring.jobs
    ok (response_of db.authoring.proposals job, db)
  enqueue_again owner (draft_response previous) db = err assertion_error

  unfoldable pub enqueue :
      String
      → Uuid
      → Uuid
      → LedgerKey
      → CreateAuthoringJobRequest
      → Uuid
      → Clock
      → Database
      → Result (AuthoringJob × Database)
  enqueue model_id owner story_id key request job_id clock db = do
    story ← owned owner story_id db.stories.stories
    editable story
    previous ← replay owner story_id key ("authoring_job", none) db.stories.requests
    elim previous [
      | none ↦ enqueue_new model_id owner story_id key request job_id clock db
      | some response ↦ enqueue_again owner response db
    ]

unfoldable pub cancel : Uuid → Uuid → ℕ → Database → Result (AuthoringJob × JobTables)
cancel owner job_id now db = do
  job ← job_of owner job_id db.authoring.jobs
  story ← owned owner job.story_id db.stories.stories
  let cancelled_tables : JobTables = record db.authoring {
    jobs = update_job job_id (cancel_job now) db.authoring.jobs;
    attempts = end_attempt job "cancelled" (some "cancelled") now db.authoring.attempts;
  }
  ok (
      if is_active job.state
      then (response_of db.authoring.proposals (cancel_job now job), cancelled_tables)
      else (response_of db.authoring.proposals job, db.authoring))

pub data OutlineEdit : Type 0 where
  approve : OutlineEdit
  edit : Json → OutlineEdit

unfoldable pub edit_job : OutlineEdit → ℕ → AuthoringJobModel → AuthoringJobModel
edit_job approve now j = record j {
  approved_outline_revision = some j.outline_revision;
  updated_at = now;
}
edit_job (edit plan) now j = record j {
  outline = some plan;
  outline_revision = j.outline_revision + 1;
  approved_outline_revision = none;
  updated_at = now;
}

abbrev pub edit_operation : OutlineEdit → Uuid → Operation
edit_operation approve job_id = ("approve_outline", some job_id)
edit_operation (edit plan) job_id = ("edit_outline", some job_id)

abbrev pub edit_new :
    Uuid
    → Uuid
    → LedgerKey
    → ℕ
    → OutlineEdit
    → Uuid
    → ℕ
    → Database
    → Result (AuthoringJob × Database)
edit_new owner story_id key expected_outline_revision change job_id now db = do
  job ← job_of owner job_id db.authoring.jobs
  raise_if (not (is_outline job.kind) || not (is_succeeded job.state) || not (is_some job.outline))
      (story_error "outline_unavailable" 409)
  raise_if (not (job.outline_revision == expected_outline_revision))
      (story_error "outline_revision_conflict" 409)
  let response = response_of db.authoring.proposals (edit_job change now job)
  ok (
    response,
    record db {
      stories =
          remember owner story_id key (edit_operation change job_id) (job_response response)
            db.stories;
      authoring = record db.authoring {
        jobs = update_job job_id (edit_job change now) db.authoring.jobs;
      };
    },
  )

abbrev pub answered_job : Response → Database → Result (AuthoringJob × Database)
answered_job (job_response previous) db = ok (previous, db)
answered_job (draft_response previous) db = err assertion_error

-- `edit_outline`, with `approve` or without.
unfoldable pub edit_outline :
    Uuid → Uuid → LedgerKey → ℕ → OutlineEdit → ℕ → Database → Result (AuthoringJob × Database)
edit_outline owner job_id key expected_outline_revision change now db = do
  existing ← job_of owner job_id db.authoring.jobs
  story ← owned owner existing.story_id db.stories.stories
  editable story
  previous ← replay owner story.id key (edit_operation change job_id) db.stories.requests
  elim previous [
    | none ↦ edit_new owner story.id key expected_outline_revision change job_id now db
    | some response ↦ answered_job response db
  ]
