-- ===== src/Authoring/Calls/Queue.antt =====
-- What a new job writes (infrastructure/postgres/story_jobs.py, enqueue).
use ai_rpg.Prelude.{
  ℕ, String, Bool, false, ◌<◌, ◌≡◌, refl, sym, Option, none, some, [], ◌∷◌, arith, ok, inl, inr,
  ◌⊎◌, Option-cases, leb, ltb, >>=-eq-ok, raise_if-eq-ok, raise_if-ok, from_ok, min, ◌||◌,
}
use mathlib.Core.Path.{ap}
use ai_rpg.Domain.Results.{Uuid}
use ai_rpg.Text.{Text}
use ai_rpg.Stories.Json.{Json}
use ai_rpg.Stories.Drafts.{AuthoringDraft, StoryDraftModel}
use ai_rpg.Stories.Ledger.{
  LedgerKey, Response, draft_response, job_response, owned, editable, draft_at, replay,
}
use ai_rpg.Usage.{Settings, reserve_usage}
use ai_rpg.Authoring.Tables.{AuthoringLimits, authoring_limits, AuthoringJob, Clock}
use ai_rpg.Authoring.Rows.{active_count}
use ai_rpg.Authoring.Keeps.{IsRow}
use ai_rpg.Authoring.Jobs.{Database, job_of}
use ai_rpg.Authoring.Requests.{
  CreateAuthoringJobRequest, approved_outline, new_job, enqueue, enqueue_new, enqueue_again,
}

-- The tests of `__post_init__` that failed to raise.
limits_test : AuthoringLimits → Bool
limits_test l =
    leb l.timeout_seconds 0
    || leb l.lease_seconds l.timeout_seconds
    || ltb
        (min l.max_attempts (
          min l.max_prompt_bytes (
            min l.max_output_tokens
              (min l.max_total_tokens (min l.max_active_per_owner l.max_running)))))
        1
    || ltb l.max_total_tokens l.max_output_tokens

-- Limits that could be built allow an attempt.
attempts_allowed : (l : AuthoringLimits) → authoring_limits l ≡ ok tt → 0 < l.max_attempts
unfolding authoring_limits limits_test
attempts_allowed l valid =
    let passed : limits_test l ≡ false = raise_if-ok (limits_test l) _ valid in ground arith

module _ (content_hash : AuthoringDraft → Text) (limits : AuthoringLimits)
    (settings : Settings) where
  -- The job that is added, while its owner has fewer than may be active.
  pub record IsQueued (model_id : String) (owner story_id : Uuid) (key : LedgerKey)
      (request : CreateAuthoringJobRequest) (job_id : Uuid) (clock : Clock) (db db' : Database)
      : Type 0 where
    pub draft : StoryDraftModel
    pub plan : Option Json
    pub current : draft_at story_id (some request.base_revision) db.stories.drafts ≡ ok draft
    pub approved :
        approved_outline owner story_id draft.revision request request.outline_job_id
          db.authoring.jobs
        ≡ ok plan
    pub room : active_count owner db.authoring.jobs < limits.max_active_per_owner
    pub writes :
        db'.authoring.jobs
        ≡ new_job content_hash limits model_id job_id owner story_id key request draft.payload
            draft.revision plan clock.written
          ∷ db.authoring.jobs

  enqueue_new_lem :
      (model_id : String) (owner story_id : Uuid) (key : LedgerKey)
      (request : CreateAuthoringJobRequest) (job_id : Uuid) (clock : Clock) (db db' : Database)
      (response : AuthoringJob)
      → enqueue_new content_hash limits settings model_id owner story_id key request job_id clock db
        ≡ ok (response, db')
      → IsQueued model_id owner story_id key request job_id clock db db'
  enqueue_new_lem model_id owner story_id key request job_id clock db db' response h =
      let (draft, current, rest) =
        >>=-eq-ok (draft_at story_id (some request.base_revision) db.stories.drafts) _ h in
      let (plan, approved, rest') =
        >>=-eq-ok
          (approved_outline owner story_id draft.revision request request.outline_job_id
            db.authoring.jobs)
          _ rest in
      let (room, rest'') =
        raise_if-eq-ok (leb limits.max_active_per_owner (active_count owner db.authoring.jobs)) _ _
          _ rest' in
      let (usage, _, made) =
        >>=-eq-ok
          (reserve_usage settings owner "authoring_job" (job_id ∷ []) clock.started db.usage) _
          rest'' in
      record {
        draft = draft;
        plan = plan;
        current = current;
        approved = approved;
        room = ground arith;
        writes = ap (λ p. p.1.authoring.jobs) (sym (from_ok made));
      }

  enqueue_again_lem :
      (owner : Uuid) (previous : Response) (db db' : Database) (response : AuthoringJob)
      → enqueue_again content_hash limits settings owner previous db ≡ ok (response, db')
      → db' ≡ db
  enqueue_again_lem owner (job_response previous) db db' response h =
      let (_, _, made) = >>=-eq-ok (job_of owner previous.id db.authoring.jobs) _ h in
      ap (λ p. p.1) (sym (from_ok made))
  enqueue_again_lem owner (draft_response previous) db db' response h = cc

  -- A request that was answered changes nothing.
  pub enqueue_lem :
      (model_id : String) (owner story_id : Uuid) (key : LedgerKey)
      (request : CreateAuthoringJobRequest) (job_id : Uuid) (clock : Clock) (db db' : Database)
      (response : AuthoringJob)
      → enqueue content_hash limits settings model_id owner story_id key request job_id clock db
        ≡ ok (response, db')
      → (db' ≡ db) ⊎ IsQueued model_id owner story_id key request job_id clock db db'
  unfolding enqueue
  enqueue_lem model_id owner story_id key request job_id clock db db' response h =
      let (story, _, rest) = >>=-eq-ok (owned owner story_id db.stories.stories) _ h in
      let (_, _, rest') = >>=-eq-ok (editable story) _ rest in
      let (previous, _, last) =
        >>=-eq-ok (replay owner story_id key ("authoring_job", none) db.stories.requests) _ rest' in
      elim (Option-cases previous) [
        | inl fresh ↦ inr (
            enqueue_new_lem model_id owner story_id key request job_id clock db db' response
              (rw fresh at last))
        | inr (answer, again) ↦
            inl (enqueue_again_lem owner answer db db' response (rw again at last))
      ]

  pub new_job-IsRow :
      (model_id : String) (job_id owner story_id : Uuid) (key : LedgerKey)
      (request : CreateAuthoringJobRequest) (draft : AuthoringDraft) (revision : ℕ)
      (plan : Option Json) (now : ℕ)
      → authoring_limits limits ≡ ok tt
      → IsRow (
          new_job content_hash limits model_id job_id owner story_id key request draft revision plan
            now)
  unfolding new_job
  new_job-IsRow model_id job_id owner story_id key request draft revision plan now valid = record {
    bounded = omega arith;
    room = λ _. attempts_allowed limits valid;
    unsent = λ _. refl;
    single = omega arith;
    leased = refl;
    sent = λ k. cc;
    counted = omega arith;
  }
