-- ===== src/Authoring/Calls/Outlines.antt =====
-- What an edit or an approval of an outline writes (infrastructure/postgres/story_jobs.py).
use ai_rpg.Prelude.{
  ℕ, ◌||◌, not, ◌≡◌, refl, ok, Option-cases, inl, inr, nat_eq, >>=-eq-ok, raise_if-eq-ok, from_ok,
  is_some,
}
use mathlib.Core.Path.{subst}
use ai_rpg.Prelude.Rows.{Evolves, Evolves-refl}
use ai_rpg.Domain.Results.{Uuid}
use ai_rpg.Stories.Ledger.{
  LedgerKey, Response, draft_response, job_response, owned, editable, replay,
}
use ai_rpg.Authoring.Tables.{AuthoringJobModel, AuthoringJob}
use ai_rpg.Authoring.Keeps.{edit_job-IsRow}
use ai_rpg.Authoring.Steps.{edit_job-JobStep}
use ai_rpg.Authoring.Jobs.{Database, job_of}
use ai_rpg.Authoring.Requests.{
  OutlineEdit, approve, edit, edit_job, edit_new, edit_outline, edit_operation, answered_job,
  is_outline, is_succeeded,
}
use ai_rpg.Authoring.Calls.Kept.{IsQuiet, IsQuiet-refl, update_job-IsQuiet}
use ai_rpg.Authoring.Calls.Writes.{HasIds, job_of_lem}

edit_job-IsQuiet :
    (change : OutlineEdit) (now : ℕ) (j : AuthoringJobModel) → IsQuiet j (edit_job change now j)
unfolding edit_job
edit_job-IsQuiet approve now j = record {
  kept = record {
    same_id = refl;
    same_owner = refl;
    still_active = λ k. k;
    sound = λ row. (edit_job-JobStep approve now j, edit_job-IsRow approve now j row);
  };
  still_running = λ k. k;
}
edit_job-IsQuiet (edit plan) now j = record {
  kept = record {
    same_id = refl;
    same_owner = refl;
    still_active = λ k. k;
    sound = λ row. (edit_job-JobStep (edit plan) now j, edit_job-IsRow (edit plan) now j row);
  };
  still_running = λ k. k;
}

edit_new-IsQuiet :
    (owner story_id : Uuid) (key : LedgerKey) (expected : ℕ) (change : OutlineEdit) (job_id : Uuid)
    (now : ℕ) (db db' : Database) (response : AuthoringJob)
    → HasIds db.authoring.jobs
    → edit_new owner story_id key expected change job_id now db ≡ ok (response, db')
    → Evolves IsQuiet db.authoring.jobs db'.authoring.jobs
edit_new-IsQuiet owner story_id key expected change job_id now db db' response u h =
    let (j, found, rest) = >>=-eq-ok (job_of owner job_id db.authoring.jobs) _ h in
    let (_, rest') =
      raise_if-eq-ok
        (not (is_outline j.kind) || not (is_succeeded j.state) || not (is_some j.outline)) _ _ _
        rest in
    let (_, made) = raise_if-eq-ok (not (nat_eq j.outline_revision expected)) _ _ _ rest' in
    let (same, _, only) = job_of_lem owner job_id db.authoring.jobs j u found in
    subst (λ p. Evolves IsQuiet db.authoring.jobs p.1.authoring.jobs) (from_ok made)
      (update_job-IsQuiet j job_id (edit_job change now) db.authoring.jobs same only
        (edit_job-IsQuiet change now j))

answered_job-IsQuiet :
    (previous : Response) (db db' : Database) (response : AuthoringJob)
    → answered_job previous db ≡ ok (response, db')
    → Evolves IsQuiet db.authoring.jobs db'.authoring.jobs
answered_job-IsQuiet (job_response previous) db db' response h =
    subst (λ p. Evolves IsQuiet db.authoring.jobs p.1.authoring.jobs) (from_ok h)
      (Evolves-refl IsQuiet db.authoring.jobs IsQuiet-refl)
answered_job-IsQuiet (draft_response previous) db db' response h = cc

pub edit_outline-IsQuiet :
    (owner job_id : Uuid) (key : LedgerKey) (expected : ℕ) (change : OutlineEdit) (now : ℕ)
    (db db' : Database) (response : AuthoringJob)
    → HasIds db.authoring.jobs
    → edit_outline owner job_id key expected change now db ≡ ok (response, db')
    → Evolves IsQuiet db.authoring.jobs db'.authoring.jobs
unfolding edit_outline
edit_outline-IsQuiet owner job_id key expected change now db db' response u h =
    let (j, _, rest) = >>=-eq-ok (job_of owner job_id db.authoring.jobs) _ h in
    let (story, _, rest') = >>=-eq-ok (owned owner j.story_id db.stories.stories) _ rest in
    let (_, _, rest'') = >>=-eq-ok (editable story) _ rest' in
    let (previous, _, last) =
      >>=-eq-ok (replay owner story.id key (edit_operation change job_id) db.stories.requests) _
        rest'' in
    elim (Option-cases previous) [
      | inl fresh ↦
          edit_new-IsQuiet owner story.id key expected change job_id now db db' response u
            (rw fresh at last)
      | inr (answer, again) ↦ answered_job-IsQuiet answer db db' response (rw again at last)
    ]
