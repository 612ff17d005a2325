-- ===== src/Authoring/Calls/Invariant.antt =====
-- What holds of the store of jobs after any calls (infrastructure/postgres/story_jobs.py).
use ai_rpg.Prelude.{
  String, true, false, ◌&&◌, ◌≤◌, ◌<◌, ◌≡◌, refl, sym, ◌∙◌, List, ◌∷◌, arith, ok, map, All,
  length-keep-bound, inl, inr, contains, id_eq, ◌==◌,
}
use mathlib.Core.Path.{subst}
use ai_rpg.Prelude.Rows.{Evolves, Evolves-refl, Evolves-All, Evolves-count}
use ai_rpg.Domain.Results.{Uuid}
use ai_rpg.Authoring.Tables.{authoring_limits, AuthoringJobModel}
use ai_rpg.Authoring.Rows.{is_active, running_count, active_count}
use ai_rpg.Authoring.Keeps.{IsRow}
use ai_rpg.Authoring.Jobs.{Database}
use ai_rpg.Authoring.Requests.{new_job}
use ai_rpg.Authoring.Calls.{
  Deployment, Step, enqueues, cancels, edits, claims, reserves, accounts, succeeds, fails,
  elsewhere, Reach, here, then_step, ids_of,
}
use ai_rpg.Authoring.Calls.Kept.{IsKept, IsQuiet, IsQuiet-refl}
use ai_rpg.Authoring.Calls.Writes.{HasIds, cancel-IsQuiet, reserve_call-IsQuiet}
use ai_rpg.Authoring.Calls.Ends.{record_usage-IsQuiet, fail-IsQuiet, succeed-IsQuiet}
use ai_rpg.Authoring.Calls.Outlines.{edit_outline-IsQuiet}
use ai_rpg.Authoring.Calls.Claims.{
  claim-IsKept, IsQuiet-IsKept, quiet-running_count, Evolves-HasIds,
}
use ai_rpg.Authoring.Calls.Queue.{IsQueued, enqueue_lem, new_job-IsRow}

-- Jobs have ids of their own and rows in order; no more of them run than may, and no owner has more
-- that are active than may be.
pub record IsSound (d : Deployment) (jobs : List AuthoringJobModel) : Type 0 where
  pub ids : HasIds jobs
  pub rows : All IsRow jobs
  pub running : running_count jobs ≤ d.limits.max_running
  pub active : (owner : Uuid) → active_count owner jobs ≤ d.limits.max_active_per_owner

kept-active :
    (owner : Uuid) (j k : AuthoringJobModel)
    → IsKept j k
    → (k.owner_principal_id == owner && is_active k.state) ≡ true
    → (j.owner_principal_id == owner && is_active j.state) ≡ true
kept-active owner j k kept h =
    let same : (k.owner_principal_id == owner) ≡ (j.owner_principal_id == owner) =
      rw kept.same_owner refl in
    ground (arith, kept.still_active)

kept-IsSound :
    (d : Deployment) (xs ys : List AuthoringJobModel)
    → Evolves IsKept xs ys
    → running_count ys ≤ d.limits.max_running
    → IsSound d xs
    → IsSound d ys
kept-IsSound d xs ys kept running sound = record {
  ids = Evolves-HasIds xs ys kept sound.ids;
  rows = Evolves-All IsKept IsRow IsRow xs ys (λ j k step row. (step.sound row).1) kept sound.rows;
  running = running;
  active = λ owner. omega (
    arith,
    sound.active owner,
    Evolves-count (λ j. j.owner_principal_id == owner && is_active j.state) IsKept xs ys
        (kept-active owner) kept,
  );
}

-- A table of jobs after a call: every row in its place, written by moves; or one new row more.
pub data Grows (d : Deployment) (xs ys : List AuthoringJobModel) : Type 0 where
  writes :
      Evolves IsKept xs ys
      → (running_count xs ≤ d.limits.max_running → running_count ys ≤ d.limits.max_running)
      → Grows d xs ys
  adds :
      (db db' : Database) (job_id : Uuid)
      → contains job_id (ids_of db) ≡ false
      → db.authoring.jobs ≡ xs
      → db'.authoring.jobs ≡ ys
      → (model_id : String) (owner story_id : Uuid) (key : _) (request : _) (clock : _)
      → IsQueued d.content_hash d.limits d.settings model_id owner story_id key request job_id clock
          db db'
      → Grows d xs ys

quiet-Grows :
    (d : Deployment) (xs ys : List AuthoringJobModel) → Evolves IsQuiet xs ys → Grows d xs ys
quiet-Grows d xs ys quiet =
    writes (IsQuiet-IsKept xs ys quiet) (λ h. omega (arith, h, quiet-running_count xs ys quiet))

pub Step-Grows :
    (d : Deployment) (db db' : Database)
    → HasIds db.authoring.jobs
    → Step d db db'
    → Grows d db.authoring.jobs db'.authoring.jobs
Step-Grows d db db' u (enqueues owner story_id key request job_id clock response fresh h) =
    elim (enqueue_lem d.content_hash d.limits d.settings d.model_id owner story_id key request
      job_id clock db db' response h) [
        | inl same ↦
            rw same (quiet-Grows d _ _ (Evolves-refl IsQuiet db.authoring.jobs IsQuiet-refl))
        | inr queued ↦
            adds db db' job_id fresh refl refl d.model_id owner story_id key request clock queued
      ]
Step-Grows d db db' u (cancels owner job_id now response t h same) =
    rw same (quiet-Grows d _ _ (cancel-IsQuiet owner job_id now db response t u h))
Step-Grows d db db' u (edits owner job_id key expected change now response h) =
    quiet-Grows d _ _
      (edit_outline-IsQuiet owner job_id key expected change now db db' response u h)
Step-Grows d db db' u (claims locked now same) =
    let kept = claim-IsKept d.limits locked now db.authoring u in rw same (writes kept.0 kept.1)
Step-Grows d db db' u (reserves lease clock b h) =
    quiet-Grows d _ _ (reserve_call-IsQuiet d.settings lease clock db db' b u h)
Step-Grows d db db' u (accounts lease usage complete actual_model t h same) =
    rw same (
      quiet-Grows d _ _ (record_usage-IsQuiet lease usage complete actual_model db.authoring t u h))
Step-Grows d db db' u (succeeds lease proposal plan usage actual_model clock done t h same) =
    rw same (
      quiet-Grows d _ _ (
        succeed-IsQuiet lease proposal plan usage actual_model clock db.stories db.authoring t done
          u h))
Step-Grows d db db' u (fails lease code usage complete actual_model clock same) =
    rw same
      (quiet-Grows d _ _ (fail-IsQuiet lease code usage complete actual_model clock db.authoring u))
Step-Grows d db db' u (elsewhere stories usage same) =
    rw same (quiet-Grows d _ _ (Evolves-refl IsQuiet db.authoring.jobs IsQuiet-refl))

added-active :
    (d : Deployment) (j : AuthoringJobModel) (xs : List AuthoringJobModel)
    → active_count j.owner_principal_id xs < d.limits.max_active_per_owner
    → ((owner : Uuid) → active_count owner xs ≤ d.limits.max_active_per_owner)
    → (owner : Uuid) → active_count owner (j ∷ xs) ≤ d.limits.max_active_per_owner
added-active d j xs room active owner =
    length-keep-bound (λ k. k.owner_principal_id == owner && is_active k.state) j xs _
      (active owner)
      λ mine.
        let same : j.owner_principal_id ≡ owner =
          (id_eq.beq_iff j.owner_principal_id owner).0 (ground arith) in
        rw (sym same) room

new_id :
    (j : AuthoringJobModel) (xs : List AuthoringJobModel)
    → contains j.id (map (λ k. k.id) xs) ≡ false
    → HasIds xs
    → HasIds (j ∷ xs)
new_id j xs absent u = ground arith

Grows-IsSound :
    (d : Deployment) (xs ys : List AuthoringJobModel)
    → authoring_limits d.limits ≡ ok tt
    → Grows d xs ys
    → IsSound d xs
    → IsSound d ys
unfolding new_job
Grows-IsSound d xs ys valid (writes kept running) sound =
    kept-IsSound d xs ys kept (running sound.running) sound
Grows-IsSound d xs ys valid
      (adds db db' job_id fresh same same' model_id owner story_id key request clock queued) sound =
    let job =
      new_job d.content_hash d.limits model_id job_id owner story_id key request
        queued.draft.payload queued.draft.revision queued.plan clock.written in
    let absent : contains job_id (map (λ k. k.id) xs) ≡ false = rw same at fresh in
    let first_new : HasIds (job ∷ xs) = new_id job xs absent sound.ids in
    subst (IsSound d) (sym queued.writes ∙ same') (
      rw same (record {
        ids = first_new;
        rows = (
          new_job-IsRow d.content_hash d.limits d.settings model_id job_id owner story_id key
              request queued.draft.payload queued.draft.revision queued.plan clock.written valid,
          sound.rows,
        );
        running = sound.running;
        active = added-active d job xs (rw same at queued.room) sound.active;
      }))

-- A call keeps the store sound.
Step-IsSound :
    (d : Deployment) (db db' : Database)
    → authoring_limits d.limits ≡ ok tt
    → Step d db db'
    → IsSound d db.authoring.jobs
    → IsSound d db'.authoring.jobs
Step-IsSound d db db' valid step sound =
    Grows-IsSound d _ _ valid (Step-Grows d db db' sound.ids step) sound

-- If the limits are ones that can be built and a store of authoring jobs is sound, then it is sound
-- after any calls of owners and workers: its jobs have different ids; no more of them run than
-- `max_running`, and no owner has more queued or running ones than `max_active_per_owner`; no job
-- has made more attempts than it has, or more than one request; a queued one has sent none and has
-- an attempt left; one has a lease exactly while it runs; and one that succeeded has sent a request.
pub Reach-IsSound :
    (d : Deployment) (db db' : Database)
    → authoring_limits d.limits ≡ ok tt
    → Reach d db db'
    → IsSound d db.authoring.jobs
    → IsSound d db'.authoring.jobs
Reach-IsSound d db db' valid here sound = sound
Reach-IsSound d db db' valid (then_step {mid} rest step) sound =
    Step-IsSound d mid db' valid step (Reach-IsSound d db mid valid rest sound)
