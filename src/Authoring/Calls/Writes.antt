-- ===== src/Authoring/Calls/Writes.antt =====
-- What each call writes into the table of jobs (infrastructure/postgres/story_jobs.py).
use ai_rpg.Prelude.{
  ℕ, Bool, true, false, not, ◌≡◌, refl, sym, Option, none, some, List, [], ◌∷◌, map, arith, ok,
  Bool-cases, inl, inr, ◌⊎◌, is_unique, id_eq, nat_eq, nat_eq_iff, find, find-holds, >>=-eq-ok,
  raise_if-eq-ok, from_ok, or_raise, or_raise-eq-ok,
}
use mathlib.Core.Path.{subst, ap}
use ai_rpg.Prelude.Rows.{Evolves, Evolves-refl, IsOnly, find-IsOnly}
use ai_rpg.Domain.Results.{Uuid}
use ai_rpg.Stories.Ledger.{owned, editable}
use ai_rpg.Usage.{Settings, reserve_usage}
use ai_rpg.Authoring.Tables.{AuthoringJobModel, JobTables, JobLease, Clock, AuthoringJob}
use ai_rpg.Authoring.Rows.{is_running, is_active, is_ahead, update_job, cancel_job, reserve_job}
use ai_rpg.Authoring.Keeps.{cancel_job-IsRow, reserve_job-IsRow}
use ai_rpg.Authoring.Steps.{cancel_job-JobStep, reserve_job-JobStep}
use ai_rpg.Authoring.Jobs.{
  Database, fenced, job_of, reserve_call, reserve_found, reserve_fenced, is_attempt,
}
use ai_rpg.Authoring.Requests.{cancel}
use ai_rpg.Authoring.Calls.Kept.{IsQuiet, IsQuiet-refl, update_job-IsQuiet, fenced_lem}

abbrev pub HasIds : List AuthoringJobModel → Type 0
HasIds jobs = is_unique (map (λ j. j.id) jobs) ≡ true

pub job_of_lem :
    (owner job_id : Uuid) (jobs : List AuthoringJobModel) (j : AuthoringJobModel)
    → HasIds jobs
    → job_of owner job_id jobs ≡ ok j
    → (j.id ≡ job_id) × (j.owner_principal_id ≡ owner) × IsOnly (λ k. k.id) j jobs
unfolding job_of
job_of_lem owner job_id jobs j u h =
    let found = or_raise-eq-ok (find _ jobs) _ j h in
    let held = find-holds _ jobs j found in
    (
      ground (arith, nat_eq_iff j.id job_id),
      ground (arith, nat_eq_iff j.owner_principal_id owner),
      find-IsOnly (λ k. k.id) _ jobs j u found,
    )

cancel_job-IsQuiet :
    (now : ℕ) (j : AuthoringJobModel) → is_active j.state ≡ true → IsQuiet j (cancel_job now j)
unfolding cancel_job
cancel_job-IsQuiet now j h = record {
  kept = record {
    same_id = refl;
    same_owner = refl;
    still_active = λ _. h;
    sound = λ row. (cancel_job-JobStep now j h, cancel_job-IsRow now j row);
  };
  still_running = λ k. cc;
}

pub cancel-IsQuiet :
    (owner job_id : Uuid) (now : ℕ) (db : Database) (response : AuthoringJob) (t : JobTables)
    → HasIds db.authoring.jobs
    → cancel owner job_id now db ≡ ok (response, t)
    → Evolves IsQuiet db.authoring.jobs t.jobs
unfolding cancel
cancel-IsQuiet owner job_id now db response t u h =
    let (j, found, rest) = >>=-eq-ok (job_of owner job_id db.authoring.jobs) _ h in
    let (_, _, made) = >>=-eq-ok (owned owner j.story_id db.stories.stories) _ rest in
    let (same, _, only) = job_of_lem owner job_id db.authoring.jobs j u found in
    elim (Bool-cases (is_active j.state)) [
      | inl active ↦
          let wrote = from_ok (rw active at made) in
          subst (λ p. Evolves IsQuiet db.authoring.jobs p.1.jobs) wrote
            (update_job-IsQuiet j job_id (cancel_job now) db.authoring.jobs same only
              (cancel_job-IsQuiet now j active))
      | inr over ↦
          let wrote = from_ok (rw over at made) in
          subst (λ p. Evolves IsQuiet db.authoring.jobs p.1.jobs) wrote
            (Evolves-refl IsQuiet db.authoring.jobs IsQuiet-refl)
    ]

reserve_job-IsQuiet :
    (now : ℕ) (j : AuthoringJobModel)
    → is_running j.state ≡ true
    → j.physical_requests ≡ 0
    → IsQuiet j (reserve_job now j)
unfolding reserve_job
reserve_job-IsQuiet now j h unsent = record {
  kept = record {
    same_id = refl;
    same_owner = refl;
    still_active = λ k. k;
    sound = λ row. (reserve_job-JobStep now j h unsent, reserve_job-IsRow now j row h);
  };
  still_running = λ k. k;
}

-- A reservation that is made is made of the row that the lease still has, which had none.
pub record IsReserved (lease : JobLease) (clock : Clock) (db db' : Database) : Type 0 where
  pub job : AuthoringJobModel
  pub had : fenced lease clock db.authoring.jobs ≡ some job
  pub none_before : job.physical_requests ≡ 0
  pub wrote : db'.authoring.jobs ≡ update_job job.id (reserve_job clock.written) db.authoring.jobs

reserve_fenced_lem :
    (settings : Settings) (lease : JobLease) (clock : Clock) (j : AuthoringJobModel)
    (db db' : Database) (b : Bool)
    → reserve_fenced settings lease clock j db ≡ ok (b, db')
    → (b ≡ true)
      × (db'.authoring.jobs ≡ update_job j.id (reserve_job clock.written) db.authoring.jobs)
reserve_fenced_lem settings lease clock j db db' b h =
    let (usage, _, rest) =
      >>=-eq-ok
        (reserve_usage settings lease.owner "llm_authoring" (j.id ∷ j.attempts ∷ []) clock.started
          db.usage)
        _ h in
    let (_, rest') = raise_if-eq-ok (not (is_ahead clock.written j.lease_until)) _ _ _ rest in
    let (_, _, made) =
      >>=-eq-ok (or_raise (find (is_attempt j.id lease.epoch) db.authoring.attempts) _) _ rest' in
    let same = from_ok made in (ap (λ p. p.0) (sym same), ap (λ p. p.1.authoring.jobs) (sym same))

reserve_found_lem :
    (settings : Settings) (lease : JobLease) (clock : Clock) (o : Option AuthoringJobModel)
    (db db' : Database) (b : Bool)
    → o ≡ fenced lease clock db.authoring.jobs
    → reserve_found settings lease clock o db ≡ ok (b, db')
    → ((b ≡ false) × (db' ≡ db)) ⊎ ((b ≡ true) × IsReserved lease clock db db')
reserve_found_lem settings lease clock none db db' b e h =
    let same = from_ok h in inl (ap (λ p. p.0) (sym same), ap (λ p. p.1) (sym same))
reserve_found_lem settings lease clock (some j) db db' b e h =
    elim (Bool-cases (nat_eq j.physical_requests 0)) [
      | inl unsent ↦
          let done = reserve_fenced_lem settings lease clock j db db' b (rw unsent at h) in
          inr (
            done.0,
            record {
              job = j;
              had = sym e;
              none_before = (nat_eq_iff j.physical_requests 0).0 unsent;
              wrote = done.1;
            },
          )
      | inr sent ↦
          let same = from_ok (rw sent at h) in
          inl (ap (λ p. p.0) (sym same), ap (λ p. p.1) (sym same))
    ]

pub reserve_call_lem :
    (settings : Settings) (lease : JobLease) (clock : Clock) (db db' : Database) (b : Bool)
    → reserve_call settings lease clock db ≡ ok (b, db')
    → ((b ≡ false) × (db' ≡ db)) ⊎ ((b ≡ true) × IsReserved lease clock db db')
unfolding reserve_call
reserve_call_lem settings lease clock db db' b h =
    let (story, _, rest) = >>=-eq-ok (owned lease.owner lease.story_id db.stories.stories) _ h in
    let (_, _, rest') = >>=-eq-ok (editable story) _ rest in
    reserve_found_lem settings lease clock _ db db' b refl rest'

pub reserve_call-IsQuiet :
    (settings : Settings) (lease : JobLease) (clock : Clock) (db db' : Database) (b : Bool)
    → HasIds db.authoring.jobs
    → reserve_call settings lease clock db ≡ ok (b, db')
    → Evolves IsQuiet db.authoring.jobs db'.authoring.jobs
reserve_call-IsQuiet settings lease clock db db' b u h =
    elim (reserve_call_lem settings lease clock db db' b h) [
      | inl (_, same) ↦ rw same (Evolves-refl IsQuiet db.authoring.jobs IsQuiet-refl)
      | inr (_, made) ↦
          let (_, runs, _, only) = fenced_lem lease clock db.authoring.jobs made.job u made.had in
          rw made.wrote (
            update_job-IsQuiet made.job made.job.id (reserve_job clock.written) db.authoring.jobs
              refl only (reserve_job-IsQuiet clock.written made.job runs made.none_before))
    ]
