-- ===== src/Authoring/Calls/Ends.antt =====
-- What the calls write that end a job or account for it
-- (infrastructure/postgres/story_jobs.py).
use ai_rpg.Prelude.{
  ℕ, String, Bool, true, false, not, ◌≡◌, refl, sym, ◌∙◌, Option, none, some, ok, Bool-cases,
  Option-cases, inl, inr, ◌⊎◌, nat_eq, nat_eq_iff, >>=-eq-ok, raise_if-eq-ok, from_ok, not-eq-false,
}
use mathlib.Core.Path.{subst, ap}
use ai_rpg.Prelude.Rows.{Evolves, Evolves-refl, IsOnly}
use ai_rpg.Stories.Json.{Json}
use ai_rpg.Stories.Ledger.{StoryTables, owned, editable}
use ai_rpg.Authoring.Tables.{
  AuthoringJobModel, AuthoringAttemptModel, StoryProposal, JobTables, JobLease, AuthoringUsage,
  Clock, failed, succeeded,
}
use ai_rpg.Authoring.Rows.{is_running, account_job, finish_job, write_outline}
use ai_rpg.Authoring.Keeps.{account_job-IsRow, finish_job-IsRow, write_outline-IsRow}
use ai_rpg.Authoring.Steps.{account_job-JobStep, fail_job-JobStep, succeed_job-JobStep}
use ai_rpg.Authoring.Jobs.{
  fenced, job_of, record_usage, account_reserved, succeed, succeed_found, succeed_job, fail,
  fail_found, finish,
}
use ai_rpg.Authoring.Calls.Kept.{IsQuiet, IsQuiet-refl, update_job-IsQuiet, fenced_lem}
use ai_rpg.Authoring.Calls.Writes.{HasIds, job_of_lem}

account_job-IsQuiet :
    (usage : AuthoringUsage) (complete : Bool) (actual_model : Option String)
    (j : AuthoringJobModel)
    → IsQuiet j (account_job usage complete actual_model j)
unfolding account_job
account_job-IsQuiet usage complete actual_model j = record {
  kept = record {
    same_id = refl;
    same_owner = refl;
    still_active = λ k. k;
    sound = λ row. (
      account_job-JobStep usage complete actual_model j,
      account_job-IsRow usage complete actual_model j row,
    );
  };
  still_running = λ k. k;
}

account_reserved-IsQuiet :
    (lease : JobLease) (usage : AuthoringUsage) (complete : Bool) (actual_model : Option String)
    (a : Option AuthoringAttemptModel) (j : AuthoringJobModel) (t : JobTables)
    → j.id ≡ lease.id
    → IsOnly (λ k. k.id) j t.jobs
    → Evolves IsQuiet t.jobs (account_reserved lease usage complete actual_model a t).jobs
account_reserved-IsQuiet lease usage complete actual_model none j t same only =
    Evolves-refl IsQuiet t.jobs IsQuiet-refl
account_reserved-IsQuiet lease usage complete actual_model (some a) j t same only =
    elim (Bool-cases a.request_reserved) [
      | inl reserved ↦ rw reserved (
          update_job-IsQuiet j lease.id (account_job usage complete actual_model) t.jobs same only
            (account_job-IsQuiet usage complete actual_model j))
      | inr free ↦ rw free (Evolves-refl IsQuiet t.jobs IsQuiet-refl)
    ]

pub record_usage-IsQuiet :
    (lease : JobLease) (usage : AuthoringUsage) (complete : Bool) (actual_model : Option String)
    (t t' : JobTables)
    → HasIds t.jobs
    → record_usage lease usage complete actual_model t ≡ ok t'
    → Evolves IsQuiet t.jobs t'.jobs
unfolding record_usage
record_usage-IsQuiet lease usage complete actual_model t t' u h =
    let (j, found, made) = >>=-eq-ok (job_of lease.owner lease.id t.jobs) _ h in
    let (same, _, only) = job_of_lem lease.owner lease.id t.jobs j u found in
    subst (λ x. Evolves IsQuiet t.jobs x.jobs) (from_ok made)
      (account_reserved-IsQuiet lease usage complete actual_model _ j t same only)

fail_job-IsQuiet :
    (code : Option String) (usage : AuthoringUsage) (complete : Bool) (actual_model : Option String)
    (now : ℕ) (j : AuthoringJobModel)
    → is_running j.state ≡ true
    → IsQuiet j (finish_job failed code usage complete actual_model now j)
unfolding finish_job write_outline
fail_job-IsQuiet code usage complete actual_model now j runs = record {
  kept = record {
    same_id = refl;
    same_owner = refl;
    still_active = λ k. cc;
    sound = λ row. (
      fail_job-JobStep code usage complete actual_model now j runs,
      finish_job-IsRow failed code usage complete actual_model now j row refl (λ k. cc),
    );
  };
  still_running = λ k. cc;
}

succeed_job-IsQuiet :
    (plan : Option Json) (usage : AuthoringUsage) (complete : Bool) (actual_model : Option String)
    (now : ℕ) (j : AuthoringJobModel)
    → is_running j.state ≡ true
    → j.physical_requests ≡ 1
    → IsQuiet j (finish_job succeeded none usage complete actual_model now (write_outline plan j))
unfolding finish_job write_outline
succeed_job-IsQuiet plan usage complete actual_model now j runs sent = record {
  kept = record {
    same_id = same_id plan;
    same_owner = same_owner plan;
    still_active = λ k. cc;
    sound = λ row. (
      succeed_job-JobStep plan usage complete actual_model now j runs sent,
      finish_job-IsRow succeeded none usage complete actual_model now (write_outline plan j)
          (write_outline-IsRow plan j row) refl (λ _. same_requests plan ∙ sent),
    );
  };
  still_running = λ k. cc;
}
  where
    same_id : (plan : Option Json) → (write_outline plan j).id ≡ j.id
    same_id none = refl
    same_id (some x) = refl

    same_owner :
        (plan : Option Json) → (write_outline plan j).owner_principal_id ≡ j.owner_principal_id
    same_owner none = refl
    same_owner (some x) = refl

    same_requests :
        (plan : Option Json) → (write_outline plan j).physical_requests ≡ j.physical_requests
    same_requests none = refl
    same_requests (some x) = refl

-- A lease that has lost its job ends nothing; one that has it ends that job.
pub fail-IsQuiet :
    (lease : JobLease) (code : String) (usage : AuthoringUsage) (complete : Bool)
    (actual_model : Option String) (clock : Clock) (t : JobTables)
    → HasIds t.jobs
    → Evolves IsQuiet t.jobs (fail lease code usage complete actual_model clock t).1.jobs
unfolding fail finish
fail-IsQuiet lease code usage complete actual_model clock t u =
    elim (Option-cases (fenced lease clock t.jobs)) [
      | inl lost ↦ rw lost (Evolves-refl IsQuiet t.jobs IsQuiet-refl)
      | inr (j, had) ↦ rw had (ended j (fenced_lem lease clock t.jobs j u had))
    ]
  where
    ended :
        (j : AuthoringJobModel)
        → (j.id ≡ lease.id)
          × (is_running j.state ≡ true)
          × (j.lease_epoch ≡ lease.epoch)
          × IsOnly (λ k. k.id) j t.jobs
        → Evolves IsQuiet t.jobs
            (fail_found code usage complete actual_model clock.written (some j) t).1.jobs
    ended j (_, runs, _, only) =
        update_job-IsQuiet j j.id
          (finish_job failed (some code) usage complete actual_model clock.written) t.jobs refl only
          (fail_job-IsQuiet (some code) usage complete actual_model clock.written j runs)

-- A job succeeds under the lease that still has it, once its request was reserved.
pub record IsSucceeded (lease : JobLease) (clock : Clock) (t t' : JobTables) : Type 0 where
  pub job : AuthoringJobModel
  pub had : fenced lease clock t.jobs ≡ some job
  pub sent : job.physical_requests ≡ 1
  pub quiet : HasIds t.jobs → Evolves IsQuiet t.jobs t'.jobs

succeed_found_lem :
    (lease : JobLease) (proposal : Option StoryProposal) (plan : Option Json)
    (usage : AuthoringUsage) (actual_model : Option String) (clock : Clock)
    (o : Option AuthoringJobModel) (t t' : JobTables) (done : Bool)
    → o ≡ fenced lease clock t.jobs
    → succeed_found proposal plan usage actual_model clock.written o t ≡ ok (done, t')
    → ((done ≡ false) × (t' ≡ t)) ⊎ ((done ≡ true) × IsSucceeded lease clock t t')
unfolding succeed_job finish
succeed_found_lem lease proposal plan usage actual_model clock none t t' done e h =
    let same = from_ok h in inl (ap (λ p. p.0) (sym same), ap (λ p. p.1) (sym same))
succeed_found_lem lease proposal plan usage actual_model clock (some j) t t' done e h =
    let (reserved, made) = raise_if-eq-ok (not (nat_eq j.physical_requests 1)) _ _ _ h in
    let sent = (nat_eq_iff j.physical_requests 1).0 (not-eq-false _ reserved) in
    let same = from_ok made in
    inr (
      ap (λ p. p.0) (sym same),
      record {
        job = j;
        had = sym e;
        sent = sent;
        quiet = λ u.
            let held = fenced_lem lease clock t.jobs j u (sym e) in
            subst (λ p. Evolves IsQuiet t.jobs p.1.jobs) same
              (update_job-IsQuiet j j.id
                (λ k.
                  finish_job succeeded none usage true actual_model clock.written
                    (write_outline plan k))
                t.jobs refl held.3
                (succeed_job-IsQuiet plan usage true actual_model clock.written j held.1 sent));
      },
    )

pub succeed_lem :
    (lease : JobLease) (proposal : Option StoryProposal) (plan : Option Json)
    (usage : AuthoringUsage) (actual_model : Option String) (clock : Clock) (stories : StoryTables)
    (t t' : JobTables) (done : Bool)
    → succeed lease proposal plan usage actual_model clock stories t ≡ ok (done, t')
    → ((done ≡ false) × (t' ≡ t)) ⊎ ((done ≡ true) × IsSucceeded lease clock t t')
unfolding succeed
succeed_lem lease proposal plan usage actual_model clock stories t t' done h =
    let (story, _, rest) = >>=-eq-ok (owned lease.owner lease.story_id stories.stories) _ h in
    let (_, _, rest') = >>=-eq-ok (editable story) _ rest in
    succeed_found_lem lease proposal plan usage actual_model clock _ t t' done refl rest'

pub succeed-IsQuiet :
    (lease : JobLease) (proposal : Option StoryProposal) (plan : Option Json)
    (usage : AuthoringUsage) (actual_model : Option String) (clock : Clock) (stories : StoryTables)
    (t t' : JobTables) (done : Bool)
    → HasIds t.jobs
    → succeed lease proposal plan usage actual_model clock stories t ≡ ok (done, t')
    → Evolves IsQuiet t.jobs t'.jobs
succeed-IsQuiet lease proposal plan usage actual_model clock stories t t' done u h =
    elim (succeed_lem lease proposal plan usage actual_model clock stories t t' done h) [
      | inl (_, same) ↦ rw same (Evolves-refl IsQuiet t.jobs IsQuiet-refl)
      | inr (_, made) ↦ made.quiet u
    ]
