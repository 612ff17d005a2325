-- ===== src/Authoring/Calls/Leases.antt =====
-- What the lease of a claim is worth (infrastructure/postgres/story_jobs.py).
use ai_rpg.Prelude.{ℕ, suc, ◌+◌, ◌*◌, true, false, ◌<◌, ◌≡◌, some, id_eq}
use ai_rpg.Prelude.Rows.{Among}
use ai_rpg.Authoring.Tables.{AuthoringJobModel, AuthoringAttemptModel, JobTables, JobLease, Clock}
use ai_rpg.Authoring.Rows.{is_running}
use ai_rpg.Authoring.Jobs.{fenced}

-- What the lease of a claim is worth. `was`: the row of its job before.
pub record IsClaimed (clock : Clock) (now : ℕ) (t t' : JobTables) (lease : JobLease) : Type 0 where
  pub was : AuthoringJobModel
  pub before : Among was t.jobs
  pub job : AuthoringJobModel
  pub holds : fenced lease clock t'.jobs ≡ some job
  pub same_id : job.id ≡ was.id
  pub of_job : lease.id ≡ was.id
  pub same_limits : lease.limits ≡ was.limits
  pub runs : is_running job.state ≡ true
  pub one_more : job.attempts ≡ suc was.attempts
  pub newer : was.lease_epoch < lease.epoch
  pub expires : job.lease_until ≡ some (now + lease.limits.lease_seconds * 1000000)
  pub noted :
      (a : AuthoringAttemptModel) × Among a t'.attempts
      × (a.job_id ≡ lease.id)
      × (a.lease_epoch ≡ lease.epoch)
      × (a.request_reserved ≡ false)
