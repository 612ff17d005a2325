-- ===== src/Authoring/Calls/Kept.antt =====
-- What every write of a call leaves of the rows (infrastructure/postgres/story_jobs.py).
use ai_rpg.Prelude.{
  ℕ, Bool, true, ◌≡◌, refl, Option, none, some, List, map, arith, Bool-cases, inl, inr, is_unique,
  find-holds, nat_eq_iff, id_eq,
}
use ai_rpg.Prelude.Rows.{
  Evolves, map-Evolves, update-Evolves, find-IsOnly, update, IsOnly, Among, find-Among,
}
use mathlib.Core.Path.{subst}
use ai_rpg.Domain.Results.{Uuid}
use ai_rpg.Authoring.Tables.{AuthoringJobModel, JobLease, Clock}
use ai_rpg.Authoring.Rows.{
  is_running, is_active, is_ahead, update_job, expire_job, expire_jobs, is_expired,
}
use ai_rpg.Authoring.Keeps.{IsRow, expire_job-IsRow}
use ai_rpg.Authoring.Steps.{JobStep, JobStep-refl, JobStep-trans, expire_job-JobStep}
use ai_rpg.Authoring.Jobs.{fenced, is_held_by, still_ahead}

pub record IsKept (j k : AuthoringJobModel) : Type 0 where
  pub same_id : k.id ≡ j.id
  pub same_owner : k.owner_principal_id ≡ j.owner_principal_id
  pub still_active : is_active k.state ≡ true → is_active j.state ≡ true
  pub sound : IsRow j → JobStep j k × IsRow k

-- No job comes to run.
pub record IsQuiet (j k : AuthoringJobModel) : Type 0 where
  pub kept : IsKept j k
  pub still_running : is_running k.state ≡ true → is_running j.state ≡ true

pub IsKept-refl : (j : AuthoringJobModel) → IsKept j j
IsKept-refl j = record {
  same_id = refl;
  same_owner = refl;
  still_active = λ h. h;
  sound = λ row. (JobStep-refl j, row);
}

pub IsKept-trans : (i j k : AuthoringJobModel) → IsKept i j → IsKept j k → IsKept i k
IsKept-trans i j k s t = record {
  same_id = cc (s.same_id, t.same_id);
  same_owner = cc (s.same_owner, t.same_owner);
  still_active = λ h. s.still_active (t.still_active h);
  sound = λ row.
      let first = s.sound row in
      let second = t.sound first.1 in (JobStep-trans i j k first.0 second.0, second.1);
}

pub IsQuiet-refl : (j : AuthoringJobModel) → IsQuiet j j
IsQuiet-refl j = record { kept = IsKept-refl j; still_running = λ h. h }

expire_job-IsQuiet :
    (now : ℕ) (j : AuthoringJobModel) → is_running j.state ≡ true → IsQuiet j (expire_job now j)
unfolding expire_job
expire_job-IsQuiet now j h = record {
  kept = record {
    same_id = refl;
    same_owner = refl;
    still_active = λ _. active j.state h;
    sound = λ row. (expire_job-JobStep now j h, expire_job-IsRow now j row h);
  };
  still_running = λ _. h;
}
  where
    active : (s : _) → is_running s ≡ true → is_active s ≡ true
    active s k = ground arith

expired_lem :
    (locked : Uuid → Bool) (now : ℕ) (j : AuthoringJobModel)
    → is_expired locked now j ≡ true
    → is_running j.state ≡ true
unfolding is_expired
expired_lem locked now j over = ground arith

pub expire_jobs-IsQuiet :
    (locked : Uuid → Bool) (now : ℕ) (jobs : List AuthoringJobModel)
    → Evolves IsQuiet jobs (expire_jobs locked now jobs)
unfolding expire_jobs
expire_jobs-IsQuiet locked now jobs = map-Evolves IsQuiet _ jobs λ j.
    elim (Bool-cases (is_expired locked now j)) [
      | inl over ↦ rw over (expire_job-IsQuiet now j (expired_lem locked now j over))
      | inr held ↦ rw held (IsQuiet-refl j)
    ]

pub update_job-IsQuiet :
    (j : AuthoringJobModel) (id : Uuid) (f : AuthoringJobModel → AuthoringJobModel)
    (jobs : List AuthoringJobModel)
    → j.id ≡ id
    → IsOnly (λ k. k.id) j jobs
    → IsQuiet j (f j)
    → Evolves IsQuiet jobs (update_job id f jobs)
unfolding update_job
update_job-IsQuiet j id f jobs same only step =
    subst (λ i. Evolves IsQuiet jobs (update (λ k. k.id) i f jobs)) same
      (update-Evolves (λ k. k.id) IsQuiet j f jobs only IsQuiet-refl step)

still_ahead_lem :
    (now : ℕ) (o : Option AuthoringJobModel) (j : AuthoringJobModel)
    → still_ahead now o ≡ some j
    → o ≡ some j
still_ahead_lem now none j h = cc
still_ahead_lem now (some k) j h = elim (Bool-cases (is_ahead now k.lease_until)) [
  | inl ahead ↦ rw ahead at h
  | inr over ↦ absurd (none_some (rw over at h))
]
  where
    none_some : none ≡ some j → ⊥
    none_some e = cc

held_lem :
    (lease : JobLease) (now : ℕ) (j : AuthoringJobModel)
    → is_held_by lease now j ≡ true
    → (j.id ≡ lease.id) × (is_running j.state ≡ true) × (j.lease_epoch ≡ lease.epoch)
held_lem lease now j h = (
  ground (arith, nat_eq_iff j.id lease.id),
  ground arith,
  ground (arith, nat_eq_iff j.lease_epoch lease.epoch),
)

-- The row that a lease still has.
pub fenced_lem :
    (lease : JobLease) (clock : Clock) (jobs : List AuthoringJobModel) (j : AuthoringJobModel)
    → is_unique (map (λ k. k.id) jobs) ≡ true
    → fenced lease clock jobs ≡ some j
    → (j.id ≡ lease.id)
      × (is_running j.state ≡ true)
      × (j.lease_epoch ≡ lease.epoch)
      × IsOnly (λ k. k.id) j jobs
unfolding fenced
fenced_lem lease clock jobs j u h =
    let found = still_ahead_lem clock.held _ j h in
    let held = held_lem lease clock.selected j (find-holds _ jobs j found) in
    (
      held.0,
      held.1,
      held.2,
      find-IsOnly (λ k. k.id) (is_held_by lease clock.selected) jobs j u found,
    )

pub fenced-Among :
    (lease : JobLease) (clock : Clock) (jobs : List AuthoringJobModel) (j : AuthoringJobModel)
    → fenced lease clock jobs ≡ some j
    → Among j jobs
unfolding fenced
fenced-Among lease clock jobs j h =
    find-Among (is_held_by lease clock.selected) jobs j (still_ahead_lem clock.held _ j h)
