-- ===== src/Authoring/Calls/Claims.antt =====
-- What a claim and a new job write (infrastructure/postgres/story_jobs.py).
use ai_rpg.Prelude.{
  ℕ, suc, Bool, true, false, ◌≤◌, ◌<◌, ◌≡◌, refl, sym, none, some, List, [], ◌∷◌, All, All-map,
  from_some, arith, Bool-cases, Option-cases, inl, inr, ◌⊎◌, id_eq, is_unique, leb,
}
use mathlib.Core.Path.{subst}
use ai_rpg.Prelude.Rows.{
  Evolves, Evolves-trans, Evolves-weaken, Evolves-map_eq, Evolves-count, Among, Among-All,
  Among-IsOnly, update-Evolves, update-count,
}
use ai_rpg.Domain.Results.{Uuid}
use ai_rpg.Authoring.Tables.{AuthoringLimits, AuthoringJobModel, JobTables, JobLease}
use ai_rpg.Authoring.Rows.{
  is_running, is_queued, is_active, is_waiting, is_before, update_job, claim_job, oldest_queued,
  running_count, lease_of,
}
use ai_rpg.Authoring.Keeps.{claim_job-IsRow}
use ai_rpg.Authoring.Steps.{claim_job-JobStep}
use ai_rpg.Authoring.Jobs.{claim, start, expire}
use ai_rpg.Authoring.Calls.Kept.{IsKept, IsKept-refl, IsKept-trans, IsQuiet, expire_jobs-IsQuiet}
use ai_rpg.Authoring.Calls.Writes.{HasIds}

claim_job-IsKept :
    (now : ℕ) (j : AuthoringJobModel) → is_queued j.state ≡ true → IsKept j (claim_job now j)
unfolding claim_job
claim_job-IsKept now j h = record {
  same_id = refl;
  same_owner = refl;
  still_active = λ _. active j.state h;
  sound = λ row. (claim_job-JobStep now j row h, claim_job-IsRow now j row h);
}
  where
    active : (s : _) → is_queued s ≡ true → is_active s ≡ true
    active s k = ground arith

abbrev IsFirst : (Uuid → Bool) → AuthoringJobModel → AuthoringJobModel → Type 0
IsFirst locked j k = is_waiting locked k ≡ true → is_before k j ≡ false

none_waits :
    (locked : Uuid → Bool) (jobs : List AuthoringJobModel)
    → oldest_queued locked jobs ≡ none
    → All (λ k. is_waiting locked k ≡ false) jobs
unfolding oldest_queued
none_waits locked [] h = tt
none_waits locked (x ∷ xs) h = elim (Bool-cases (is_waiting locked x)) [
  | inl waits ↦ elim (Option-cases (oldest_queued locked xs)) [
    | inl alone ↦ cc (rw (waits, alone) at h)
    | inr (k, found) ↦ elim (Bool-cases (is_before k x)) [
      | inl before ↦ cc (rw (waits, found, before) at h)
      | inr after ↦ cc (rw (waits, found, after) at h)
    ]
  ]
  | inr idle ↦ (idle, none_waits locked xs (rw idle at h))
]

-- What is taken is a row of the table that waits, and none that waits comes before it.
pub oldest_queued_lem :
    (locked : Uuid → Bool) (jobs : List AuthoringJobModel) (j : AuthoringJobModel)
    → oldest_queued locked jobs ≡ some j
    → (is_waiting locked j ≡ true) × Among j jobs × All (IsFirst locked j) jobs
unfolding oldest_queued
oldest_queued_lem locked [] j h = cc
oldest_queued_lem locked (x ∷ xs) j h = elim (Bool-cases (is_waiting locked x)) [
  | inl waits ↦ elim (Option-cases (oldest_queued locked xs)) [
    | inl alone ↦
        let same : x ≡ j = from_some (rw (waits, alone) at h) in
        subst
          (λ y. (is_waiting locked y ≡ true) × Among y (x ∷ xs) × All (IsFirst locked y) (x ∷ xs))
          same
          (
            waits,
            inl refl,
            (λ _. ground arith, All-map (λ k idle here. cc) xs (none_waits locked xs alone)),
          )
    | inr (k, found) ↦
        let (k_waits, among, first) = oldest_queued_lem locked xs k found in
        elim (Bool-cases (is_before k x)) [
          | inl before ↦
              let same : k ≡ j = from_some (rw (waits, found, before) at h) in
              subst
                (λ y.
                  (is_waiting locked y ≡ true) × Among y (x ∷ xs) × All (IsFirst locked y) (x ∷ xs))
                same (k_waits, inr among, (λ _. ground arith, first))
          | inr after ↦
              let same : x ≡ j = from_some (rw (waits, found, after) at h) in
              subst
                (λ y.
                  (is_waiting locked y ≡ true) × Among y (x ∷ xs) × All (IsFirst locked y) (x ∷ xs))
                same (waits, inl refl, (λ _. ground arith, All-map (not_before k after) xs first))
        ]
  ]
  | inr idle ↦
      let (j_waits, among, first) = oldest_queued_lem locked xs j (rw idle at h) in
      (j_waits, inr among, (λ waits. cc, first))
]
  where
    not_before :
        (k : AuthoringJobModel)
        → is_before k x ≡ false
        → (y : AuthoringJobModel) → IsFirst locked k y
        → IsFirst locked x y
    not_before k after y first waits = ground (arith, first waits)

-- What a claim took: the first job that waited, while fewer ran than may.
pub record IsTaken (limits : AuthoringLimits) (locked : Uuid → Bool) (now : ℕ) (t : JobTables)
    (lease : JobLease) (t' : JobTables) : Type 0 where
  pub job : AuthoringJobModel
  pub waits : is_waiting locked job ≡ true
  pub among : Among job (expire locked now t).jobs
  pub first : All (IsFirst locked job) (expire locked now t).jobs
  pub room : running_count (expire locked now t).jobs < limits.max_running
  pub lease_is : lease ≡ lease_of (claim_job now job)
  pub writes : t' ≡ start now job (expire locked now t)

-- The two ways in which a claim goes.
pub claim_lem :
    (limits : AuthoringLimits) (locked : Uuid → Bool) (now : ℕ) (t : JobTables)
    → (claim limits locked now t ≡ (none, expire locked now t))
      ⊎ ((lease : JobLease) × ((claim limits locked now t).0 ≡ some lease)
          × IsTaken limits locked now t lease (claim limits locked now t).1)
unfolding claim
claim_lem limits locked now t =
    elim (Bool-cases (leb limits.max_running (running_count (expire locked now t).jobs))) [
      | inl full ↦ inl (rw full refl)
      | inr room ↦ elim (Option-cases (oldest_queued locked (expire locked now t).jobs)) [
        | inl idle ↦ inl (rw (room, idle) refl)
        | inr (j, found) ↦
            let (waits, among, first) = oldest_queued_lem locked _ j found in
            inr (
              lease_of (claim_job now j),
              rw (room, found) refl,
              record {
                job = j;
                waits = waits;
                among = among;
                first = first;
                room = ground arith;
                lease_is = refl;
                writes = rw (room, found) refl;
              },
            )
      ]
    ]

pub expire-IsQuiet :
    (locked : Uuid → Bool) (now : ℕ) (t : JobTables)
    → Evolves IsQuiet t.jobs (expire locked now t).jobs
unfolding expire
expire-IsQuiet locked now t = expire_jobs-IsQuiet locked now t.jobs

pub Evolves-HasIds : (xs ys : List AuthoringJobModel) → Evolves IsKept xs ys → HasIds xs → HasIds ys
Evolves-HasIds xs ys h u =
    subst (λ ids. is_unique ids ≡ true)
      (sym (Evolves-map_eq (λ j. j.id) IsKept xs ys (λ x y k. k.same_id) h)) u

pub IsQuiet-IsKept : (xs ys : List AuthoringJobModel) → Evolves IsQuiet xs ys → Evolves IsKept xs ys
IsQuiet-IsKept xs ys = Evolves-weaken IsQuiet IsKept xs ys (λ x y q. q.kept)

pub quiet-running_count :
    (xs ys : List AuthoringJobModel) → Evolves IsQuiet xs ys → running_count ys ≤ running_count xs
quiet-running_count xs ys =
    Evolves-count (λ j. is_running j.state) IsQuiet xs ys (λ x y q. q.still_running)

pub start-IsKept :
    (locked : Uuid → Bool) (now : ℕ) (j : AuthoringJobModel) (t : JobTables)
    → HasIds t.jobs
    → is_waiting locked j ≡ true
    → Among j t.jobs
    → Evolves IsKept t.jobs (start now j t).jobs
      × (running_count (start now j t).jobs ≤ suc (running_count t.jobs))
unfolding start update_job
start-IsKept locked now j t u waits among = (
  update-Evolves (λ k. k.id) IsKept j (claim_job now) t.jobs
      (Among-IsOnly (λ k. k.id) t.jobs j u among) IsKept-refl
      (claim_job-IsKept now j (ground arith)),
  update-count (λ k. k.id) (λ k. is_running k.state) j.id (claim_job now) t.jobs u,
)

-- A claim writes moves only, and no more jobs run after it than may, where none did before.
pub claim-IsKept :
    (limits : AuthoringLimits) (locked : Uuid → Bool) (now : ℕ) (t : JobTables)
    → HasIds t.jobs
    → Evolves IsKept t.jobs (claim limits locked now t).1.jobs
      × (running_count t.jobs ≤ limits.max_running
          → running_count (claim limits locked now t).1.jobs ≤ limits.max_running)
claim-IsKept limits locked now t u =
    let quiet = expire-IsQuiet locked now t in
    let swept = IsQuiet-IsKept t.jobs _ quiet in
    let fewer = quiet-running_count t.jobs _ quiet in
    elim (claim_lem limits locked now t) [
      | inl nothing ↦ rw nothing (swept, λ h. omega arith)
      | inr (lease, _, taken) ↦
          let begun =
            start-IsKept locked now taken.job (expire locked now t) (Evolves-HasIds _ _ swept u)
              taken.waits taken.among in
          rw (taken.writes) (
            Evolves-trans IsKept t.jobs _ _ IsKept-trans swept begun.0,
            λ h. omega (arith, begun.1, taken.room),
          )
    ]

-- Where fewer jobs run than may, once expired leases are ended, and a job waits that no one holds,
-- a claim takes a job: this one, or one that it does not come before.
pub claim-takes :
    (limits : AuthoringLimits) (locked : Uuid → Bool) (now : ℕ) (t : JobTables)
    (j : AuthoringJobModel)
    → running_count (expire locked now t).jobs < limits.max_running
    → Among j (expire locked now t).jobs
    → is_waiting locked j ≡ true
    → (lease : JobLease) × ((claim limits locked now t).0 ≡ some lease)
      × (k : AuthoringJobModel) × Among k (expire locked now t).jobs
      × (lease ≡ lease_of (claim_job now k))
      × (is_before j k ≡ false)
unfolding claim
claim-takes limits locked now t j room among waits =
    let fewer : leb limits.max_running (running_count (expire locked now t).jobs) ≡ false =
      ground arith in
    elim (Option-cases (oldest_queued locked (expire locked now t).jobs)) [
      | inl idle ↦
          let none_does =
            Among-All (λ k. is_waiting locked k ≡ false) j (expire locked now t).jobs among
              (none_waits locked _ idle) in
          cc (waits, none_does)
      | inr (k, found) ↦
          let (_, here, first) = oldest_queued_lem locked _ k found in
          (
            lease_of (claim_job now k),
            rw (fewer, found) refl,
            k,
            here,
            refl,
            Among-All (IsFirst locked k) j (expire locked now t).jobs among first waits,
          )
    ]
