-- ===== src/Authoring/Keeps.antt =====
-- The rows of the jobs that the store keeps (infrastructure/postgres/job_models.py and
-- story_jobs.py).
use ai_rpg.Prelude.{
  ℕ, String, Bool, true, false, ◌≤◌, ◌<◌, ◌≡◌, refl, Option, none, some, is_some, arith, Bool-cases,
  inl, inr,
}
use ai_rpg.Stories.Json.{Json}
use ai_rpg.Authoring.Tables.{
  JobState, queued, running, succeeded, failed, cancelled, AuthoringJobModel, AuthoringUsage,
}
use ai_rpg.Authoring.Rows.{
  is_queued, is_running, is_active, is_exhausted, expire_job, claim_job, cancel_job, reserve_job,
  account_job, finish_job, write_outline,
}
use ai_rpg.Authoring.Requests.{is_succeeded, OutlineEdit, approve, edit, edit_job}

-- By the state, the attempts made and allowed, the epoch, the lease and the requests.
pub record IsRowAt (state : JobState) (attempts most epoch : ℕ) (until : Option ℕ) (requests : ℕ)
    : Type 0 where
  pub bounded : attempts ≤ most
  pub room : is_queued state ≡ true → attempts < most
  pub unsent : is_queued state ≡ true → requests ≡ 0
  pub single : requests ≤ 1
  pub leased : is_running state ≡ is_some until
  pub sent : is_succeeded state ≡ true → requests ≡ 1
  pub counted : attempts ≤ epoch

abbrev pub IsRow : AuthoringJobModel → Type 0
IsRow j =
    IsRowAt j.state j.attempts j.limits.max_attempts j.lease_epoch j.lease_until j.physical_requests

pub running_lem : (s : JobState) → is_running s ≡ true → s ≡ running
running_lem running h = refl
running_lem queued h = cc
running_lem succeeded h = cc
running_lem failed h = cc
running_lem cancelled h = cc

pub queued_lem : (s : JobState) → is_queued s ≡ true → s ≡ queued
queued_lem queued h = refl
queued_lem running h = cc
queued_lem succeeded h = cc
queued_lem failed h = cc
queued_lem cancelled h = cc

-- Every write leaves a row of that kind.
pub expire_job-IsRow :
    (now : ℕ) (j : AuthoringJobModel)
    → IsRow j
    → is_running j.state ≡ true
    → IsRow (expire_job now j)
unfolding expire_job
expire_job-IsRow now j row h = elim (Bool-cases (is_exhausted j)) [
  | inl over ↦ record {
    bounded = row.bounded;
    room = λ k. ground arith;
    unsent = λ k. ground arith;
    single = row.single;
    leased = ground arith;
    sent = λ k. ground arith;
    counted = omega (arith, row.counted);
  }
  | inr left ↦ record {
    bounded = row.bounded;
    room = λ k. ground arith;
    unsent = λ k. ground arith;
    single = row.single;
    leased = ground arith;
    sent = λ k. ground arith;
    counted = omega (arith, row.counted);
  }
]

pub claim_job-IsRow :
    (now : ℕ) (j : AuthoringJobModel) → IsRow j → is_queued j.state ≡ true → IsRow (claim_job now j)
unfolding claim_job
claim_job-IsRow now j row h = record {
  bounded = omega (arith, row.room h);
  room = λ k. cc;
  unsent = λ k. cc;
  single = row.single;
  leased = refl;
  sent = λ k. cc;
  counted = omega (arith, row.counted);
}

pub cancel_job-IsRow : (now : ℕ) (j : AuthoringJobModel) → IsRow j → IsRow (cancel_job now j)
unfolding cancel_job
cancel_job-IsRow now j row = record {
  bounded = row.bounded;
  room = λ k. cc;
  unsent = λ k. cc;
  single = row.single;
  leased = refl;
  sent = λ k. cc;
  counted = omega (arith, row.counted);
}

pub reserve_job-IsRow :
    (now : ℕ) (j : AuthoringJobModel)
    → IsRow j
    → is_running j.state ≡ true
    → IsRow (reserve_job now j)
unfolding reserve_job
reserve_job-IsRow now j row h = record {
  bounded = row.bounded;
  room = row.room;
  unsent = λ k. absurd (not_both j.state h k);
  single = omega arith;
  leased = row.leased;
  sent = λ k. refl;
  counted = row.counted;
}
  where
    not_both : (s : JobState) → is_running s ≡ true → is_queued s ≡ true → ⊥
    not_both s a b = cc (running_lem s a, queued_lem s b)

pub account_job-IsRow :
    (usage : AuthoringUsage) (complete : Bool) (actual_model : Option String)
    (j : AuthoringJobModel)
    → IsRow j
    → IsRow (account_job usage complete actual_model j)
unfolding account_job
account_job-IsRow usage complete actual_model j row = row

pub finish_job-IsRow :
    (s : JobState) (code : Option String) (usage : AuthoringUsage) (complete : Bool)
    (actual_model : Option String) (now : ℕ) (j : AuthoringJobModel)
    → IsRow j
    → is_active s ≡ false
    → (is_succeeded s ≡ true → j.physical_requests ≡ 1)
    → IsRow (finish_job s code usage complete actual_model now j)
unfolding finish_job
finish_job-IsRow s code usage complete actual_model now j row over sent = record {
  bounded = row.bounded;
  room = λ k. cc (queued_lem s k);
  unsent = λ k. cc (queued_lem s k);
  single = row.single;
  leased = not_running s over;
  sent = sent;
  counted = row.counted;
}
  where
    not_running : (s : JobState) → is_active s ≡ false → is_running s ≡ false
    not_running queued h = cc
    not_running running h = cc
    not_running succeeded h = refl
    not_running failed h = refl
    not_running cancelled h = refl

pub write_outline-IsRow :
    (plan : Option Json) (j : AuthoringJobModel) → IsRow j → IsRow (write_outline plan j)
unfolding write_outline
write_outline-IsRow none j row = row
write_outline-IsRow (some plan) j row = row

pub edit_job-IsRow :
    (change : OutlineEdit) (now : ℕ) (j : AuthoringJobModel)
    → IsRow j
    → IsRow (edit_job change now j)
unfolding edit_job
edit_job-IsRow approve now j row = row
edit_job-IsRow (edit plan) now j row = row
