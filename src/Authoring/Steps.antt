-- ===== src/Authoring/Steps.antt =====
-- Every write to the row of a job is a move of its phase (infrastructure/postgres/story_jobs.py).
use ai_rpg.Prelude.{
  ℕ, ◌+◌, String, Bool, true, false, ◌≤◌, ◌≡◌, refl, Option, none, some, arith, ltb, Bool-cases,
  inl, inr, ap, ◌∙◌,
}
use mathlib.Core.Path.{subst}
use ai_rpg.Domain.Results.{Uuid}
use ai_rpg.Text.{Text}
use ai_rpg.Stories.Json.{Json}
use ai_rpg.Stories.Drafts.{AuthoringDraft}
use ai_rpg.Authoring.Tables.{
  JobKind, JobState, queued, running, succeeded, failed, cancelled, AuthoringLimits,
  AuthoringJobModel, AuthoringUsage,
}
use ai_rpg.Authoring.Rows.{
  is_queued, is_running, is_active, is_exhausted, expire_job, claim_job, cancel_job, reserve_job,
  account_job, finish_job, write_outline,
}
use ai_rpg.Authoring.Requests.{OutlineEdit, approve, edit, edit_job}
use ai_rpg.Authoring.Keeps.{IsRow, running_lem, queued_lem}
use ai_rpg.Authoring.Phases.{
  ended, cancellation, start, send, requeue, succeed, fail, expire, drop, stop, Moves, here,
  one_move, Moves-trans, phase, phase_at,
}

-- What a job is asked to do, which the database does not let anyone change.
abbrev pub input_of :
    AuthoringJobModel
    → Uuid
      × Uuid
      × Uuid
      × Uuid
      × Text
      × ℕ
      × AuthoringDraft
      × Text
      × JobKind
      × Text
      × Option Json
      × String
      × AuthoringLimits
      × ℕ
input_of j = (
  j.id, j.story_id, j.owner_principal_id, j.request_id, j.input_hash, j.base_revision, j.snapshot,
  j.snapshot_hash, j.kind, j.instructions, j.approved_outline, j.model_id, j.limits, j.created_at,
)

pub record JobStep (j k : AuthoringJobModel) : Type 0 where
  pub input : input_of k ≡ input_of j
  pub moves : Moves j.limits.max_attempts (phase j) (phase k)
  pub requests : j.physical_requests ≤ k.physical_requests

pub JobStep-refl : (j : AuthoringJobModel) → JobStep j j
JobStep-refl j = record { input = refl; moves = here; requests = omega arith }

pub JobStep-trans : (i j k : AuthoringJobModel) → JobStep i j → JobStep j k → JobStep i k
JobStep-trans i j k s t = record {
  input = t.input ∙ s.input;
  moves = Moves-trans s.moves (
      subst (λ most. Moves most (phase j) (phase k)) (ap (λ p. p.12.max_attempts) s.input) t.moves);
  requests = omega (arith, s.requests, t.requests);
}

pub expire_job-JobStep :
    (now : ℕ) (j : AuthoringJobModel) → is_running j.state ≡ true → JobStep j (expire_job now j)
unfolding expire_job phase
expire_job-JobStep now j h = record {
  input = refl;
  moves = elim (Bool-cases (is_exhausted j)) [
    | inl over ↦ rw (running_lem j.state h, over) (one_move expire)
    | inr left ↦
        let unsent : ltb 0 j.physical_requests ≡ false = ground arith in
        rw (running_lem j.state h, left, unsent) (one_move (requeue (ground arith)))
  ];
  requests = omega arith;
}

pub claim_job-JobStep :
    (now : ℕ) (j : AuthoringJobModel)
    → IsRow j
    → is_queued j.state ≡ true
    → JobStep j (claim_job now j)
unfolding claim_job phase
claim_job-JobStep now j row h = record {
  input = refl;
  moves = rw (queued_lem j.state h, row.unsent h) (one_move (start (row.room h)));
  requests = omega arith;
}

-- The moves of a job from each state that a write may find it in.
after_cancel :
    (most a e : ℕ) (sent : Bool) (s : JobState)
    → is_active s ≡ true
    → Moves most (phase_at s a e sent) (ended cancellation (e + 1))
after_cancel most a e sent queued h = one_move drop
after_cancel most a e sent running h = one_move stop
after_cancel most a e sent succeeded h = cc
after_cancel most a e sent failed h = cc
after_cancel most a e sent cancelled h = cc

pub cancel_job-JobStep :
    (now : ℕ) (j : AuthoringJobModel) → is_active j.state ≡ true → JobStep j (cancel_job now j)
unfolding cancel_job phase
cancel_job-JobStep now j h = record {
  input = refl;
  moves = after_cancel _ j.attempts j.lease_epoch _ j.state h;
  requests = omega arith;
}

pub reserve_job-JobStep :
    (now : ℕ) (j : AuthoringJobModel)
    → is_running j.state ≡ true
    → j.physical_requests ≡ 0
    → JobStep j (reserve_job now j)
unfolding reserve_job phase
reserve_job-JobStep now j h unsent = record {
  input = refl;
  moves = rw (running_lem j.state h, unsent) (one_move send);
  requests = omega arith;
}

pub account_job-JobStep :
    (usage : AuthoringUsage) (complete : Bool) (actual_model : Option String)
    (j : AuthoringJobModel)
    → JobStep j (account_job usage complete actual_model j)
unfolding account_job phase
account_job-JobStep usage complete actual_model j = record {
  input = refl;
  moves = here;
  requests = omega arith;
}

pub fail_job-JobStep :
    (code : Option String) (usage : AuthoringUsage) (complete : Bool) (actual_model : Option String)
    (now : ℕ) (j : AuthoringJobModel)
    → is_running j.state ≡ true
    → JobStep j (finish_job failed code usage complete actual_model now j)
unfolding finish_job phase
fail_job-JobStep code usage complete actual_model now j h = record {
  input = refl;
  moves = rw (running_lem j.state h) (one_move fail);
  requests = omega arith;
}

pub succeed_job-JobStep :
    (plan : Option Json) (usage : AuthoringUsage) (complete : Bool) (actual_model : Option String)
    (now : ℕ) (j : AuthoringJobModel)
    → is_running j.state ≡ true
    → j.physical_requests ≡ 1
    → JobStep j (finish_job succeeded none usage complete actual_model now (write_outline plan j))
unfolding finish_job write_outline phase
succeed_job-JobStep none usage complete actual_model now j h sent = record {
  input = refl;
  moves = rw (running_lem j.state h, sent) (one_move succeed);
  requests = omega arith;
}
succeed_job-JobStep (some plan) usage complete actual_model now j h sent = record {
  input = refl;
  moves = rw (running_lem j.state h, sent) (one_move succeed);
  requests = omega arith;
}

pub edit_job-JobStep :
    (change : OutlineEdit) (now : ℕ) (j : AuthoringJobModel) → JobStep j (edit_job change now j)
unfolding edit_job phase
edit_job-JobStep approve now j = record { input = refl; moves = here; requests = omega arith }
edit_job-JobStep (edit plan) now j = record { input = refl; moves = here; requests = omega arith }
