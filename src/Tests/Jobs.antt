-- ===== src/Tests/Jobs.antt =====
-- A store with one authoring job: waiting, held with and without a request, and cancelled.
use ai_rpg.Prelude.{
  ℕ, ◌⊎◌, ◌≡◌, refl, true, false, Bool, some, none, Option, [], ◌∷◌, ok, inl, any, ref_eq, id_eq,
  list_eq, arith,
}
use ai_rpg.Prelude.Rows.{Among}
use ai_rpg.Domain.Results.{Uuid}
use ai_rpg.Stories.Json.{end}
use ai_rpg.Stories.Drafts.{AuthoringDraft, active}
use ai_rpg.Stories.Ledger.{StoryTables, owned, editable}
use ai_rpg.Text.Regex.{strip}
use ai_rpg.Usage.{usage_limits, Settings, UsageTables, reserve_usage, day_of, same_reservation}
use ai_rpg.Usage.Bounds.{IsWithin, reserve_usage-IsWithin}
use ai_rpg.Authoring.Tables.{
  AuthoringLimits, authoring_limits, AuthoringJobModel, AuthoringAttemptModel, JobTables, JobLease,
  AuthoringUsage, Clock, fill, queued, running, cancelled, JobState,
}
use ai_rpg.Authoring.Rows.{
  update_job, reserve_job, expire_jobs, is_expired, claim_job, lease_of, is_before,
}
use ai_rpg.Authoring.Phases.{phase}
use ai_rpg.Authoring.Jobs.{
  Database, fenced, request_attempt, claim, expire, reserve_call, succeed, fail,
}
use ai_rpg.Authoring.Calls.{Deployment, Reach, here, then_step, claims}
use ai_rpg.Authoring.Calls.Claims.{claim-takes}
use ai_rpg.Authoring.Calls.Invariant.{IsSound, Reach-IsSound}
use ai_rpg.Authoring.Calls.Fences.{
  LaterRow, IsRefused, Reach-LaterRow, lost_lease, reserve_call-once,
}

abbrev pub settings : Settings
settings = record {
  daily_turn_limit = 100;
  daily_story_limit = 10;
  daily_story_validation_limit = 50;
  daily_authoring_job_limit = 20;
  daily_game_llm_limit = 300;
  daily_authoring_llm_limit = 100;
  daily_global_llm_limit = 5000;
  concurrent_turn_limit = 3;
}

abbrev no_uses : UsageTables
no_uses = record { reservations = []; usage_paused = false; turns = [] }

abbrev one_use : UsageTables
one_use = record {
  reservations =
      record {
        principal_id = 7;
        purpose = "llm_authoring";
        request_key = 1 ∷ 1 ∷ [];
        created_at = 5;
      }
      ∷ [];
  usage_paused = false;
  turns = [];
}

reserved : reserve_usage settings 7 "llm_authoring" (1 ∷ 1 ∷ []) 5 no_uses ≡ ok one_use
unfolding reserve_usage usage_limits strip
reserved = refl

no_uses-IsWithin : IsWithin settings (day_of 5) no_uses
no_uses-IsWithin = record { each = λ p q limit found. omega arith; global = omega arith }

reserve_usage-IsWithin_example :
    IsWithin settings (day_of 5) one_use
    × (any (same_reservation 7 "llm_authoring" (1 ∷ 1 ∷ [])) one_use.reservations ≡ true)
    × ((any (same_reservation 7 "llm_authoring" (1 ∷ 1 ∷ [])) no_uses.reservations ≡ false)
        ⊎ (one_use ≡ no_uses))
reserve_usage-IsWithin_example =
    reserve_usage-IsWithin settings 7 "llm_authoring" (1 ∷ 1 ∷ []) 5 no_uses one_use reserved
      no_uses-IsWithin

abbrev limits : AuthoringLimits
limits = record {
  timeout_seconds = 60;
  lease_seconds = 90;
  max_attempts = 2;
  max_prompt_bytes = 128000;
  max_output_tokens = 8192;
  max_total_tokens = 24000;
  max_active_per_owner = 2;
  max_running = 4;
}

limits_valid : authoring_limits limits ≡ ok tt
unfolding authoring_limits
limits_valid = refl

abbrev deployment : Deployment
deployment = record {
  content_hash = λ draft. [];
  limits = limits;
  settings = settings;
  model_id = "model";
}

abbrev draft : AuthoringDraft
draft = record { scenario = end; metadata = end; field_policies = []; notes = [] }

abbrev job_in : JobState → ℕ → ℕ → Option ℕ → ℕ → AuthoringJobModel
job_in state attempts epoch until requests = record {
  id = 1;
  story_id = 3;
  owner_principal_id = 7;
  request_id = 11;
  input_hash = [];
  base_revision = 1;
  snapshot = draft;
  snapshot_hash = [];
  kind = fill;
  instructions = [];
  approved_outline = none;
  model_id = "model";
  limits = limits;
  state = state;
  attempts = attempts;
  lease_epoch = epoch;
  lease_until = until;
  physical_requests = requests;
  input_tokens = 0;
  output_tokens = 0;
  usage_complete = false;
  actual_model = none;
  error_code = none;
  outline = none;
  outline_revision = 0;
  approved_outline_revision = none;
  created_at = 2;
  updated_at = 2;
}

abbrev waiting_job : AuthoringJobModel
waiting_job = job_in queued 0 0 none 0

abbrev cancelled_job : AuthoringJobModel
cancelled_job = job_in cancelled 1 2 none 0

abbrev held_job : AuthoringJobModel
held_job = job_in running 1 1 (some 1000) 0

abbrev attempt : AuthoringAttemptModel
attempt = record {
  job_id = 1;
  lease_epoch = 1;
  state = "claimed";
  request_reserved = false;
  error_code = none;
  created_at = 2;
  finished_at = none;
}

abbrev tables : AuthoringJobModel → JobTables
tables j = record { jobs = j ∷ []; attempts = attempt ∷ []; proposals = [] }

abbrev stories : StoryTables
stories = record {
  stories =
      record {
        id = 3;
        owner_principal_id = some 7;
        visibility = "private";
        lifecycle = active;
        updated_at = 1;
      }
      ∷ [];
  drafts = [];
  revisions = [];
  requests = [];
}

abbrev database : AuthoringJobModel → Database
database j = record { stories = stories; authoring = tables j; usage = no_uses }

abbrev lease : JobLease
lease = record {
  id = 1;
  owner = 7;
  story_id = 3;
  base_revision = 1;
  epoch = 1;
  kind = fill;
  snapshot = draft;
  instructions = [];
  outline = none;
  model_id = "model";
  limits = limits;
}

abbrev clock : Clock
clock = record { started = 5; selected = 5; held = 6; written = 7 }

abbrev free : Uuid → Bool
free id = false

waiting-IsSound : IsSound deployment (waiting_job ∷ [])
waiting-IsSound = record {
  ids = refl;
  rows = (
    record {
      bounded = omega arith;
      room = λ _. omega arith;
      unsent = λ _. refl;
      single = omega arith;
      leased = refl;
      sent = λ h. cc;
      counted = omega arith;
    },
    tt,
  );
  running = omega arith;
  active = λ owner. ground arith;
}

abbrev claimed : Database
claimed = record (database waiting_job) { authoring = (claim limits free 9 (tables waiting_job)).1 }

claim-Reach : Reach deployment (database waiting_job) claimed
claim-Reach = then_step here (claims free 9 refl)

Reach-IsSound_example : IsSound deployment claimed.authoring.jobs
Reach-IsSound_example =
    Reach-IsSound deployment (database waiting_job) claimed limits_valid claim-Reach waiting-IsSound

Reach-LaterRow_example : LaterRow waiting_job claimed.authoring.jobs
Reach-LaterRow_example =
    Reach-LaterRow deployment (database waiting_job) claimed waiting_job limits_valid claim-Reach
      waiting-IsSound (inl refl)

abbrev early : Clock
early = record { started = 10; selected = 11; held = 12; written = 13 }

swept_same : (expire free 9 (tables waiting_job)).jobs ≡ waiting_job ∷ []
unfolding expire expire_jobs is_expired
swept_same = refl

claim-takes_example :
    (l : JobLease) × ((claim limits free 9 (tables waiting_job)).0 ≡ some l)
    × (k : AuthoringJobModel) × Among k (expire free 9 (tables waiting_job)).jobs
    × (l ≡ lease_of (claim_job 9 k))
    × (is_before waiting_job k ≡ false)
unfolding expire expire_jobs is_expired
claim-takes_example =
    claim-takes limits free 9 (tables waiting_job) waiting_job (omega arith) (inl refl) refl

cancelled-IsSound : IsSound deployment (cancelled_job ∷ [])
cancelled-IsSound = record {
  ids = refl;
  rows = (
    record {
      bounded = omega arith;
      room = λ h. cc;
      unsent = λ _. refl;
      single = omega arith;
      leased = refl;
      sent = λ h. cc;
      counted = omega arith;
    },
    tt,
  );
  running = omega arith;
  active = λ owner. ground arith;
}

abbrev usage : AuthoringUsage
usage = record {
  requests = 0;
  input_tokens = 0;
  output_tokens = 0;
  complete = false;
  actual_model = none;
}

lost_lease_example :
    IsRefused (reserve_call settings lease clock (database cancelled_job)) (database cancelled_job)
    × IsRefused
        (succeed lease none none usage none clock stories (tables cancelled_job))
        (tables cancelled_job)
    × (fail lease "model_failed" usage false none clock (tables cancelled_job)
        ≡ (false, tables cancelled_job))
unfolding phase
lost_lease_example =
    lost_lease deployment (database cancelled_job) (database cancelled_job) lease clock
      cancelled_job none none usage "model_failed" false none limits_valid here cancelled-IsSound
      (inl refl) refl tt

held-IsSound : IsSound deployment (held_job ∷ [])
held-IsSound = record {
  ids = refl;
  rows = (
    record {
      bounded = omega arith;
      room = λ h. cc;
      unsent = λ _. refl;
      single = omega arith;
      leased = refl;
      sent = λ h. cc;
      counted = omega arith;
    },
    tt,
  );
  running = omega arith;
  active = λ owner. ground arith;
}

abbrev after_reserve : Database
after_reserve = record {
  stories = stories;
  authoring = record {
    jobs = record held_job { physical_requests = 1; updated_at = 7 } ∷ [];
    attempts = record attempt { request_reserved = true; state = "requested" } ∷ [];
    proposals = [];
  };
  usage = one_use;
}

reserve_true : reserve_call settings lease clock (database held_job) ≡ ok (true, after_reserve)
unfolding reserve_call owned editable fenced reserve_usage usage_limits strip update_job
    request_attempt reserve_job
reserve_true = refl

reserve_call-once_example :
    IsRefused (reserve_call settings lease clock after_reserve) after_reserve
reserve_call-once_example =
    reserve_call-once deployment (database held_job) after_reserve after_reserve lease lease clock
      clock limits_valid held-IsSound reserve_true here refl
