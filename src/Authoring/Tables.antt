-- ===== src/Authoring/Tables.antt =====
-- infrastructure/postgres/job_models.py: jobs, attempts and proposals; with the limits of
-- application/story_jobs.py. Times are microseconds since the epoch.
use ai_rpg.Prelude.{
  ℕ, String, Bool, ◌||◌, Option, List, Result, value_error, raise_if, leb, ltb, min,
}
use ai_rpg.Domain.Results.{Uuid}
use ai_rpg.Text.{Text}
use ai_rpg.Stories.Json.{Json}
use ai_rpg.Stories.Drafts.{AuthoringDraft}

pub data JobKind : Type 0 where
  check : JobKind
  fill : JobKind
  outline : JobKind
  concretize : JobKind

pub data JobState : Type 0 where
  queued : JobState
  running : JobState
  succeeded : JobState
  failed : JobState
  cancelled : JobState

-- Numbers of seconds, bytes, tokens and jobs; none of the settings they come from is negative.
pub record AuthoringLimits : Type 0 where
  pub timeout_seconds : ℕ
  pub lease_seconds : ℕ
  pub max_attempts : ℕ
  pub max_prompt_bytes : ℕ
  pub max_output_tokens : ℕ
  pub max_total_tokens : ℕ
  pub max_active_per_owner : ℕ
  pub max_running : ℕ

-- `__post_init__`
unfoldable pub authoring_limits : AuthoringLimits → Result (Unit {0})
authoring_limits l =
    raise_if
      (leb l.timeout_seconds 0
        || leb l.lease_seconds l.timeout_seconds
        || ltb
            (min l.max_attempts (
              min l.max_prompt_bytes (
                min l.max_output_tokens
                  (min l.max_total_tokens (min l.max_active_per_owner l.max_running)))))
            1
        || ltb l.max_total_tokens l.max_output_tokens)
      (value_error "Invalid authoring limits")

pub record AuthoringJobModel : Type 0 where
  pub id : Uuid
  pub story_id : Uuid
  pub owner_principal_id : Uuid
  pub request_id : Uuid
  pub input_hash : Text
  pub base_revision : ℕ
  pub snapshot : AuthoringDraft
  pub snapshot_hash : Text
  pub kind : JobKind
  pub instructions : Text
  pub approved_outline : Option Json
  pub model_id : String
  pub limits : AuthoringLimits
  pub state : JobState
  pub attempts : ℕ
  pub lease_epoch : ℕ
  pub lease_until : Option ℕ
  pub physical_requests : ℕ
  pub input_tokens : ℕ
  pub output_tokens : ℕ
  pub usage_complete : Bool
  pub actual_model : Option String
  pub error_code : Option String
  pub outline : Option Json
  pub outline_revision : ℕ
  pub approved_outline_revision : Option ℕ
  pub created_at : ℕ
  pub updated_at : ℕ

pub record AuthoringAttemptModel : Type 0 where
  pub job_id : Uuid
  pub lease_epoch : ℕ
  pub state : String
  pub request_reserved : Bool
  pub error_code : Option String
  pub created_at : ℕ
  pub finished_at : Option ℕ

pub record StoryProposalChange : Type 0 where
  pub id : Uuid
  pub field_path : Text
  -- `remove`, or else `set`
  pub is_remove : Bool
  pub before_exists : Bool
  pub before : Json
  pub after : Json
  pub reason : Text
  pub is_undecided : Bool

-- The findings and the validation report travel as JSON.
pub record StoryProposal : Type 0 where
  pub id : Uuid
  pub job_id : Uuid
  pub story_id : Uuid
  pub base_revision : ℕ
  pub changes : List StoryProposalChange
  pub findings : List Json
  pub validation : Json

pub record AuthoringProposalModel : Type 0 where
  pub id : Uuid
  pub job_id : Uuid
  pub story_id : Uuid
  pub base_revision : ℕ
  pub payload : StoryProposal
  -- `applied`, or else `pending`
  pub is_applied : Bool
  pub applied_revision : Option ℕ
  pub adopted_change_ids : List Uuid

pub record JobTables : Type 0 where
  pub jobs : List AuthoringJobModel
  pub attempts : List AuthoringAttemptModel
  pub proposals : List AuthoringProposalModel

-- What a worker holds of the job that it claimed.
pub record JobLease : Type 0 where
  pub id : Uuid
  pub owner : Uuid
  pub story_id : Uuid
  pub base_revision : ℕ
  pub epoch : ℕ
  pub kind : JobKind
  pub snapshot : AuthoringDraft
  pub instructions : Text
  pub outline : Option Json
  pub model_id : String
  pub limits : AuthoringLimits

pub record AuthoringUsage : Type 0 where
  pub requests : ℕ
  pub input_tokens : ℕ
  pub output_tokens : ℕ
  pub complete : Bool
  pub actual_model : Option String

-- What a call reads of the clock: at the start of its transaction, when the row of the job is
-- selected, when it is held, and when it is written.
pub record Clock : Type 0 where
  pub started : ℕ
  pub selected : ℕ
  pub held : ℕ
  pub written : ℕ

-- contracts/story_jobs.py: AuthoringJob, what the interface shows of a job.
pub record AuthoringJob : Type 0 where
  pub id : Uuid
  pub story_id : Uuid
  pub base_revision : ℕ
  pub snapshot_hash : Text
  pub kind : JobKind
  pub state : JobState
  pub model_id : String
  pub actual_model : Option String
  pub attempts : ℕ
  pub physical_requests : ℕ
  pub input_tokens : ℕ
  pub output_tokens : ℕ
  pub usage_complete : Bool
  pub error_code : Option String
  pub created_at : ℕ
  pub updated_at : ℕ
  pub proposal : Option AuthoringProposalModel
  pub outline : Option Json
  pub outline_revision : ℕ
  pub approved_outline_revision : Option ℕ
