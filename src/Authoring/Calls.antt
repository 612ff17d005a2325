-- ===== src/Authoring/Calls.antt =====
-- The calls of owners and workers, one after another, as steps of the store
-- (infrastructure/postgres/story_jobs.py). A step is a transaction that commits; one that raises
-- changes nothing. Row and advisory locks order the calls, and what a call reads of the clock and
-- which rows others hold is its environment's.
pub mod Kept
pub mod Writes
pub mod Ends
pub mod Outlines
pub mod Claims
pub mod Leases
pub mod Queue
pub mod Invariant
pub mod Fences
use ai_rpg.Prelude.{ℕ, ◌≡◌, String, Bool, Option, List, map, false, contains, id_eq, ok}
use ai_rpg.Domain.Results.{Uuid}
use ai_rpg.Text.{Text}
use ai_rpg.Stories.Json.{Json}
use ai_rpg.Stories.Drafts.{AuthoringDraft}
use ai_rpg.Stories.Ledger.{LedgerKey, StoryTables}
use ai_rpg.Usage.{Settings, UsageTables}
use ai_rpg.Authoring.Tables.{
  AuthoringLimits, AuthoringJobModel, StoryProposal, JobTables, JobLease, AuthoringUsage, Clock,
  AuthoringJob,
}
use ai_rpg.Authoring.Jobs.{Database, claim, reserve_call, record_usage, succeed, fail}
use ai_rpg.Authoring.Requests.{
  CreateAuthoringJobRequest, OutlineEdit, enqueue, cancel, edit_outline,
}

-- The arguments of the store's constructor, and the hash of drafts.
pub record Deployment : Type 0 where
  pub content_hash : AuthoringDraft → Text
  pub limits : AuthoringLimits
  pub settings : Settings
  pub model_id : String

abbrev pub ids_of : Database → List ℕ
ids_of db = map (λ j. j.id) db.authoring.jobs

abbrev pub with_jobs : Database → JobTables → Database
with_jobs db t = record db { authoring = t }

pub data Step (d : Deployment) (db db' : Database) : Type 0 where
  -- uuid4 makes an id that no job has.
  enqueues :
      (owner story_id : Uuid) (key : LedgerKey) (request : CreateAuthoringJobRequest)
      (job_id : Uuid) (clock : Clock) (response : AuthoringJob)
      → contains job_id (ids_of db) ≡ false
      → enqueue d.content_hash d.limits d.settings d.model_id owner story_id key request job_id
          clock db
        ≡ ok (response, db')
      → Step d db db'
  cancels :
      (owner job_id : Uuid) (now : ℕ) (response : AuthoringJob) (t : JobTables)
      → cancel owner job_id now db ≡ ok (response, t)
      → db' ≡ with_jobs db t
      → Step d db db'
  edits :
      (owner job_id : Uuid) (key : LedgerKey) (expected_outline_revision : ℕ) (change : OutlineEdit)
      (now : ℕ) (response : AuthoringJob)
      → edit_outline owner job_id key expected_outline_revision change now db ≡ ok (response, db')
      → Step d db db'
  claims :
      (locked : Uuid → Bool) (now : ℕ)
      → db' ≡ with_jobs db (claim d.limits locked now db.authoring).1
      → Step d db db'
  reserves :
      (lease : JobLease) (clock : Clock) (reserved : Bool)
      → reserve_call d.settings lease clock db ≡ ok (reserved, db')
      → Step d db db'
  accounts :
      (lease : JobLease) (usage : AuthoringUsage) (complete : Bool) (actual_model : Option String)
      (t : JobTables)
      → record_usage lease usage complete actual_model db.authoring ≡ ok t
      → db' ≡ with_jobs db t
      → Step d db db'
  succeeds :
      (lease : JobLease) (proposal : Option StoryProposal) (plan : Option Json)
      (usage : AuthoringUsage) (actual_model : Option String) (clock : Clock) (done : Bool)
      (t : JobTables)
      → succeed lease proposal plan usage actual_model clock db.stories db.authoring ≡ ok (done, t)
      → db' ≡ with_jobs db t
      → Step d db db'
  fails :
      (lease : JobLease) (code : String) (usage : AuthoringUsage) (complete : Bool)
      (actual_model : Option String) (clock : Clock)
      → db' ≡ with_jobs db (fail lease code usage complete actual_model clock db.authoring).1
      → Step d db db'
  -- Transactions of other parts, on the tables of stories and of uses.
  elsewhere :
      (stories : StoryTables) (usage : UsageTables)
      → db' ≡ record db { stories = stories; usage = usage }
      → Step d db db'

pub data Reach (d : Deployment) (db : Database) : Database → Type 0 where
  here : Reach d db db
  then_step : {mid last : Database} → Reach d db mid → Step d mid last → Reach d db last
