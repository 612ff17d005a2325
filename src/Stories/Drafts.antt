-- ===== src/Stories/Drafts.antt =====
-- contracts/stories.py and infrastructure/postgres/story_models.py: drafts, stories, revisions
-- and the requests that were answered. A stored draft is the dump of one that was validated, and
-- is kept as that draft. Times are microseconds since the epoch.
use ai_rpg.Prelude.{ℕ, String, Option, List}
use ai_rpg.Domain.Results.{Uuid}
use ai_rpg.Text.{Text}
use ai_rpg.Stories.Json.{Fields}

pub data FieldPolicy : Type 0 where
  fixed : FieldPolicy
  fillable : FieldPolicy
  undecided : FieldPolicy

pub record AuthoringDraft : Type 0 where
  pub scenario : Fields
  pub metadata : Fields
  pub field_policies : List (Text × FieldPolicy)
  pub notes : Text

pub data Lifecycle : Type 0 where
  active : Lifecycle
  withdrawn : Lifecycle
  blocked : Lifecycle
  archived : Lifecycle

pub record StoryModel : Type 0 where
  pub id : Uuid
  pub owner_principal_id : Option Uuid
  pub visibility : String
  pub lifecycle : Lifecycle
  pub updated_at : ℕ

pub record StoryDraftModel : Type 0 where
  pub story_id : Uuid
  pub revision : ℕ
  pub payload : AuthoringDraft
  pub updated_at : ℕ

pub record StoryDraftRevisionModel : Type 0 where
  pub story_id : Uuid
  pub revision : ℕ
  pub payload : AuthoringDraft
  pub actor_id : Uuid
  pub source : String
  pub created_at : ℕ

pub record StoryDraftResponse : Type 0 where
  pub story_id : Uuid
  pub revision : ℕ
  pub draft : AuthoringDraft
  pub updated_at : ℕ
