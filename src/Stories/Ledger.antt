-- ===== src/Stories/Ledger.antt =====
-- infrastructure/postgres/stories.py: who may change a story, and the ledger of the requests that
-- were answered, where a request that comes again gets its answer again.
use ai_rpg.Prelude.{
  ℕ, String, Bool, true, false, ◌&&◌, ◌||◌, not, Option, none, some, List, ◌∷◌, Result, ok, ◌>>◌,
  ◌>>=◌, raise_if, or_raise, story_error, find, ◌==◌, id_eq, ref_eq, option_eq, pair_eq, list_eq,
  is_some,
}
use ai_rpg.Domain.Results.{Uuid}
use ai_rpg.Text.{Text}
use ai_rpg.Stories.Drafts.{
  Lifecycle, blocked, archived, StoryModel, StoryDraftModel, StoryDraftRevisionModel,
  StoryDraftResponse,
}
use ai_rpg.Authoring.Tables.{AuthoringJob}

-- An operation of the ledger, with the job or the proposal that its text names.
abbrev pub Operation : Type 0
Operation = String × Option Uuid

pub data Response : Type 0 where
  draft_response : StoryDraftResponse → Response
  job_response : AuthoringJob → Response

pub record StoryRequestModel : Type 0 where
  pub principal_id : Uuid
  pub request_id : Uuid
  pub story_id : Uuid
  pub operation : Operation
  pub input_hash : Text
  pub response : Response

pub record StoryTables : Type 0 where
  pub stories : List StoryModel
  pub drafts : List StoryDraftModel
  pub revisions : List StoryDraftRevisionModel
  pub requests : List StoryRequestModel

-- `_owned`
unfoldable pub owned : Uuid → Uuid → List StoryModel → Result StoryModel
owned owner story_id stories =
    or_raise (find (λ s. s.id == story_id && s.owner_principal_id == some owner) stories)
      (story_error "story_not_found" 404)

abbrev pub is_closed : Lifecycle → Bool
is_closed blocked = true
is_closed archived = true
is_closed _ = false

-- `_editable`
unfoldable pub editable : StoryModel → Result (Unit {0})
editable story = raise_if (is_closed story.lifecycle) (story_error "story_unavailable" 403)

-- `_draft`
unfoldable pub draft_at : Uuid → Option ℕ → List StoryDraftModel → Result StoryDraftModel
draft_at story_id expected_revision drafts = do
  draft ← or_raise (find (λ d. d.story_id == story_id) drafts) (story_error "draft_not_found" 404)
  raise_if (is_some expected_revision && not (some draft.revision == expected_revision))
      (story_error "revision_conflict" 409)
  ok draft

-- A request as the ledger sees it: its id, and the hash of all that it says.
pub record LedgerKey : Type 0 where
  pub request_id : Uuid
  pub input_hash : Text

abbrev pub find_request : Uuid → Uuid → List StoryRequestModel → Option StoryRequestModel
find_request owner request_id requests =
    find (λ r. r.principal_id == owner && r.request_id == request_id) requests

abbrev pub replay_of :
    Uuid → LedgerKey → Operation → Option StoryRequestModel → Result (Option Response)
replay_of story_id request operation none = ok none
replay_of story_id request operation (some previous) = do
  raise_if
      (not (previous.operation == operation)
        || not (previous.story_id == story_id)
        || not (previous.input_hash == request.input_hash))
      (story_error "idempotency_conflict" 409)
  ok (some previous.response)

-- `_replay`
unfoldable pub replay :
    Uuid → Uuid → LedgerKey → Operation → List StoryRequestModel → Result (Option Response)
replay owner story_id request operation requests =
    replay_of story_id request operation (find_request owner request.request_id requests)

-- `_remember`
unfoldable pub remember : Uuid → Uuid → LedgerKey → Operation → Response → StoryTables → StoryTables
remember owner story_id request operation response tables = record tables {
  requests =
      record {
        principal_id = owner;
        request_id = request.request_id;
        story_id = story_id;
        operation = operation;
        input_hash = request.input_hash;
        response = response;
      }
      ∷ tables.requests;
}
