-- ===== src/Turns/Commits.antt =====
-- infrastructure/postgres/repositories.py: how a phase of a turn ends, and the calls of models that
-- it may make. Whether the actor may still be operated by the turn's principal is read from the
-- tables of members, and is a parameter. A transaction that raises writes nothing.
use ai_rpg.Prelude.{
  ℕ, ◌+◌, Bool, true, false, ◌&&◌, not, Option, none, some, List, [], ◌∷◌, ◌++◌, map, Result, ok,
  ◌>>=◌, ◌>>◌, raise_if, or_raise, checks, nat_eq, find, if◌then◌else◌, ◌==◌, id_eq, option_eq,
  Error, runtime_error, authorization_error, version_conflict, deadline_exceeded, no_result,
}
use ai_rpg.Prelude.Rows.{update}
use ai_rpg.Domain.Results.{Uuid}
use ai_rpg.Text.{Text}
use ai_rpg.Turns.Rows.{
  ResolutionStatus, committed, not_applied, NarrationStatus, completed, PhaseColumns, TurnModel,
  CampaignModel, EventModel, TurnChoiceModel, TurnTables, is_ahead, is_stopped,
}
use ai_rpg.Turns.Leases.{is_resolving, is_narrative}

pub data LlmPhase : Type 0 where
  resolution_phase : LlmPhase
  narration_phase : LlmPhase

-- `SELECT ... FROM campaigns ... FOR UPDATE`
abbrev pub campaign_of : Uuid → List CampaignModel → Result CampaignModel
campaign_of campaign_id campaigns = or_raise (find (λ c. c.id == campaign_id) campaigns) no_result

abbrev pub turn_of : Uuid → Uuid → List TurnModel → Result TurnModel
turn_of turn_id campaign_id turns =
    or_raise (find (λ t. t.id == turn_id && t.campaign_id == campaign_id) turns) no_result

-- `authorize_story_run`
abbrev pub authorize_story_run : CampaignModel → Result (Unit {0})
authorize_story_run c =
    raise_if (is_stopped c) (authorization_error "This story has been stopped by an administrator")

-- `_assert_resolution_lease_current`, of the row of the turn.
abbrev pub assert_lease_current : ℕ → ℕ → TurnModel → Result (Unit {0})
assert_lease_current worker_epoch now t = checks (
    (
      not (
          nat_eq t.resolution.worker_epoch worker_epoch
          && is_resolving t.resolution_status
          && is_ahead now t.resolution.lease_until),
      runtime_error "worker leaseが無効です",
    )
    ∷ (not (is_ahead now t.resolution.deadline), deadline_exceeded "resolution deadlineを超過しました")
    ∷ [])

abbrev pub has_ended_unapplied : TurnModel → Bool
has_ended_unapplied t = elim t.resolution_status [
  | not_applied ↦ elim t.narration_status [ completed ↦ true | _ ↦ false ]
  | _ ↦ false
]

abbrev pub is_committed : ResolutionStatus → Bool
is_committed committed = true
is_committed _ = false

abbrev pub is_completed : NarrationStatus → Bool
is_completed completed = true
is_completed _ = false

-- The next event of a campaign, and the turn that it is about.
unfoldable pub write_event : EventModel → CampaignModel → TurnTables → TurnTables
write_event e c tables = record tables {
  campaigns =
      update (λ x. x.id) c.id (λ x. record x { event_sequence = e.sequence }) tables.campaigns;
  events = e ∷ tables.events;
}

abbrev pub narration_event : Uuid → TurnModel → ℕ → CampaignModel → EventModel
narration_event event_id t version c = record {
  id = event_id;
  campaign_id = t.campaign_id;
  turn_id = t.id;
  sequence = c.event_sequence + 1;
  state_version = version;
  is_narration = true;
}

unfoldable pub write_turn : TurnModel → (TurnModel → TurnModel) → TurnTables → TurnTables
write_turn t f tables = record tables { turns = update (λ u. u.id) t.id f tables.turns }

abbrev pub released : PhaseColumns → PhaseColumns
released p = record p { lease_until = none }

unfoldable pub unapplied_turn : Text → TurnModel → TurnModel
unapplied_turn narration t = record t {
  resolution_status = not_applied;
  narration_status = completed;
  narration = some narration;
  resolution = released t.resolution;
}

abbrev pub finalize_found :
    ℕ → Text → ℕ → Uuid → CampaignModel → TurnModel → TurnTables → Result (Bool × TurnTables)
finalize_found worker_epoch narration now event_id c t tables = do
  assert_lease_current worker_epoch now t
  ok (
    true,
    write_event (narration_event event_id t c.state_version c) c
        (write_turn t (unapplied_turn narration) tables),
  )

abbrev pub finalize_turn :
    ℕ → Text → ℕ → Uuid → CampaignModel → TurnModel → TurnTables → Result (Bool × TurnTables)
finalize_turn worker_epoch narration now event_id c t tables =
    if has_ended_unapplied t
    then ok (true, tables)
    else if not (is_resolving t.resolution_status && nat_eq t.resolution.worker_epoch worker_epoch)
    then ok (false, tables)
    else finalize_found worker_epoch narration now event_id c t tables

abbrev pub finalize_row :
    ℕ → Text → ℕ → Uuid → Option TurnModel → TurnTables → Result (Bool × TurnTables)
finalize_row worker_epoch narration now event_id none tables = ok (false, tables)
finalize_row worker_epoch narration now event_id (some t) tables = do
  c ← campaign_of t.campaign_id tables.campaigns
  authorize_story_run c
  finalize_turn worker_epoch narration now event_id c t tables

unfoldable pub finalize_not_applied :
    Uuid → ℕ → Text → ℕ → Uuid → TurnTables → Result (Bool × TurnTables)
finalize_not_applied turn_id worker_epoch narration now event_id tables =
    finalize_row worker_epoch narration now event_id (find (λ t. t.id == turn_id) tables.turns)
      tables

pub record ChoiceDraft : Type 0 where
  pub id : Uuid
  pub ordinal : ℕ
  pub label : Text

pub record NarrativeCommit : Type 0 where
  pub campaign_id : Uuid
  pub turn_id : Uuid
  pub scene_id : Uuid
  pub worker_epoch : ℕ
  pub base_state_version : ℕ
  pub narration : Text
  pub choices : List ChoiceDraft

abbrev pub choice_row : Uuid → TurnModel → ℕ → ChoiceDraft → TurnChoiceModel
choice_row scene_id t version choice = record {
  id = choice.id;
  campaign_id = t.campaign_id;
  scene_id = scene_id;
  source_turn_id = t.id;
  actor_id = t.actor_id;
  ordinal = choice.ordinal;
  label = choice.label;
  state_version = version;
}

unfoldable pub add_choices : Uuid → TurnModel → ℕ → List ChoiceDraft → TurnTables → TurnTables
add_choices scene_id t version choices tables = record tables {
  choices = map (choice_row scene_id t version) choices ++ tables.choices;
}

unfoldable pub narrated_turn : ℕ → ℕ → Text → TurnModel → TurnModel
narrated_turn version started narration t = record t {
  resolution_status = committed;
  narration_status = completed;
  committed_state_version = some version;
  committed_at = some started;
  narration = some narration;
  resolution = released t.resolution;
}

module _ (authorized : TurnModel → Bool) where
  abbrev pub narrative_guards : NarrativeCommit → CampaignModel → TurnModel → List (Bool × Error)
  narrative_guards commit c t =
      (
        not (
            is_resolving t.resolution_status
            && is_narrative t.route
            && nat_eq t.resolution.worker_epoch commit.worker_epoch),
        runtime_error "worker leaseが無効です",
      )
      ∷ (not (authorized t), authorization_error "actorを操作する権限が失効しています")
      ∷ (
        not (nat_eq c.state_version commit.base_state_version),
        version_conflict "Canonical versionが更新されています",
      )
      ∷ []

  -- What a commit of a narrative turn writes.
  abbrev pub narrative_writes :
      NarrativeCommit → ℕ → Uuid → CampaignModel → TurnModel → TurnTables → TurnTables
  narrative_writes commit started event_id c t tables =
      write_event (narration_event event_id t c.state_version c) c (
        add_choices commit.scene_id t c.state_version commit.choices
          (write_turn t (narrated_turn c.state_version started commit.narration) tables))

  abbrev pub commit_narrative_row :
      NarrativeCommit
      → ℕ
      → ℕ
      → Uuid
      → CampaignModel
      → TurnModel
      → TurnTables
      → Result (Option ℕ × TurnTables)
  commit_narrative_row commit started now event_id c t tables =
      if is_committed t.resolution_status && is_completed t.narration_status
      then ok (t.committed_state_version, tables)
      else (checks (narrative_guards commit c t)
          >> (assert_lease_current commit.worker_epoch now t
              >> ok (some c.state_version, narrative_writes commit started event_id c t tables)))

  unfoldable pub commit_narrative :
      NarrativeCommit → ℕ → ℕ → Uuid → TurnTables → Result (Option ℕ × TurnTables)
  commit_narrative commit started now event_id tables = do
    c ← campaign_of commit.campaign_id tables.campaigns
    authorize_story_run c
    t ← turn_of commit.turn_id commit.campaign_id tables.turns
    commit_narrative_row commit started now event_id c t tables
