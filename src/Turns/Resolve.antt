-- ===== src/Turns/Resolve.antt =====
-- infrastructure/postgres/repositories.py: commit_resolution, which checks a bundle once more
-- against the rows, projects it and writes it. The writes to the tables of characters and stocks,
-- which may raise, are a parameter, as is the enemy that the scene's fight names.
use ai_rpg.Prelude.{
  ℕ, ◌+◌, String, Bool, true, false, ◌&&◌, ◌||◌, not, Option, none, some, List, [], ◌∷◌, ◌++◌, map,
  keep, Result, ok, ◌>>=◌, ◌>>◌, raise_if, or_raise, checks, ltb, nat_eq, is_some, find, any,
  length, if◌then◌else◌, ◌==◌, id_eq, ref_eq, pair_eq, contains, Error, runtime_error,
  authorization_error, version_conflict, invalid_bundle, integrity_error,
}
use ai_rpg.Prelude.Int.{ℤ, pos, leb_ℤ, ◌+ℤ◌, int_eq}
use ai_rpg.Prelude.Rows.{update}
use ai_rpg.Domain.Results.{Uuid}
use ai_rpg.Domain.Commands.{
  Command, attack, skill_check, use_item, scenario_action, open_action, command_base,
}
use ai_rpg.Domain.Events.{DomainEvent}
use ai_rpg.Scenario.Model.{Ref}
use ai_rpg.Application.Ports.{
  ActionRecord, MechanicalNarrationInput, CommitBundle, ScenarioProgressUpdate, ScenarioFact,
}
use ai_rpg.Application.Mutations.{CanonicalMutation}
use ai_rpg.Application.Resolution.Reactions.{TurnCommitContext}
use ai_rpg.Application.Resolution.Project.{ResolutionProjection, project_resolution}
use ai_rpg.Turns.Rows.{
  committed, mechanical, TurnModel, CampaignModel, EventModel, ActionModel, TurnTables,
}
use ai_rpg.Turns.Leases.{is_resolving}
use ai_rpg.Turns.Commits.{
  campaign_of, turn_of, authorize_story_run, assert_lease_current, is_committed, write_turn,
}

pub record SceneModel : Type 0 where
  pub id : Uuid
  pub campaign_id : Uuid
  -- `planned`, `active` or `closed`
  pub status : String

pub record MvpScenarioRunModel : Type 0 where
  pub campaign_id : Uuid
  pub status : String
  pub ending_ref : Option Ref
  pub elapsed_actions : ℕ
  pub alert_level : ℤ

-- The scenes, the runs, their flags, and the facts with the turn that made them.
pub record ScenarioTables : Type 0 where
  pub scenes : List SceneModel
  pub runs : List MvpScenarioRunModel
  pub flags : List (Uuid × Ref)
  pub facts : List (Uuid × Uuid × ScenarioFact)

abbrev pub is_scene : Uuid → Uuid → SceneModel → Bool
is_scene campaign_id id s = s.campaign_id == campaign_id && s.id == id

abbrev pub is_active_scene : Uuid → SceneModel → Bool
is_active_scene campaign_id s = s.campaign_id == campaign_id && s.status == "active"

-- A scene that may become the current one; an open scenario goes back to closed ones.
abbrev pub is_enterable : Bool → SceneModel → Bool
is_enterable open_scenario s = s.status == "planned" || (open_scenario && s.status == "closed")

abbrev pub closes_current : ScenarioProgressUpdate → Bool
closes_current u = is_some u.to_scene_id || is_some u.ending_ref

-- How many scenes of the campaign are active after the update.
abbrev pub resulting_active_count : Uuid → ScenarioProgressUpdate → List SceneModel → ℕ
resulting_active_count campaign_id u scenes =
    length (keep (λ s. is_active_scene campaign_id s && not (s.id == u.from_scene_id)) scenes)
    + (if closes_current u then 0 else 1)
    + (if is_some u.to_scene_id then 1 else 0)

abbrev pub is_nonempty {ℓ} : {A : Type ℓ} → List A → Bool
is_nonempty [] = false
is_nonempty (x ∷ xs) = true

abbrev pub entered : Bool → Uuid → Option Uuid → List SceneModel → Bool
entered open_scenario campaign_id none scenes = true
entered open_scenario campaign_id (some to) scenes =
    any (λ s. is_scene campaign_id to s && is_enterable open_scenario s) scenes

unfoldable pub scenario_guards :
    Bool
    → Uuid
    → Uuid
    → MvpScenarioRunModel
    → ScenarioProgressUpdate
    → List SceneModel
    → List (Bool × Error)
scenario_guards open_scenario campaign_id turn_scene_id run u scenes =
    (
      not (any (λ s. is_scene campaign_id u.from_scene_id s && s.status == "active") scenes)
          || not (u.from_scene_id == turn_scene_id),
      invalid_bundle "Scenarioのfrom Sceneが現在地と一致しません",
    )
    ∷ (
      not (entered open_scenario campaign_id u.to_scene_id scenes),
      invalid_bundle "Scenarioのto Sceneが同一Campaignのplanned Sceneではありません",
    )
    ∷ (
      is_some u.ending_ref && is_some u.to_scene_id,
      invalid_bundle "Scenarioのto SceneとEndingは排他的です",
    )
    ∷ (
      not (leb_ℤ (pos 0) (run.alert_level +ℤ u.alert_delta))
          || not (leb_ℤ (run.alert_level +ℤ u.alert_delta) (pos 5))
          || (not open_scenario
              && (not (nat_eq u.elapsed_actions 0)
                  || not (u.alert_delta == pos 0)
                  || is_nonempty u.facts))
          || any (λ f. not (f.scene_id == u.from_scene_id)) u.facts,
      invalid_bundle "Scenarioの時間・警戒・追加事実が不正です",
    )
    ∷ (
      ltb 1 (resulting_active_count campaign_id u scenes),
      invalid_bundle "Scenario更新後のactive Sceneが一件を超えます",
    )
    ∷ []

abbrev pub active_run : Uuid → List MvpScenarioRunModel → Option MvpScenarioRunModel
active_run campaign_id runs = find (λ r. r.campaign_id == campaign_id && r.status == "active") runs

-- The checks of a scenario's update, where the bundle has one.
unfoldable pub check_scenario :
    Bool → Uuid → Uuid → Option ScenarioProgressUpdate → ScenarioTables → Result (Unit {0})
check_scenario open_scenario campaign_id turn_scene_id none tables = ok tt
check_scenario open_scenario campaign_id turn_scene_id (some u) tables =
    or_raise (active_run campaign_id tables.runs) (invalid_bundle "Scenario runがactiveではありません")
    >>= λ run. checks (scenario_guards open_scenario campaign_id turn_scene_id run u tables.scenes)

unfoldable pub set_scene : Uuid → Uuid → String → List SceneModel → List SceneModel
set_scene campaign_id id status scenes =
    map (λ s. if is_scene campaign_id id s then record s { status = status } else s) scenes

unfoldable pub add_flags : Uuid → List Ref → List (Uuid × Ref) → Result (List (Uuid × Ref))
add_flags campaign_id [] flags = ok flags
add_flags campaign_id (f ∷ fs) flags = do
  raise_if (contains (campaign_id, f) flags) integrity_error
  add_flags campaign_id fs ((campaign_id, f) ∷ flags)

-- The scenes after the current one is closed and the next one entered.
unfoldable pub move_scenes : Uuid → ScenarioProgressUpdate → List SceneModel → List SceneModel
move_scenes campaign_id u scenes =
    let left =
      if closes_current u then set_scene campaign_id u.from_scene_id "closed" scenes else scenes in
    elim u.to_scene_id [ none ↦ left | some to ↦ set_scene campaign_id to "active" left ]

unfoldable pub progress_run : ScenarioProgressUpdate → MvpScenarioRunModel → MvpScenarioRunModel
progress_run u run = record run {
  status = if is_some u.ending_ref then "completed" else run.status;
  ending_ref = if is_some u.ending_ref then u.ending_ref else run.ending_ref;
  elapsed_actions = run.elapsed_actions + u.elapsed_actions;
  alert_level = run.alert_level +ℤ u.alert_delta;
}

-- The writes of a scenario's update that was checked.
unfoldable pub write_scenario :
    Uuid → Uuid → Option ScenarioProgressUpdate → ScenarioTables → Result ScenarioTables
write_scenario campaign_id turn_id none tables = ok tables
write_scenario campaign_id turn_id (some u) tables = do
  flags ← add_flags campaign_id u.add_flags tables.flags
  ok (record {
    scenes = move_scenes campaign_id u tables.scenes;
    runs = update (λ r. r.campaign_id) campaign_id (progress_run u) tables.runs;
    flags = flags;
    facts = map (λ f. (campaign_id, turn_id, f)) u.facts ++ tables.facts;
  })

unfoldable pub event_row : Uuid → Uuid → DomainEvent → EventModel
event_row campaign_id turn_id e = record {
  id = e.id;
  campaign_id = campaign_id;
  turn_id = turn_id;
  sequence = e.sequence;
  state_version = e.state_version;
  is_narration = false;
}

abbrev pub target_of : Command → Option Uuid
target_of (attack c) = some c.target_id
target_of (skill_check c) = c.target_id
target_of (use_item c) = c.target_id
target_of (scenario_action c) = none
target_of (open_action c) = none

abbrev pub item_of : Command → Option Uuid
item_of (attack c) = c.weapon_id
item_of (use_item c) = some c.item_id
item_of _ = none

unfoldable pub action_row : Uuid → Uuid → ActionRecord → ActionModel
action_row campaign_id turn_id a = record {
  id = (command_base a.command).action_id;
  campaign_id = campaign_id;
  turn_id = turn_id;
  ordinal = (command_base a.command).ordinal;
  actor_id = (command_base a.command).actor_id;
  target_id = target_of a.command;
  item_id = item_of a.command;
  command = a.command;
  result = a.result;
}

unfoldable pub committed_turn : ℕ → ℕ → MechanicalNarrationInput → TurnModel → TurnModel
committed_turn version started narration_input t = record t {
  narration_input = some narration_input;
  resolution_status = committed;
  route = some mechanical;
  committed_state_version = some version;
  committed_at = some started;
}

unfoldable pub write_projection :
    CommitBundle → ResolutionProjection → ℕ → CampaignModel → TurnModel → TurnTables → TurnTables
write_projection bundle projection started c t tables =
    let written =
      write_turn t
        (committed_turn projection.committed_state_version started projection.narration_input)
        tables in
    record written {
      campaigns =
          update (λ x. x.id) c.id
            (λ x. record x {
              state_version = projection.committed_state_version;
              event_sequence = x.event_sequence + length projection.events;
            })
            written.campaigns;
      events =
          map (event_row bundle.campaign_id bundle.turn_id) projection.events ++ written.events;
      actions =
          map (action_row bundle.campaign_id bundle.turn_id) projection.actions ++ written.actions;
    }

module _ (authorized : TurnModel → Bool) (is_open : CampaignModel → Bool)
    (context_of : TurnModel → TurnCommitContext) (event_id_factory : ℕ → Uuid)
    (check_mutations write_mutations : List CanonicalMutation → Result (Unit {0})) where
  abbrev pub commit_row :
      CommitBundle
      → ℕ
      → ℕ
      → CampaignModel
      → TurnModel
      → TurnTables
      → ScenarioTables
      → Result (Option ℕ × TurnTables × ScenarioTables)
  commit_row bundle started now c t tables scenario = do
    raise_if
        (not (
          is_resolving t.resolution_status && nat_eq t.resolution.worker_epoch bundle.worker_epoch))
        (runtime_error "worker leaseが無効です")
    check_scenario (is_open c) bundle.campaign_id t.scene_id bundle.scenario_update scenario
    raise_if (not (authorized t)) (authorization_error "actorを操作する権限が失効しています")
    raise_if (not (nat_eq c.state_version bundle.base_state_version))
        (version_conflict "Canonical versionが更新されています")
    projection ← project_resolution bundle (context_of t) (c.event_sequence + 1) event_id_factory
    check_mutations projection.mutations
    assert_lease_current bundle.worker_epoch now t
    write_mutations projection.mutations
    scenario' ← write_scenario bundle.campaign_id bundle.turn_id bundle.scenario_update scenario
    ok (
      some projection.committed_state_version,
      write_projection bundle projection started c t tables,
      scenario',
    )

  -- A bundle that comes again returns the version that it was committed with.
  unfoldable pub commit_resolution :
      CommitBundle
      → ℕ
      → ℕ
      → TurnTables
      → ScenarioTables
      → Result (Option ℕ × TurnTables × ScenarioTables)
  commit_resolution bundle started now tables scenario = do
    c ← campaign_of bundle.campaign_id tables.campaigns
    authorize_story_run c
    t ← turn_of bundle.turn_id bundle.campaign_id tables.turns
    let fresh = commit_row bundle started now c t tables scenario
    if is_committed t.resolution_status
        then ok (t.committed_state_version, tables, scenario)
        else fresh
