-- ===== src/Scenario/Progress/Public.antt =====
-- application/scenarios.py: what the players are shown, `public_context_for` and
-- `public_protected_facts`.
pub mod Offered
use ai_rpg.Prelude.{
  ℕ, String, Bool, true, false, not, ◌&&◌, ◌||◌, Option, none, some, List, [], ◌∷◌, ◌++◌, map,
  Result, ok, err, ◌>>=◌, or_raise, key_error, keep, concat_map, contains, insert, lookup, nat_eq,
  id_eq, ref_eq, option_eq, ◌==◌, is_some, if◌then◌else◌,
}
use ai_rpg.Text.{Text}
use ai_rpg.Domain.Results.{Uuid}
use ai_rpg.Domain.Events.{FactKind}
use ai_rpg.Scenario.Model.{
  Ref, ScenarioDefinition, SceneDefinition, ScenarioAction, direct, skill, attack, conditions_of,
  ProtectedFact, Visibility, public, secret, author_only, ScenarioFlagDefinition,
}
use ai_rpg.Application.Ports.{ScenarioRunSnapshot, ScenarioSceneSnapshot, ScenarioFact}
use ai_rpg.Scenario.Progress.{Catalog, Current, current_scene, is_available, has_flag, facts_of}

pub record ScenarioPublicAction : Type 0 where
  pub action_ref : Ref
  pub label : Text
  pub kind : String
  pub skill_ref : Option Ref
  pub target_ref : Option Ref

pub record ScenarioPublicFact : Type 0 where
  pub fact_ref : Ref
  pub kind : FactKind
  pub public_text : Text
  pub scene_ref : Ref

pub record ScenarioPublicContext : Type 0 where
  pub scene_title : Text
  pub scene_description : Text
  pub objective : Text
  pub discovered_facts : List Text
  pub available_actions : List (Ref × Text)
  pub action_details : List ScenarioPublicAction
  pub npc_notes : List Text
  pub generated_facts : List ScenarioPublicFact

abbrev pub is_public : Visibility → Bool
is_public public = true
is_public _ = false

abbrev pub is_author_only : Visibility → Bool
is_author_only author_only = true
is_author_only _ = false

-- Whether a protected fact is shown in a scene, with the run's flags.
abbrev pub is_shown : SceneDefinition → List Ref → ProtectedFact → Bool
is_shown scene flags fact =
    (not (is_some fact.scene_ref) || fact.scene_ref == some scene.scene_ref)
    && not (is_author_only fact.visibility)
    && (is_public fact.visibility || has_flag fact.reveal_flag_ref flags)
    && not (has_flag fact.acquired_flag_ref flags)

unfoldable pub public_protected_facts : Catalog → ScenarioRunSnapshot → Result (List Text)
public_protected_facts catalog run = do
  current ← current_scene catalog run
  ok (
      map (λ fact. fact.statement)
        (keep (is_shown current.scene run.flags) (facts_of current.definition.world)))

-- The pairs of a dict comprehension, the last of which wins.
abbrev pub dict_from {ℓ} : {V : Type ℓ} → List (Uuid × V) → List (Uuid × V) → List (Uuid × V)
dict_from [] d = d
dict_from ((k, v) ∷ rest) d = dict_from rest (insert k v d)

-- `scene_ref_by_id`
unfoldable pub scene_ref_by_id :
    List ScenarioSceneSnapshot → List SceneDefinition → List (Uuid × Ref)
scene_ref_by_id saved scenes =
    dict_from
      (concat_map
        (λ runtime.
          map (λ defined. (runtime.id, defined.scene_ref))
            (keep (λ defined. nat_eq runtime.sequence defined.sequence) scenes))
        saved)
      []

abbrev pub public_action : ScenarioAction → ScenarioPublicAction
public_action (direct a) = record {
  action_ref = a.action_ref;
  label = a.label;
  kind = "scenario_action";
  skill_ref = none;
  target_ref = none;
}
public_action (skill a) = record {
  action_ref = a.action_ref;
  label = a.label;
  kind = "skill_check";
  skill_ref = some a.skill_ref;
  target_ref = none;
}
public_action (attack a) = record {
  action_ref = a.action_ref;
  label = a.label;
  kind = "attack";
  skill_ref = none;
  target_ref = some a.target_ref;
}

abbrev pub public_fact : ScenarioFact → Ref → ScenarioPublicFact
public_fact fact scene_ref = record {
  fact_ref = fact.fact_ref;
  kind = fact.kind;
  public_text = fact.public_text;
  scene_ref = scene_ref;
}

-- A fact of an unknown scene is a `KeyError`.
unfoldable pub generated_facts :
    List (Uuid × Ref) → List ScenarioFact → Result (List ScenarioPublicFact)
generated_facts refs [] = ok []
generated_facts refs (fact ∷ facts) = do
  scene_ref ← or_raise (lookup fact.scene_id refs) key_error
  rest ← generated_facts refs facts
  ok (public_fact fact scene_ref ∷ rest)

-- The actions of a scene that the flags allow.
abbrev pub offered : SceneDefinition → List Ref → List ScenarioAction
offered scene flags = keep (λ a. is_available (conditions_of a) flags) scene.actions

unfoldable pub public_context_for : Catalog → ScenarioRunSnapshot → Result ScenarioPublicContext
public_context_for catalog run = do
  current ← current_scene catalog run
  let refs = scene_ref_by_id run.scenes current.definition.scenes
  facts ← generated_facts refs run.facts
  ok (record {
    scene_title = current.scene.title;
    scene_description = current.scene.description;
    objective = current.definition.objective;
    discovered_facts =
        map (λ f. f.public_fact)
          (keep (λ f. contains f.flag_ref run.flags) current.definition.flags)
        ++ map (λ f. f.public_text) run.facts;
    available_actions =
        map (λ a. ((conditions_of a).action_ref, (conditions_of a).label))
          (offered current.scene run.flags);
    action_details = map public_action (offered current.scene run.flags);
    npc_notes = current.scene.npc_notes;
    generated_facts = facts;
  })
