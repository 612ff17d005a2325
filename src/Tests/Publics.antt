-- ===== src/Tests/Publics.antt =====
-- The public context of the small scenario.
use ai_rpg.Prelude.{◌≡◌, refl, none, some, [], ◌∷◌, ok}
use ai_rpg.Text.{codes}
use ai_rpg.Scenario.Progress.{current_scene, definition_for, run_guards}
use ai_rpg.Scenario.Progress.Public.{
  ScenarioPublicContext, scene_ref_by_id, generated_facts, public_context_for,
}
use ai_rpg.Scenario.Progress.Public.Offered.{AllBindable, public_context_for-AllBindable}
use ai_rpg.Tests.Scenarios.{catalog, run}

abbrev at_gate : ScenarioPublicContext
at_gate = record {
  scene_title = codes "gate";
  scene_description = codes "a gate";
  objective = codes "leave";
  discovered_facts = [];
  available_actions = ("open_door", codes "open the door") ∷ ("fight", codes "fight") ∷ [];
  action_details =
      record {
        action_ref = "open_door";
        label = codes "open the door";
        kind = "scenario_action";
        skill_ref = none;
        target_ref = none;
      }
      ∷ record {
        action_ref = "fight";
        label = codes "fight";
        kind = "attack";
        skill_ref = none;
        target_ref = some "goblin";
      }
      ∷ [];
  npc_notes = [];
  generated_facts = [];
}

shown : public_context_for catalog run ≡ ok at_gate
unfolding public_context_for current_scene definition_for run_guards generated_facts scene_ref_by_id
shown = refl

public_context_for-AllBindable_example : AllBindable catalog run at_gate
public_context_for-AllBindable_example = public_context_for-AllBindable catalog run at_gate shown
