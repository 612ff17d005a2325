-- ===== src/Tests/Scenarios.antt =====
-- A small scenario with a fight, its run, and its progress.
use ai_rpg.Prelude.{◌≡◌, refl, Bool, true, false, none, some, [], ◌∷◌, ok, ref_eq, ◌==◌, from_ok}
use mathlib.Core.Path.{subst}
use native.Mathlib.Decide.{ℕ_discrete}
use ai_rpg.Prelude.{Bool-cases, inl, inr}
use ai_rpg.Prelude.Int.{pos, ◌+ℤ◌, ◌-ℤ◌, ◌≤ℤ◌}
use ai_rpg.Text.{codes}
use ai_rpg.Domain.Results.{success}
use ai_rpg.Domain.Events.{clue}
use ai_rpg.Scenario.Model.{
  Ref, ScenarioDefinition, SceneDefinition, ScenarioEffect, ScenarioAction, direct, attack,
  ScenarioCombatDefinition, d4, ScenarioFlagDefinition, EndingDefinition, full, rule, secret,
  mvp_v2,
}
use ai_rpg.Scenario.Intent.{OpenActionIntent, OpenEffect}
use ai_rpg.Scenario.Progress.{
  Catalog, definition_for, current_scene, run_guards, validate_protected_effect,
}
use ai_rpg.Scenario.Progress.Registered.{progress_for}
use ai_rpg.Scenario.Progress.Open.{
  alert_change, progress_open, progress_effect, flag_guards, fact_guards,
}
use ai_rpg.Scenario.Progress.Open.Sound.{alert_change_bounds}
use ai_rpg.Scenario.Progress.Open.Effect.{IsOpenStep, progress_open-IsOpenStep}
use ai_rpg.Scenario.Validate.{
  valid_graph, graph_guards, unique_guards, world_guards, scene_guards, combat_guards,
  action_guards, effect_guards,
}
use ai_rpg.Scenario.Validate.Initialization.{guards_of}
use ai_rpg.Text.Regex.{search}
use ai_rpg.Scenario.Lore.{impossible_trip, contradicts_legacy_lore}
use ai_rpg.Scenario.Validate.Known.{NeverStops}
use ai_rpg.Scenario.Validate.Known.Progress.{progress_for-NeverStops}
use ai_rpg.Application.Ports.{ScenarioRunSnapshot, ScenarioProgressUpdate}

alert_change_bounds_example :
    (pos 0 ≤ℤ pos 4 +ℤ alert_change (pos 4) (pos 2))
    × (pos 4 +ℤ alert_change (pos 4) (pos 2) ≤ℤ pos 5)
    × (pos 0 ≤ℤ pos 4 +ℤ pos 2
        → pos 4 +ℤ pos 2 ≤ℤ pos 5
        → pos 4 +ℤ alert_change (pos 4) (pos 2) ≡ pos 4 +ℤ pos 2)
alert_change_bounds_example = alert_change_bounds (pos 4) (pos 2)

abbrev on_path : ScenarioEffect
on_path = record {
  next_scene_ref = some "hall";
  ending_ref = none;
  add_flags = "door_open" ∷ [];
  overrides = [];
}

abbrev won : ScenarioEffect
won = record { next_scene_ref = none; ending_ref = some "victory"; add_flags = []; overrides = [] }

abbrev open_door : ScenarioAction
open_door = direct (record {
  conditions = record {
    required_flags = [];
    disabled_flags = "door_open" ∷ [];
    action_ref = "open_door";
    label = codes "open the door";
  };
  public_fact = codes "the door is open";
  success = on_path;
})

abbrev fight_goblin : ScenarioAction
fight_goblin = attack (record {
  conditions = record {
    required_flags = [];
    disabled_flags = [];
    action_ref = "fight";
    label = codes "fight";
  };
  target_ref = "goblin";
  defeated = won;
})

abbrev pub ambush : ScenarioCombatDefinition
ambush = record {
  enemy_ref = "goblin";
  started_flag = "fighting";
  defeat_ending_ref = "defeat";
  damage_expression = d4;
  damage_bonus = 1;
}

abbrev gate : SceneDefinition
gate = record {
  scene_ref = "gate";
  sequence = 1;
  title = codes "gate";
  description = codes "a gate";
  actions = open_door ∷ fight_goblin ∷ [];
  npc_notes = [];
  combat = some ambush;
  open_flags = "door_open" ∷ [];
  open_destinations = "hall" ∷ [];
}

abbrev hall : SceneDefinition
hall = record {
  scene_ref = "hall";
  sequence = 2;
  title = codes "hall";
  description = codes "a hall";
  actions = [];
  npc_notes = [];
  combat = none;
  open_flags = [];
  open_destinations = [];
}

abbrev flag : Ref → ScenarioFlagDefinition
flag ref = record { flag_ref = ref; public_fact = codes "fact" }

abbrev ending : Ref → EndingDefinition
ending ref = record {
  ending_ref = ref;
  title = codes "end";
  summary = codes "end";
  required_flags = [];
  reward = some (record { tier = full; description = codes "gold" });
}

abbrev pub small : ScenarioDefinition
small = record {
  schema_version = 1;
  scenario_ref = "small";
  version = 1;
  title = codes "small";
  objective = codes "leave";
  scenes = gate ∷ hall ∷ [];
  flags = flag "door_open" ∷ flag "fighting" ∷ flag "goal" ∷ [];
  endings = ending "victory" ∷ ending "defeat" ∷ [];
  ruleset_ref = mvp_v2;
  world = some (record {
    region_name = codes "here";
    boundary = codes "wall";
    goal_scene_ref = "hall";
    goal_flag_ref = "goal";
    outside_ending_ref = "victory";
    protected_facts =
        record {
          fact_ref = "law";
          kind = rule;
          statement = codes "no magic";
          scene_ref = none;
          visibility = secret;
          reveal_flag_ref = none;
          entity_ref = none;
          acquired_flag_ref = none;
        }
        ∷ [];
    protected_terms = [];
    impossible_destinations = codes "moon" ∷ [];
  });
  required_capabilities = [];
  initialization = none;
}

abbrev pub catalog : Catalog
catalog = (("small", 1), small) ∷ []

abbrev pub run : ScenarioRunSnapshot
run = record {
  campaign_id = 90;
  scenario_ref = "small";
  scenario_version = 1;
  status = "active";
  ending_ref = none;
  scenes =
      record { id = 61; sequence = 1; status = "active" }
      ∷ record { id = 62; sequence = 2; status = "locked" }
      ∷ [];
  flags = [];
  elapsed_actions = 0;
  alert_level = pos 1;
  facts = [];
  story_version_id = none;
  definition = some small;
  public_title = none;
}

small-valid : valid_graph small ≡ ok tt
unfolding valid_graph graph_guards unique_guards world_guards scene_guards combat_guards
    action_guards effect_guards guards_of
small-valid = refl

given : definition_for catalog run ≡ ok small
unfolding definition_for
given = refl

Ref-discrete : Discrete Ref
Ref-discrete a b = elim (Bool-cases (a == b)) [
  | inl same ↦ yes ((ref_eq.beq_iff a b).0 same)
  | inr other ↦ no (λ e. cc (other, (ref_eq.beq_iff a b).1 e))
]

ScenarioAction-discrete : Discrete ScenarioAction
ScenarioAction-discrete = hlevel (ℕ_discrete, Ref-discrete)

abbrev is_yes : {A : Type 0} → Dec A → Bool
is_yes (yes a) = true
is_yes (no n) = false

from_yes : {A : Type 0} (d : Dec A) → is_yes d ≡ true → A
from_yes (yes a) h = a
from_yes (no n) h = cc

-- Actions of one scene that are equal are the same object.
abbrev same_object : ScenarioAction → ScenarioAction → Bool
same_object a b = is_yes (ScenarioAction-discrete a b)

progress_for-NeverStops_example :
    NeverStops (progress_for same_object catalog run open_door success none)
progress_for-NeverStops_example =
    progress_for-NeverStops same_object catalog run open_door success none
      (λ a b h. from_yes (ScenarioAction-discrete a b) h)
      (λ d h. subst (λ x. valid_graph x ≡ ok tt) (from_ok (cc (given, h))) small-valid)

abbrev open_effect : OpenEffect
open_effect = record {
  next_scene_ref = some "hall";
  ending_ref = none;
  add_flags = "door_open" ∷ [];
  alert_delta = pos 1;
  facts = record { fact_ref = "rope"; kind = clue; public_text = codes "a rope hangs here" } ∷ [];
}

abbrev intent : OpenActionIntent
intent = record {
  approach = codes "climb the rope";
  target_fact_ref = none;
  check = none;
  success = open_effect;
  failure = none;
  major_risk = none;
}

abbrev climbed : ScenarioProgressUpdate
climbed = record {
  from_scene_id = 61;
  to_scene_id = some 62;
  add_flags = "door_open" ∷ [];
  ending_ref = none;
  elapsed_actions = 1;
  alert_delta = pos 1;
  facts =
      record {
        fact_ref = "rope";
        kind = clue;
        public_text = codes "a rope hangs here";
        scene_id = 61;
      }
      ∷ [];
}

progressed : progress_open catalog run intent true ≡ ok climbed
unfolding progress_open current_scene definition_for run_guards impossible_trip search
    progress_effect flag_guards validate_protected_effect fact_guards contradicts_legacy_lore
    alert_change ◌-ℤ◌ ◌+ℤ◌
progressed = refl

progress_open-IsOpenStep_example : IsOpenStep catalog run intent true climbed
progress_open-IsOpenStep_example =
    progress_open-IsOpenStep catalog run intent true climbed progressed
