-- ===== src/Application/Combat/Update.antt =====
-- application/combat.py: the progress of a turn with a fight.
use ai_rpg.Prelude.{
  ℕ, Bool, true, false, ◌&&◌, ◌||◌, not, Option, none, some, List, [], ◌∷◌, ◌++◌, nat_eq, any,
  contains, id_eq, ref_eq, if◌then◌else◌,
}
use ai_rpg.Prelude.Int.{ℤ, pos}
use ai_rpg.Domain.Results.{Uuid, StateChange, damage}
use ai_rpg.Scenario.Model.{Ref, ScenarioCombatDefinition}
use ai_rpg.Application.Ports.{ScenarioRunSnapshot, ScenarioProgressUpdate, ScenarioFact}

abbrev pub flags_of : Option ScenarioProgressUpdate → List Ref
flags_of none = []
flags_of (some u) = u.add_flags

-- The flag of a started fight joins those that are added, once.
abbrev pub combat_flags : ScenarioRunSnapshot → ScenarioCombatDefinition → List Ref → List Ref
combat_flags run combat flags =
    if not (contains combat.started_flag run.flags) && not (contains combat.started_flag flags)
    then flags ++ combat.started_flag ∷ []
    else flags

abbrev pub is_defeat : StateChange → Bool
is_defeat (damage d) = nat_eq d.hp_after 0
is_defeat _ = false

abbrev pub is_empty : List Ref → Bool
is_empty [] = true
is_empty (x ∷ xs) = false

abbrev pub elapsed_of : Option ScenarioProgressUpdate → ℕ
elapsed_of none = 0
elapsed_of (some u) = u.elapsed_actions

abbrev pub alert_of : Option ScenarioProgressUpdate → ℤ
alert_of none = pos 0
alert_of (some u) = u.alert_delta

abbrev pub facts_in : Option ScenarioProgressUpdate → List ScenarioFact
facts_in none = []
facts_in (some u) = u.facts

-- A new update where there is something to say, in place of the player's.
abbrev pub fought :
    Uuid → List Ref → Bool → Ref → Option ScenarioProgressUpdate → Option ScenarioProgressUpdate
fought scene_id flags defeated defeat_ending_ref update =
    if not (is_empty flags) || defeated
    then some (record {
      from_scene_id = scene_id;
      to_scene_id = none;
      add_flags = flags;
      ending_ref = if defeated then some defeat_ending_ref else none;
      elapsed_actions = elapsed_of update;
      alert_delta = alert_of update;
      facts = facts_in update;
    })
    else update

-- The progress of the turn once the enemy has reacted.
unfoldable pub combat_update :
    Uuid
    → ScenarioRunSnapshot
    → ScenarioCombatDefinition
    → List StateChange
    → Option ScenarioProgressUpdate
    → Option ScenarioProgressUpdate
combat_update scene_id run combat changes update =
    fought scene_id (combat_flags run combat (flags_of update)) (any is_defeat changes)
      combat.defeat_ending_ref update
