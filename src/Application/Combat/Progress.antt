-- ===== src/Application/Combat/Progress.antt =====
-- What a fight adds to the turn's progress.
use ai_rpg.Prelude.{
  Bool, true, false, ◌||◌, Option, none, some, List, [], ◌∷◌, ◌++◌, contains, id_eq, ref_eq,
  if◌then◌else◌,
}
use ai_rpg.Domain.Results.{Uuid, StateChange, DamageApplied, damage}
use ai_rpg.Scenario.Model.{Ref}
use ai_rpg.Application.Ports.{ScenarioProgressUpdate}
use ai_rpg.Prelude.{◌≡◌}
use ai_rpg.Prelude.{list_eq, option_eq}
use ai_rpg.Application.Combat.Update.{flags_of, elapsed_of, alert_of, facts_in}
use ai_rpg.Prelude.{◌⊎◌}
use ai_rpg.Prelude.Rows.{Among}

abbrev pub destination_of : Option ScenarioProgressUpdate → Option Uuid
destination_of none = none
destination_of (some u) = u.to_scene_id

abbrev pub ending_in : Option ScenarioProgressUpdate → Option Ref
ending_in none = none
ending_in (some u) = u.ending_ref

-- What an update becomes besides its flags: it ends or goes on, and the rest is as it was.
abbrev IsFoughtUpdate :
    List Ref → Bool → Ref → Option ScenarioProgressUpdate → Option ScenarioProgressUpdate → Type 0
IsFoughtUpdate flags defeated defeat_ending_ref update after =
    (flags_of after ≡ flags)
    × (destination_of after ≡ none)
    × (ending_in after ≡ (if defeated then some defeat_ending_ref else none))
    × (elapsed_of after ≡ elapsed_of update)
    × (alert_of after ≡ alert_of update)
    × (facts_in after ≡ facts_in update)

-- The flags after the fight: the player's, followed by the fight's where neither the run nor the player
-- has set it.
abbrev pub IsStarted : List Ref → Ref → List Ref → List Ref → Type 0
IsStarted before started added after =
    (((contains started before || contains started added) ≡ true) × (after ≡ added))
    ⊎ ((contains started before ≡ false)
        × (contains started added ≡ false)
        × (after ≡ added ++ started ∷ []))

-- A change that brings its target down: damage that leaves no hit points.
abbrev pub IsDown : StateChange → Type 0
IsDown change = (d : DamageApplied) × (change ≡ damage d) × (d.hp_after ≡ 0)

-- How the turn ends: in the ending of a lost fight just if some change brings its target down.
abbrev pub EndsIf : List StateChange → Ref → Option Ref → Type 0
EndsIf changes defeat_ending_ref ending =
    (((c : StateChange) × Among c changes × IsDown c) × (ending ≡ some defeat_ending_ref))
    ⊎ (((c : StateChange) → Among c changes → IsDown c → ⊥) × (ending ≡ none))
