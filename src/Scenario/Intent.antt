-- ===== src/Scenario/Intent.antt =====
-- contracts/llm_decisions.py: the free action that a language model proposes.
use ai_rpg.Prelude.{
  String, Bool, not, ◌&&◌, ◌||◌, Option, List, [], ◌∷◌, is_some, length, leb, Error, Result, ok,
  checks, ◌>>◌, value_error,
}
use ai_rpg.Prelude.Int.{ℤ, pos, negsuc, leb_ℤ}
use ai_rpg.Text.{Text}
use ai_rpg.Domain.Commands.{Ability}
use ai_rpg.Domain.Events.{FactKind}
use ai_rpg.Scenario.Model.{Ref, Difficulty}

pub record OpenCheck : Type 0 where
  pub ability : Ability
  pub skill_ref : Option String
  pub difficulty : Difficulty

pub record OpenFact : Type 0 where
  pub fact_ref : Ref
  pub kind : FactKind
  pub public_text : Text

pub record OpenEffect : Type 0 where
  pub next_scene_ref : Option Ref
  pub ending_ref : Option Ref
  pub add_flags : List Ref
  pub alert_delta : ℤ
  pub facts : List OpenFact

-- The bounds of the fields, and `one_destination`.
unfoldable pub effect_guards : OpenEffect → List (Bool × Error)
effect_guards e =
    (not (leb (length e.add_flags) 2), value_error "OpenEffect.add_flags")
    ∷ (
      not (leb_ℤ (negsuc 0) e.alert_delta && leb_ℤ e.alert_delta (pos 2)),
      value_error "OpenEffect.alert_delta",
    )
    ∷ (not (leb (length e.facts) 2), value_error "OpenEffect.facts")
    ∷ (
      is_some e.next_scene_ref && is_some e.ending_ref,
      value_error "An action cannot move and end the adventure together",
    )
    ∷ []

unfoldable pub open_effect : OpenEffect → Result OpenEffect
open_effect e = do checks (effect_guards e); ok e

pub record OpenActionIntent : Type 0 where
  pub approach : Text
  pub target_fact_ref : Option Ref
  pub check : Option OpenCheck
  pub success : OpenEffect
  pub failure : Option OpenEffect
  pub major_risk : Option Text

-- `both_check_outcomes`: a check has both outcomes, a direct action has one.
unfoldable pub open_action_intent : OpenActionIntent → Result OpenActionIntent
open_action_intent i = do
  checks (
      (
        (is_some i.check && not (is_some i.failure))
            || (not (is_some i.check) && is_some i.failure),
        value_error "A check needs both outcomes; a direct action needs one",
      )
      ∷ [])
  ok i
