-- ===== src/Scenario/Progress/Bindings.antt =====
-- application/scenarios.py: the registered actions that a request is bound to.
use ai_rpg.Prelude.{
  Bool, ◌&&◌, Option, none, some, List, [], ◌∷◌, Result, ok, ◌>>=◌, ◌>>◌, raise_if, not,
  action_unavailable, find, or_raise, ref_eq, ◌==◌, if◌then◌else◌,
}
use ai_rpg.Scenario.Model.{
  Ref, ScenarioAction, direct, skill, attack, conditions_of, DirectScenarioAction,
  SkillScenarioAction, AttackScenarioAction,
}
use ai_rpg.Application.Ports.{ScenarioRunSnapshot}
use ai_rpg.Scenario.Progress.{Catalog, current_scene, is_available}

-- `bind_registered_action`
unfoldable pub bind_registered_action : Catalog → ScenarioRunSnapshot → Ref → Result ScenarioAction
bind_registered_action catalog run action_ref = do
  current ← current_scene catalog run
  or_raise
      (find
        (λ a.
          (conditions_of a).action_ref == action_ref && is_available (conditions_of a) run.flags)
        current.scene.actions)
      (action_unavailable "現在実行できる登録済み行動ではありません")

-- The actions of one kind that a reference names.
pub direct_matches : Ref → List ScenarioAction → List DirectScenarioAction
direct_matches ref [] = []
direct_matches ref (direct a ∷ rest) =
    let found = direct_matches ref rest in if a.action_ref == ref then a ∷ found else found
direct_matches ref (_ ∷ rest) = direct_matches ref rest

pub skill_matches : Ref → List ScenarioAction → List SkillScenarioAction
skill_matches ref [] = []
skill_matches ref (skill a ∷ rest) =
    let found = skill_matches ref rest in if a.skill_ref == ref then a ∷ found else found
skill_matches ref (_ ∷ rest) = skill_matches ref rest

pub attack_matches : Ref → List ScenarioAction → List AttackScenarioAction
attack_matches ref [] = []
attack_matches ref (attack a ∷ rest) =
    let found = attack_matches ref rest in if a.target_ref == ref then a ∷ found else found
attack_matches ref (_ ∷ rest) = attack_matches ref rest

-- One match is bound if its flags allow it; none or several bind nothing.
abbrev pub bind_one {ℓ} : {A : Type ℓ} → (A → Bool) → List A → Result (Option A)
bind_one allowed (a ∷ []) = do
  raise_if (not (allowed a)) (action_unavailable "Scenario行動のflag条件を満たしていません")
  ok (some a)
bind_one allowed _ = ok none

unfoldable pub bind_scenario_action :
    Catalog → ScenarioRunSnapshot → Ref → Result (Option DirectScenarioAction)
unfolding direct_matches
bind_scenario_action catalog run action_ref = do
  current ← current_scene catalog run
  bind_one (λ a. is_available a.conditions run.flags)
      (direct_matches action_ref current.scene.actions)

unfoldable pub bind_skill_check :
    Catalog → ScenarioRunSnapshot → Ref → Result (Option SkillScenarioAction)
unfolding skill_matches
bind_skill_check catalog run skill_ref = do
  current ← current_scene catalog run
  bind_one (λ a. is_available a.conditions run.flags)
      (skill_matches skill_ref current.scene.actions)

unfoldable pub bind_attack :
    Catalog → ScenarioRunSnapshot → Ref → Result (Option AttackScenarioAction)
unfolding attack_matches
bind_attack catalog run target_ref = do
  current ← current_scene catalog run
  bind_one (λ a. is_available a.conditions run.flags)
      (attack_matches target_ref current.scene.actions)
