-- ===== src/Engine/Ruleset/Open.antt =====
-- engine/ruleset.py: `MvpV2Ruleset.open_modifier`, for free actions.
use ai_rpg.Prelude.{
  ℕ, ◌+◌, String, Bool, false, not, ◌&&◌, Option, none, some, List, [], ◌∷◌, Result, ok,
  value_error, ◌>>◌, contains, is_some, if◌then◌else◌, ◌==◌, ref_eq, option_eq, checks, Error,
}
use ai_rpg.Prelude.Int.{ℤ, pos, pos_part, leb_ℤ}

abbrev pub abilities : List String
abilities = "strength" ∷ "agility" ∷ "insight" ∷ "presence" ∷ []

-- `_skill_ability.get`
abbrev pub skill_ability : String → Option String
skill_ability skill =
    if skill == "athletics"
    then some "strength"
    else if skill == "acrobatics"
    then some "agility"
    else if skill == "perception"
    then some "insight"
    else if skill == "stealth"
    then some "agility"
    else if skill == "persuasion"
    then some "presence"
    else none

-- A dict of the saved scores.
abbrev pub score_of : String → List (String × ℤ) → Option ℤ
score_of ability [] = none
score_of ability ((name, score) ∷ rest) =
    if name == ability then some score else score_of ability rest

abbrev pub mismatched : Option String → String → Bool
mismatched none ability = false
mismatched (some skill) ability = not (skill_ability skill == some ability)

abbrev pub valid_score : Option ℤ → Bool
valid_score none = false
valid_score (some score) = leb_ℤ (pos 0) score && leb_ℤ score (pos 3)

abbrev pub score_value : Option ℤ → ℕ
score_value none = 0
score_value (some score) = pos_part score

unfoldable pub open_guards :
    String → Option String → List (String × ℤ) → String → List (Bool × Error)
open_guards ability skill_ref scores specialty =
    (not (contains ability abilities), value_error "Unknown ability")
    ∷ (mismatched skill_ref ability, value_error "Skill and ability do not match")
    ∷ (not (valid_score (score_of ability scores)), value_error "Invalid saved ability")
    ∷ (not (is_some (skill_ability specialty)), value_error "Invalid saved specialty")
    ∷ []

abbrev pub modifier_of : Option ℤ → Bool → ℕ
modifier_of score special = score_value score + (if special then 2 else 0)

unfoldable pub open_modifier : String → Option String → List (String × ℤ) → String → Result ℕ
open_modifier ability skill_ref scores specialty = do
  checks (open_guards ability skill_ref scores specialty)
  ok (modifier_of (score_of ability scores) (skill_ref == some specialty))
