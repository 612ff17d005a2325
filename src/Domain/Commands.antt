-- ===== src/Domain/Commands.antt =====
-- domain/commands.py: the commands that the application makes once references are resolved.
use ai_rpg.Prelude.{ℕ, String, Option}
use ai_rpg.Prelude.Int.{ℤ}
use ai_rpg.Text.{Text}
use ai_rpg.Domain.Results.{Uuid}

-- The fields of `CommandBase`.
pub record CommandBase : Type 0 where
  pub action_id : Uuid
  pub campaign_id : Uuid
  pub turn_id : Uuid
  pub actor_id : Uuid
  pub ordinal : ℕ

pub record AttackCommand : Type 0 where
  pub base : CommandBase
  pub open base use *
  pub target_id : Uuid
  pub weapon_id : Option Uuid
  pub attack_bonus : ℤ
  pub damage_expression : Text
  pub damage_bonus : ℤ

pub record SkillCheckCommand : Type 0 where
  pub base : CommandBase
  pub open base use *
  pub skill_ref : String
  pub objective : Text
  pub target_id : Option Uuid
  pub modifier : ℤ
  pub difficulty_class : ℕ

pub record UseItemCommand : Type 0 where
  pub base : CommandBase
  pub open base use *
  pub item_id : Uuid
  pub target_id : Option Uuid
  pub effect_ref : String

pub record ScenarioActionCommand : Type 0 where
  pub base : CommandBase
  pub open base use *
  pub action_ref : String

pub data Ability : Type 0 where
  strength agility insight presence : Ability

pub record OpenActionCommand : Type 0 where
  pub base : CommandBase
  pub open base use *
  pub approach : Text
  pub ability : Option Ability
  pub skill_ref : Option String
  pub modifier : Option ℤ
  pub difficulty_class : Option ℕ

pub data Command : Type 0 where
  attack : AttackCommand → Command
  skill_check : SkillCheckCommand → Command
  use_item : UseItemCommand → Command
  scenario_action : ScenarioActionCommand → Command
  open_action : OpenActionCommand → Command

-- The fields that every command has.
abbrev pub command_base : Command → CommandBase
command_base (attack c) = c.base
command_base (skill_check c) = c.base
command_base (use_item c) = c.base
command_base (scenario_action c) = c.base
command_base (open_action c) = c.base
