-- ===== src/Domain/Character.antt =====
-- domain/models.py: a character's determined state. Its hit points are checked when it is built.
use ai_rpg.Prelude.{ℕ, ◌||◌, not, ◌&&◌, Result, ok, value_error, ◌>>◌, raise_if}
use ai_rpg.Prelude.Int.{ℤ, pos, pos_part, leb_ℤ}
use ai_rpg.Domain.Results.{Uuid}

pub record CharacterState : Type 0 where
  pub id : Uuid
  pub current_hp : ℕ
  pub max_hp : ℕ
  pub defense : ℤ
  pub attack_bonus : ℤ

-- The constructor with `__post_init__`. The hit points that pass are not negative.
unfoldable pub character_state : Uuid → ℤ → ℤ → ℤ → ℤ → Result CharacterState
character_state id current_hp max_hp defense attack_bonus = do
  raise_if (not (leb_ℤ (pos 1) max_hp) || not (leb_ℤ (pos 0) current_hp && leb_ℤ current_hp max_hp))
      (value_error "HPは0以上max_hp以下である必要があります")
  ok (record {
    id = id;
    current_hp = pos_part current_hp;
    max_hp = pos_part max_hp;
    defense = defense;
    attack_bonus = attack_bonus;
  })
