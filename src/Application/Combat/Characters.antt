-- ===== src/Application/Combat/Characters.antt =====
-- application/combat.py: the characters as they stand after the player's actions.
use ai_rpg.Prelude.{
  ℕ, not, List, [], ◌∷◌, Result, ok, raise_if, or_raise, value_error, key_error, nat_eq, lookup,
  insert, id_eq, ref_eq,
}
use ai_rpg.Prelude.{◌>>=◌ as and_then}
use ai_rpg.Prelude.Int.{pos}
use ai_rpg.Domain.Results.{Uuid, StateChange, damage, healing, consumed}
use ai_rpg.Domain.Character.{CharacterState, character_state}
use ai_rpg.Application.Ports.{CharacterRow, ActionRecord}
use ai_rpg.Application.Mutations.{changes_of}

abbrev pub Characters : Type 0
Characters = List (Uuid × CharacterState)

-- The dict of the snapshot's characters.
unfoldable pub characters_from : Characters → List CharacterRow → Result Characters
characters_from d [] = ok d
characters_from d (row ∷ rows) =
    and_then (character_state row.entity_id row.current_hp row.max_hp row.defense row.attack_bonus)
      (λ c. characters_from (insert row.entity_id c d) rows)

-- One change of hit points, held against what is known; `replace` builds the character anew.
unfoldable pub change_hp : Characters → Uuid → ℕ → ℕ → Result Characters
change_hp d target before after = and_then (or_raise (lookup target d) key_error) (λ previous.
    and_then
      (raise_if (not (nat_eq previous.current_hp before))
        (value_error "Player HP changes are not continuous"))
      (λ _.
        and_then
          (character_state previous.id (pos after) (pos previous.max_hp) previous.defense
            previous.attack_bonus)
          (λ c. ok (insert target c d))))

unfoldable pub apply_change : Characters → StateChange → Result Characters
apply_change d (damage c) = change_hp d c.target_id c.hp_before c.hp_after
apply_change d (healing c) = change_hp d c.target_id c.hp_before c.hp_after
apply_change d (consumed c) = ok d

unfoldable pub apply_changes : Characters → List StateChange → Result Characters
apply_changes d [] = ok d
apply_changes d (c ∷ cs) = and_then (apply_change d c) (λ d'. apply_changes d' cs)

unfoldable pub apply_actions : Characters → List ActionRecord → Result Characters
apply_actions d [] = ok d
apply_actions d (a ∷ as') =
    and_then (apply_changes d (changes_of a.result)) (λ d'. apply_actions d' as')
