-- ===== src/Application/Combat/Standing.antt =====
-- How a character stands after the player's actions, told from the snapshot and the changes alone.
use ai_rpg.Prelude.{
  ℕ, ◌≡◌, refl, sym, ap, ◌∙◌, true, false, ◌&&◌, ◌||◌, not, some, List, [], ◌∷◌, ok, or_raise,
  raise_if, key_error, nat_eq, nat_eq_iff, lookup, insert, lookup-insert, id_eq, ◌==◌,
  if◌then◌else◌, Bool-cases, inl, inr, ◌⊎◌, arith, from_ok, >>=-eq-ok, raise_if-eq-ok,
  or_raise-eq-ok, from_some,
}
use mathlib.Core.Path.{subst}
use ai_rpg.Prelude.Rows.{Among}
use ai_rpg.Prelude.Int.{ℤ, pos, negsuc, leb_ℤ}
use ai_rpg.Domain.Results.{
  Uuid, StateChange, damage, healing, consumed, ActionResult, applied, not_applicable,
}
use ai_rpg.Domain.Character.{CharacterState, character_state}
use ai_rpg.Application.Ports.{CharacterRow, ActionRecord}
use ai_rpg.Application.Mutations.{changes_of}
use ai_rpg.Application.Combat.Characters.{
  Characters, characters_from, change_hp, apply_change, apply_changes, apply_actions,
}

-- The hit points of a character after one change, after several, and after the actions of a turn.
abbrev hp_after_change : Uuid → StateChange → ℕ → ℕ
hp_after_change id (damage d) n = if d.target_id == id then d.hp_after else n
hp_after_change id (healing h) n = if h.target_id == id then h.hp_after else n
hp_after_change id (consumed c) n = n

abbrev hp_after_changes : Uuid → List StateChange → ℕ → ℕ
hp_after_changes id [] n = n
hp_after_changes id (c ∷ cs) n = hp_after_changes id cs (hp_after_change id c n)

abbrev hp_after_result : Uuid → ActionResult → ℕ → ℕ
hp_after_result id (applied r) n = hp_after_changes id r.state_changes n
hp_after_result id (not_applicable reason) n = n

abbrev pub hp_after_actions : Uuid → List ActionRecord → ℕ → ℕ
hp_after_actions id [] n = n
hp_after_actions id (a ∷ rest) n = hp_after_actions id rest (hp_after_result id a.result n)

-- A character's values are those of a row of the snapshot, its hit points as the actions left them.
pub record IsStanding (rows : List CharacterRow) (actions : List ActionRecord) (id : Uuid)
    (c : CharacterState) : Type 0 where
  row : CharacterRow
  saved_hp : ℕ
  among : Among row rows
  same_row : row.entity_id ≡ id
  same_id : c.id ≡ id
  saved : row.current_hp ≡ pos saved_hp
  now : c.current_hp ≡ hp_after_actions id actions saved_hp
  same_max : row.max_hp ≡ pos c.max_hp
  same_defense : c.defense ≡ row.defense
  same_bonus : c.attack_bonus ≡ row.attack_bonus

-- What a character is built from.
record IsBuilt (id : Uuid) (hp max defense bonus : ℤ) (c : CharacterState) : Type 0 where
  built_id : c.id ≡ id
  built_hp : hp ≡ pos c.current_hp
  built_max : max ≡ pos c.max_hp
  built_defense : c.defense ≡ defense
  built_bonus : c.attack_bonus ≡ bonus

character_state-IsBuilt :
    (id : Uuid) (hp max defense bonus : ℤ) (c : CharacterState)
    → character_state id hp max defense bonus ≡ ok c
    → IsBuilt id hp max defense bonus c
unfolding character_state
character_state-IsBuilt id (pos n) (pos m) defense bonus c h =
    let (_, same) =
      raise_if-eq-ok
        (not (leb_ℤ (pos 1) (pos m)) || not (leb_ℤ (pos 0) (pos n) && leb_ℤ (pos n) (pos m))) _ _ c
        h in
    subst (IsBuilt id (pos n) (pos m) defense bonus) (from_ok same) (record {
      built_id = refl;
      built_hp = refl;
      built_max = refl;
      built_defense = refl;
      built_bonus = refl;
    })
character_state-IsBuilt id (pos n) (negsuc m) defense bonus c h =
    let (fine, _) =
      raise_if-eq-ok
        (not (leb_ℤ (pos 1) (negsuc m)) || not (leb_ℤ (pos 0) (pos n) && leb_ℤ (pos n) (negsuc m)))
        _ _ c h in
    absurd (ground arith)
character_state-IsBuilt id (negsuc n) max defense bonus c h =
    let (fine, _) =
      raise_if-eq-ok
        (not (leb_ℤ (pos 1) max) || not (leb_ℤ (pos 0) (negsuc n) && leb_ℤ (negsuc n) max)) _ _ c
        h in
    absurd (ground arith)

-- The value that an insert leaves under a key: the new one, or the one of before.
inserted :
    (k j : Uuid) (v c : CharacterState) (d : Characters)
    → lookup j (insert k v d) ≡ some c
    → ((k ≡ j) × (v ≡ c)) ⊎ ((nat_eq k j ≡ false) × (lookup j d ≡ some c))
inserted k j v c d h =
    let h' = sym (lookup-insert k j v d) ∙ h in
    elim (Bool-cases (nat_eq k j)) [
      | inl here ↦ inl ((nat_eq_iff k j).0 here, from_some (rw here at h'))
      | inr away ↦ inr (away, rw away at h')
    ]

weaker :
    (row : CharacterRow) (rows : List CharacterRow) (id : Uuid) (c : CharacterState)
    → IsStanding rows [] id c
    → IsStanding (row ∷ rows) [] id c
weaker row rows id c s = record {
  row = s.row;
  saved_hp = s.saved_hp;
  among = inr s.among;
  same_row = s.same_row;
  same_id = s.same_id;
  saved = s.saved;
  now = s.now;
  same_max = s.same_max;
  same_defense = s.same_defense;
  same_bonus = s.same_bonus;
}

built-IsStanding :
    (row : CharacterRow) (rows : List CharacterRow) (id : Uuid) (c : CharacterState)
    → row.entity_id ≡ id
    → IsBuilt row.entity_id row.current_hp row.max_hp row.defense row.attack_bonus c
    → IsStanding (row ∷ rows) [] id c
built-IsStanding row rows id c same b = record {
  row = row;
  saved_hp = c.current_hp;
  among = inl refl;
  same_row = same;
  same_id = b.built_id ∙ same;
  saved = b.built_hp;
  now = refl;
  same_max = b.built_max;
  same_defense = b.built_defense;
  same_bonus = b.built_bonus;
}

characters_from_lem :
    (d : Characters) (rows : List CharacterRow) (d' : Characters) (id : Uuid) (c : CharacterState)
    → characters_from d rows ≡ ok d'
    → lookup id d' ≡ some c
    → (lookup id d ≡ some c) ⊎ IsStanding rows [] id c
unfolding characters_from
characters_from_lem d [] d' id c h found =
    inl (subst (λ x. lookup id x ≡ some c) (sym (from_ok h)) found)
characters_from_lem d (row ∷ rows) d' id c h found =
    let (v, built, rest) =
      >>=-eq-ok
        (character_state row.entity_id row.current_hp row.max_hp row.defense row.attack_bonus) _
        h in
    elim (characters_from_lem (insert row.entity_id v d) rows d' id c rest found) [
      | inr later ↦ inr (weaker row rows id c later)
      | inl here ↦ elim (inserted row.entity_id id v c d here) [
        | inl (mine, same) ↦ inr (
            built-IsStanding row rows id c mine (
              subst (IsBuilt row.entity_id row.current_hp row.max_hp row.defense row.attack_bonus)
                same (character_state-IsBuilt _ _ _ _ _ v built)))
        | inr (_, before) ↦ inl before
      ]
    ]

-- A character before and after, of whom only the hit points changed.
record IsMoved (n : ℕ) (c c' : CharacterState) : Type 0 where
  moved_id : c'.id ≡ c.id
  moved_hp : c'.current_hp ≡ n
  moved_max : c'.max_hp ≡ c.max_hp
  moved_defense : c'.defense ≡ c.defense
  moved_bonus : c'.attack_bonus ≡ c.attack_bonus

IsMoved-refl : (c : CharacterState) → IsMoved c.current_hp c c
IsMoved-refl c = record {
  moved_id = refl;
  moved_hp = refl;
  moved_max = refl;
  moved_defense = refl;
  moved_bonus = refl;
}

IsMoved-trans : (m n : ℕ) (b c d : CharacterState) → IsMoved m b c → IsMoved n c d → IsMoved n b d
IsMoved-trans m n b c d h k = record {
  moved_id = k.moved_id ∙ h.moved_id;
  moved_hp = k.moved_hp;
  moved_max = k.moved_max ∙ h.moved_max;
  moved_defense = k.moved_defense ∙ h.moved_defense;
  moved_bonus = k.moved_bonus ∙ h.moved_bonus;
}

-- Where a character of after comes from: the one of before under the same key, with its hit points
-- moved by `f`.
abbrev ComesFrom : Characters → Characters → (Uuid → ℕ → ℕ) → Type 0
ComesFrom d d' f =
    (id : Uuid) (c' : CharacterState)
    → lookup id d' ≡ some c'
    → (c : CharacterState) × (lookup id d ≡ some c) × IsMoved (f id c.current_hp) c c'

comes_still : (d d' : Characters) → d ≡ d' → ComesFrom d d' (λ id n. n)
comes_still d d' same id c' found =
    (c', subst (λ x. lookup id x ≡ some c') (sym same) found, IsMoved-refl c')

comes_then :
    (d mid d' : Characters) (f g : Uuid → ℕ → ℕ)
    → ComesFrom d mid f
    → ComesFrom mid d' g
    → ComesFrom d d' (λ id n. g id (f id n))
comes_then d mid d' f g first second id c' found =
    let (b, there, move) = second id c' found in
    let (c, here, before) = first id b there in
    (
      c,
      here,
      subst (λ n. IsMoved n c c') (ap (g id) before.moved_hp)
          (IsMoved-trans (f id c.current_hp) (g id b.current_hp) c b c' before move),
    )

from_pos : (a b : ℕ) → pos a ≡ pos b → b ≡ a
from_pos a b h = cc

change_hp_lem :
    (d d' : Characters) (target : Uuid) (before after : ℕ)
    → change_hp d target before after ≡ ok d'
    → ComesFrom d d' (λ id n. if target == id then after else n)
unfolding change_hp
change_hp_lem d d' target before after h id c' found =
    let (previous, there, h1) = >>=-eq-ok (or_raise (lookup target d) key_error) _ h in
    let (_, _, h2) = >>=-eq-ok (raise_if (not (nat_eq previous.current_hp before)) _) _ h1 in
    let (v, made, same) =
      >>=-eq-ok
        (character_state previous.id (pos after) (pos previous.max_hp) previous.defense
          previous.attack_bonus)
        _ h2 in
    let built = character_state-IsBuilt _ _ _ _ _ v made in
    let in_new : lookup id (insert target v d) ≡ some c' =
      subst (λ x. lookup id x ≡ some c') (sym (from_ok same)) found in
    elim (inserted target id v c' d in_new) [
      | inl (mine, is_new) ↦
          let hit : nat_eq target id ≡ true = (nat_eq_iff target id).1 mine in
          (
            previous,
            subst (λ k. lookup k d ≡ some previous) mine (or_raise-eq-ok _ _ previous there),
            rw hit (
                subst (IsMoved after previous) is_new (record {
                  moved_id = built.built_id;
                  moved_hp = from_pos after v.current_hp built.built_hp;
                  moved_max = from_pos previous.max_hp v.max_hp built.built_max;
                  moved_defense = built.built_defense;
                  moved_bonus = built.built_bonus;
                })),
          )
      | inr (away, was) ↦ (c', was, rw away (IsMoved-refl c'))
    ]

apply_change_lem :
    (d d' : Characters) (c : StateChange)
    → apply_change d c ≡ ok d'
    → ComesFrom d d' (λ id n. hp_after_change id c n)
unfolding apply_change
apply_change_lem d d' (damage c) h = change_hp_lem d d' c.target_id c.hp_before c.hp_after h
apply_change_lem d d' (healing c) h = change_hp_lem d d' c.target_id c.hp_before c.hp_after h
apply_change_lem d d' (consumed c) h = comes_still d d' (from_ok h)

apply_changes_lem :
    (d d' : Characters) (cs : List StateChange)
    → apply_changes d cs ≡ ok d'
    → ComesFrom d d' (λ id n. hp_after_changes id cs n)
unfolding apply_changes
apply_changes_lem d d' [] h = comes_still d d' (from_ok h)
apply_changes_lem d d' (c ∷ cs) h =
    let (mid, first, rest) = >>=-eq-ok (apply_change d c) _ h in
    comes_then d mid d' (λ id n. hp_after_change id c n) (λ id n. hp_after_changes id cs n)
      (apply_change_lem d mid c first) (apply_changes_lem mid d' cs rest)

apply_result_lem :
    (d d' : Characters) (result : ActionResult)
    → apply_changes d (changes_of result) ≡ ok d'
    → ComesFrom d d' (λ id n. hp_after_result id result n)
apply_result_lem d d' (applied r) h = apply_changes_lem d d' r.state_changes h
apply_result_lem d d' (not_applicable reason) h = apply_changes_lem d d' [] h

apply_actions_lem :
    (d d' : Characters) (actions : List ActionRecord)
    → apply_actions d actions ≡ ok d'
    → ComesFrom d d' (λ id n. hp_after_actions id actions n)
unfolding apply_actions
apply_actions_lem d d' [] h = comes_still d d' (from_ok h)
apply_actions_lem d d' (a ∷ rest) h =
    let (mid, first, more) = >>=-eq-ok (apply_changes d (changes_of a.result)) _ h in
    comes_then d mid d' (λ id n. hp_after_result id a.result n) (λ id n. hp_after_actions id rest n)
      (apply_result_lem d mid a.result first) (apply_actions_lem mid d' rest more)

-- The characters that the enemy's turn works with stand as the actions left them.
pub apply_actions-IsStanding :
    (rows : List CharacterRow) (actions : List ActionRecord) (saved after : Characters) (id : Uuid)
    (c : CharacterState)
    → characters_from [] rows ≡ ok saved
    → apply_actions saved actions ≡ ok after
    → lookup id after ≡ some c
    → IsStanding rows actions id c
apply_actions-IsStanding rows actions saved after id c read acted found =
    let (b, was, move) = apply_actions_lem saved after actions acted id c found in
    elim (characters_from_lem [] rows saved id b read was) [
      | inl never ↦ absurd (cc never)
      | inr s ↦ record {
        row = s.row;
        saved_hp = s.saved_hp;
        among = s.among;
        same_row = s.same_row;
        same_id = move.moved_id ∙ s.same_id;
        saved = s.saved;
        now = move.moved_hp ∙ ap (hp_after_actions id actions) s.now;
        same_max = s.same_max ∙ ap pos (sym move.moved_max);
        same_defense = move.moved_defense ∙ s.same_defense;
        same_bonus = move.moved_bonus ∙ s.same_bonus;
      }
    ]
