-- ===== src/Application/Mutations/World.antt =====
-- An independent reading of state changes: a world of hit points and stocks in which they happen
-- one after another, and in which mutations are written.
pub mod Fold
pub mod Commit
use ai_rpg.Prelude.{
  ℕ, Bool, true, false, ◌&&◌, Option, none, some, List, [], ◌∷◌, nat_eq, if◌then◌else◌, Eq, ◌==◌,
  id_eq, pair_eq, ◌≡◌, ◌≢◌,
}
use ai_rpg.Domain.Results.{Uuid, StateChange, damage, healing, consumed}
use ai_rpg.Application.Ports.{ActionRecord}
use ai_rpg.Application.Mutations.{CanonicalMutation, hp, inventory, has_changed, changes_of}

pub record World : Type 0 where
  pub hp : Uuid → ℕ
  pub stock : Uuid × Uuid → ℕ

abbrev pub update {ℓ} : {K : Type ℓ} ⦃e : Eq K⦄ → K → ℕ → (K → ℕ) → K → ℕ
update k v f j = if k == j then v else f j

-- A change happens where it says that it starts; a healing must know the character's maximum.
abbrev pub perform : (Uuid → ℕ) → World → StateChange → Option World
perform max_of w (damage d) =
    if nat_eq (w.hp d.target_id) d.hp_before
    then some (record w { hp = update d.target_id d.hp_after w.hp })
    else none
perform max_of w (healing h) =
    if nat_eq (w.hp h.target_id) h.hp_before && nat_eq (max_of h.target_id) h.max_hp
    then some (record w { hp = update h.target_id h.hp_after w.hp })
    else none
perform max_of w (consumed c) =
    if nat_eq (w.stock (c.owner_id, c.item_id)) c.quantity_before
    then some (record w { stock = update (c.owner_id, c.item_id) c.quantity_after w.stock })
    else none

abbrev pub and_then {ℓ κ} : {A : Type ℓ} {B : Type κ} → Option A → (A → Option B) → Option B
and_then none f = none
and_then (some a) f = f a

unfoldable pub perform_all : (Uuid → ℕ) → World → List StateChange → Option World
perform_all max_of w [] = some w
perform_all max_of w (c ∷ cs) = and_then (perform max_of w c) λ w'. perform_all max_of w' cs

-- The changes of every action that was applied, in order.
unfoldable pub happen : (Uuid → ℕ) → World → List ActionRecord → Option World
happen max_of w [] = some w
happen max_of w (a ∷ rest) =
    and_then (perform_all max_of w (changes_of a.result)) λ w'. happen max_of w' rest

-- Writing mutations.
abbrev pub write : World → CanonicalMutation → World
write w (hp m) = record w { hp = update m.entity_id m.hp_after w.hp }
write w (inventory m) = record w { stock = update (m.owner_id, m.item_id) m.quantity_after w.stock }

unfoldable pub write_all : World → List CanonicalMutation → World
write_all w [] = w
write_all w (m ∷ ms) = write_all (write w m) ms

-- A mutation starts from what the world holds, and changes it.
abbrev pub StartsAt : World → CanonicalMutation → Type 0
StartsAt w (hp m) = (m.hp_before ≡ w.hp m.entity_id) × (m.hp_before ≢ m.hp_after)
StartsAt w (inventory m) =
    (m.quantity_before ≡ w.stock (m.owner_id, m.item_id)) × (m.quantity_before ≢ m.quantity_after)
