-- ===== src/Application/Mutations.antt =====
-- application/resolution.py: `_canonical_mutations`, which folds the state changes of a turn's
-- actions into one mutation for each character and each stock.
pub mod World
use ai_rpg.Prelude.{
  ℕ, Bool, true, false, ◌&&◌, not, Option, none, some, List, [], ◌∷◌, ◌++◌, Result, ok, err, ◌>>=◌,
  ◌>>◌, raise_if, checks, invalid_bundle, nat_eq, if◌then◌else◌, lookup, insert, id_eq, pair_eq,
  Error, key_error, or_raise, keep,
}
use ai_rpg.Domain.Results.{
  Uuid, DamageApplied, HealingApplied, ItemConsumed, StateChange, damage, healing, consumed,
  ActionResult, applied, not_applicable,
}
use ai_rpg.Application.Ports.{ActionRecord}

pub record CharacterHpMutation : Type 0 where
  pub entity_id : Uuid
  pub hp_before : ℕ
  pub hp_after : ℕ
  pub max_hp : Option ℕ

pub record InventoryQuantityMutation : Type 0 where
  pub owner_id : Uuid
  pub item_id : Uuid
  pub quantity_before : ℕ
  pub quantity_after : ℕ

pub data CanonicalMutation : Type 0 where
  hp : CharacterHpMutation → CanonicalMutation
  inventory : InventoryQuantityMutation → CanonicalMutation

-- The entries of `order`: `("hp", target_id)` and `("inventory", (owner_id, item_id))`.
pub data OrderKey : Type 0 where
  hp_key : Uuid → OrderKey
  inventory_key : Uuid × Uuid → OrderKey

-- The local variables of the loop.
pub record Ledger : Type 0 where
  pub hp_by_id : List (Uuid × CharacterHpMutation)
  pub inventory_by_key : List ((Uuid × Uuid) × InventoryQuantityMutation)
  pub order : List OrderKey

abbrev pub empty_ledger : Ledger
empty_ledger = record { hp_by_id = []; inventory_by_key = []; order = [] }

-- `previous.max_hp is not None and max_hp is not None and previous.max_hp != max_hp`
abbrev pub conflicting_max : Option ℕ → Option ℕ → Bool
conflicting_max (some a) (some b) = not (nat_eq a b)
conflicting_max _ _ = false

abbrev pub either_max : Option ℕ → Option ℕ → Option ℕ
either_max (some a) _ = some a
either_max none b = b

-- An HP change from `before` to `after`, with the maximum that a healing states.
unfoldable pub fold_hp :
    Ledger → Uuid → ℕ → ℕ → Option ℕ → Option CharacterHpMutation → Result Ledger
fold_hp l target before after max_hp none = ok (record l {
  hp_by_id =
      insert target
        (record { entity_id = target; hp_before = before; hp_after = after; max_hp = max_hp })
        l.hp_by_id;
  order = l.order ++ hp_key target ∷ [];
})
fold_hp l target before after max_hp (some previous) = do
  checks (
      (not (nat_eq previous.hp_after before), invalid_bundle "HP遷移がAction間で連続していません")
      ∷ (conflicting_max previous.max_hp max_hp, invalid_bundle "HP遷移のmax_hpが一致しません")
      ∷ [])
  ok (record l {
    hp_by_id =
        insert target
          (record {
            entity_id = target;
            hp_before = previous.hp_before;
            hp_after = after;
            max_hp = either_max previous.max_hp max_hp;
          })
          l.hp_by_id;
  })

unfoldable pub fold_item : Ledger → ItemConsumed → Option InventoryQuantityMutation → Result Ledger
fold_item l c none = ok (record l {
  inventory_by_key =
      insert (c.owner_id, c.item_id)
        (record {
          owner_id = c.owner_id;
          item_id = c.item_id;
          quantity_before = c.quantity_before;
          quantity_after = c.quantity_after;
        })
        l.inventory_by_key;
  order = l.order ++ inventory_key (c.owner_id, c.item_id) ∷ [];
})
fold_item l c (some previous) = do
  checks (
      (
        not (nat_eq previous.quantity_after c.quantity_before),
        invalid_bundle "在庫遷移がAction間で連続していません",
      )
      ∷ [])
  ok (record l {
    inventory_by_key =
        insert (c.owner_id, c.item_id)
          (record {
            owner_id = c.owner_id;
            item_id = c.item_id;
            quantity_before = previous.quantity_before;
            quantity_after = c.quantity_after;
          })
          l.inventory_by_key;
  })

unfoldable pub fold_change : Ledger → StateChange → Result Ledger
fold_change l (damage d) =
    fold_hp l d.target_id d.hp_before d.hp_after none (lookup d.target_id l.hp_by_id)
fold_change l (healing h) =
    fold_hp l h.target_id h.hp_before h.hp_after (some h.max_hp) (lookup h.target_id l.hp_by_id)
fold_change l (consumed c) = fold_item l c (lookup (c.owner_id, c.item_id) l.inventory_by_key)

unfoldable pub fold_changes : Ledger → List StateChange → Result Ledger
fold_changes l [] = ok l
fold_changes l (c ∷ cs) = fold_change l c >>= λ l'. fold_changes l' cs

-- An action that was not applied is skipped.
abbrev pub changes_of : ActionResult → List StateChange
changes_of (applied r) = r.state_changes
changes_of (not_applicable reason) = []

unfoldable pub fold_actions : Ledger → List ActionRecord → Result Ledger
fold_actions l [] = ok l
fold_actions l (a ∷ as') = fold_changes l (changes_of a.result) >>= λ l'. fold_actions l' as'

abbrev pub has_changed : CanonicalMutation → Bool
has_changed (hp m) = not (nat_eq m.hp_before m.hp_after)
has_changed (inventory m) = not (nat_eq m.quantity_before m.quantity_after)

abbrev pub mutation_at : Ledger → OrderKey → Result CanonicalMutation
mutation_at l (hp_key id) = or_raise (lookup id l.hp_by_id) key_error >>= λ m. ok (hp m)
mutation_at l (inventory_key key) =
    or_raise (lookup key l.inventory_by_key) key_error >>= λ m. ok (inventory m)

-- The second loop: one mutation for each key, in the order of first appearance, without those that
-- end where they began.
unfoldable pub collect : Ledger → List OrderKey → Result (List CanonicalMutation)
collect l [] = ok []
collect l (k ∷ ks) = do
  m ← mutation_at l k
  rest ← collect l ks
  ok (if has_changed m then m ∷ rest else rest)

unfoldable pub canonical_mutations : List ActionRecord → Result (List CanonicalMutation)
canonical_mutations actions = do l ← fold_actions empty_ledger actions; collect l l.order
