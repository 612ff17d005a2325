-- ===== src/Application/Mutations/World/Commit.antt =====
-- Writing the collected mutations takes the first world to the present one.
use ai_rpg.Prelude.{
  ℕ, true, false, ◌≡◌, ◌≢◌, refl, ◌⊎◌, inl, inr, some, List, [], ◌∷◌, ok, arith, contains, ◌==◌,
  id_eq, pair_eq, lookup, nat_eq, nat_eq_iff, Bool-cases, Option-cases, is_some, All, sym,
  if◌then◌else◌,
}
use mathlib.Core.Path.{subst, ◌∙◌}
use ai_rpg.Domain.Results.{Uuid}
use ai_rpg.Application.Ports.{ActionRecord}
use ai_rpg.Application.Mutations.{
  CharacterHpMutation, InventoryQuantityMutation, CanonicalMutation, hp, inventory, OrderKey,
  hp_key, inventory_key, Ledger, has_changed, mutation_at, collect, canonical_mutations,
}
use ai_rpg.Application.Mutations.World.{World, happen, write, write_all, StartsAt}
use ai_rpg.Application.Mutations.World.Fold.{
  key_beq_iff, Tracks, HpEntry, StockEntry, key_eq, fold_actions_lem,
}

All-contains {ℓ} :
    (P : OrderKey → Type ℓ) (ks : List OrderKey)
    → ((k : OrderKey) → contains k ks ≡ true → P k)
    → All P ks
All-contains P [] h = tt
All-contains P (k ∷ ks) h =
    (h k (ground (arith, key_beq_iff k k)), All-contains P ks (λ j c. h j (ground (arith, c))))

module _ (max_of : Uuid → ℕ) (w₀ w : World) (l : Ledger) (tracks : Tracks max_of w₀ w l) where
  -- What a key of the order leads to.
  abbrev Leads : OrderKey → CanonicalMutation → Type 0
  Leads (hp_key t) (hp m) = (m.entity_id ≡ t) × (m.hp_before ≡ w₀.hp t) × (m.hp_after ≡ w.hp t)
  Leads (inventory_key k) (inventory m) =
      ((m.owner_id, m.item_id) ≡ k)
      × (m.quantity_before ≡ w₀.stock k)
      × (m.quantity_after ≡ w.stock k)
  Leads _ _ = ⊥

  hp_at :
      (t : Uuid)
      → is_some (lookup t l.hp_by_id) ≡ true
      → (m : CanonicalMutation) × (mutation_at l (hp_key t) ≡ ok m) × Leads (hp_key t) m
  hp_at t known = elim (Option-cases (lookup t l.hp_by_id)) [
    | inl e ↦ cc (rw e at known)
    | inr (m, e) ↦
        let entry = subst (HpEntry (max_of t) (w₀.hp t) (w.hp t) t) e (tracks.hp_entry t) in
        (hp m, rw e, (entry.0, entry.1, entry.2))
  ]

  stock_at :
      (k : Uuid × Uuid)
      → is_some (lookup k l.inventory_by_key) ≡ true
      → (m : CanonicalMutation) × (mutation_at l (inventory_key k) ≡ ok m)
        × Leads (inventory_key k) m
  stock_at k known = elim (Option-cases (lookup k l.inventory_by_key)) [
    | inl e ↦ cc (rw e at known)
    | inr (m, e) ↦
        let entry = subst (StockEntry (w₀.stock k) (w.stock k) k) e (tracks.stock_entry k) in
        (inventory m, rw e, (entry.0, entry.1, entry.2))
  ]

  -- The keys that have an entry.
  abbrev HasEntry : OrderKey → Type 0
  HasEntry (hp_key t) = is_some (lookup t l.hp_by_id) ≡ true
  HasEntry (inventory_key k) = is_some (lookup k l.inventory_by_key) ≡ true

  mutation_at-Leads :
      (k : OrderKey) → HasEntry k → (m : CanonicalMutation) × (mutation_at l k ≡ ok m) × Leads k m
  mutation_at-Leads (hp_key t) h = hp_at t h
  mutation_at-Leads (inventory_key k) h = stock_at k h

  -- A world in which a value already is what it shall be, or from which a listed key leads there.
  abbrev HpReaches : World → List OrderKey → Uuid → Type 0
  HpReaches u ks t = (u.hp t ≡ w.hp t) ⊎ ((u.hp t ≡ w₀.hp t) × (contains (hp_key t) ks ≡ true))

  abbrev StockReaches : World → List OrderKey → Uuid × Uuid → Type 0
  StockReaches u ks k =
      (u.stock k ≡ w.stock k) ⊎ ((u.stock k ≡ w₀.stock k) × (contains (inventory_key k) ks ≡ true))

  abbrev write_changed : World → CanonicalMutation → World
  write_changed u m = if has_changed m then write u m else u

  hp-write_changed_self :
      (u : World) (m : CharacterHpMutation) (j : Uuid)
      → Leads (hp_key j) (hp m)
      → (u.hp j ≡ w.hp j) ⊎ (u.hp j ≡ w₀.hp j)
      → (write_changed u (hp m)).hp j ≡ w.hp j
  hp-write_changed_self u m j leads h = ground (arith, nat_eq_iff m.entity_id j)

  hp-write_changed_ne :
      (u : World) (m : CharacterHpMutation) (j t : Uuid)
      → Leads (hp_key j) (hp m)
      → j ≢ t
      → (write_changed u (hp m)).hp t ≡ u.hp t
  hp-write_changed_ne u m j t leads ne = ground (arith, nat_eq_iff m.entity_id t)

  hp-write_changed_inventory :
      (u : World) (m : InventoryQuantityMutation) (t : Uuid)
      → (write_changed u (inventory m)).hp t ≡ u.hp t
  hp-write_changed_inventory u m t = ground arith

  hp_from :
      (u : World) (ks : List OrderKey) (t : Uuid)
      → HpReaches u ks t
      → (u.hp t ≡ w.hp t) ⊎ (u.hp t ≡ w₀.hp t)
  hp_from u ks t (inl e) = inl e
  hp_from u ks t (inr (e, c)) = inr e

  HpReaches-tail :
      (u u' : World) (k : OrderKey) (ks : List OrderKey) (t : Uuid)
      → u'.hp t ≡ u.hp t
      → (k == hp_key t) ≡ false
      → HpReaches u (k ∷ ks) t
      → HpReaches u' ks t
  HpReaches-tail u u' k ks t same other (inl e) = inl (same ∙ e)
  HpReaches-tail u u' k ks t same other (inr (e, c)) = inr (same ∙ e, rw other at c)

  HpReaches-step :
      (u : World) (k : OrderKey) (ks : List OrderKey) (m : CanonicalMutation) (t : Uuid)
      → Leads k m
      → HpReaches u (k ∷ ks) t
      → HpReaches (write_changed u m) ks t
  HpReaches-step u (hp_key j) ks (hp m) t leads h = elim (Bool-cases (nat_eq j t)) [
    | inl same ↦
        let e : j ≡ t = (nat_eq_iff j t).0 same in
        inl (
          hp-write_changed_self u m t (subst (λ x. Leads (hp_key x) (hp m)) e leads)
            (hp_from u (hp_key j ∷ ks) t h))
    | inr other ↦
        HpReaches-tail u (write_changed u (hp m)) (hp_key j) ks t
          (hp-write_changed_ne u m j t leads (λ e. cc ((nat_eq_iff j t).1 e))) other h
  ]
  HpReaches-step u (inventory_key j) ks (inventory m) t leads h =
      HpReaches-tail u (write_changed u (inventory m)) (inventory_key j) ks t
        (hp-write_changed_inventory u m t) refl h
  HpReaches-step u (hp_key j) ks (inventory m) t leads h = elim leads [ ]
  HpReaches-step u (inventory_key j) ks (hp m) t leads h = elim leads [ ]

  stock-write_changed_self :
      (u : World) (m : InventoryQuantityMutation) (k : Uuid × Uuid)
      → Leads (inventory_key k) (inventory m)
      → (u.stock k ≡ w.stock k) ⊎ (u.stock k ≡ w₀.stock k)
      → (write_changed u (inventory m)).stock k ≡ w.stock k
  stock-write_changed_self u m k leads h = ground (arith, pair_eq.beq_iff (m.owner_id, m.item_id) k)

  stock-write_changed_ne :
      (u : World) (m : InventoryQuantityMutation) (j k : Uuid × Uuid)
      → Leads (inventory_key j) (inventory m)
      → j ≢ k
      → (write_changed u (inventory m)).stock k ≡ u.stock k
  stock-write_changed_ne u m j k leads ne =
      ground (arith, pair_eq.beq_iff (m.owner_id, m.item_id) k)

  stock-write_changed_hp :
      (u : World) (m : CharacterHpMutation) (k : Uuid × Uuid)
      → (write_changed u (hp m)).stock k ≡ u.stock k
  stock-write_changed_hp u m k = ground arith

  stock_from :
      (u : World) (ks : List OrderKey) (k : Uuid × Uuid)
      → StockReaches u ks k
      → (u.stock k ≡ w.stock k) ⊎ (u.stock k ≡ w₀.stock k)
  stock_from u ks k (inl e) = inl e
  stock_from u ks k (inr (e, c)) = inr e

  StockReaches-tail :
      (u u' : World) (j : OrderKey) (ks : List OrderKey) (k : Uuid × Uuid)
      → u'.stock k ≡ u.stock k
      → (j == inventory_key k) ≡ false
      → StockReaches u (j ∷ ks) k
      → StockReaches u' ks k
  StockReaches-tail u u' j ks k same other (inl e) = inl (same ∙ e)
  StockReaches-tail u u' j ks k same other (inr (e, c)) = inr (same ∙ e, rw other at c)

  StockReaches-step :
      (u : World) (j : OrderKey) (ks : List OrderKey) (m : CanonicalMutation) (k : Uuid × Uuid)
      → Leads j m
      → StockReaches u (j ∷ ks) k
      → StockReaches (write_changed u m) ks k
  StockReaches-step u (inventory_key j) ks (inventory m) k leads h = elim (Bool-cases (j == k)) [
    | inl same ↦
        let e : j ≡ k = (pair_eq.beq_iff j k).0 same in
        inl (
          stock-write_changed_self u m k
            (subst (λ x. Leads (inventory_key x) (inventory m)) e leads)
            (stock_from u (inventory_key j ∷ ks) k h))
    | inr other ↦
        StockReaches-tail u (write_changed u (inventory m)) (inventory_key j) ks k
          (stock-write_changed_ne u m j k leads (λ e. cc ((pair_eq.beq_iff j k).1 e))) other h
  ]
  StockReaches-step u (hp_key j) ks (hp m) k leads h =
      StockReaches-tail u (write_changed u (hp m)) (hp_key j) ks k (stock-write_changed_hp u m k)
        refl h
  StockReaches-step u (hp_key j) ks (inventory m) k leads h = elim leads [ ]
  StockReaches-step u (inventory_key j) ks (hp m) k leads h = elim leads [ ]

  StartsAt-Leads :
      (k : OrderKey) (m : CanonicalMutation) → Leads k m → has_changed m ≡ true → StartsAt w₀ m
  StartsAt-Leads (hp_key t) (hp m) leads h = (ground arith, ground arith)
  StartsAt-Leads (inventory_key k) (inventory m) leads h = (ground arith, ground arith)
  StartsAt-Leads (hp_key t) (inventory m) leads h = elim leads [ ]
  StartsAt-Leads (inventory_key k) (hp m) leads h = elim leads [ ]

  -- What the collected mutations of some keys do to a world.
  abbrev Collected : World → List OrderKey → List CanonicalMutation → Type 0
  Collected u ks ms =
      (collect l ks ≡ ok ms)
      × ((t : Uuid) → HpReaches u ks t → (write_all u ms).hp t ≡ w.hp t)
      × ((k : Uuid × Uuid) → StockReaches u ks k → (write_all u ms).stock k ≡ w.stock k)
      × All (StartsAt w₀) ms

  write_all-if :
      (u : World) (m : CanonicalMutation) (ms : List CanonicalMutation)
      → write_all u (if has_changed m then m ∷ ms else ms) ≡ write_all (write_changed u m) ms
  unfolding write_all
  write_all-if u m ms = elim (Bool-cases (has_changed m)) [ inl e ↦ rw e | inr e ↦ rw e ]

  All-if :
      (k : OrderKey) (m : CanonicalMutation) (ms : List CanonicalMutation)
      → Leads k m
      → All (StartsAt w₀) ms
      → All (StartsAt w₀) (if has_changed m then m ∷ ms else ms)
  All-if k m ms leads h = elim (Bool-cases (has_changed m)) [
    | inl e ↦ rw e (StartsAt-Leads k m leads e, h)
    | inr e ↦ rw e h
  ]

  Collected-cons :
      (u : World) (k : OrderKey) (ks : List OrderKey) (m : CanonicalMutation)
      (ms : List CanonicalMutation)
      → mutation_at l k ≡ ok m
      → Leads k m
      → Collected (write_changed u m) ks ms
      → Collected u (k ∷ ks) (if has_changed m then m ∷ ms else ms)
  unfolding collect
  Collected-cons u k ks m ms e leads (e', hps, stocks, starts) = (
    rw (e, e'),
    λ t r. rw (write_all-if u m ms) (hps t (HpReaches-step u k ks m t leads r)),
    λ j r. rw (write_all-if u m ms) (stocks j (StockReaches-step u k ks m j leads r)),
    All-if k m ms leads starts,
  )

  hp_reached : (u : World) (t : Uuid) → HpReaches u [] t → u.hp t ≡ w.hp t
  hp_reached u t (inl e) = e
  hp_reached u t (inr (e, c)) = cc (c)

  stock_reached : (u : World) (k : Uuid × Uuid) → StockReaches u [] k → u.stock k ≡ w.stock k
  stock_reached u k (inl e) = e
  stock_reached u k (inr (e, c)) = cc (c)

  collect_lem :
      (u : World) (ks : List OrderKey)
      → All HasEntry ks
      → (ms : List CanonicalMutation) × Collected u ks ms
  unfolding collect write_all
  collect_lem u [] h = ([], (refl, hp_reached u, stock_reached u, tt))
  collect_lem u (k ∷ ks) h =
      let (m, e, leads) = mutation_at-Leads k h.0 in
      let (ms, rest) = collect_lem (write_changed u m) ks h.1 in
      (_, Collected-cons u k ks m ms e leads rest)

  HasEntry-order : (k : OrderKey) → contains k l.order ≡ true → HasEntry k
  HasEntry-order (hp_key t) h = sym (tracks.hp_order t) ∙ h
  HasEntry-order (inventory_key k) h = sym (tracks.stock_order k) ∙ h

  HpReaches-order : (t : Uuid) → HpReaches w₀ l.order t
  HpReaches-order t = elim (Option-cases (lookup t l.hp_by_id)) [
    | inl e ↦ inl (sym (subst (HpEntry (max_of t) (w₀.hp t) (w.hp t) t) e (tracks.hp_entry t)))
    | inr (m, e) ↦ inr (refl, tracks.hp_order t ∙ rw e refl)
  ]

  StockReaches-order : (k : Uuid × Uuid) → StockReaches w₀ l.order k
  StockReaches-order k = elim (Option-cases (lookup k l.inventory_by_key)) [
    | inl e ↦ inl (sym (subst (StockEntry (w₀.stock k) (w.stock k) k) e (tracks.stock_entry k)))
    | inr (m, e) ↦ inr (refl, tracks.stock_order k ∙ rw e refl)
  ]

  collect-order :
      (ms : List CanonicalMutation) × (collect l l.order ≡ ok ms)
      × ((t : Uuid) → (write_all w₀ ms).hp t ≡ w.hp t)
      × ((k : Uuid × Uuid) → (write_all w₀ ms).stock k ≡ w.stock k)
      × All (StartsAt w₀) ms
  collect-order =
      let (ms, (e, hps, stocks, starts)) =
        collect_lem w₀ l.order (All-contains HasEntry l.order HasEntry-order) in
      (ms, e, λ t. hps t (HpReaches-order t), λ k. stocks k (StockReaches-order k), starts)

-- If the changes of a turn's applied actions happen one after another in a world, each starting
-- from what the world then holds and each healing stating the character's maximum, then the turn's
-- mutations are computed without an error; written into the first world they give the hit points
-- and stocks of the last; and each starts from what the first world holds and changes it.
pub canonical_mutations_lem :
    (max_of : Uuid → ℕ) (w w' : World) (actions : List ActionRecord)
    → happen max_of w actions ≡ some w'
    → (ms : List CanonicalMutation) × (canonical_mutations actions ≡ ok ms)
      × ((t : Uuid) → (write_all w ms).hp t ≡ w'.hp t)
      × ((k : Uuid × Uuid) → (write_all w ms).stock k ≡ w'.stock k)
      × All (StartsAt w) ms
unfolding canonical_mutations
canonical_mutations_lem max_of w w' actions h =
    let (l, e, tracks) = fold_actions_lem max_of w w' actions h in
    let (ms, e', hps, stocks, starts) = collect-order max_of w w' l tracks in
    (ms, rw (e, e'), hps, stocks, starts)
