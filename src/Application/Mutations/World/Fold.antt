-- ===== src/Application/Mutations/World/Fold.antt =====
-- The ledger follows the world: what each entry says of where a value started and where it is.
use ai_rpg.Prelude.{
  ℕ, Bool, true, false, ◌≡◌, refl, ◌↔◌, Option, none, some, List, [], ◌∷◌, ok, arith, contains, Eq,
  ◌==◌, id_eq, pair_eq, lookup, insert, lookup-insert, contains-append, nat_eq, nat_eq_iff,
  Bool-cases, inl, inr, is_some, ◌&&◌, and-eq-true, from_some,
}
use mathlib.Core.Path.{subst, ◌∙◌}
use ai_rpg.Domain.Results.{Uuid, StateChange, damage, healing, consumed, ItemConsumed}
use ai_rpg.Application.Ports.{ActionRecord}
use ai_rpg.Application.Mutations.{
  CharacterHpMutation, InventoryQuantityMutation, OrderKey, hp_key, inventory_key, Ledger,
  empty_ledger, fold_hp, fold_item, fold_change, fold_changes, fold_actions, changes_of,
  conflicting_max, either_max,
}
use ai_rpg.Application.Mutations.World.{World, update, perform, perform_all, happen, and_then}

abbrev key_beq : OrderKey → OrderKey → Bool
key_beq (hp_key a) (hp_key b) = a == b
key_beq (inventory_key a) (inventory_key b) = a == b
key_beq _ _ = false

pub key_beq_iff : (a b : OrderKey) → (key_beq a b ≡ true) ↔ (a ≡ b)
key_beq_iff (hp_key a) (hp_key b) = ground arith
key_beq_iff (hp_key a) (inventory_key b) = ground arith
key_beq_iff (inventory_key a) (hp_key b) = ground arith
key_beq_iff (inventory_key (a, b)) (inventory_key (c, d)) = ground arith

instance abbrev pub key_eq : Eq OrderKey
key_eq = record { beq = key_beq; beq_iff = key_beq_iff }

abbrev KnownMax : ℕ → Option ℕ → Type 0
KnownMax m none = Unit
KnownMax m (some n) = m ≡ n

no_conflict :
    (m : ℕ) (a b : Option ℕ)
    → KnownMax m a
    → KnownMax m b
    → (conflicting_max a b ≡ false) × KnownMax m (either_max a b)
no_conflict m none b h k = (refl, k)
no_conflict m (some a) none h k = (refl, h)
no_conflict m (some a) (some b) h k = (ground arith, h)

-- An entry for a character: from the first world to the present one.
abbrev pub HpEntry : ℕ → ℕ → ℕ → Uuid → Option CharacterHpMutation → Type 0
HpEntry max first now t none = now ≡ first
HpEntry max first now t (some m) =
    (m.entity_id ≡ t) × (m.hp_before ≡ first) × (m.hp_after ≡ now) × KnownMax max m.max_hp

abbrev pub StockEntry : ℕ → ℕ → Uuid × Uuid → Option InventoryQuantityMutation → Type 0
StockEntry first now k none = now ≡ first
StockEntry first now k (some m) =
    ((m.owner_id, m.item_id) ≡ k) × (m.quantity_before ≡ first) × (m.quantity_after ≡ now)

and_then-eq-some {ℓ κ} :
    {A : Type ℓ} {B : Type κ} (o : Option A) (f : A → Option B) {b : B}
    → and_then o f ≡ some b
    → (a : A) × (o ≡ some a) × (f a ≡ some b)
and_then-eq-some none f h = cc
and_then-eq-some (some a) f h = (a, refl, h)

module _ (max_of : Uuid → ℕ) where
  pub record Tracks (w₀ w : World) (l : Ledger) : Type 0 where
    pub hp_entry : (t : Uuid) → HpEntry (max_of t) (w₀.hp t) (w.hp t) t (lookup t l.hp_by_id)
    pub stock_entry :
        (k : Uuid × Uuid) → StockEntry (w₀.stock k) (w.stock k) k (lookup k l.inventory_by_key)
    pub hp_order : (t : Uuid) → contains (hp_key t) l.order ≡ is_some (lookup t l.hp_by_id)
    pub stock_order :
        (k : Uuid × Uuid)
        → contains (inventory_key k) l.order ≡ is_some (lookup k l.inventory_by_key)

  Tracks-empty : (w : World) → Tracks w w empty_ledger
  Tracks-empty w = record {
    hp_entry = λ t. refl;
    stock_entry = λ k. refl;
    hp_order = λ t. refl;
    stock_order = λ k. refl;
  }

  abbrev Followed : World → Ledger → StateChange → World → Type 0
  Followed w₀ l c v = (l' : Ledger) × (fold_change l c ≡ ok l') × Tracks w₀ v l'

  module _ (w₀ w : World) (l : Ledger) (tracks : Tracks w₀ w l) where
    fold_hp-Tracks :
        (t : Uuid) (before after : ℕ) (mx : Option ℕ) (o : Option CharacterHpMutation)
        → lookup t l.hp_by_id ≡ o
        → w.hp t ≡ before
        → KnownMax (max_of t) mx
        → (l' : Ledger) × (fold_hp l t before after mx o ≡ ok l')
          × Tracks w₀ (record w { hp = update t after w.hp }) l'
    unfolding fold_hp
    fold_hp-Tracks t before after mx none e now known = (
      _,
      refl,
      record {
        hp_entry = λ j. ground (
          arith,
          nat_eq_iff t j,
          tracks.hp_entry j,
          lookup-insert t j
              (record { entity_id = t; hp_before = before; hp_after = after; max_hp = mx })
              l.hp_by_id,
        );
        stock_entry = tracks.stock_entry;
        hp_order = λ j. ground (
          arith,
          nat_eq_iff t j,
          tracks.hp_order j,
          contains-append (hp_key j) l.order (hp_key t ∷ []),
          lookup-insert t j
              (record { entity_id = t; hp_before = before; hp_after = after; max_hp = mx })
              l.hp_by_id,
        );
        stock_order = λ k. ground (
          arith,
          tracks.stock_order k,
          contains-append (inventory_key k) l.order (hp_key t ∷ []),
        );
      },
    )
    fold_hp-Tracks t before after mx (some previous) e now known =
        let entry : HpEntry (max_of t) (w₀.hp t) (w.hp t) t (some previous) =
          subst (HpEntry (max_of t) (w₀.hp t) (w.hp t) t) e (tracks.hp_entry t) in
        let (agree, merged) = no_conflict (max_of t) previous.max_hp mx entry.3 known in
        let same : nat_eq previous.hp_after before ≡ true =
          (nat_eq_iff previous.hp_after before).1 (entry.2 ∙ now) in
        let m : CharacterHpMutation = record {
          entity_id = t;
          hp_before = previous.hp_before;
          hp_after = after;
          max_hp = either_max previous.max_hp mx;
        } in
        (
          record l { hp_by_id = insert t m l.hp_by_id },
          rw (same, agree),
          record {
            hp_entry = λ j.
                ground (arith, nat_eq_iff t j, tracks.hp_entry j, lookup-insert t j m l.hp_by_id);
            stock_entry = tracks.stock_entry;
            hp_order = λ j.
                ground (arith, nat_eq_iff t j, tracks.hp_order j, lookup-insert t j m l.hp_by_id);
            stock_order = tracks.stock_order;
          },
        )

    fold_item-Tracks :
        (c : ItemConsumed) (o : Option InventoryQuantityMutation)
        → lookup (c.owner_id, c.item_id) l.inventory_by_key ≡ o
        → w.stock (c.owner_id, c.item_id) ≡ c.quantity_before
        → (l' : Ledger) × (fold_item l c o ≡ ok l')
          × Tracks w₀
              (record w { stock = update (c.owner_id, c.item_id) c.quantity_after w.stock })
              l'
    unfolding fold_item
    fold_item-Tracks c none e now =
        let k : Uuid × Uuid = (c.owner_id, c.item_id) in
        let m : InventoryQuantityMutation = record {
          owner_id = c.owner_id;
          item_id = c.item_id;
          quantity_before = c.quantity_before;
          quantity_after = c.quantity_after;
        } in
        (
          _,
          refl,
          record {
            hp_entry = tracks.hp_entry;
            stock_entry = λ j. ground (
              arith,
              pair_eq.beq_iff k j,
              tracks.stock_entry j,
              lookup-insert k j m l.inventory_by_key,
            );
            hp_order = λ j. ground (
              arith,
              tracks.hp_order j,
              contains-append (hp_key j) l.order (inventory_key k ∷ []),
            );
            stock_order = λ j. ground (
              arith,
              pair_eq.beq_iff k j,
              tracks.stock_order j,
              contains-append (inventory_key j) l.order (inventory_key k ∷ []),
              lookup-insert k j m l.inventory_by_key,
            );
          },
        )
    fold_item-Tracks c (some previous) e now =
        let k : Uuid × Uuid = (c.owner_id, c.item_id) in
        let entry : StockEntry (w₀.stock k) (w.stock k) k (some previous) =
          subst (StockEntry (w₀.stock k) (w.stock k) k) e (tracks.stock_entry k) in
        let same : nat_eq previous.quantity_after c.quantity_before ≡ true =
          (nat_eq_iff previous.quantity_after c.quantity_before).1 (entry.2 ∙ now) in
        let m : InventoryQuantityMutation = record {
          owner_id = c.owner_id;
          item_id = c.item_id;
          quantity_before = previous.quantity_before;
          quantity_after = c.quantity_after;
        } in
        (
          record l { inventory_by_key = insert k m l.inventory_by_key },
          rw same,
          record {
            hp_entry = tracks.hp_entry;
            stock_entry = λ j. ground (
              arith,
              pair_eq.beq_iff k j,
              tracks.stock_entry j,
              lookup-insert k j m l.inventory_by_key,
            );
            hp_order = tracks.hp_order;
            stock_order = λ j. ground (
              arith,
              pair_eq.beq_iff k j,
              tracks.stock_order j,
              lookup-insert k j m l.inventory_by_key,
            );
          },
        )

    fold_change-Tracks :
        (c : StateChange) (w' : World) → perform max_of w c ≡ some w' → Followed w₀ l c w'
    unfolding fold_change
    fold_change-Tracks (damage d) w' h = elim (Bool-cases (nat_eq (w.hp d.target_id) d.hp_before)) [
      | inl e ↦ subst (Followed w₀ l (damage d)) (from_some (rw e at h)) (
          fold_hp-Tracks d.target_id d.hp_before d.hp_after none (lookup d.target_id l.hp_by_id)
            refl ((nat_eq_iff _ _).0 e) tt)
      | inr e ↦ cc (rw e at h)
    ]
    fold_change-Tracks (healing d) w' h =
        let known = nat_eq (max_of d.target_id) d.max_hp in
        elim (Bool-cases (nat_eq (w.hp d.target_id) d.hp_before && known)) [
          | inl e ↦
              let (now, max) = and-eq-true (nat_eq (w.hp d.target_id) d.hp_before) known e in
              subst (Followed w₀ l (healing d)) (from_some (rw e at h)) (
                fold_hp-Tracks d.target_id d.hp_before d.hp_after (some d.max_hp)
                  (lookup d.target_id l.hp_by_id) refl ((nat_eq_iff _ _).0 now)
                  ((nat_eq_iff _ _).0 max))
          | inr e ↦ cc (rw e at h)
        ]
    fold_change-Tracks (consumed c) w' h =
        let k : Uuid × Uuid = (c.owner_id, c.item_id) in
        elim (Bool-cases (nat_eq (w.stock k) c.quantity_before)) [
          | inl e ↦
              subst (Followed w₀ l (consumed c)) (from_some (rw e at h))
                (fold_item-Tracks c (lookup k l.inventory_by_key) refl ((nat_eq_iff _ _).0 e))
          | inr e ↦ cc (rw e at h)
        ]

  fold_changes-Tracks :
      (w₀ w : World) (l : Ledger) (cs : List StateChange) (w' : World)
      → Tracks w₀ w l
      → perform_all max_of w cs ≡ some w'
      → (l' : Ledger) × (fold_changes l cs ≡ ok l') × Tracks w₀ w' l'
  unfolding fold_changes perform_all
  fold_changes-Tracks w₀ w l [] w' tracks h =
      (l, refl, subst (λ v. Tracks w₀ v l) (from_some h) tracks)
  fold_changes-Tracks w₀ w l (c ∷ cs) w' tracks h =
      let (v, e, h') = and_then-eq-some (perform max_of w c) _ h in
      let (l₁, e₁, t₁) = fold_change-Tracks w₀ w l tracks c v e in
      let (l₂, e₂, t₂) = fold_changes-Tracks w₀ v l₁ cs w' t₁ h' in (l₂, rw e₁ e₂, t₂)

  fold_actions-Tracks :
      (w₀ w : World) (l : Ledger) (actions : List ActionRecord) (w' : World)
      → Tracks w₀ w l
      → happen max_of w actions ≡ some w'
      → (l' : Ledger) × (fold_actions l actions ≡ ok l') × Tracks w₀ w' l'
  unfolding fold_actions happen
  fold_actions-Tracks w₀ w l [] w' tracks h =
      (l, refl, subst (λ v. Tracks w₀ v l) (from_some h) tracks)
  fold_actions-Tracks w₀ w l (a ∷ rest) w' tracks h =
      let (v, e, h') = and_then-eq-some (perform_all max_of w (changes_of a.result)) _ h in
      let (l₁, e₁, t₁) = fold_changes-Tracks w₀ w l (changes_of a.result) v tracks e in
      let (l₂, e₂, t₂) = fold_actions-Tracks w₀ v l₁ rest w' t₁ h' in (l₂, rw e₁ e₂, t₂)

  -- Changes that happen one after another in the world are folded without an error, and the ledger
  -- tracks the world.
  pub fold_actions_lem :
      (w w' : World) (actions : List ActionRecord)
      → happen max_of w actions ≡ some w'
      → (l : Ledger) × (fold_actions empty_ledger actions ≡ ok l) × Tracks w w' l
  fold_actions_lem w w' actions h =
      fold_actions-Tracks w w empty_ledger actions w' (Tracks-empty w) h
