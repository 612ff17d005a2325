-- ===== src/Scenario/Progress/Public/Offered.antt =====
-- The actions that players are offered can be bound.
use ai_rpg.Prelude.{
  ◌≡◌, refl, sym, Bool, true, false, ◌&&◌, ◌||◌, some, List, [], ◌∷◌, map, ok, >>=-eq-ok, from_ok,
  find, find-holds, any, keep, All, All-map, Bool-cases, and-eq-true, inl, inr, ref_eq, ◌==◌,
}
use mathlib.Core.Path.{subst}
use ai_rpg.Scenario.Model.{Ref, ScenarioAction, direct, skill, attack, conditions_of}
use ai_rpg.Application.Ports.{ScenarioRunSnapshot}
use ai_rpg.Scenario.Progress.{Catalog, Current, current_scene, is_available}
use ai_rpg.Scenario.Progress.Bindings.{bind_registered_action}
use ai_rpg.Scenario.Progress.Public.{
  ScenarioPublicContext, public_action, scene_ref_by_id, generated_facts, offered,
  public_context_for,
}

or_right : (a b : Bool) → b ≡ true → (a || b) ≡ true
or_right true b h = refl
or_right false b h = h

found_first : (k : Ref) (a b : Bool) → a ≡ true → ((k == k && a) || b) ≡ true
found_first k a b h = rw (h, (ref_eq.beq_iff k k).1 refl) refl

module _ {A : Type 0} where
  find-any : (p : A → Bool) (xs : List A) → any p xs ≡ true → (x : A) × (find p xs ≡ some x)
  find-any p [] h = cc
  find-any p (x ∷ xs) h = elim (Bool-cases (p x)) [
    | inl here ↦ (x, rw here refl)
    | inr away ↦ let (y, found) = find-any p xs (rw away at h) in (y, rw away found)
  ]

  -- What is kept is found again by its key.
  any-keep :
      (key : A → Ref) (p : A → Bool) (xs : List A)
      → All (λ a. any (λ b. key b == key a && p b) xs ≡ true) (keep p xs)
  any-keep key p [] = tt
  any-keep key p (x ∷ xs) = elim (Bool-cases (p x)) [
    | inl kept ↦ rw kept (
      found_first (key x) true (any (λ b. key b == key x && p b) xs) refl,
      All-map (λ a h. or_right _ _ h) (keep p xs) (any-keep key p xs),
    )
    | inr left ↦ rw left (All-map (λ a h. or_right _ _ h) (keep p xs) (any-keep key p xs))
  ]

-- A reference is bound to an action that carries it and that the flags allow.
abbrev pub IsBindable : Catalog → ScenarioRunSnapshot → Ref → Type 0
IsBindable catalog run ref =
    (a : ScenarioAction) × (bind_registered_action catalog run ref ≡ ok a)
    × ((conditions_of a).action_ref ≡ ref)
    × (is_available (conditions_of a) run.flags ≡ true)

offered_lem :
    (catalog : Catalog) (run : ScenarioRunSnapshot) (current : Current)
    → current_scene catalog run ≡ ok current
    → All
        (λ a. IsBindable catalog run (conditions_of a).action_ref)
        (offered current.scene run.flags)
unfolding bind_registered_action
offered_lem catalog run current here =
    let allowed : ScenarioAction → Bool = λ a. is_available (conditions_of a) run.flags in
    All-map
      (λ a h.
        let named : ScenarioAction → Bool =
          λ b. (conditions_of b).action_ref == (conditions_of a).action_ref && allowed b in
        let (b, found) = find-any named current.scene.actions h in
        let (same, fine) = and-eq-true _ _ (find-holds named current.scene.actions b found) in
        (
          b,
          rw (here, found) refl,
          (ref_eq.beq_iff (conditions_of b).action_ref (conditions_of a).action_ref).0 same,
          fine,
        ))
      (offered current.scene run.flags)
      (any-keep (λ a. (conditions_of a).action_ref) allowed current.scene.actions)

abbrev pub AllBindable : Catalog → ScenarioRunSnapshot → ScenarioPublicContext → Type 0
AllBindable catalog run context =
    All (λ entry. IsBindable catalog run entry.0) context.available_actions
    × All (λ a. IsBindable catalog run a.action_ref) context.action_details

module _ {A B : Type 0} where
  All-mapped : (f : A → B) (P : B → Type 0) (xs : List A) → All (λ x. P (f x)) xs → All P (map f xs)
  All-mapped f P [] h = tt
  All-mapped f P (x ∷ xs) h = (h.0, All-mapped f P xs h.1)

public_action_ref :
    (a : ScenarioAction) → (public_action a).action_ref ≡ (conditions_of a).action_ref
public_action_ref (direct a) = refl
public_action_ref (skill a) = refl
public_action_ref (attack a) = refl

-- Every action that a public context offers, in the short list and in the detailed one, can be
-- bound in the same run: the reference is bound to an action that carries it and that the flags
-- allow.
pub public_context_for-AllBindable :
    (catalog : Catalog) (run : ScenarioRunSnapshot) (context : ScenarioPublicContext)
    → public_context_for catalog run ≡ ok context
    → AllBindable catalog run context
unfolding public_context_for
public_context_for-AllBindable catalog run context h =
    let (current, here, h₁) = >>=-eq-ok (current_scene catalog run) _ h in
    let refs = scene_ref_by_id run.scenes current.definition.scenes in
    let (facts, made, h₂) = >>=-eq-ok (generated_facts refs run.facts) _ h₁ in
    let actions = offered current.scene run.flags in
    let bindable = offered_lem catalog run current here in
    subst (AllBindable catalog run) (from_ok h₂) (
      All-mapped (λ a. ((conditions_of a).action_ref, (conditions_of a).label))
          (λ entry. IsBindable catalog run entry.0) actions bindable,
      All-mapped public_action (λ a. IsBindable catalog run a.action_ref) actions
          (All-map (λ a b. subst (IsBindable catalog run) (sym (public_action_ref a)) b) actions
            bindable),
    )
