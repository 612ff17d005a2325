-- ===== src/Scenario/Progress/Open/Sound.antt =====
-- What a free action's progress may do: the alert level and the destination.
use ai_rpg.Prelude.{
  ◌≡◌, ◌≢◌, refl, ◌∙◌, Bool, true, not, Option, none, some, ok, arith, contains, find, nat_eq,
  nat_eq_iff, ref_eq, id_eq, ◌==◌, raise_if-eq-ok, >>=-eq-ok, from_ok, not-eq-false, find-holds,
  or_raise, or_raise-eq-ok, action_unavailable, stop_iteration, if◌then◌else◌, Bool-cases, inl, inr,
  ◌⊎◌, sym, ap,
}
use mathlib.Core.Path.{subst}
use ai_rpg.Prelude.Rows.{Among, find-Among}
use ai_rpg.Prelude.Int.{ℤ, pos, negsuc, ◌+ℤ◌, ◌-ℤ◌, ◌≤ℤ◌}
use ai_rpg.Domain.Results.{Uuid}
use ai_rpg.Scenario.Model.{Ref, SceneDefinition}
use ai_rpg.Application.Ports.{ScenarioRunSnapshot, ScenarioSceneSnapshot}
use ai_rpg.Scenario.Progress.{Current}
use ai_rpg.Scenario.Progress.Open.{min_ℤ, max_ℤ, alert_change, open_destination}

clamped_bounds :
    (x : ℤ)
    → (pos 0 ≤ℤ max_ℤ (pos 0) (min_ℤ (pos 5) x)) × (max_ℤ (pos 0) (min_ℤ (pos 5) x) ≤ℤ pos 5)
clamped_bounds (pos n) = (ground arith, ground arith)
clamped_bounds (negsuc n) = (ground arith, ground arith)

clamp_inside : (x : ℤ) → pos 0 ≤ℤ x → x ≤ℤ pos 5 → max_ℤ (pos 0) (min_ℤ (pos 5) x) ≡ x
clamp_inside (pos n) lo hi = ground arith
clamp_inside (negsuc n) lo hi = ground arith

add_back : (a b : ℤ) → a +ℤ (b -ℤ a) ≡ b
unfolding ◌+ℤ◌ ◌-ℤ◌
add_back a b = ground arith

-- Whatever the effect asks for, the alert level that results lies between 0 and 5, and is the level
-- moved by what was asked where that lies there too.
pub alert_change_bounds :
    (level delta : ℤ)
    → (pos 0 ≤ℤ level +ℤ alert_change level delta)
      × (level +ℤ alert_change level delta ≤ℤ pos 5)
      × (pos 0 ≤ℤ level +ℤ delta
          → level +ℤ delta ≤ℤ pos 5
          → level +ℤ alert_change level delta ≡ level +ℤ delta)
unfolding alert_change
alert_change_bounds level delta =
    let x = level +ℤ delta in
    let back = add_back level (max_ℤ (pos 0) (min_ℤ (pos 5) x)) in
    (
      rw back (clamped_bounds x).0,
      rw back (clamped_bounds x).1,
      λ lo hi. back ∙ clamp_inside x lo hi,
    )

-- A saved scene of the run whose scene of the definition has the reference, and that the active scene
-- leads to.
pub record IsPlace (run : ScenarioRunSnapshot) (current : Current) (ref : Option Ref)
    (saved : ScenarioSceneSnapshot) : Type 0 where
  target : SceneDefinition
  defined : Among target current.definition.scenes
  asked : ref ≡ some target.scene_ref
  leads : contains target.scene_ref current.scene.open_destinations ≡ true
  is_saved : Among saved run.scenes
  same_place : saved.sequence ≡ target.sequence

-- A destination is the saved scene that was asked for, and there is none where none was asked for or
-- where that is the active one.
abbrev pub IsReachable : ScenarioRunSnapshot → Current → Option Ref → Option Uuid → Type 0
IsReachable run current ref none =
    (ref ≡ none)
    ⊎ ((saved : ScenarioSceneSnapshot) × IsPlace run current ref saved
        × (saved.id ≡ current.active.id))
IsReachable run current ref (some id) =
    (saved : ScenarioSceneSnapshot) × IsPlace run current ref saved
    × (saved.id ≡ id)
    × (id ≢ current.active.id)

arrival :
    (run : ScenarioRunSnapshot) (current : Current) (ref : Option Ref)
    (saved : ScenarioSceneSnapshot)
    → IsPlace run current ref saved
    → IsReachable run current ref
        (if nat_eq saved.id current.active.id then none else some saved.id)
arrival run current ref saved place = elim (Bool-cases (nat_eq saved.id current.active.id)) [
  | inl here ↦ rw here (inr (saved, place, (nat_eq_iff saved.id current.active.id).0 here))
  | inr away ↦
      rw away (saved, place, refl, λ e. cc (away, (nat_eq_iff saved.id current.active.id).1 e))
]

pub open_destination-IsReachable :
    (run : ScenarioRunSnapshot) (current : Current) (ref : Option Ref) (to : Option Uuid)
    → open_destination run current ref ≡ ok to
    → IsReachable run current ref to
unfolding open_destination
open_destination-IsReachable run current none to h =
    subst (IsReachable run current none) (from_ok h) (inl refl)
open_destination-IsReachable run current (some ref) to h =
    let named : SceneDefinition → Bool = λ s. s.scene_ref == ref in
    let (target, found, h1) =
      >>=-eq-ok
        (or_raise (find named current.definition.scenes)
          (action_unavailable "Destination is outside the scenario"))
        _ h in
    let (leads, h2) =
      raise_if-eq-ok (not (contains target.scene_ref current.scene.open_destinations)) _ _ to h1 in
    let (saved, got, h3) =
      >>=-eq-ok (or_raise (find (λ s. nat_eq s.sequence target.sequence) run.scenes) stop_iteration)
        _ h2 in
    let at = or_raise-eq-ok _ _ saved got in
    let row = or_raise-eq-ok _ _ target found in
    let same_ref =
      (ref_eq.beq_iff target.scene_ref ref).0
        (find-holds named current.definition.scenes target row) in
    subst (IsReachable run current (some ref)) (from_ok h3) (
      arrival run current (some ref) saved (record {
        target = target;
        defined = find-Among named current.definition.scenes target row;
        asked = ap some (sym same_ref);
        leads = not-eq-false _ leads;
        is_saved = find-Among (λ s. nat_eq s.sequence target.sequence) run.scenes saved at;
        same_place =
            (nat_eq_iff saved.sequence target.sequence).0
              (find-holds (λ s. nat_eq s.sequence target.sequence) run.scenes saved at);
      }))
