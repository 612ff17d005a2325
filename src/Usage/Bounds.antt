-- ===== src/Usage/Bounds.antt =====
-- How many uses admission lets through (community.py).
use ai_rpg.Prelude.{
  ℕ, ◌>>◌, Eq, list_eq, if-true, if-false, id_eq, ◌∙◌, from_some, or_raise, ◌≤◌, ◌≡◌, refl, String,
  Bool, true, false, ◌||◌, ◌&&◌, some, List, ◌∷◌, ok, checks, lookup, ref_eq, ◌==◌,
  length-keep-bound, any, arith, Bool-cases, inl, inr, ◌⊎◌, AllFalse, checks-AllFalse, >>=-eq-ok,
  or_raise-eq-ok, from_ok, leb,
}
use mathlib.Core.Path.{subst, sym}
use ai_rpg.Domain.Results.{Uuid}
use ai_rpg.Text.Regex.{strip}
use ai_rpg.Usage.{
  Settings, UsageReservationModel, UsageTables, usage_limits, day_of, usage_count, llm_count,
  is_counted, is_llm_use, starts_with, same_reservation, reserve_usage, refusals, with_use,
}

-- The uses since the beginning of a day: of each principal for each purpose, and of the models.
pub record IsWithin (settings : Settings) (day : ℕ) (tables : UsageTables) : Type 0 where
  pub each :
      (principal_id : Uuid) (purpose : String) (limit : ℕ)
      → lookup purpose (usage_limits settings) ≡ some limit
      → usage_count principal_id purpose day tables.reservations ≤ limit
  pub global : llm_count day tables.reservations ≤ settings.daily_global_llm_limit

llm-starts_with :
    (purpose : String)
    → (purpose == "llm_game" || purpose == "llm_authoring") ≡ true
    → starts_with "llm_" purpose ≡ true
unfolding strip
llm-starts_with purpose h = elim (Bool-cases (purpose == "llm_game")) [
  | inl game ↦
      subst (λ p. starts_with "llm_" p ≡ true) (sym ((ref_eq.beq_iff purpose "llm_game").0 game))
        refl
  | inr other ↦
      subst (λ p. starts_with "llm_" p ≡ true)
        (sym ((ref_eq.beq_iff purpose "llm_authoring").0 (ground arith))) refl
]

and-first : (a b c : Bool) → (a && b && c) ≡ true → a ≡ true
and-first a b c h = ground arith

and-second : (a b c : Bool) → (a && b && c) ≡ true → b ≡ true
and-second a b c h = ground arith

-- One more use of a principal whose count is below its limit.
added-each :
    (settings : Settings) (day limit : ℕ) (r : UsageReservationModel)
    (rs : List UsageReservationModel)
    → lookup r.purpose (usage_limits settings) ≡ some limit
    → leb limit (usage_count r.principal_id r.purpose day rs) ≡ false
    → (principal_id : Uuid) (purpose : String) (limit' : ℕ)
    → lookup purpose (usage_limits settings) ≡ some limit'
    → usage_count principal_id purpose day rs ≤ limit'
    → usage_count principal_id purpose day (r ∷ rs) ≤ limit'
unfolding is_counted
added-each settings day limit r rs found below p q limit' here h =
    length-keep-bound (is_counted p q day) r rs limit' h λ mine.
      let same_p = (id_eq.beq_iff r.principal_id p).0 (and-first (r.principal_id == p) _ _ mine) in
      let same_q = (ref_eq.beq_iff r.purpose q).0 (and-second (r.principal_id == p) _ _ mine) in
      let same_limit = from_some (sym (rw same_q at found) ∙ here) in
      let room : leb limit' (usage_count p q day rs) ≡ false =
        rw (sym same_limit, sym same_p, sym same_q) below in
      ground arith

with_use-IsWithin :
    (settings : Settings) (limit day : ℕ) (r : UsageReservationModel) (tables : UsageTables)
    → lookup r.purpose (usage_limits settings) ≡ some limit
    → AllFalse (refusals settings r.principal_id r.purpose limit day tables)
    → IsWithin settings day tables
    → IsWithin settings day (with_use r tables)
unfolding is_llm_use
with_use-IsWithin settings limit day r tables found tests w = record {
  each = λ p q limit' here.
      added-each settings day limit r tables.reservations found tests.1.0 p q limit' here
        (w.each p q limit' here);
  global =
      length-keep-bound (is_llm_use day) r tables.reservations _ w.global
        λ mine. ground (arith, llm-starts_with r.purpose, tests.1.1.0);
}

new_use-IsWithin :
    (settings : Settings) (limit day : ℕ) (r : UsageReservationModel) (tables after : UsageTables)
    → lookup r.purpose (usage_limits settings) ≡ some limit
    → (checks (refusals settings r.principal_id r.purpose limit day tables)
        >> ok (with_use r tables))
      ≡ ok after
    → IsWithin settings day tables
    → IsWithin settings day after
      × (any (same_reservation r.principal_id r.purpose r.request_key) after.reservations ≡ true)
unfolding same_reservation
new_use-IsWithin settings limit day r tables after found h w =
    let (_, passed, made) =
      >>=-eq-ok (checks (refusals settings r.principal_id r.purpose limit day tables)) _ h in
    let same : with_use r tables ≡ after = from_ok made in
    subst
      (λ t.
        IsWithin settings day t
        × (any (same_reservation r.principal_id r.purpose r.request_key) t.reservations ≡ true))
      same
      (
        with_use-IsWithin settings limit day r tables found
            (checks-AllFalse (refusals settings r.principal_id r.purpose limit day tables) passed)
            w,
        ground (
          arith,
          id_eq.beq_iff r.principal_id r.principal_id,
          ref_eq.beq_iff r.purpose r.purpose,
          ids_eq.beq_iff r.request_key r.request_key,
        ),
      )
  where
    ids_eq : Eq (List ℕ)
    ids_eq = list_eq

-- If every count of a day is within its limit when a use is asked for at a time of that day, then
-- every count is within its limit after it, where it is admitted, the limits of config.py being
-- those of each principal for each purpose and that of all calls of models. The use is then among
-- those admitted, and nothing changes unless it was not among them before.
pub reserve_usage-IsWithin :
    (settings : Settings) (principal_id : Uuid) (purpose : String) (request_key : List ℕ) (now : ℕ)
    (tables after : UsageTables)
    → reserve_usage settings principal_id purpose request_key now tables ≡ ok after
    → IsWithin settings (day_of now) tables
    → IsWithin settings (day_of now) after
      × (any (same_reservation principal_id purpose request_key) after.reservations ≡ true)
      × ((any (same_reservation principal_id purpose request_key) tables.reservations ≡ false)
          ⊎ (after ≡ tables))
unfolding reserve_usage
reserve_usage-IsWithin settings p q key now tables after h w =
    let (limit, found, rest) = >>=-eq-ok (or_raise (lookup q (usage_limits settings)) _) _ h in
    elim (Bool-cases (any (same_reservation p q key) tables.reservations)) [
      | inl again ↦
          let same : tables ≡ after = from_ok (sym (if-true _ _ _ again) ∙ rest) in
          (
            subst (IsWithin settings _) same w,
            subst (λ t. any (same_reservation p q key) t.reservations ≡ true) same again,
            inr (sym same),
          )
      | inr new ↦
          let r : UsageReservationModel = record {
            principal_id = p;
            purpose = q;
            request_key = key;
            created_at = now;
          } in
          let done =
            new_use-IsWithin settings limit (day_of now) r tables after (or_raise-eq-ok _ _ _ found)
              (sym (if-false _ _ _ new) ∙ rest) w in
          (done.0, done.1, inl new)
    ]
