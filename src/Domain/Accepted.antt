-- ===== src/Domain/Accepted.antt =====
-- What the contracts of domain/results.py tell of a value that they accepted, and when they accept.
use ai_rpg.Prelude.{◌+◌, ◌-◌, ◌≤◌, ◌≡◌, min, List, [], ◌∷◌, ok, arith, length}
use ai_rpg.Prelude.{checks, >>=-eq-ok, AllFalse, AllFalse-checks}
use ai_rpg.Domain.Events.{DomainEvent, domain_event, event_guards}
use ai_rpg.Text.{Text}
use ai_rpg.Domain.Results.{
  DiceResult, DamageApplied, damage_applied, HealingApplied, healing_applied, ItemConsumed,
  item_consumed, Outcome, StateChange, AppliedResult, applied_result,
}

pub applied_result-eq-ok :
    (o : Outcome) (f : List Text) (d : List DiceResult) (c : List StateChange) (r : AppliedResult)
    → applied_result o f d c ≡ ok r
    → (r.outcome ≡ o) × (r.dice ≡ d) × (r.state_changes ≡ c)
unfolding applied_result
applied_result-eq-ok o f d c r h = ground arith

pub applied_result_accepts :
    (o : Outcome) (f : Text) (d : List DiceResult) (c : List StateChange)
    → 1 ≤ length f
    → length f ≤ 500
    → applied_result o (f ∷ []) d c
      ≡ ok (record { outcome = o; facts = f ∷ []; dice = d; state_changes = c })
unfolding applied_result
applied_result_accepts o f d c lo hi = ground arith

pub damage_applied-eq-ok :
    (d d' : DamageApplied)
    → damage_applied d ≡ ok d'
    → (d' ≡ d) × (d.hp_after ≡ d.hp_before - d.amount)
unfolding damage_applied
damage_applied-eq-ok d d' h = ground arith

pub damage_applied_accepts :
    (d : DamageApplied) → d.hp_after ≡ d.hp_before - d.amount → damage_applied d ≡ ok d
unfolding damage_applied
damage_applied_accepts d h = ground arith

pub healing_applied-eq-ok :
    (d d' : HealingApplied)
    → healing_applied d ≡ ok d'
    → (d' ≡ d) × (d.hp_before ≤ d.max_hp) × (d.hp_after ≡ min d.max_hp (d.hp_before + d.amount))
unfolding healing_applied
healing_applied-eq-ok d d' h = ground arith

pub healing_applied_accepts :
    (d : HealingApplied)
    → 1 ≤ d.max_hp
    → d.hp_before ≤ d.max_hp
    → d.hp_after ≡ min d.max_hp (d.hp_before + d.amount)
    → healing_applied d ≡ ok d
unfolding healing_applied
healing_applied_accepts d a b c = ground arith

pub item_consumed-eq-ok :
    (d d' : ItemConsumed)
    → item_consumed d ≡ ok d'
    → (d' ≡ d) × (1 ≤ d.quantity_before) × (d.quantity_after ≡ d.quantity_before - 1)
unfolding item_consumed
item_consumed-eq-ok d d' h = ground arith

pub item_consumed_accepts :
    (d : ItemConsumed)
    → 1 ≤ d.quantity_before
    → d.quantity_after ≡ d.quantity_before - 1
    → item_consumed d ≡ ok d
unfolding item_consumed
item_consumed_accepts d a b = ground arith

-- An event is kept as it is.
pub domain_event-eq-ok : (e e' : DomainEvent) → domain_event e ≡ ok e' → e' ≡ e
unfolding domain_event
domain_event-eq-ok e e' h =
    let (_, passed, same) = >>=-eq-ok (checks (event_guards e)) _ h in cc (same)

pub domain_event_accepts : (e : DomainEvent) → AllFalse (event_guards e) → domain_event e ≡ ok e
unfolding domain_event
domain_event_accepts e h = rw (AllFalse-checks (event_guards e) h)
