-- ===== src/Application/Resolution/Events.antt =====
-- application/resolution.py: `_events`, which writes a turn's events in order.
pub mod Order
pub mod Reports
use ai_rpg.Prelude.{
  ℕ, ◌+◌, Bool, true, false, not, Option, none, some, List, [], ◌∷◌, ◌++◌, Result, ok, err, ◌>>=◌,
  ◌>>◌, raise_if, invalid_bundle, nat_eq, length, map, contains, id_eq, if◌then◌else◌,
}
use ai_rpg.Domain.Results.{
  Uuid, DiceResult, StateChange, damage, healing, consumed, ActionResult, AppliedResult, applied,
  not_applicable,
}
use ai_rpg.Domain.Commands.{command_base}
use ai_rpg.Domain.Events.{
  RngMetadata, EnemyReaction, GeneratedFact, ScenarioProgressedPayload, Payload, DomainEvent,
  dice_rolled, damage_applied, healing_applied, item_consumed, action_resolved,
  enemy_reaction_resolved, scenario_progressed, domain_event,
}
use ai_rpg.Application.Ports.{ActionRecord, ScenarioFact, ScenarioProgressUpdate, CommitBundle}

-- The arguments that the events of a turn share. The factory gives the n-th event its id: it is
-- called once for each event, before the event is built.
pub record EventContext : Type 0 where
  pub bundle : CommitBundle
  pub first_sequence : ℕ
  pub state_version : ℕ
  pub event_id_factory : ℕ → Uuid

-- `values`: the fields of the next event, with its id and its place in the sequence.
unfoldable pub next_event : EventContext → Option Uuid → Payload → List DomainEvent → DomainEvent
next_event ctx action_id payload events = record {
  id = ctx.event_id_factory (length events);
  campaign_id = ctx.bundle.campaign_id;
  scene_id = some ctx.bundle.scene_id;
  turn_id = some ctx.bundle.turn_id;
  action_id = action_id;
  sequence = ctx.first_sequence + length events;
  state_version = ctx.state_version;
  payload = payload;
}

abbrev pub event_ids : List DomainEvent → List Uuid
event_ids = map (λ e. e.id)

-- One more event, unless its id is taken.
unfoldable pub append_event :
    EventContext → Option Uuid → List DomainEvent → Payload → Result (List DomainEvent)
append_event ctx action_id events payload = do
  raise_if (contains (ctx.event_id_factory (length events)) (event_ids events))
      (invalid_bundle "Event IDが重複しています")
  event ← domain_event (next_event ctx action_id payload events)
  ok (events ++ event ∷ [])

unfoldable pub append_events :
    EventContext → Option Uuid → List DomainEvent → List Payload → Result (List DomainEvent)
unfolding append_event
append_events ctx action_id events [] = ok events
append_events ctx action_id events (p ∷ ps) =
    append_event ctx action_id events p >>= λ next. append_events ctx action_id next ps

-- `zip(dice, rng, strict=True)`, at lists of one length.
abbrev pub dice_payloads : List DiceResult → List RngMetadata → List Payload
dice_payloads (d ∷ dice) (r ∷ rng) = dice_rolled d r ∷ dice_payloads dice rng
dice_payloads _ _ = []

abbrev pub change_payload : StateChange → Payload
change_payload (damage d) = damage_applied d
change_payload (healing h) = healing_applied h
change_payload (consumed c) = item_consumed c

-- Dice first, then the changes, then the result itself.
abbrev pub result_payloads : ActionResult → List RngMetadata → List Payload
result_payloads (applied r) rng =
    dice_payloads r.dice rng
    ++ (map change_payload r.state_changes ++ action_resolved (applied r) ∷ [])
result_payloads (not_applicable reason) rng = action_resolved (not_applicable reason) ∷ []

abbrev pub wrong_rng : ActionResult → List RngMetadata → Bool
wrong_rng (applied r) rng = not (nat_eq (length rng) (length r.dice))
wrong_rng (not_applicable reason) [] = false
wrong_rng (not_applicable reason) (r ∷ rng) = true

abbrev pub rng_message : ActionResult → Result (Unit {0})
rng_message (applied r) = err (invalid_bundle "Dice結果とRNG metadataの件数が一致しません")
rng_message (not_applicable reason) = err (invalid_bundle "not_applicable結果はRNG metadataを持てません")

unfoldable pub append_action :
    EventContext → List DomainEvent → ActionRecord → Result (List DomainEvent)
append_action ctx events a = do
  if wrong_rng a.result a.rng then rng_message a.result else ok tt
  append_events ctx (some (command_base a.command).action_id) events
      (result_payloads a.result a.rng)

unfoldable pub append_actions :
    EventContext → List DomainEvent → List ActionRecord → Result (List DomainEvent)
unfolding append_action
append_actions ctx events [] = ok events
append_actions ctx events (a ∷ rest) =
    append_action ctx events a >>= λ next. append_actions ctx next rest

abbrev pub fact_payload : ScenarioFact → GeneratedFact
fact_payload f = record {
  fact_ref = f.fact_ref;
  kind = f.kind;
  public_text = f.public_text;
  scene_id = f.scene_id;
}

abbrev pub progress_payload : ScenarioProgressUpdate → Payload
progress_payload u = scenario_progressed (record {
  from_scene_id = u.from_scene_id;
  to_scene_id = u.to_scene_id;
  add_flags = u.add_flags;
  ending_ref = u.ending_ref;
  elapsed_actions = u.elapsed_actions;
  alert_delta = u.alert_delta;
  facts = map fact_payload u.facts;
})

abbrev pub update_payloads : Option ScenarioProgressUpdate → List Payload
update_payloads none = []
update_payloads (some u) = progress_payload u ∷ []

unfoldable pub events_of : EventContext → List ActionRecord → Result (List DomainEvent)
unfolding append_actions append_events
events_of ctx actions = do
  acted ← append_actions ctx [] actions
  reacted ← append_events ctx none acted (map enemy_reaction_resolved ctx.bundle.enemy_reactions)
  append_events ctx none reacted (update_payloads ctx.bundle.scenario_update)
