-- ===== src/Application/Resolution/Events/Order.antt =====
-- The events of a turn: which, in what order, and how they are numbered.
use ai_rpg.Prelude.{
  ℕ, ◌+◌, ◌≡◌, refl, true, Option, none, some, List, [], ◌∷◌, ◌++◌, ok, ◌>>=◌, arith, length, map,
  contains, id_eq, is_unique, >>=-eq-ok, raise_if-eq-ok, is_unique-append_one, invalid_bundle,
  from_ok, if◌then◌else◌,
}
use mathlib.Core.Path.{subst}
use mathlib.Core.List.{append_assoc, append-nil, map-append}
use ai_rpg.Domain.Results.{Uuid}
use ai_rpg.Domain.Accepted.{domain_event-eq-ok}
use ai_rpg.Domain.Commands.{command_base}
use ai_rpg.Domain.Events.{Payload, DomainEvent, enemy_reaction_resolved, domain_event}
use ai_rpg.Application.Ports.{ActionRecord, CommitBundle}
use ai_rpg.Application.Resolution.Events.{
  EventContext, next_event, event_ids, wrong_rng, rng_message, append_event, append_events,
  result_payloads, append_action, append_actions, update_payloads, events_of,
}

-- An event that belongs to an action, or to none, with what it carries.
abbrev pub Entry : Type 0
Entry = Option Uuid × Payload

abbrev pub entries : List DomainEvent → List Entry
entries = map (λ e. (e.action_id, e.payload))

abbrev pub of_action : Option Uuid → List Payload → List Entry
of_action action_id = map (λ p. (action_id, p))

abbrev pub action_entries : List ActionRecord → List Entry
action_entries [] = []
action_entries (a ∷ rest) =
    of_action (some (command_base a.command).action_id) (result_payloads a.result a.rng)
    ++ action_entries rest

abbrev pub expected : CommitBundle → List ActionRecord → List Entry
expected bundle actions =
    action_entries actions
    ++ (of_action none (map enemy_reaction_resolved bundle.enemy_reactions)
        ++ of_action none (update_payloads bundle.scenario_update))

-- Numbered one after another from the first place, all of one version and one turn.
abbrev pub IsNumbered : EventContext → ℕ → List DomainEvent → Type 0
IsNumbered ctx n [] = Unit
IsNumbered ctx n (e ∷ rest) =
    ((e.sequence ≡ ctx.first_sequence + n)
      × (e.id ≡ ctx.event_id_factory n)
      × (e.state_version ≡ ctx.state_version)
      × (e.campaign_id ≡ ctx.bundle.campaign_id)
      × (e.scene_id ≡ some ctx.bundle.scene_id)
      × (e.turn_id ≡ some ctx.bundle.turn_id))
    × IsNumbered ctx (n + 1) rest

module _ (ctx : EventContext) where
  IsNumbered-append :
      (n : ℕ) (xs ys : List DomainEvent)
      → IsNumbered ctx n xs
      → IsNumbered ctx (n + length xs) ys
      → IsNumbered ctx n (xs ++ ys)
  IsNumbered-append n [] ys h k = subst (λ m. IsNumbered ctx m ys) (omega arith) k
  IsNumbered-append n (x ∷ xs) ys h k =
      (h.0, IsNumbered-append (n + 1) xs ys h.1 (subst (λ m. IsNumbered ctx m ys) (omega arith) k))

  -- What the events written so far satisfy.
  pub record IsLog (events : List DomainEvent) (written : List Entry) : Type 0 where
    pub same_entries : entries events ≡ written
    pub numbered : IsNumbered ctx 0 events
    pub unique_ids : is_unique (event_ids events) ≡ true

  append_event-IsLog :
      (action_id : Option Uuid) (events : List DomainEvent) (p : Payload) (written : List Entry)
      (next : List DomainEvent)
      → IsLog events written
      → append_event ctx action_id events p ≡ ok next
      → IsLog next (written ++ (action_id, p) ∷ [])
  unfolding append_event next_event
  append_event-IsLog action_id events p written next log h =
      let event = next_event ctx action_id p events in
      let taken = contains (ctx.event_id_factory (length events)) (event_ids events) in
      let (free, built) =
        raise_if-eq-ok taken (invalid_bundle "Event IDが重複しています")
          (domain_event event >>= λ e. ok (events ++ e ∷ [])) next h in
      let (e, accepted, appended) =
        >>=-eq-ok (domain_event event) (λ e. ok (events ++ e ∷ [])) built in
      let same = domain_event-eq-ok event e accepted in
      let result : events ++ event ∷ [] ≡ next = cc (appended, same) in
      subst (λ l. IsLog l (written ++ (action_id, p) ∷ [])) result
        (record {
          same_entries = simp (map-append, log.same_entries);
          numbered = IsNumbered-append 0 events (event ∷ []) log.numbered (
              subst (λ n. IsNumbered ctx n (event ∷ [])) (omega arith)
                ((refl, refl, refl, refl, refl, refl), tt));
          unique_ids =
              simp map-append
                (is_unique-append_one (event_ids events) event.id log.unique_ids free);
        })

  append_events-IsLog :
      (action_id : Option Uuid) (events : List DomainEvent) (ps : List Payload)
      (written : List Entry) (next : List DomainEvent)
      → IsLog events written
      → append_events ctx action_id events ps ≡ ok next
      → IsLog next (written ++ of_action action_id ps)
  unfolding append_events
  append_events-IsLog action_id events [] written next log h =
      rw append-nil (subst (λ l. IsLog l written) (from_ok h) log)
  append_events-IsLog action_id events (p ∷ ps) written next log h =
      let (mid, e, h') = >>=-eq-ok (append_event ctx action_id events p) _ h in
      let log' = append_event-IsLog action_id events p written mid log e in
      subst (IsLog next) (append_assoc written ((action_id, p) ∷ []) (of_action action_id ps))
        (append_events-IsLog action_id mid ps (written ++ (action_id, p) ∷ []) next log' h')

  append_action-IsLog :
      (events : List DomainEvent) (a : ActionRecord) (written : List Entry)
      (next : List DomainEvent)
      → IsLog events written
      → append_action ctx events a ≡ ok next
      → IsLog next (
          written
          ++ of_action (some (command_base a.command).action_id) (result_payloads a.result a.rng))
  unfolding append_action
  append_action-IsLog events a written next log h =
      let (_, checked, h') =
        >>=-eq-ok (if wrong_rng a.result a.rng then rng_message a.result else ok tt) _ h in
      append_events-IsLog _ events (result_payloads a.result a.rng) written next log h'

  append_actions-IsLog :
      (events : List DomainEvent) (actions : List ActionRecord) (written : List Entry)
      (next : List DomainEvent)
      → IsLog events written
      → append_actions ctx events actions ≡ ok next
      → IsLog next (written ++ action_entries actions)
  unfolding append_actions
  append_actions-IsLog events [] written next log h =
      rw append-nil (subst (λ l. IsLog l written) (from_ok h) log)
  append_actions-IsLog events (a ∷ rest) written next log h =
      let (mid, e, h') = >>=-eq-ok (append_action ctx events a) _ h in
      let own =
        of_action (some (command_base a.command).action_id) (result_payloads a.result a.rng) in
      subst (IsLog next) (append_assoc written own (action_entries rest)) (
        append_actions-IsLog mid rest (written ++ own) next
          (append_action-IsLog events a written mid log e) h')

  pub events_of-IsLog :
      (actions : List ActionRecord) (events : List DomainEvent)
      → events_of ctx actions ≡ ok events
      → IsLog events (expected ctx.bundle actions)
  unfolding events_of
  events_of-IsLog actions events h =
      let (acted, e, h₁) = >>=-eq-ok (append_actions ctx [] actions) _ h in
      let reactions = map enemy_reaction_resolved ctx.bundle.enemy_reactions in
      let (reacted, e₁, h₂) = >>=-eq-ok (append_events ctx none acted reactions) _ h₁ in
      let log₁ = append_actions-IsLog [] actions [] acted empty_log e in
      let log₂ =
        append_events-IsLog none acted reactions (action_entries actions) reacted log₁ e₁ in
      let update = update_payloads ctx.bundle.scenario_update in
      subst (IsLog events)
        (append_assoc (action_entries actions) (of_action none reactions) (of_action none update))
        (append_events-IsLog none reacted update _ events log₂ h₂)
    where
      empty_log : IsLog [] []
      empty_log = record { same_entries = refl; numbered = tt; unique_ids = refl }
