-- ===== src/Application/Resolution/Events/Reports.antt =====
-- What the events of a turn report, told from its actions, reactions and update alone.
use ai_rpg.Prelude.{
  ◌≡◌, refl, Option, none, some, List, [], ◌∷◌, ◌++◌, ok, arith, length, map, id_eq, >>=-eq-ok,
  if◌then◌else◌, Bool-cases, inl, inr, false, ap, All, nat_eq_iff, not-eq-false,
}
use ai_rpg.Domain.Results.{
  Uuid, DiceResult, StateChange, damage, healing, consumed, ActionResult, AppliedResult, applied,
  not_applicable, NotApplicableReason,
}
use ai_rpg.Text.{Text}
use ai_rpg.Scenario.Model.{Ref}
use ai_rpg.Domain.Commands.{command_base}
use ai_rpg.Domain.Events.{
  Payload, DomainEvent, enemy_reaction_resolved, RngMetadata, EnemyReaction,
  ScenarioProgressedPayload, GeneratedFact, FactKind, dice_rolled, damage_applied, healing_applied,
  item_consumed, action_resolved, scenario_progressed,
}
use ai_rpg.Application.Ports.{ActionRecord, CommitBundle, ScenarioFact, ScenarioProgressUpdate}
use ai_rpg.Application.Resolution.Events.{
  EventContext, wrong_rng, rng_message, result_payloads, append_action, append_actions,
  update_payloads, events_of, dice_payloads, change_payload, fact_payload, progress_payload,
}
use ai_rpg.Application.Resolution.Events.Order.{
  Entry, of_action, action_entries, expected, IsLog, events_of-IsLog,
}

-- What reports a change of the state.
abbrev Reports : StateChange → Payload → Type 0
Reports (damage d) p = p ≡ damage_applied d
Reports (healing h) p = p ≡ healing_applied h
Reports (consumed c) p = p ≡ item_consumed c

data ReportsAll : List StateChange → List Payload → Type 0 where
  no_reports : ReportsAll [] []
  more_reports :
      {c : StateChange} {p : Payload} {cs : List StateChange} {ps : List Payload}
      → Reports c p
      → ReportsAll cs ps
      → ReportsAll (c ∷ cs) (p ∷ ps)

-- What the events of one action carry. One that was applied reports every die with its metadata, then
-- every change, then its result; any other reports its result alone, and drew no dice.
data IsActionLog (result : ActionResult) (rng : List RngMetadata) (written : List Payload)
    : Type 0 where
  was_applied :
      (r : AppliedResult) (rolled : List (DiceResult × RngMetadata)) (changes : List Payload)
      → result ≡ applied r
      → map (λ d. d.0) rolled ≡ r.dice
      → map (λ d. d.1) rolled ≡ rng
      → ReportsAll r.state_changes changes
      → written ≡ map (λ d. dice_rolled d.0 d.1) rolled ++ (changes ++ action_resolved result ∷ [])
      → IsActionLog result rng written
  was_not :
      rng ≡ []
      → (reason : NotApplicableReason) × (result ≡ not_applicable reason)
      → written ≡ action_resolved result ∷ []
      → IsActionLog result rng written

-- What the events of several actions carry, one action after another, each under its action's id.
data IsActionsLog : List ActionRecord → List Entry → Type 0 where
  no_actions : IsActionsLog [] []
  more_actions :
      {a : ActionRecord} {rest : List ActionRecord} {own : List Payload} {written : List Entry}
      → IsActionLog a.result a.rng own
      → IsActionsLog rest written
      → IsActionsLog
          (a ∷ rest)
          (map (λ p. (some (command_base a.command).action_id, p)) own ++ written)

abbrev FactParts : Type 0
FactParts = Ref × FactKind × Text × Uuid

abbrev said_parts : GeneratedFact → FactParts
said_parts f = (f.fact_ref, f.kind, f.public_text, f.scene_id)

abbrev saved_parts : ScenarioFact → FactParts
saved_parts f = (f.fact_ref, f.kind, f.public_text, f.scene_id)

-- Whether a payload tells of a scenario's update, field by field.
record IsProgressed (u : ScenarioProgressUpdate) (p : Payload) : Type 0 where
  said : ScenarioProgressedPayload
  is_said : p ≡ scenario_progressed said
  same_from : said.from_scene_id ≡ u.from_scene_id
  same_to : said.to_scene_id ≡ u.to_scene_id
  same_flags : said.add_flags ≡ u.add_flags
  same_ending : said.ending_ref ≡ u.ending_ref
  same_elapsed : said.elapsed_actions ≡ u.elapsed_actions
  same_alert : said.alert_delta ≡ u.alert_delta
  same_facts : map said_parts said.facts ≡ map saved_parts u.facts

abbrev IsUpdateLog : Option ScenarioProgressUpdate → List Payload → Type 0
IsUpdateLog none written = written ≡ []
IsUpdateLog (some u) written = (p : Payload) × IsProgressed u p × (written ≡ p ∷ [])

-- What a turn's events carry: each action's, then the reactions', then the scenario's.
pub record IsTurnLog (bundle : CommitBundle) (actions : List ActionRecord) (written : List Entry)
    : Type 0 where
  own : List Entry
  update : List Payload
  acted : IsActionsLog actions own
  updated : IsUpdateLog bundle.scenario_update update
  all :
      written
      ≡ own
        ++ (map (λ r. (none, enemy_reaction_resolved r)) bundle.enemy_reactions
            ++ map (λ p. (none, p)) update)

-- As many dice as metadata, and none where nothing was applied.
abbrev HasDice : ActionRecord → Type 0
HasDice a = wrong_rng a.result a.rng ≡ false

right_dice :
    (result : ActionResult) (rng : List RngMetadata)
    → (if wrong_rng result rng then rng_message result else ok tt) ≡ ok tt
    → wrong_rng result rng ≡ false
right_dice (applied r) rng h = elim (Bool-cases (wrong_rng (applied r) rng)) [
  | inl wrong ↦ absurd (cc (rw wrong at h))
  | inr right ↦ right
]
right_dice (not_applicable reason) [] h = refl
right_dice (not_applicable reason) (r ∷ rng) h = cc

reports : (changes : List StateChange) → ReportsAll changes (map change_payload changes)
reports [] = no_reports
reports (damage d ∷ cs) = more_reports refl (reports cs)
reports (healing h ∷ cs) = more_reports refl (reports cs)
reports (consumed c ∷ cs) = more_reports refl (reports cs)

-- The dice with their metadata, where they are as many.
paired :
    (dice : List DiceResult) (rng : List RngMetadata)
    → length rng ≡ length dice
    → (rolled : List (DiceResult × RngMetadata)) × (map (λ d. d.0) rolled ≡ dice)
      × (map (λ d. d.1) rolled ≡ rng)
      × (map (λ d. dice_rolled d.0 d.1) rolled ≡ dice_payloads dice rng)
paired [] [] h = ([], refl, refl, refl)
paired [] (r ∷ rng) h = absurd (omega arith)
paired (d ∷ dice) [] h = absurd (omega arith)
paired (d ∷ dice) (r ∷ rng) h =
    let (rolled, same_dice, same_rng, same) = paired dice rng (omega arith) in
    (
      (d, r) ∷ rolled,
      ap (λ l. d ∷ l) same_dice,
      ap (λ l. r ∷ l) same_rng,
      ap (λ l. dice_rolled d r ∷ l) same,
    )

result_payloads-IsActionLog :
    (result : ActionResult) (rng : List RngMetadata)
    → wrong_rng result rng ≡ false
    → IsActionLog result rng (result_payloads result rng)
result_payloads-IsActionLog (applied r) rng h =
    let (rolled, same_dice, same_rng, same) =
      paired r.dice rng ((nat_eq_iff _ _).0 (not-eq-false _ h)) in
    was_applied r rolled (map change_payload r.state_changes) refl same_dice same_rng
      (reports r.state_changes) (rw same refl)
result_payloads-IsActionLog (not_applicable reason) [] h = was_not refl (reason, refl) refl
result_payloads-IsActionLog (not_applicable reason) (r ∷ rng) h = cc

action_entries-IsActionsLog :
    (actions : List ActionRecord)
    → All HasDice actions
    → IsActionsLog actions (action_entries actions)
action_entries-IsActionsLog [] h = no_actions
action_entries-IsActionsLog (a ∷ rest) h =
    more_actions (result_payloads-IsActionLog a.result a.rng h.0)
      (action_entries-IsActionsLog rest h.1)

same_payload_facts :
    (facts : List ScenarioFact) → map said_parts (map fact_payload facts) ≡ map saved_parts facts
same_payload_facts [] = refl
same_payload_facts (f ∷ fs) = ap (λ l. saved_parts f ∷ l) (same_payload_facts fs)

update_payloads-IsUpdateLog :
    (u : Option ScenarioProgressUpdate) → IsUpdateLog u (update_payloads u)
update_payloads-IsUpdateLog none = refl
update_payloads-IsUpdateLog (some u) = (
  progress_payload u,
  record {
    said = _;
    is_said = refl;
    same_from = refl;
    same_to = refl;
    same_flags = refl;
    same_ending = refl;
    same_elapsed = refl;
    same_alert = refl;
    same_facts = same_payload_facts u.facts;
  },
  refl,
)

of_reactions :
    (reactions : List EnemyReaction)
    → of_action none (map enemy_reaction_resolved reactions)
      ≡ map (λ r. (none, enemy_reaction_resolved r)) reactions
of_reactions [] = refl
of_reactions (r ∷ rs) = ap (λ l. (none, enemy_reaction_resolved r) ∷ l) (of_reactions rs)

expected-IsTurnLog :
    (bundle : CommitBundle) (actions : List ActionRecord)
    → All HasDice actions
    → IsTurnLog bundle actions (expected bundle actions)
expected-IsTurnLog bundle actions dice = record {
  own = action_entries actions;
  update = update_payloads bundle.scenario_update;
  acted = action_entries-IsActionsLog actions dice;
  updated = update_payloads-IsUpdateLog bundle.scenario_update;
  all = rw (of_reactions bundle.enemy_reactions) refl;
}

module _ (ctx : EventContext) where
  -- What was written passed the tests of each action's dice.
  append_actions-HasDice :
      (events : List DomainEvent) (actions : List ActionRecord) (next : List DomainEvent)
      → append_actions ctx events actions ≡ ok next
      → All HasDice actions
  unfolding append_actions append_action
  append_actions-HasDice events [] next h = tt
  append_actions-HasDice events (a ∷ rest) next h =
      let (mid, e, h') = >>=-eq-ok (append_action ctx events a) _ h in
      let (_, checked, _) =
        >>=-eq-ok (if wrong_rng a.result a.rng then rng_message a.result else ok tt) _ e in
      (right_dice a.result a.rng checked, append_actions-HasDice mid rest next h')

  pub logged-IsLog :
      (actions : List ActionRecord) (events : List DomainEvent)
      → events_of ctx actions ≡ ok events
      → (written : List Entry) × IsLog ctx events written × IsTurnLog ctx.bundle actions written
  unfolding events_of
  logged-IsLog actions events h =
      let (acted, e, _) = >>=-eq-ok (append_actions ctx [] actions) _ h in
      (
        expected ctx.bundle actions,
        events_of-IsLog ctx actions events h,
        expected-IsTurnLog ctx.bundle actions (append_actions-HasDice [] actions acted e),
      )
