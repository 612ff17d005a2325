-- ===== src/Application/Resolution/Project.antt =====
-- application/resolution.py: `project_resolution`.
pub mod Sound
use ai_rpg.Prelude.{
  ℕ, zero, suc, ◌+◌, ◌≤◌, ◌≡◌, refl, Bool, true, false, ◌&&◌, ◌||◌, not, Option, none, some, List,
  [], ◌∷◌, ◌++◌, Result, ok, err, ◌>>=◌, ◌>>◌, raise_if, checks, Error, invalid_bundle, nat_eq, leb,
  length, map, any, is_unique, is_some, id_eq, list_eq, ◌==◌, if◌then◌else◌, arith,
}
use ai_rpg.Domain.Results.{Uuid, applied, ResolvedAction, ResolvedEnemyReaction}
use ai_rpg.Domain.Commands.{Command, command_base, attack}
use ai_rpg.Domain.Events.{DomainEvent, EnemyReaction}
use ai_rpg.Application.Ports.{
  ActionRecord, ScenarioProgressUpdate, MechanicalNarrationInput, CommitBundle,
}
use ai_rpg.Application.Mutations.{CanonicalMutation, canonical_mutations}
use ai_rpg.Application.Resolution.Equality.{same_actions, same_reactions}
use ai_rpg.Application.Resolution.Reactions.{
  TurnCommitContext, range_from, action_ids, validate_enemy_reactions,
}
use ai_rpg.Application.Resolution.Events.{EventContext, events_of}

pub record ResolutionProjection : Type 0 where
  pub actions : List ActionRecord
  pub events : List DomainEvent
  pub narration_input : MechanicalNarrationInput
  pub mutations : List CanonicalMutation
  pub scenario_update : Option ScenarioProgressUpdate
  pub committed_state_version : ℕ

abbrev pub ordinals : List ActionRecord → List ℕ
ordinals = map (λ a. (command_base a.command).ordinal)

-- A command whose campaign, turn or actor is not the bundle's.
abbrev pub wrong_parents : CommitBundle → TurnCommitContext → ActionRecord → Bool
wrong_parents bundle turn a =
    let c = command_base a.command in
    not (c.campaign_id == bundle.campaign_id)
    || not (c.turn_id == bundle.turn_id)
    || not (c.actor_id == turn.actor_id)

unfoldable pub bundle_guards : CommitBundle → TurnCommitContext → List (Bool × Error)
bundle_guards bundle turn =
    let count = length bundle.actions in
    (not (bundle.scene_id == turn.scene_id), invalid_bundle "BundleのSceneがTurnと一致しません")
    ∷ (not (leb 1 count && leb count turn.max_actions), invalid_bundle "Action件数がTurnの上限外です")
    ∷ (
      not (ordinals bundle.actions == range_from 1 count),
      invalid_bundle "Action ordinalは1から連続する必要があります",
    )
    ∷ (not (is_unique (action_ids bundle.actions)), invalid_bundle "Action IDが重複しています")
    ∷ (any (wrong_parents bundle turn) bundle.actions, invalid_bundle "Action Commandの親IDが一致しません")
    ∷ []

-- A reaction as one more action.
abbrev pub reaction_action : EnemyReaction → ActionRecord
reaction_action r = record { command = attack r.command; result = applied r.result; rng = r.rng }

abbrev pub resolved_action : ActionRecord → ResolvedAction
resolved_action a = record {
  action_id = (command_base a.command).action_id;
  ordinal = (command_base a.command).ordinal;
  result = a.result;
}

abbrev pub resolved_reaction : EnemyReaction → ResolvedEnemyReaction
resolved_reaction r = record {
  reaction_id = r.command.action_id;
  actor_id = r.command.actor_id;
  target_id = r.command.target_id;
  result = r.result;
}

abbrev pub is_nonempty : List CanonicalMutation → Bool
is_nonempty [] = false
is_nonempty (m ∷ ms) = true

-- `base_state_version + int(changed)`
abbrev pub next_version : CommitBundle → List CanonicalMutation → ℕ
next_version bundle mutations =
    bundle.base_state_version
    + (if is_nonempty mutations || is_some bundle.scenario_update then 1 else 0)

unfoldable pub wrong_narration : CommitBundle → TurnCommitContext → ℕ → Bool
wrong_narration bundle turn version =
    let narration = bundle.narration_input in
    not (nat_eq narration.committed_state_version version)
    || not (nat_eq narration.max_actions turn.max_actions)
    || not (same_actions narration.resolved_actions (map resolved_action bundle.actions))
    || not (same_reactions narration.enemy_reactions (map resolved_reaction bundle.enemy_reactions))

unfoldable pub project_resolution :
    CommitBundle → TurnCommitContext → ℕ → (ℕ → Uuid) → Result ResolutionProjection
project_resolution bundle turn first_event_sequence event_id_factory = do
  checks (bundle_guards bundle turn)
  validate_enemy_reactions bundle turn bundle.enemy_reactions
  mutations ← canonical_mutations (bundle.actions ++ map reaction_action bundle.enemy_reactions)
  let version = next_version bundle mutations
  raise_if (wrong_narration bundle turn version) (invalid_bundle "描写入力が確定内容と一致しません")
  events ←
      events_of
        (record {
          bundle = bundle;
          first_sequence = first_event_sequence;
          state_version = version;
          event_id_factory = event_id_factory;
        })
        bundle.actions
  ok (record {
    actions = bundle.actions;
    events = events;
    narration_input = bundle.narration_input;
    mutations = mutations;
    scenario_update = bundle.scenario_update;
    committed_state_version = version;
  })
