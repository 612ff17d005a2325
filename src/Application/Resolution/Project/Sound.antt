-- ===== src/Application/Resolution/Project/Sound.antt =====
-- What a projection that is returned says of its bundle.
use ai_rpg.Prelude.{
  ℕ, ◌≤◌, ◌≡◌, refl, true, false, List, [], ◌∷◌, ◌++◌, ok, arith, leb, leb→le, length, map, any,
  is_unique, id_eq, list_eq, nat_eq_iff, checks, checks-AllFalse, AllFalse, raise_if-eq-ok,
  >>=-eq-ok, invalid_bundle, from_ok, not-eq-false, and-eq-true, All, suc, ◌⊎◌, ◌≢◌, inl, inr,
  Option-cases, none, some,
}
use mathlib.Core.Path.{subst}
use ai_rpg.Domain.Results.{Uuid}
use ai_rpg.Domain.Commands.{command_base}
use ai_rpg.Application.Ports.{ActionRecord, CommitBundle, ScenarioProgressUpdate}
use ai_rpg.Application.Mutations.{CanonicalMutation, canonical_mutations}
use ai_rpg.Application.Resolution.Equality.{same_actions_iff, same_reactions_iff}
use ai_rpg.Application.Resolution.Reactions.{
  TurnCommitContext, range_from, action_ids, validate_enemy_reactions,
}
use ai_rpg.Application.Resolution.Events.{EventContext, events_of}
use ai_rpg.Application.Resolution.Events.Order.{Entry, IsLog}
use ai_rpg.Application.Resolution.Events.Reports.{IsTurnLog, logged-IsLog}
use ai_rpg.Application.Resolution.Project.{
  ResolutionProjection, ordinals, wrong_parents, bundle_guards, reaction_action, resolved_action,
  resolved_reaction, next_version, wrong_narration, project_resolution,
}

-- The command of an action belongs to the bundle's campaign and turn and to the turn's actor.
abbrev pub IsOwn : CommitBundle → TurnCommitContext → ActionRecord → Type 0
IsOwn bundle turn a =
    let c = command_base a.command in
    (c.campaign_id ≡ bundle.campaign_id)
    × (c.turn_id ≡ bundle.turn_id)
    × (c.actor_id ≡ turn.actor_id)

IsOwn_lem :
    (bundle : CommitBundle) (turn : TurnCommitContext) (a : ActionRecord)
    → wrong_parents bundle turn a ≡ false
    → IsOwn bundle turn a
IsOwn_lem bundle turn a h = ground arith

All-IsOwn :
    (bundle : CommitBundle) (turn : TurnCommitContext) (l : List ActionRecord)
    → any (wrong_parents bundle turn) l ≡ false
    → All (IsOwn bundle turn) l
All-IsOwn bundle turn [] h = tt
All-IsOwn bundle turn (a ∷ l) h =
    (IsOwn_lem bundle turn a (ground arith), All-IsOwn bundle turn l (ground arith))

-- A bundle that fits its turn.
pub record IsCoherent (bundle : CommitBundle) (turn : TurnCommitContext) : Type 0 where
  pub same_scene : bundle.scene_id ≡ turn.scene_id
  pub some_actions : 1 ≤ length bundle.actions
  pub few_actions : length bundle.actions ≤ turn.max_actions
  pub in_order : ordinals bundle.actions ≡ range_from 1 (length bundle.actions)
  pub unique_actions : is_unique (action_ids bundle.actions) ≡ true
  pub own_actions : All (IsOwn bundle turn) bundle.actions

bundle_guards-IsCoherent :
    (bundle : CommitBundle) (turn : TurnCommitContext)
    → AllFalse (bundle_guards bundle turn)
    → IsCoherent bundle turn
unfolding bundle_guards
bundle_guards-IsCoherent bundle turn (scene, (count, (order, (unique, (parents, _))))) =
    let few =
      and-eq-true (leb 1 (length bundle.actions)) (leb (length bundle.actions) turn.max_actions)
        (not-eq-false _ count) in
    record {
      same_scene = (nat_eq_iff _ _).0 (not-eq-false _ scene);
      some_actions = leb→le _ _ few.0;
      few_actions = leb→le _ _ few.1;
      in_order = (list_eq.beq_iff _ _).0 (not-eq-false _ order);
      unique_actions = not-eq-false _ unique;
      own_actions = All-IsOwn bundle turn bundle.actions parents;
    }

-- The narration's input repeats what was determined.
pub record IsNarrated (bundle : CommitBundle) (turn : TurnCommitContext) (version : ℕ)
    : Type 0 where
  pub same_version : bundle.narration_input.committed_state_version ≡ version
  pub same_limit : bundle.narration_input.max_actions ≡ turn.max_actions
  pub same_results : bundle.narration_input.resolved_actions ≡ map resolved_action bundle.actions
  pub same_reaction :
      bundle.narration_input.enemy_reactions ≡ map resolved_reaction bundle.enemy_reactions

narrated :
    (bundle : CommitBundle) (turn : TurnCommitContext) (version : ℕ)
    → wrong_narration bundle turn version ≡ false
    → IsNarrated bundle turn version
unfolding wrong_narration
narrated bundle turn version h =
    let narration = bundle.narration_input in
    let actions = map resolved_action bundle.actions in
    let reactions = map resolved_reaction bundle.enemy_reactions in
    record {
      same_version = ground arith;
      same_limit = ground arith;
      same_results = (same_actions_iff narration.resolved_actions actions).0 (ground arith);
      same_reaction = (same_reactions_iff narration.enemy_reactions reactions).0 (ground arith);
    }

-- The version after a turn: as it was where nothing changed, the next one where something did.
abbrev pub IsNextVersion : CommitBundle → List CanonicalMutation → ℕ → Type 0
IsNextVersion bundle mutations version =
    ((mutations ≡ []) × (bundle.scenario_update ≡ none) × (version ≡ bundle.base_state_version))
    ⊎ (((mutations ≢ []) ⊎ ((u : ScenarioProgressUpdate) × (bundle.scenario_update ≡ some u)))
        × (version ≡ suc bundle.base_state_version))

next_version-IsNextVersion :
    (bundle : CommitBundle) (mutations : List CanonicalMutation)
    → IsNextVersion bundle mutations (next_version bundle mutations)
next_version-IsNextVersion bundle (m ∷ ms) = inr (inl (λ h. cc), omega arith)
next_version-IsNextVersion bundle [] = elim (Option-cases bundle.scenario_update) [
  | inl still ↦ inl (refl, still, rw still (omega arith))
  | inr (u, moved) ↦ inr (inr (u, moved), rw moved (omega arith))
]

pub record IsProjection (bundle : CommitBundle) (turn : TurnCommitContext) (first : ℕ)
    (ids : ℕ → Uuid) (p : ResolutionProjection) : Type 0 where
  pub coherent : IsCoherent bundle turn
  pub reacted : validate_enemy_reactions bundle turn bundle.enemy_reactions ≡ ok tt
  pub mutated :
      canonical_mutations (bundle.actions ++ map reaction_action bundle.enemy_reactions)
      ≡ ok p.mutations
  pub versioned : IsNextVersion bundle p.mutations p.committed_state_version
  pub narrated_version : IsNarrated bundle turn p.committed_state_version

-- A projection is returned only for a bundle that fits its turn: one to the allowed number of
-- actions, numbered from 1, with different ids and the turn's own parents, a reaction that passes
-- its checks, and a narration input that repeats the results. Its version is the base version where
-- there is neither a mutation nor a scenario update, and 1 more where there is one.
pub project_resolution-IsProjection :
    (bundle : CommitBundle) (turn : TurnCommitContext) (first : ℕ) (ids : ℕ → Uuid)
    (p : ResolutionProjection)
    → project_resolution bundle turn first ids ≡ ok p
    → IsProjection bundle turn first ids p
unfolding project_resolution
project_resolution-IsProjection bundle turn first ids p h =
    let (_, guards, h₁) = >>=-eq-ok (checks (bundle_guards bundle turn)) _ h in
    let (_, reaction, h₂) =
      >>=-eq-ok (validate_enemy_reactions bundle turn bundle.enemy_reactions) _ h₁ in
    let (ms, e, h₃) =
      >>=-eq-ok (canonical_mutations (bundle.actions ++ map reaction_action bundle.enemy_reactions))
        _ h₂ in
    let version = next_version bundle ms in
    let (fine, h₄) =
      raise_if-eq-ok (wrong_narration bundle turn version) (invalid_bundle "描写入力が確定内容と一致しません") _ p
        h₃ in
    let (_, _, h₅) = >>=-eq-ok (events_of _ bundle.actions) _ h₄ in
    subst (IsProjection bundle turn first ids) (from_ok h₅) (record {
      coherent =
          bundle_guards-IsCoherent bundle turn (checks-AllFalse (bundle_guards bundle turn) guards);
      reacted = reaction;
      mutated = e;
      versioned = next_version-IsNextVersion bundle ms;
      narrated_version = narrated bundle turn version fine;
    })

-- The events of a turn are numbered one after another from the place that was asked for, with the ids
-- of the factory; they carry the turn's campaign, scene, id and new version, and no id occurs twice.
-- They report each action in its order and under its id (an applied one with every die and its
-- metadata, every change, and its result; any other with its result alone), then each reaction, then
-- the scenario's update, if there is one.
pub project_resolution-IsTurnLog :
    (bundle : CommitBundle) (turn : TurnCommitContext) (first : ℕ) (ids : ℕ → Uuid)
    (p : ResolutionProjection)
    → project_resolution bundle turn first ids ≡ ok p
    → (written : List Entry) × IsLog
        (record {
          bundle = bundle;
          first_sequence = first;
          state_version = p.committed_state_version;
          event_id_factory = ids;
        })
        p.events
        written
      × IsTurnLog bundle bundle.actions written
unfolding project_resolution
project_resolution-IsTurnLog bundle turn first ids p h =
    let (_, _, h₁) = >>=-eq-ok (checks (bundle_guards bundle turn)) _ h in
    let (_, _, h₂) = >>=-eq-ok (validate_enemy_reactions bundle turn bundle.enemy_reactions) _ h₁ in
    let (ms, _, h₃) =
      >>=-eq-ok (canonical_mutations (bundle.actions ++ map reaction_action bundle.enemy_reactions))
        _ h₂ in
    let version = next_version bundle ms in
    let (_, h₄) =
      raise_if-eq-ok (wrong_narration bundle turn version) (invalid_bundle "描写入力が確定内容と一致しません") _ p
        h₃ in
    let ctx : EventContext = record {
      bundle = bundle;
      first_sequence = first;
      state_version = version;
      event_id_factory = ids;
    } in
    let (events, e, h₅) = >>=-eq-ok (events_of ctx bundle.actions) _ h₄ in
    subst
      (λ q.
        (written : List Entry) × IsLog (record ctx { state_version = q.committed_state_version })
          q.events written
        × IsTurnLog bundle bundle.actions written)
      (from_ok h₅) (logged-IsLog ctx bundle.actions events e)
