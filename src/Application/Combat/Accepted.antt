-- ===== src/Application/Combat/Accepted.antt =====
-- The enemy's reaction passes the checks of the commit.
use ai_rpg.Prelude.{
  ℕ, zero, suc, ◌+◌, true, false, Option, some, List, [], ◌∷◌, ok, nat_eq, length, any, contains,
  id_eq, ref_eq,
}
use ai_rpg.Text.{Text}
use ai_rpg.Domain.Results.{Uuid, AppliedResult}
use ai_rpg.Domain.Character.{CharacterState}
use ai_rpg.Domain.Events.{EnemyReaction, RngSource}
use ai_rpg.Engine.Random.{RandomSource}
use ai_rpg.Scenario.Model.{ScenarioCombatDefinition}
use ai_rpg.Scenario.Progress.{Catalog}
use ai_rpg.Application.Ports.{
  ScenarioRunSnapshot, CanonicalSnapshot, ResolutionWorkItem, ActionRecord, ScenarioProgressUpdate,
}
use ai_rpg.Application.Resolution.Reactions.{is_applied}
use ai_rpg.Prelude.{◌≡◌, ◌≢◌, inl, inr, refl, sym, ap, ◌∙◌, Bool-cases}
use mathlib.Core.Path.{subst}
use ai_rpg.Engine.Ruleset.Attack.{IsAttackOutcome}
use ai_rpg.Application.Combat.{
  CombatResolution, rng_count, rng_from, ReactionContext, resolve_enemy_reaction,
}
use ai_rpg.Prelude.{All, AllFalse, AllFalse-checks, nat_eq_iff, list_eq, option_eq, map}
use ai_rpg.Application.Ports.{CommitBundle}
use ai_rpg.Application.Combat.Fights.{IsReaction}
use ai_rpg.Application.Combat.Reaction.{resolve_enemy_reaction_lem}
use ai_rpg.Application.Resolution.Reactions.{
  TurnCommitContext, first_draw, range_from, action_ids, wrong_identity, wrong_draws,
  reaction_guards, validate_enemy_reactions,
}
use ai_rpg.Application.Resolution.Reactions.Accepts.{validate_outcome-IsAttackParts}

length-rng_from :
    (source : RngSource) (version : Text) (first count : ℕ)
    → length (rng_from source version first count) ≡ count
unfolding rng_from
length-rng_from source version first zero = refl
length-rng_from source version first (suc count) =
    ap suc (length-rng_from source version (first + 1) count)

draws-rng_from :
    (source : RngSource) (version : Text) (first count : ℕ)
    → map (λ r. r.draw_index) (rng_from source version first count) ≡ range_from first count
unfolding rng_from
draws-rng_from source version first zero = refl
draws-rng_from source version first (suc count) =
    ap (λ l. first ∷ l) (draws-rng_from source version (first + 1) count)

-- A reaction of the turn's enemy against the turn's actor, with the metadata that its dice have
-- after the player's.
pub record IsOwnReaction (bundle : CommitBundle) (turn : TurnCommitContext) (x : EnemyReaction)
    : Type 0 where
  pub acted : any (λ a. is_applied a.result) bundle.actions ≡ true
  pub by_enemy : turn.enemy_id ≡ some x.command.actor_id
  pub not_self : x.command.actor_id ≢ turn.actor_id
  pub at_actor : x.command.target_id ≡ turn.actor_id
  pub same_campaign : x.command.campaign_id ≡ bundle.campaign_id
  pub same_turn : x.command.turn_id ≡ bundle.turn_id
  pub first : x.command.ordinal ≡ 1
  pub fresh : contains x.command.action_id (action_ids bundle.actions) ≡ false
  pub counted : length x.rng ≡ length x.result.dice
  pub drawn :
      map (λ r. r.draw_index) x.rng ≡ range_from (first_draw bundle.actions) (length x.result.dice)

identity_lem :
    (bundle : CommitBundle) (turn : TurnCommitContext) (x : EnemyReaction)
    → IsOwnReaction bundle turn x
    → wrong_identity bundle turn x.command ≡ false
unfolding wrong_identity
identity_lem bundle turn x h =
    rw
      (
        h.by_enemy,
        (nat_eq_iff x.command.actor_id x.command.actor_id).1 refl,
        (nat_eq_iff x.command.target_id turn.actor_id).1 h.at_actor,
        (nat_eq_iff x.command.campaign_id bundle.campaign_id).1 h.same_campaign,
        (nat_eq_iff x.command.turn_id bundle.turn_id).1 h.same_turn,
        (nat_eq_iff x.command.ordinal 1).1 h.first,
        h.fresh,
      )
      (elim (Bool-cases (nat_eq x.command.actor_id turn.actor_id)) [
        | inl same ↦ absurd (h.not_self ((nat_eq_iff x.command.actor_id turn.actor_id).0 same))
        | inr other ↦ rw other refl
      ])

reaction_guards-AllFalse :
    (bundle : CommitBundle) (turn : TurnCommitContext) (x : EnemyReaction)
    → IsOwnReaction bundle turn x
    → AllFalse (reaction_guards bundle turn x)
unfolding reaction_guards wrong_draws
reaction_guards-AllFalse bundle turn x h = (
  rw h.acted refl,
  (
    identity_lem bundle turn x h,
    (
      rw
          (
            (nat_eq_iff (length x.rng) (length x.result.dice)).1 h.counted,
            (list_eq.beq_iff (map (λ r. r.draw_index) x.rng)
                  (range_from (first_draw bundle.actions) (length x.result.dice))).1
                h.drawn,
          )
          refl,
      tt,
    ),
  ),
)

pub validate_enemy_reactions-IsOwnReaction :
    (bundle : CommitBundle) (turn : TurnCommitContext) (x : EnemyReaction) (target : CharacterState)
    → IsOwnReaction bundle turn x
    → target.id ≡ turn.actor_id
    → IsAttackOutcome x.command target x.result
    → validate_enemy_reactions bundle turn (x ∷ []) ≡ ok tt
unfolding validate_enemy_reactions
validate_enemy_reactions-IsOwnReaction bundle turn x target own same outcome =
    rw
      (AllFalse-checks (reaction_guards bundle turn x) (reaction_guards-AllFalse bundle turn x own))
      (validate_outcome-IsAttackParts x.command turn target x.result.outcome x.result.dice
        x.result.state_changes same outcome)

-- What a commit is told of the turn's enemy: it is who reacts, and not the one who acts.
abbrev pub IsTurnEnemy : TurnCommitContext → List EnemyReaction → Type 0
IsTurnEnemy turn =
    All (λ x. (turn.enemy_id ≡ some x.command.actor_id) × (x.command.actor_id ≢ turn.actor_id))

module _ {S : Type 0} (source : RandomSource S) (ctx : ReactionContext) where
  reaction_accepted :
      (work : ResolutionWorkItem) (actions : List ActionRecord)
      (update : Option ScenarioProgressUpdate) (run : ScenarioRunSnapshot)
      (combat : ScenarioCombatDefinition) (enemy_id : Uuid) (attacker target : CharacterState)
      (result : AppliedResult) (r : CombatResolution) (bundle : CommitBundle)
      (turn : TurnCommitContext)
      → IsReaction ctx work actions update run combat enemy_id attacker target result r
      → any (λ a. is_applied a.result) actions ≡ true
      → bundle.actions ≡ actions
      → bundle.campaign_id ≡ work.campaign_id
      → bundle.turn_id ≡ work.turn_id
      → turn.actor_id ≡ work.actor_id
      → contains ctx.reaction_id (action_ids actions) ≡ false
      → rng_count actions ≡ first_draw actions
      → IsTurnEnemy turn r.reactions
      → validate_enemy_reactions bundle turn r.reactions ≡ ok tt
  reaction_accepted work actions update run combat enemy_id attacker target result r bundle turn
        spec acted same campaign turn_id actor fresh count enemy =
      let by = subst (IsTurnEnemy turn) spec.reacted enemy in
      let version = ctx.rng_implementation_version in
      let count_dice = length result.dice in
      rw spec.reacted (
        validate_enemy_reactions-IsOwnReaction bundle turn _ target
          (record {
            acted = rw same acted;
            by_enemy = by.0.0;
            not_self = by.0.1;
            at_actor = sym actor;
            same_campaign = sym campaign;
            same_turn = sym turn_id;
            first = refl;
            fresh = rw same fresh;
            counted = length-rng_from ctx.rng_source version (rng_count actions) count_dice;
            drawn =
                draws-rng_from ctx.rng_source version (rng_count actions) count_dice
                ∙ ap (λ n. range_from n count_dice) (rw same count);
          })
          (sym spec.is_target ∙ sym actor) spec.outcome)

  -- What the enemy's turn returns passes the checks that a commit of the same actions makes of the
  -- enemy's reactions, provided that the commit belongs to the same campaign, turn and actor, that
  -- its enemy is the one who reacts and not the actor, that the reaction's identifier is new, and
  -- that the actions carry the metadata of as many dice as they rolled.
  pub validate_enemy_reactions-resolve_enemy_reaction :
      (work : ResolutionWorkItem) (snapshot : CanonicalSnapshot) (actions : List ActionRecord)
      (update : Option ScenarioProgressUpdate) (catalog : Option Catalog) (s : S)
      (r : CombatResolution) (bundle : CommitBundle) (turn : TurnCommitContext)
      → (resolve_enemy_reaction source ctx work snapshot actions update catalog s).0 ≡ ok r
      → bundle.actions ≡ actions
      → bundle.campaign_id ≡ work.campaign_id
      → bundle.turn_id ≡ work.turn_id
      → turn.actor_id ≡ work.actor_id
      → contains ctx.reaction_id (action_ids actions) ≡ false
      → rng_count actions ≡ first_draw actions
      → IsTurnEnemy turn r.reactions
      → validate_enemy_reactions bundle turn r.reactions ≡ ok tt
  unfolding validate_enemy_reactions
  validate_enemy_reactions-resolve_enemy_reaction work snapshot actions update catalog s r bundle
        turn h same campaign turn_id actor fresh count enemy =
      elim (resolve_enemy_reaction_lem source ctx work snapshot actions update catalog s r h) [
        | inl ((quiet, kept), _) ↦ rw quiet refl
        | inr (run, combat, row, attacker, target, _, why, _, _, (result, spec)) ↦
            reaction_accepted work actions update run combat row.id attacker target result r bundle
              turn spec why.acted same campaign turn_id actor fresh count enemy
      ]
