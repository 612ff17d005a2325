-- ===== src/Application/Combat/Reaction.antt =====
-- What the enemy's turn does: nothing, or one attack.
use ai_rpg.Prelude.{
  Bool, true, false, ◌&&◌, ◌||◌, not, Option, none, some, List, [], ok, or_raise, key_error, nat_eq,
  any, find, contains, lookup, id_eq, ref_eq, or_raise-eq-ok,
}
use ai_rpg.Domain.Results.{Uuid, AppliedResult}
use ai_rpg.Domain.Character.{CharacterState}
use ai_rpg.Engine.Random.{RandomSource, Draw, lift}
use ai_rpg.Engine.Ruleset.{resolve_attack}
use ai_rpg.Scenario.Model.{ScenarioCombatDefinition}
use ai_rpg.Scenario.Progress.{Catalog, current_scene}
use ai_rpg.Application.Ports.{
  ScenarioRunSnapshot, EntityRow, CanonicalSnapshot, ResolutionWorkItem, ActionRecord,
  ScenarioProgressUpdate,
}
use ai_rpg.Application.Resolution.Reactions.{is_applied}
use ai_rpg.Prelude.{◌≡◌, ◌⊎◌, inl, inr, refl, Bool-cases, from_ok}
use mathlib.Core.Path.{subst}
use ai_rpg.Engine.Random.{bind-eq-ok}
use ai_rpg.Engine.Ruleset.Attack.{resolve_attack-IsAttackOutcome}
use ai_rpg.Application.Combat.{
  CombatResolution, leaves_scene, is_enemy_row, present_enemy, is_attacked, reaction_command,
  ReactionContext, react, unchanged, react_if_up, enemy_turn, fight, in_scenario,
  resolve_enemy_reaction,
}
use ai_rpg.Application.Combat.Characters.{characters_from, apply_actions}
use ai_rpg.Application.Combat.Standing.{IsStanding, apply_actions-IsStanding}
use ai_rpg.Application.Combat.Fights.{
  IsEnemy, IsReaction, IsFight, IsScene, IsQuiet, no_scenario, no_fight, not_started, down,
  either_down, over_because, neither, present_enemy-eq-ok, either_on, acts_and_stays,
}

module _ {S : Type 0} (source : RandomSource S) (ctx : ReactionContext) where
  abbrev pub Reacts :
      ResolutionWorkItem
      → List ActionRecord
      → Option ScenarioProgressUpdate
      → ScenarioRunSnapshot
      → ScenarioCombatDefinition
      → Uuid
      → CharacterState
      → CharacterState
      → CombatResolution
      → Type 0
  Reacts work actions update run combat enemy_id attacker target r =
      (result : AppliedResult) × IsReaction ctx work actions update run combat enemy_id attacker
        target result r

  -- Nothing, or a reaction.
  abbrev pub IsUnchanged : Option ScenarioProgressUpdate → CombatResolution → Type 0
  IsUnchanged update r = (r.reactions ≡ []) × (r.scenario_update ≡ update)

  unchanged_lem :
      (update : Option ScenarioProgressUpdate) (r : CombatResolution) (s : S)
      → (unchanged source ctx update s).0 ≡ ok r
      → IsUnchanged update r
  unchanged_lem update r s h = subst (IsUnchanged update) (from_ok h) (refl, refl)

  react-Reacts :
      (work : ResolutionWorkItem) (actions : List ActionRecord)
      (update : Option ScenarioProgressUpdate) (run : ScenarioRunSnapshot)
      (combat : ScenarioCombatDefinition) (enemy_id : Uuid) (attacker target : CharacterState)
      (s : S) (r : CombatResolution)
      → (react source ctx work actions update run combat enemy_id attacker target s).0 ≡ ok r
      → Reacts work actions update run combat enemy_id attacker target r
  unfolding react
  react-Reacts work actions update run combat enemy_id attacker target s r h =
      let command = reaction_command work combat ctx.reaction_id enemy_id attacker in
      let (result, e, h₁) = bind-eq-ok (resolve_attack source command attacker target) _ s r h in
      let (same_actor, same_target, up, target_up, outcome) =
        resolve_attack-IsAttackOutcome source command attacker target s result e in
      subst (Reacts work actions update run combat enemy_id attacker target) (from_ok h₁) (
        result,
        record {
          is_attacker = same_actor;
          is_target = same_target;
          attacker_up = up;
          target_up = target_up;
          outcome = outcome;
          reacted = refl;
          updated = refl;
        },
      )

  react_if_up_lem :
      (down : Bool) (update : Option ScenarioProgressUpdate) (m : Draw S CombatResolution) (s : S)
      (r : CombatResolution)
      → (react_if_up source ctx down update m s).0 ≡ ok r
      → ((down ≡ true) × IsUnchanged update r) ⊎ ((m s).0 ≡ ok r)
  react_if_up_lem true update m s r h = inl (refl, unchanged_lem update r s h)
  react_if_up_lem false update m s r h = inr h

  -- What the outcome of `resolve_enemy_reaction` is, where the enemy reacts.
  abbrev pub IsFought :
      ResolutionWorkItem
      → CanonicalSnapshot
      → List ActionRecord
      → Option ScenarioProgressUpdate
      → Option Catalog
      → CombatResolution
      → Type 0
  IsFought work snapshot actions update catalog r =
      (run : ScenarioRunSnapshot) × (combat : ScenarioCombatDefinition) × (enemy : EntityRow)
      × (attacker : CharacterState) × (target : CharacterState) × IsScene snapshot catalog run
          (some combat)
      × IsFight snapshot actions update run combat enemy
      × IsStanding snapshot.characters actions enemy.id attacker
      × IsStanding snapshot.characters actions work.actor_id target
      × Reacts work actions update run combat enemy.id attacker target r

  abbrev pub IsResolved :
      ResolutionWorkItem
      → CanonicalSnapshot
      → List ActionRecord
      → Option ScenarioProgressUpdate
      → Option Catalog
      → CombatResolution
      → Type 0
  IsResolved work snapshot actions update catalog r =
      (IsUnchanged update r × IsQuiet work snapshot actions update catalog)
      ⊎ IsFought work snapshot actions update catalog r

  down-IsResolved :
      (work : ResolutionWorkItem) (snapshot : CanonicalSnapshot) (actions : List ActionRecord)
      (update : Option ScenarioProgressUpdate) (catalog : Option Catalog)
      (run : ScenarioRunSnapshot) (combat : ScenarioCombatDefinition) (enemy : EntityRow)
      (attacker target : CharacterState)
      → IsScene snapshot catalog run (some combat)
      → IsEnemy snapshot combat.enemy_ref enemy
      → IsStanding snapshot.characters actions enemy.id attacker
      → IsStanding snapshot.characters actions work.actor_id target
      → (nat_eq attacker.current_hp 0 || nat_eq target.current_hp 0) ≡ true
      → IsQuiet work snapshot actions update catalog
  down-IsResolved work snapshot actions update catalog run combat enemy attacker target scene
        is_enemy stands faces h =
      elim (either_down attacker.current_hp target.current_hp h) [
        | inl zero_hp ↦
            down run combat enemy attacker enemy.id scene is_enemy (inl refl) stands zero_hp
        | inr zero_hp ↦
            down run combat enemy target work.actor_id scene is_enemy (inr refl) faces zero_hp
      ]

  enemy_turn_lem :
      (work : ResolutionWorkItem) (snapshot : CanonicalSnapshot) (actions : List ActionRecord)
      (update : Option ScenarioProgressUpdate) (catalog : Option Catalog)
      (run : ScenarioRunSnapshot) (combat : ScenarioCombatDefinition) (enemy : EntityRow) (s : S)
      (r : CombatResolution)
      → IsScene snapshot catalog run (some combat)
      → IsEnemy snapshot combat.enemy_ref enemy
      → any (λ a. is_applied a.result) actions ≡ true
      → leaves_scene update ≡ false
      → (enemy_turn source ctx work snapshot actions update run combat enemy s).0 ≡ ok r
      → IsResolved work snapshot actions update catalog r
  unfolding enemy_turn
  enemy_turn_lem work snapshot actions update catalog run combat enemy s r scene is_enemy acted
        stays h =
      let started = contains combat.started_flag run.flags in
      let attacked = is_attacked enemy.id actions in
      elim (Bool-cases (not started && not attacked)) [
        | inl quiet ↦
            let (no_flag, no_attack) = neither started attacked quiet in
            inl (
              unchanged_lem update r s (rw quiet at h),
              not_started run combat enemy scene is_enemy no_flag no_attack,
            )
        | inr on ↦
            let (saved, e, h₁) =
              bind-eq-ok (lift (characters_from [] snapshot.characters)) _ s r (rw on at h) in
            let (after, f, h₂) = bind-eq-ok (lift (apply_actions saved actions)) _ s r h₁ in
            let (attacker, g, h₃) =
              bind-eq-ok (lift (or_raise (lookup enemy.id after) key_error)) _ s r h₂ in
            let (target, i, h₄) =
              bind-eq-ok (lift (or_raise (lookup work.actor_id after) key_error)) _ s r h₃ in
            let stands =
              apply_actions-IsStanding snapshot.characters actions saved after enemy.id attacker e f
                (or_raise-eq-ok _ _ attacker g) in
            let faces =
              apply_actions-IsStanding snapshot.characters actions saved after work.actor_id target
                e f (or_raise-eq-ok _ _ target i) in
            elim (react_if_up_lem (nat_eq attacker.current_hp 0 || nat_eq target.current_hp 0)
              update _ s r h₄) [
                | inl (fallen, same) ↦ inl (
                  same,
                  down-IsResolved work snapshot actions update catalog run combat enemy attacker
                      target scene is_enemy stands faces fallen,
                )
                | inr acts ↦ inr (
                  run,
                  combat,
                  enemy,
                  attacker,
                  target,
                  scene,
                  record {
                    acted = acted;
                    stays = stays;
                    is_enemy = is_enemy;
                    started = either_on started attacked on;
                  },
                  stands,
                  faces,
                  react-Reacts work actions update run combat enemy.id attacker target s r acts,
                )
              ]
      ]

  fight_lem :
      (work : ResolutionWorkItem) (snapshot : CanonicalSnapshot) (actions : List ActionRecord)
      (update : Option ScenarioProgressUpdate) (catalog : Option Catalog)
      (run : ScenarioRunSnapshot) (o : Option ScenarioCombatDefinition) (s : S)
      (r : CombatResolution)
      → IsScene snapshot catalog run o
      → (fight source ctx work snapshot actions update run o s).0 ≡ ok r
      → IsResolved work snapshot actions update catalog r
  unfolding fight
  fight_lem work snapshot actions update catalog run none s r scene h =
      inl (unchanged_lem update r s h, no_fight run scene)
  fight_lem work snapshot actions update catalog run (some combat) s r scene h =
      let acted = any (λ a. is_applied a.result) actions in
      elim (Bool-cases (not acted || leaves_scene update)) [
        | inl over ↦ inl (unchanged_lem update r s (rw over at h), over_because actions update over)
        | inr on ↦
            let row = find (is_enemy_row combat.enemy_ref) snapshot.entities in
            let (enemy, e, h₁) =
              bind-eq-ok (lift (present_enemy snapshot row)) _ s r (rw on at h) in
            let (found, present) = present_enemy-eq-ok snapshot row enemy e in
            let (yes_acted, stays) = acts_and_stays acted (leaves_scene update) on in
            enemy_turn_lem work snapshot actions update catalog run combat enemy s r scene
              (record { found = found; present = present }) yes_acted stays h₁
      ]

  in_scenario_lem :
      (work : ResolutionWorkItem) (snapshot : CanonicalSnapshot) (actions : List ActionRecord)
      (update : Option ScenarioProgressUpdate) (o : Option ScenarioRunSnapshot)
      (catalog : Option Catalog) (s : S) (r : CombatResolution)
      → snapshot.scenario_run ≡ o
      → (in_scenario source ctx work snapshot actions update o catalog s).0 ≡ ok r
      → IsResolved work snapshot actions update catalog r
  unfolding in_scenario
  in_scenario_lem work snapshot actions update (some run) (some catalog) s r is_run h =
      let (current, e, h₁) = bind-eq-ok (lift (current_scene catalog run)) _ s r h in
      fight_lem work snapshot actions update (some catalog) run current.scene.combat s r
        (record {
          scenarios = catalog;
          current = current;
          is_run = is_run;
          is_catalog = refl;
          is_current = e;
          has_fight = refl;
        })
        h₁
  in_scenario_lem work snapshot actions update (some run) none s r is_run h =
      inl (unchanged_lem update r s h, no_scenario (inr refl))
  in_scenario_lem work snapshot actions update none catalog s r is_run h =
      inl (unchanged_lem update r s h, no_scenario (inl is_run))

  -- Where the enemy's turn returns, one of two things holds. Either nothing happened, the progress is
  -- the player's own, and for a reason: there is no run or no catalog, the run's scene has no fight,
  -- nothing the player did was applied, the player leaves the scene or ends the run, the fight was
  -- neither going on nor started by an attack on the enemy, or the enemy or the acting character has
  -- no hit points left. Or the player did something that was applied and stays in the run's scene,
  -- whose fight is going on or was just started by an attack on the enemy, and the reaction is one
  -- attack on the acting character by the fight's npc, who is present, with the attack's outcome and
  -- the metadata of its dice. Both characters are as the snapshot has them, with the hit points that
  -- the changes of the player's actions left them.
  pub resolve_enemy_reaction_lem :
      (work : ResolutionWorkItem) (snapshot : CanonicalSnapshot) (actions : List ActionRecord)
      (update : Option ScenarioProgressUpdate) (catalog : Option Catalog) (s : S)
      (r : CombatResolution)
      → (resolve_enemy_reaction source ctx work snapshot actions update catalog s).0 ≡ ok r
      → IsResolved work snapshot actions update catalog r
  unfolding resolve_enemy_reaction
  resolve_enemy_reaction_lem work snapshot actions update catalog s r h =
      in_scenario_lem work snapshot actions update snapshot.scenario_run catalog s r refl h
