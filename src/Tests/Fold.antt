-- ===== src/Tests/Fold.antt =====
-- A turn of two actions: its mutations, its events and its projection.
use ai_rpg.Prelude.{
  ℕ, ◌+◌, ◌≡◌, refl, false, none, some, List, [], ◌∷◌, ok, All, map, id_eq, pair_eq, nat_eq,
  if◌then◌else◌,
}
use ai_rpg.Prelude.Int.{pos}
use ai_rpg.Text.{codes}
use ai_rpg.Domain.Results.{Uuid, damage, healing, consumed, success, AppliedResult, applied}
use ai_rpg.Domain.Commands.{CommandBase, attack, use_item}
use ai_rpg.Domain.Events.{
  RngMetadata, secure, domain_event, event_guards, DomainEvent, Payload, dice_rolled,
  damage_applied, healing_applied, item_consumed, action_resolved,
}
use ai_rpg.Application.Ports.{ActionRecord, CommitBundle, MechanicalNarrationInput}
use ai_rpg.Application.Mutations.{
  CanonicalMutation, hp, inventory, canonical_mutations, fold_actions, fold_changes, fold_change,
  fold_hp, fold_item, collect,
}
use ai_rpg.Application.Mutations.World.{update, World, happen, perform_all, write_all, StartsAt}
use ai_rpg.Application.Mutations.World.Commit.{canonical_mutations_lem}
use ai_rpg.Application.Resolution.Equality.{same_actions_iff, same_reactions_iff}
use ai_rpg.Application.Resolution.Reactions.{TurnCommitContext, validate_enemy_reactions}
use ai_rpg.Application.Resolution.Events.{
  EventContext, next_event, append_event, append_events, append_actions, events_of,
}
use ai_rpg.Application.Resolution.Events.Order.{Entry, IsLog}
use ai_rpg.Application.Resolution.Events.Reports.{IsTurnLog}
use ai_rpg.Application.Resolution.Project.{
  ResolutionProjection, resolved_action, bundle_guards, wrong_narration, project_resolution,
}
use ai_rpg.Application.Resolution.Project.Sound.{
  IsProjection, project_resolution-IsProjection, project_resolution-IsTurnLog,
}

abbrev own : ℕ → ℕ → CommandBase
own id ordinal = record {
  action_id = id;
  campaign_id = 90;
  turn_id = 80;
  actor_id = 1;
  ordinal = ordinal;
}

abbrev hit : AppliedResult
hit = record {
  outcome = success;
  facts = codes "hit" ∷ [];
  dice =
      record { expression = codes "1d20+3"; rolls = 12 ∷ []; modifier = pos 3; total = pos 15 }
      ∷ record { expression = codes "1d6"; rolls = 1 ∷ []; modifier = pos 0; total = pos 1 }
      ∷ [];
  state_changes = damage (record { target_id = 2; amount = 2; hp_before = 6; hp_after = 4 }) ∷ [];
}

abbrev heal : AppliedResult
heal = record {
  outcome = success;
  facts = codes "heal" ∷ [];
  dice =
      record { expression = codes "1d6+2"; rolls = 1 ∷ []; modifier = pos 2; total = pos 3 } ∷ [];
  state_changes =
      healing (record { target_id = 1; amount = 3; hp_before = 8; hp_after = 11; max_hp = 12 })
      ∷ consumed (record { owner_id = 1; item_id = 5; quantity_before = 2; quantity_after = 1 })
      ∷ [];
}

abbrev drawn : ℕ → RngMetadata
drawn n = record { source = secure; implementation_version = codes "1"; draw_index = n }

abbrev pub two_actions : List ActionRecord
two_actions =
    record {
      command = attack (record {
        base = own 70 1;
        target_id = 2;
        weapon_id = none;
        attack_bonus = pos 3;
        damage_expression = codes "1d6";
        damage_bonus = pos 1;
      });
      result = applied hit;
      rng = drawn 0 ∷ drawn 1 ∷ [];
    }
    ∷ record {
      command = use_item (record {
        base = own 71 2;
        item_id = 5;
        target_id = some 1;
        effect_ref = "healing_potion";
      });
      result = applied heal;
      rng = drawn 2 ∷ [];
    }
    ∷ []

-- The hero has 8 hit points, the goblin 6, and there are two potions.
abbrev before : World
before = record { hp = λ id. if nat_eq id 1 then 8 else 6; stock = λ key. 2 }

abbrev after : World
after = record { hp = update 1 11 (update 2 4 before.hp); stock = update (1, 5) 1 before.stock }

happened : happen (λ id. 12) before two_actions ≡ some after
unfolding happen perform_all
happened = refl

canonical_mutations_lem_example :
    (ms : List CanonicalMutation) × (canonical_mutations two_actions ≡ ok ms)
    × ((t : Uuid) → (write_all before ms).hp t ≡ after.hp t)
    × ((k : Uuid × Uuid) → (write_all before ms).stock k ≡ after.stock k)
    × All (StartsAt before) ms
canonical_mutations_lem_example =
    canonical_mutations_lem (λ id. 12) before after two_actions happened

abbrev narration : MechanicalNarrationInput
narration = record {
  player_text = codes "attack, then drink";
  committed_state_version = 8;
  resolved_actions = map resolved_action two_actions;
  enemy_reactions = [];
  max_actions = 3;
}

abbrev pub bundle : CommitBundle
bundle = record {
  campaign_id = 90;
  scene_id = 60;
  turn_id = 80;
  worker_epoch = 1;
  base_state_version = 7;
  actions = two_actions;
  narration_input = narration;
  scenario_update = none;
  enemy_reactions = [];
}

abbrev pub turn : TurnCommitContext
turn = record { scene_id = 60; actor_id = 1; max_actions = 3; enemy_id = some 2 }

abbrev pub ids : ℕ → Uuid
ids n = 500 + n

abbrev context : EventContext
context = record { bundle = bundle; first_sequence = 21; state_version = 8; event_id_factory = ids }

abbrev nth_event : ℕ → Uuid → Payload → DomainEvent
nth_event n action payload = record {
  id = 500 + n;
  campaign_id = 90;
  scene_id = some 60;
  turn_id = some 80;
  action_id = some action;
  sequence = 21 + n;
  state_version = 8;
  payload = payload;
}

abbrev seven_events : List DomainEvent
seven_events =
    nth_event 0 70 (
      dice_rolled
        (record { expression = codes "1d20+3"; rolls = 12 ∷ []; modifier = pos 3; total = pos 15 })
        (drawn 0))
    ∷ nth_event 1 70 (
        dice_rolled
          (record { expression = codes "1d6"; rolls = 1 ∷ []; modifier = pos 0; total = pos 1 })
          (drawn 1))
    ∷ nth_event 2 70
        (damage_applied (record { target_id = 2; amount = 2; hp_before = 6; hp_after = 4 }))
    ∷ nth_event 3 70 (action_resolved (applied hit))
    ∷ nth_event 4 71 (
        dice_rolled
          (record { expression = codes "1d6+2"; rolls = 1 ∷ []; modifier = pos 2; total = pos 3 })
          (drawn 2))
    ∷ nth_event 5 71 (
        healing_applied
          (record { target_id = 1; amount = 3; hp_before = 8; hp_after = 11; max_hp = 12 }))
    ∷ nth_event 6 71 (
        item_consumed
          (record { owner_id = 1; item_id = 5; quantity_before = 2; quantity_after = 1 }))
    ∷ nth_event 7 71 (action_resolved (applied heal))
    ∷ []

logged : events_of context two_actions ≡ ok seven_events
unfolding events_of append_actions append_events append_event domain_event event_guards next_event
logged = refl

abbrev three_mutations : List CanonicalMutation
three_mutations =
    hp (record { entity_id = 2; hp_before = 6; hp_after = 4; max_hp = none })
    ∷ hp (record { entity_id = 1; hp_before = 8; hp_after = 11; max_hp = some 12 })
    ∷ inventory (record { owner_id = 1; item_id = 5; quantity_before = 2; quantity_after = 1 })
    ∷ []

abbrev pub projection : ResolutionProjection
projection = record {
  actions = two_actions;
  events = seven_events;
  narration_input = narration;
  mutations = three_mutations;
  scenario_update = none;
  committed_state_version = 8;
}

narrated : wrong_narration bundle turn 8 ≡ false
unfolding wrong_narration
narrated =
    rw
      (
        (same_actions_iff narration.resolved_actions (map resolved_action two_actions)).1 refl,
        (same_reactions_iff [] []).1 refl,
      )
      refl

pub projected : project_resolution bundle turn 21 ids ≡ ok projection
unfolding project_resolution bundle_guards canonical_mutations fold_actions fold_changes fold_change
    fold_hp fold_item collect validate_enemy_reactions
projected = rw (narrated, logged) refl

project_resolution-IsProjection_example : IsProjection bundle turn 21 ids projection
project_resolution-IsProjection_example =
    project_resolution-IsProjection bundle turn 21 ids projection projected

project_resolution-IsTurnLog_example :
    (written : List Entry) × IsLog
      (record { bundle = bundle; first_sequence = 21; state_version = 8; event_id_factory = ids })
      seven_events
      written
    × IsTurnLog bundle two_actions written
project_resolution-IsTurnLog_example =
    project_resolution-IsTurnLog bundle turn 21 ids projection projected
