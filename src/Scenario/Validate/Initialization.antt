-- ===== src/Scenario/Validate/Initialization.antt =====
-- scenarios/models.py: `_validate_initialization`.
use ai_rpg.Prelude.{
  Bool, true, false, not, ◌&&◌, ◌||◌, Option, none, some, List, [], ◌∷◌, ◌++◌, map, Error,
  value_error, nat_eq, any, concat_map, contains, subset, is_unique, is_some, keep, id_eq, ref_eq,
  option_eq, pair_eq, ◌==◌, if◌then◌else◌,
}
use ai_rpg.Scenario.Model.{
  Ref, ScenarioDefinition, SceneDefinition, ScenarioAction, skill, attack, ScenarioInitialization,
  InitialItem, InitialPlacement, Visibility, public, author_only, Capability, skill_checks, combat,
  item_use, open_actions, protected_facts, capability_eq, ProtectedFact, ProtectedKind, location,
  existence, is_v2,
}

-- A reference that may be missing is known if it is missing or in the list.
abbrev pub known : Option Ref → List Ref → Bool
known none refs = true
known (some ref) refs = contains ref refs

abbrev pub is_public : Visibility → Bool
is_public public = true
is_public _ = false

abbrev pub is_author_only : Visibility → Bool
is_author_only author_only = true
is_author_only _ = false

abbrev pub is_location : ProtectedKind → Bool
is_location location = true
is_location _ = false

-- `kind in {"location", "existence"}`
abbrev pub is_structural : ProtectedKind → Bool
is_structural location = true
is_structural existence = true
is_structural _ = false

abbrev pub character_refs : ScenarioInitialization → List Ref
character_refs initial = map (λ c. c.ref) initial.characters

abbrev pub item_refs : ScenarioInitialization → List Ref
item_refs initial = map (λ i. i.ref) initial.items

abbrev pub entity_refs : ScenarioInitialization → List Ref
entity_refs initial = character_refs initial ++ item_refs initial

abbrev pub placement_keys : ScenarioInitialization → List (Ref × Ref)
placement_keys initial = map (λ p. (p.entity_ref, p.scene_ref)) initial.placements

-- `items[ref].owner_ref is not None`, where there is such an item. References are unique by then.
abbrev pub is_owned : Ref → List InitialItem → Bool
is_owned ref items = any (λ i. i.ref == ref && is_some i.owner_ref) items

unfoldable pub item_guards : ScenarioInitialization → InitialItem → List (Bool × Error)
item_guards initial item =
    (
      not (known item.owner_ref ("hero" ∷ character_refs initial)),
      value_error "Item owner references an unknown character",
    )
    ∷ []

unfoldable pub placement_guards :
    ScenarioInitialization → List Ref → InitialPlacement → List (Bool × Error)
placement_guards initial scenes p =
    (
      not (contains p.entity_ref (entity_refs initial)) || not (contains p.scene_ref scenes),
      value_error "Placement references an unknown entity or Scene",
    )
    ∷ (
      p.attackable
          && (not (is_public p.visibility) || not (contains p.entity_ref (character_refs initial))),
      value_error "Attackable placements must be public characters",
    )
    ∷ (
      is_owned p.entity_ref initial.items,
      value_error "An owned item cannot also be placed in a Scene",
    )
    ∷ []

abbrev pub skills_in : List ScenarioAction → List Ref
skills_in [] = []
skills_in (skill a ∷ rest) = a.skill_ref ∷ skills_in rest
skills_in (_ ∷ rest) = skills_in rest

abbrev pub targets_in : List ScenarioAction → List Ref
targets_in [] = []
targets_in (attack a ∷ rest) = a.target_ref ∷ targets_in rest
targets_in (_ ∷ rest) = targets_in rest

-- The placement of a target in its scene, one by then, is attackable.
abbrev pub is_attackable : ScenarioInitialization → SceneDefinition → Ref → Bool
is_attackable initial scene target =
    any (λ p. p.entity_ref == target && p.scene_ref == scene.scene_ref && p.attackable)
      initial.placements

unfoldable pub binding_guards : ScenarioInitialization → SceneDefinition → List (Bool × Error)
binding_guards initial scene =
    let targets = targets_in scene.actions in
    (
      not (is_unique (skills_in scene.actions)) || not (is_unique targets),
      value_error "Scene skill and attack bindings must be unambiguous",
    )
    ∷ map
        (λ target. (
          not (is_attackable initial scene target),
          value_error "Attack target needs an attackable placement in its Scene",
        ))
        targets

-- The tests of a fact that names an entity.
unfoldable pub entity_guards :
    ScenarioInitialization → ProtectedFact → Option Ref → List (Bool × Error)
entity_guards initial fact none = []
entity_guards initial fact (some entity) =
    (
      not (contains entity (entity_refs initial)),
      value_error "Protected fact references an unknown entity",
    )
    ∷ (
      is_structural fact.kind
          && not (
              any (λ p. p.entity_ref == entity && fact.scene_ref == some p.scene_ref)
                initial.placements),
      value_error "Protected entity must be placed in its declared Scene",
    )
    ∷ (
      is_location fact.kind
          && any (λ p. p.entity_ref == entity && not (fact.scene_ref == some p.scene_ref))
              initial.placements,
      value_error "Protected item location contradicts another placement",
    )
    ∷ []

-- `fact.entity_ref in items`
abbrev pub names_item : ScenarioInitialization → Option Ref → Bool
names_item initial none = false
names_item initial (some ref) = contains ref (item_refs initial)

unfoldable pub protected_guards :
    ScenarioDefinition → ScenarioInitialization → List Ref → ProtectedFact → List (Bool × Error)
protected_guards definition initial flags fact =
    (
      nat_eq definition.schema_version 2
          && is_structural fact.kind
          && not (is_some fact.entity_ref),
      value_error "Structural protected facts require an entity reference",
    )
    ∷ (
      not (known fact.reveal_flag_ref flags),
      value_error "Protected fact reveal references an unknown Flag",
    )
    ∷ (
      not (known fact.acquired_flag_ref flags),
      value_error "Protected fact acquisition references an unknown Flag",
    )
    ∷ (
      is_author_only fact.visibility && is_some fact.reveal_flag_ref,
      value_error "Author-only facts cannot be revealed",
    )
    ∷ (entity_guards initial fact fact.entity_ref
        ++ (
          is_some fact.acquired_flag_ref
              && (not (is_location fact.kind) || not (names_item initial fact.entity_ref)),
          value_error "Acquisition facts must describe a placed item location",
        )
          ∷ [])

abbrev pub protected_facts_of : ScenarioDefinition → List ProtectedFact
protected_facts_of definition = elim definition.world [
  | none ↦ []
  | some world ↦ world.protected_facts
]

abbrev pub if_any : Bool → Capability → List Capability
if_any b c = if b then c ∷ [] else []

abbrev pub is_nonempty : List Ref → Bool
is_nonempty [] = false
is_nonempty (r ∷ rs) = true

-- The set `needed`.
unfoldable pub needed : ScenarioDefinition → ScenarioInitialization → List Capability
needed definition initial =
    if_any (any (λ i. i.is_potion) initial.items) item_use
    ++ (if_any (is_some definition.world && is_v2 definition.ruleset_ref) open_actions
        ++ (if_any (any (λ s. is_nonempty (skills_in s.actions)) definition.scenes) skill_checks
            ++ (if_any (any (λ s. is_nonempty (targets_in s.actions)) definition.scenes) combat
                ++ if_any (any (λ f. is_some f.entity_ref) (protected_facts_of definition))
                    protected_facts)))

abbrev pub equipped_owners : List InitialItem → List (Option Ref)
equipped_owners items = map (λ i. i.owner_ref) (keep (λ i. i.equipped) items)

-- The message of the last test is without the list of what is missing.
unfoldable pub initial_guards :
    ScenarioDefinition → ScenarioInitialization → List Ref → List Ref → List (Bool × Error)
initial_guards definition initial scenes flags =
    (
      not (is_unique (entity_refs initial)) || contains "hero" (entity_refs initial),
      value_error "Initialization entity refs must be unique; hero is reserved",
    )
    ∷ (
      not (is_unique (equipped_owners initial.items)),
      value_error "Only one weapon may be equipped per owner",
    )
    ∷ (concat_map (item_guards initial) initial.items
        ++ (not (is_unique (placement_keys initial)), value_error "Duplicate entity placement")
          ∷ (concat_map (placement_guards initial scenes) initial.placements
              ++ (concat_map (binding_guards initial) definition.scenes
                  ++ (concat_map (protected_guards definition initial flags)
                        (protected_facts_of definition)
                      ++ (
                        not (is_unique definition.required_capabilities),
                        value_error "Duplicate capability requirement",
                      )
                        ∷ (
                          contains open_actions definition.required_capabilities
                              && (not (is_v2 definition.ruleset_ref)
                                  || not (is_some definition.world)),
                          value_error "Open actions require mvp_v2 and a bounded world",
                        )
                        ∷ (
                          nat_eq definition.schema_version 2
                              && not (
                                  subset (needed definition initial)
                                    definition.required_capabilities),
                          value_error "Missing capability requirements",
                        )
                        ∷ []))))

unfoldable pub guards_of :
    ScenarioDefinition → List Ref → List Ref → Option ScenarioInitialization → List (Bool × Error)
guards_of definition scenes flags none =
    (
      nat_eq definition.schema_version 2,
      value_error "Schema 2 requires explicit initialization (empty is allowed)",
    )
    ∷ []
guards_of definition scenes flags (some initial) = initial_guards definition initial scenes flags

abbrev pub initialization_guards : ScenarioDefinition → List Ref → List Ref → List (Bool × Error)
initialization_guards definition scenes flags =
    guards_of definition scenes flags definition.initialization
