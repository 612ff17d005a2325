-- ===== src/Scenario/Lore.antt =====
-- application/legacy_scenario_policy.py: the frozen heuristics for two built-in scenarios, and the
-- guard against trips beyond the world, `_impossible_trip` of application/scenarios.py.
use ai_rpg.Prelude.{
  Bool, false, not, ◌&&◌, Option, none, some, List, [], ◌∷◌, any, contains, ref_eq, nat_eq, ◌==◌,
  if◌then◌else◌,
}
use ai_rpg.Text.{Text, codes}
use ai_rpg.Text.Regex.{Regex, lit, seq, alt, up_to, one_of, search}
use ai_rpg.Scenario.Model.{Ref, BoundedWorld, ScenarioDefinition}

-- `{destination}(?:へ|に|まで).{0,6}(?:向か|行|移動|飛|ワープ)`
abbrev pub trip_to : Text → Regex
trip_to destination = seq (lit destination) (
    seq (one_of (codes "へ" ∷ codes "に" ∷ codes "まで" ∷ []))
      (seq (up_to 6) (one_of (codes "向か" ∷ codes "行" ∷ codes "移動" ∷ codes "飛" ∷ codes "ワープ" ∷ []))))

unfoldable pub impossible_trip : Text → List Text → Bool
impossible_trip text destinations = any (λ d. search (trip_to d) text) destinations

-- The parts that the patterns repeat.
abbrev seal : Regex
seal = one_of (codes "聖印" ∷ codes "依頼品" ∷ [])

abbrev hall : Regex
hall = one_of (codes "広間" ∷ codes "長椅子" ∷ codes "記録庫" ∷ codes "裏庭" ∷ [])

abbrev is_there : Regex
is_there = one_of (codes "ある" ∷ codes "置かれ" ∷ codes "隠され" ∷ [])

abbrev altar_empty : Regex
altar_empty = seq (one_of (codes "最奥の間" ∷ codes "奥の部屋" ∷ codes "祭壇" ∷ [])) (
    seq (up_to 25) (
      alt (lit (codes "空")) (
        alt (seq (lit (codes "誰も")) (seq (up_to 5) (one_of (codes "いな" ∷ codes "おらず" ∷ [])))) (
          alt (seq (lit (codes "何も")) (seq (up_to 8) (one_of (codes "ない" ∷ codes "置かれていな" ∷ []))))
            (lit (codes "品物も存在しない"))))))

abbrev seal_gone : Regex
seal_gone =
    seq seal
      (seq (up_to 20) (one_of (codes "存在しない" ∷ codes "消えた" ∷ codes "奪われた" ∷ codes "もうない" ∷ [])))

abbrev guard_gone : Regex
guard_gone = seq (one_of (codes "ゴブリン" ∷ codes "守衛" ∷ codes "見張り" ∷ [])) (
    seq (up_to 40)
      (one_of (codes "いない" ∷ codes "おらず" ∷ codes "立ち去" ∷ codes "見張りをやめ" ∷ codes "理由を聞かず" ∷ [])))

abbrev pub chapel_patterns : List Regex
chapel_patterns =
    altar_empty
    ∷ seal_gone
    ∷ seq seal (seq (up_to 25) (seq hall (seq (up_to 10) is_there)))
    ∷ seq hall (seq (up_to 12) (seq seal (seq (up_to 12) is_there)))
    ∷ guard_gone
    ∷ []

unfoldable pub contradicts_chapel_lore : Text → List Text → Bool
contradicts_chapel_lore text protected_terms =
    any (λ term. search (lit term) text) protected_terms
    && any (λ pattern'. search pattern' text) chapel_patterns

abbrev journal : Regex
journal = one_of (codes "航海日誌" ∷ codes "日誌" ∷ [])

abbrev other_place : Regex
other_place = one_of (codes "船着き場" ∷ codes "舟小屋" ∷ codes "外階段" ∷ codes "岩礁" ∷ [])

abbrev topic : Regex
topic = one_of (codes "は" ∷ codes "が" ∷ [])

abbrev found_there : Regex
found_there = one_of (codes "ある" ∷ codes "置かれ" ∷ codes "隠され" ∷ codes "見つか" ∷ [])

abbrev pub lighthouse_patterns : List Regex
lighthouse_patterns =
    seq journal (seq topic (seq (up_to 25) (seq other_place (seq (up_to 12) found_there))))
    ∷ seq other_place (seq (up_to 25) (seq journal (seq topic (seq (up_to 12) found_there))))
    ∷ []

unfoldable pub contradicts_lighthouse_lore : Text → Bool
contradicts_lighthouse_lore text = any (λ pattern'. search pattern' text) lighthouse_patterns

abbrev pub contradicts_world : ScenarioDefinition → Option BoundedWorld → Text → List Ref → Bool
contradicts_world definition none text resulting_flags = false
contradicts_world definition (some world) text resulting_flags =
    if not (nat_eq definition.schema_version 1)
    then false
    else if definition.scenario_ref == "ruined_chapel" && nat_eq definition.version 3
    then contradicts_chapel_lore text world.protected_terms
    else if definition.scenario_ref == "mist_lighthouse" && nat_eq definition.version 1
    then not (contains world.goal_flag_ref resulting_flags) && contradicts_lighthouse_lore text
    else false

unfoldable pub contradicts_legacy_lore : ScenarioDefinition → Text → List Ref → Bool
contradicts_legacy_lore definition text resulting_flags =
    contradicts_world definition definition.world text resulting_flags
