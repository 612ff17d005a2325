-- ===== src/Turns/World/Fences.antt =====
-- What holds of turns after any transactions of the workers
-- (infrastructure/postgres/repositories.py).
use ai_rpg.Prelude.{
  ℕ, true, false, ◌≡◌, refl, sym, Option, List, ◌∷◌, map, All, arith, contains, is_unique, id_eq,
  inr,
}
use mathlib.Core.Path.{subst, ap}
use ai_rpg.Prelude.Rows.{Evolves, Evolves-All, Evolves-map_eq, Evolves-Among, Among, Among-All}
use ai_rpg.Text.{Text}
use ai_rpg.Turns.Rows.{ResolutionStatus, TurnModel}
use ai_rpg.Turns.Phases.{turn_phase, EndedAs, IsTold, TurnMoves-EndedAs, TurnMoves-IsTold}
use ai_rpg.Turns.Steps.{IsTurnRow, TurnStep, TurnStep-refl, TurnStep-trans}
use ai_rpg.Turns.World.{
  World, Call, opens, takes_resolution, takes_narration, routes, promotes, finalizes,
  commits_narrative, commits, saves, reserves, fails, Calls, here, then_call,
}
use ai_rpg.Turns.World.Writes.{
  IsWritten, HasTurnIds, acquire_resolution-IsWritten, acquire_narration-IsWritten,
  record_initial_route-IsWritten, promote_to_mechanical-IsWritten,
}
use ai_rpg.Turns.World.Ends.{
  finalize_not_applied-IsWritten, commit_narrative-IsWritten, save_conditionally-IsWritten,
}
use ai_rpg.Turns.World.Resolved.{commit_resolution-IsWritten}
use ai_rpg.Turns.World.Counts.{reserve-IsWritten, record_failure-IsWritten}

-- The table of turns: ids of their own, and rows in order.
pub record HasTurns (w : World) : Type 0 where
  pub ids : HasTurnIds w.tables.turns
  pub rows : All IsTurnRow w.tables.turns

-- A table of turns after a call: every row written by moves, or one new row more.
data TurnsGrow (xs ys : List TurnModel) : Type 0 where
  writes : Evolves IsWritten xs ys → TurnsGrow xs ys
  adds :
      (t : TurnModel)
      → contains t.id (map (λ u. u.id) xs) ≡ false
      → IsTurnRow t
      → ys ≡ t ∷ xs
      → TurnsGrow xs ys

Call-TurnsGrow :
    (w w' : World)
    → HasTurnIds w.tables.turns
    → Call w w'
    → TurnsGrow w.tables.turns w'.tables.turns
Call-TurnsGrow w w' u (opens t fresh row same) = rw same (adds t fresh row refl)
Call-TurnsGrow w w' u (takes_resolution limits asked locked started now same) = rw same (
    writes (
      acquire_resolution-IsWritten limits asked locked started now w.tables.campaigns w.tables.turns
        u))
Call-TurnsGrow w w' u (takes_narration limits asked locked started now same) = rw same (
    writes (
      acquire_narration-IsWritten limits asked locked started now w.tables.campaigns w.tables.turns
        u))
Call-TurnsGrow w w' u (routes turn_id worker_epoch route version reasons now same) = rw same (
    writes (
      record_initial_route-IsWritten turn_id worker_epoch route version reasons now w.tables.turns
        u))
Call-TurnsGrow w w' u (promotes turn_id worker_epoch now same) =
    rw same (writes (promote_to_mechanical-IsWritten turn_id worker_epoch now w.tables.turns u))
Call-TurnsGrow w w' u (finalizes turn_id worker_epoch narration now event_id done after h same) =
    rw same (
      writes (
        finalize_not_applied-IsWritten turn_id worker_epoch narration now event_id w.tables after
          done u h))
Call-TurnsGrow w w' u
      (commits_narrative authorized commit started now event_id version after h same) =
    rw same (
      writes (
        commit_narrative-IsWritten authorized commit started now event_id w.tables after version u
          h))
Call-TurnsGrow w w' u
      (commits authorized is_open context_of factory check write bundle started now version after
        scenario h same) =
    rw same (
      writes (
        commit_resolution-IsWritten authorized is_open context_of factory check write bundle started
          now w.tables after w.scenario scenario version u h))
Call-TurnsGrow w w' u
      (saves campaign_id turn_id worker_epoch narration choices reason now event_id done after h
        same) =
    rw same (
      writes (
        save_conditionally-IsWritten campaign_id turn_id worker_epoch narration choices reason now
          event_id w.tables after done u h))
Call-TurnsGrow w w' u
      (reserves settings turn_id phase worker_epoch started now later done usage turns h same) =
    rw same (
      writes (
        reserve-IsWritten settings turn_id phase worker_epoch started now later w.usage usage
          w.tables turns done u h))
Call-TurnsGrow w w' u
      (fails turn_id phase worker_epoch code max_attempts now disposition turns h same) =
    rw same (
      writes (
        record_failure-IsWritten turn_id phase worker_epoch code max_attempts now w.tables
          disposition turns u h))

grown_ids : (xs ys : List TurnModel) → TurnsGrow xs ys → HasTurnIds xs → HasTurnIds ys
grown_ids xs ys (writes step) u =
    subst (λ ids. is_unique ids ≡ true)
      (sym (Evolves-map_eq (λ t. t.id) IsWritten xs ys (λ t v k. k.same_id) step)) u
grown_ids xs ys (adds t fresh row same) u = rw same (ground arith)

grown_rows : (xs ys : List TurnModel) → TurnsGrow xs ys → All IsTurnRow xs → All IsTurnRow ys
grown_rows xs ys (writes step) rows =
    Evolves-All IsWritten IsTurnRow IsTurnRow xs ys (λ t v k row. (k.sound row).row) step rows
grown_rows xs ys (adds t fresh row same) rows = rw same (row, rows)

Call-HasTurns : (w w' : World) → Call w w' → HasTurns w → HasTurns w'
Call-HasTurns w w' call has =
    let grown = Call-TurnsGrow w w' has.ids call in
    record { ids = grown_ids _ _ grown has.ids; rows = grown_rows _ _ grown has.rows }

-- If turns have ids of their own, no turn has a narration before its resolution ended, and none has
-- made more calls of models than its budget, then all this holds after any transactions of the
-- workers.
pub Calls-HasTurns : (w w' : World) → Calls w w' → HasTurns w → HasTurns w'
Calls-HasTurns w w' here has = has
Calls-HasTurns w w' (then_call {mid} rest call) has =
    Call-HasTurns mid w' call (Calls-HasTurns w mid rest has)

-- The row of a turn in a later world, where its phase has moved as it may.
abbrev pub LaterTurn : TurnModel → World → Type 0
LaterTurn t w = (u : TurnModel) × Among u w.tables.turns × TurnStep t u

grown_later :
    (t : TurnModel) (xs ys : List TurnModel)
    → TurnsGrow xs ys
    → All IsTurnRow xs
    → Among t xs
    → (u : TurnModel) × Among u ys × TurnStep t u
grown_later t xs ys (writes step) rows among =
    let (u, later, k) = Evolves-Among IsWritten xs ys t step among in
    (u, later, k.sound (Among-All IsTurnRow t xs among rows))
grown_later t xs ys (adds v fresh row same) rows among = (
  t,
  subst (Among t) (sym same) (inr among),
  TurnStep-refl t (Among-All IsTurnRow t xs among rows),
)

-- If the turns of a world are in order, then after any transactions of the workers each turn is still
-- there with its campaign, scene, owner, actor and budget; its phase has moved as the machine of
-- phases allows; and its count of calls has not gone down.
pub Calls-LaterTurn :
    (w w' : World) (t : TurnModel)
    → Calls w w'
    → HasTurns w
    → Among t w.tables.turns
    → LaterTurn t w'
Calls-LaterTurn w w' t here has among =
    (t, among, TurnStep-refl t (Among-All IsTurnRow t w.tables.turns among has.rows))
Calls-LaterTurn w w' t (then_call {mid} rest call) has among =
    let (u, later, first) = Calls-LaterTurn w mid t rest has among in
    let mid_has = Calls-HasTurns w mid rest has in
    let (v, last, second) =
      grown_later u mid.tables.turns w'.tables.turns (Call-TurnsGrow mid w' mid_has.ids call)
        mid_has.rows later in
    (v, last, TurnStep-trans t u v first second)

-- If the turns of a world are in order and one of them has been resolved and told, then after any
-- transactions of the workers its resolution has ended the same way and with the same version, and
-- what was told of it is the same.
pub Calls-EndedAs :
    (w w' : World) (t : TurnModel) (s : ResolutionStatus) (v : Option ℕ) (n : Option Text)
    → Calls w w'
    → HasTurns w
    → Among t w.tables.turns
    → EndedAs s v (turn_phase t)
    → IsTold n (turn_phase t)
    → (u : TurnModel) × Among u w'.tables.turns
      × (u.id ≡ t.id)
      × EndedAs s v (turn_phase u)
      × IsTold n (turn_phase u)
Calls-EndedAs w w' t s v n calls has among ended told =
    let (u, later, step) = Calls-LaterTurn w w' t calls has among in
    (
      u,
      later,
      ap (λ p. p.0) step.same,
      TurnMoves-EndedAs s v step.moves ended,
      TurnMoves-IsTold n step.moves told,
    )
