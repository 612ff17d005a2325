-- ===== src/Turns/World/Replays.antt =====
-- A bundle that a worker commits again (infrastructure/postgres/repositories.py).
use ai_rpg.Prelude.{
  ℕ, ◌+◌, Bool, true, false, ◌&&◌, ◌≡◌, refl, Option, some, List, Result, ok, Bool-cases, inl, inr,
  ◌==◌, id_eq, >>=-eq-ok, raise_if-eq-ok, from_ok, or_raise-eq-ok, length,
}
use mathlib.Core.Path.{subst}
use ai_rpg.Prelude.Rows.{find-update, find-Among, find_only}
use ai_rpg.Prelude.{find-holds, nat_eq_iff, arith, err, authorization_error, if◌then◌else◌, ap}
use ai_rpg.Text.{Text}
use ai_rpg.Turns.Rows.{
  ResolutionStatus, pending, resolving, committed, not_applied, failed, NarrationStatus, unwritten,
  generating, completed, fallback,
}
use ai_rpg.Turns.Phases.{EndedAs, TurnMoves-EndedAs, phase_of_row, phase_of_end, turn_phase}
use ai_rpg.Turns.World.{World, Calls, here, then_call, commits}
use ai_rpg.Turns.World.Fences.{HasTurns, Calls-HasTurns, Calls-LaterTurn}
use ai_rpg.Domain.Results.{Uuid}
use ai_rpg.Application.Ports.{CommitBundle}
use ai_rpg.Application.Mutations.{CanonicalMutation}
use ai_rpg.Application.Resolution.Reactions.{TurnCommitContext}
use ai_rpg.Application.Resolution.Project.{ResolutionProjection}
use ai_rpg.Turns.Rows.{TurnModel, CampaignModel, TurnTables, is_stopped}
use ai_rpg.Turns.Commits.{campaign_of, turn_of, is_committed, write_turn}
use ai_rpg.Turns.Resolve.{
  ScenarioTables, commit_resolution, commit_row, write_projection, committed_turn,
}
use ai_rpg.Turns.World.Resolved.{commit_row-write_projection}

-- A row that is committed, and its phase.
committed_phase :
    (s : ResolutionStatus) (v w : Option ℕ) (e : ℕ) (telling : NarrationStatus) (m : ℕ)
    (n : Option Text)
    → is_committed s ≡ true
    → w ≡ v
    → EndedAs committed v (phase_of_row s w e telling m n)
committed_phase pending v w e telling m n h same = cc
committed_phase resolving v w e telling m n h same = cc
committed_phase not_applied v w e telling m n h same = cc
committed_phase failed v w e telling m n h same = cc
committed_phase committed v w e unwritten m n h same = (refl, same)
committed_phase committed v w e generating m n h same = (refl, same)
committed_phase committed v w e completed m n h same = (refl, same)
committed_phase committed v w e fallback m n h same = (refl, same)

ended_status :
    (s : ResolutionStatus) (v w : Option ℕ) (e : ℕ) (telling : NarrationStatus) (m : ℕ)
    (n : Option Text)
    → EndedAs committed v (phase_of_end s w e telling m n)
    → (s ≡ committed) × (w ≡ v)
ended_status s v w e unwritten m n h = h
ended_status s v w e generating m n h = h
ended_status s v w e completed m n h = h
ended_status s v w e fallback m n h = h

phase-committed :
    (s : ResolutionStatus) (v w : Option ℕ) (e : ℕ) (telling : NarrationStatus) (m : ℕ)
    (n : Option Text)
    → EndedAs committed v (phase_of_row s w e telling m n)
    → (is_committed s ≡ true) × (w ≡ v)
phase-committed pending v w e telling m n h = absurd h
phase-committed resolving v w e telling m n h = absurd h
phase-committed not_applied v w e telling m n h =
    let (same, version) = ended_status not_applied v w e telling m n h in
    (ap is_committed same, version)
phase-committed failed v w e telling m n h =
    let (same, version) = ended_status failed v w e telling m n h in (ap is_committed same, version)
phase-committed committed v w e telling m n h =
    let (same, version) = ended_status committed v w e telling m n h in (refl, version)

committed-EndedAs :
    (t : TurnModel) (v : Option ℕ)
    → is_committed t.resolution_status ≡ true
    → t.committed_state_version ≡ v
    → EndedAs committed v (turn_phase t)
unfolding turn_phase
committed-EndedAs t v h same =
    committed_phase t.resolution_status v t.committed_state_version t.resolution.worker_epoch
      t.narration_status t.narrating.worker_epoch t.narration h same

ended_row :
    (t : TurnModel) (v : Option ℕ)
    → EndedAs committed v (turn_phase t)
    → (is_committed t.resolution_status ≡ true) × (t.committed_state_version ≡ v)
unfolding turn_phase
ended_row t v h =
    phase-committed t.resolution_status v t.committed_state_version t.resolution.worker_epoch
      t.narration_status t.narrating.worker_epoch t.narration h

both_named :
    (x u : TurnModel) (turn_id campaign_id : Uuid)
    → (x.id == turn_id && x.campaign_id == campaign_id) ≡ true
    → (u.id == turn_id && u.campaign_id == campaign_id) ≡ true
    → x.id ≡ u.id
both_named x u turn_id campaign_id h k =
    ground (arith, nat_eq_iff x.id turn_id, nat_eq_iff u.id turn_id)

module _ (authorized : TurnModel → Bool) (is_open : CampaignModel → Bool)
    (context_of : TurnModel → TurnCommitContext) (event_id_factory : ℕ → Uuid)
    (check_mutations write_mutations : List CanonicalMutation → Result (Unit {0})) where
  -- The tables have the campaign, not stopped, and the turn, committed with a version.
  abbrev IsDone : Uuid → Uuid → Option ℕ → TurnTables → Type 0
  IsDone campaign_id turn_id version tables =
      (c : CampaignModel) × (t : TurnModel) × (campaign_of campaign_id tables.campaigns ≡ ok c)
      × (is_stopped c ≡ false)
      × (turn_of turn_id campaign_id tables.turns ≡ ok t)
      × (is_committed t.resolution_status ≡ true)
      × (t.committed_state_version ≡ version)

  projection-IsDone :
      (bundle : CommitBundle) (projection : ResolutionProjection) (started : ℕ) (c : CampaignModel)
      (t : TurnModel) (tables : TurnTables)
      → campaign_of bundle.campaign_id tables.campaigns ≡ ok c
      → is_stopped c ≡ false
      → turn_of bundle.turn_id bundle.campaign_id tables.turns ≡ ok t
      → IsDone bundle.campaign_id bundle.turn_id
          (some projection.committed_state_version)
          (write_projection bundle projection started c t tables)
  unfolding write_projection write_turn committed_turn
  projection-IsDone bundle projection started c t tables found running mine = (
    record c {
      state_version = projection.committed_state_version;
      event_sequence = c.event_sequence + length projection.events;
    },
    committed_turn projection.committed_state_version started projection.narration_input t,
    rw
        (find-update (λ x. x.id) (λ x. x.id == bundle.campaign_id)
          (λ x. record x {
            state_version = projection.committed_state_version;
            event_sequence = x.event_sequence + length projection.events;
          })
          tables.campaigns c (λ x. refl) (or_raise-eq-ok _ _ c found))
        refl,
    running,
    rw
        (find-update (λ u. u.id)
          (λ u. u.id == bundle.turn_id && u.campaign_id == bundle.campaign_id)
          (committed_turn projection.committed_state_version started projection.narration_input)
          tables.turns t (λ x. refl) (or_raise-eq-ok _ _ t mine))
        refl,
    refl,
    refl,
  )

  commit_row-IsDone :
      (bundle : CommitBundle) (started now : ℕ) (c : CampaignModel) (t : TurnModel)
      (tables after : TurnTables) (scenario scenario' : ScenarioTables) (version : Option ℕ)
      → campaign_of bundle.campaign_id tables.campaigns ≡ ok c
      → is_stopped c ≡ false
      → turn_of bundle.turn_id bundle.campaign_id tables.turns ≡ ok t
      → commit_row authorized is_open context_of event_id_factory check_mutations write_mutations
          bundle started now c t tables scenario
        ≡ ok (version, after, scenario')
      → IsDone bundle.campaign_id bundle.turn_id version after
  commit_row-IsDone bundle started now c t tables after scenario scenario' version found running
        mine h =
      let (projection, _, versions, written) =
        commit_row-write_projection authorized is_open context_of event_id_factory check_mutations
          write_mutations bundle started now c t tables after scenario scenario' version h in
      subst (λ v. IsDone bundle.campaign_id bundle.turn_id v after) versions
        (subst
          (λ made.
            IsDone bundle.campaign_id bundle.turn_id (some projection.committed_state_version) made)
          written (projection-IsDone bundle projection started c t tables found running mine))

  -- A commit that returned has left its turn committed with the version that it returned.
  commit_resolution-IsDone :
      (bundle : CommitBundle) (started now : ℕ) (tables after : TurnTables)
      (scenario scenario' : ScenarioTables) (version : Option ℕ)
      → commit_resolution authorized is_open context_of event_id_factory check_mutations
          write_mutations bundle started now tables scenario
        ≡ ok (version, after, scenario')
      → IsDone bundle.campaign_id bundle.turn_id version after
  unfolding commit_resolution
  commit_resolution-IsDone bundle started now tables after scenario scenario' version h =
      let (c, found, rest) = >>=-eq-ok (campaign_of bundle.campaign_id tables.campaigns) _ h in
      let (running, rest') = raise_if-eq-ok (is_stopped c) _ _ _ rest in
      let (t, mine, last) =
        >>=-eq-ok (turn_of bundle.turn_id bundle.campaign_id tables.turns) _ rest' in
      elim (Bool-cases (is_committed t.resolution_status)) [
        | inl done ↦
            let same = from_ok (rw done at last) in
            subst (λ p. IsDone bundle.campaign_id bundle.turn_id p.0 p.1) same
              (c, t, found, running, mine, done, refl)
        | inr fresh ↦
            commit_row-IsDone bundle started now c t tables after scenario scenario' version found
              running mine (rw fresh at last)
      ]

  -- The turn as it is found after later transactions.
  IsDone-Calls :
      (w w' : World) (campaign_id turn_id : Uuid) (version : Option ℕ)
      → HasTurns w
      → Calls w w'
      → IsDone campaign_id turn_id version w.tables
      → (u : TurnModel) × (turn_of turn_id campaign_id w'.tables.turns ≡ ok u)
        × (is_committed u.resolution_status ≡ true)
        × (u.committed_state_version ≡ version)
  IsDone-Calls w w' campaign_id turn_id version has calls (c, t, _, _, mine, done, same) =
      let row = or_raise-eq-ok _ _ t mine in
      let named : TurnModel → Bool = λ x. x.id == turn_id && x.campaign_id == campaign_id in
      let (u, later, step) =
        Calls-LaterTurn w w' t calls has (find-Among named w.tables.turns t row) in
      let has' = Calls-HasTurns w w' calls has in
      let same_id : u.id ≡ t.id = ap (λ p. p.0) step.same in
      let same_campaign : u.campaign_id ≡ t.campaign_id = ap (λ p. p.1) step.same in
      let holds = find-holds named w.tables.turns t row in
      let u_holds : named u ≡ true = rw (same_id, same_campaign) holds in
      let found =
        find_only (λ x. x.id) named w'.tables.turns u has'.ids later u_holds
          (λ x h. both_named x u turn_id campaign_id h u_holds) in
      let (ends, version_is) =
        ended_row u version (
          TurnMoves-EndedAs committed version step.moves (committed-EndedAs t version done same)) in
      (u, rw found refl, ends, version_is)

  -- Once a bundle of a turn of a world in order was committed, then after any transactions of the
  -- workers a bundle of the same turn, from whatever worker and at whatever time, changes no table: as
  -- long as the campaign's story is not stopped it returns the version of the first commit, and where
  -- it is stopped it raises an authorization error.
  pub commit_resolution_twice :
      (w w' : World) (bundle again : CommitBundle) (started now started' now' : ℕ)
      (after : TurnTables) (scenario' : ScenarioTables) (version : Option ℕ) (c : CampaignModel)
      → HasTurns w
      → commit_resolution authorized is_open context_of event_id_factory check_mutations
          write_mutations bundle started now w.tables w.scenario
        ≡ ok (version, after, scenario')
      → Calls (record w { tables = after; scenario = scenario' }) w'
      → campaign_of bundle.campaign_id w'.tables.campaigns ≡ ok c
      → again.campaign_id ≡ bundle.campaign_id
      → again.turn_id ≡ bundle.turn_id
      → commit_resolution authorized is_open context_of event_id_factory check_mutations
          write_mutations again started' now' w'.tables w'.scenario
        ≡ (if is_stopped c
            then err (authorization_error "This story has been stopped by an administrator")
            else ok (version, w'.tables, w'.scenario))
  unfolding commit_resolution
  commit_resolution_twice w w' bundle again started now started' now' after scenario' version c has
        h calls found campaign turn =
      let mid : World = record w { tables = after; scenario = scenario' } in
      let first : Calls w mid = then_call here (
        commits authorized is_open context_of event_id_factory check_mutations write_mutations
          bundle started now version after scenario' h refl) in
      let done =
        commit_resolution-IsDone bundle started now w.tables after w.scenario scenario' version h in
      let (u, mine, ends, same) =
        IsDone-Calls mid w' bundle.campaign_id bundle.turn_id version
          (Calls-HasTurns w mid first has) calls done in
      elim (Bool-cases (is_stopped c)) [
        | inl stopped ↦ rw (campaign, turn, found, stopped) refl
        | inr running ↦ rw (campaign, turn, found, running, mine, ends, same) refl
      ]
