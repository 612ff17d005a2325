-- ===== src/Turns/World/Resolved.antt =====
-- What a commit of a mechanical turn writes (infrastructure/postgres/repositories.py).
use ai_rpg.Prelude.{
  ℕ, ◌+◌, Bool, true, false, ◌&&◌, not, ◌≡◌, refl, Option, some, List, arith, Result, ok,
  Bool-cases, inl, inr, id_eq, nat_eq, >>=-eq-ok, raise_if-eq-ok, from_ok, or_raise-eq-ok,
}
use mathlib.Core.Path.{subst, ap}
use ai_rpg.Prelude.Rows.{Evolves, Evolves-refl, find-Among, Among}
use ai_rpg.Domain.Results.{Uuid}
use ai_rpg.Application.Ports.{CommitBundle}
use ai_rpg.Application.Mutations.{CanonicalMutation}
use ai_rpg.Application.Resolution.Reactions.{TurnCommitContext}
use ai_rpg.Application.Resolution.Project.{ResolutionProjection, project_resolution}
use ai_rpg.Turns.Rows.{TurnModel, CampaignModel, TurnTables}
use ai_rpg.Turns.Leases.{is_resolving}
use ai_rpg.Turns.Commits.{
  campaign_of, turn_of, authorize_story_run, assert_lease_current, is_committed, write_turn,
}
use ai_rpg.Turns.Resolve.{
  ScenarioTables, commit_resolution, commit_row, check_scenario, write_scenario, write_projection,
  committed_turn,
}
use ai_rpg.Turns.Steps.Resolution.{committed_turn-TurnStep}
use ai_rpg.Turns.World.Writes.{IsWritten, IsWritten-refl, written, HasTurnIds, row_written}

module _ (authorized : TurnModel → Bool) (is_open : CampaignModel → Bool)
    (context_of : TurnModel → TurnCommitContext) (event_id_factory : ℕ → Uuid)
    (check_mutations write_mutations : List CanonicalMutation → Result (Unit {0})) where
  -- A bundle that passes its checks is of a turn that its worker resolves, and is written.
  pub commit_row-write_projection :
      (bundle : CommitBundle) (started now : ℕ) (c : CampaignModel) (t : TurnModel)
      (tables after : TurnTables) (scenario scenario' : ScenarioTables) (version : Option ℕ)
      → commit_row authorized is_open context_of event_id_factory check_mutations write_mutations
          bundle started now c t tables scenario
        ≡ ok (version, after, scenario')
      → (projection : ResolutionProjection) × (is_resolving t.resolution_status ≡ true)
        × (some projection.committed_state_version ≡ version)
        × (write_projection bundle projection started c t tables ≡ after)
  commit_row-write_projection bundle started now c t tables after scenario scenario' version h =
      let (mine, h1) =
        raise_if-eq-ok
          (not (
            is_resolving t.resolution_status
            && nat_eq t.resolution.worker_epoch bundle.worker_epoch))
          _ _ _ h in
      let (_, _, h2) =
        >>=-eq-ok
          (check_scenario (is_open c) bundle.campaign_id t.scene_id bundle.scenario_update scenario)
          _ h1 in
      let (_, h3) = raise_if-eq-ok (not (authorized t)) _ _ _ h2 in
      let (_, h4) =
        raise_if-eq-ok (not (nat_eq c.state_version bundle.base_state_version)) _ _ _ h3 in
      let (projection, _, h5) =
        >>=-eq-ok (project_resolution bundle (context_of t) (c.event_sequence + 1) event_id_factory)
          _ h4 in
      let (_, _, h6) = >>=-eq-ok (check_mutations projection.mutations) _ h5 in
      let (_, _, h7) = >>=-eq-ok (assert_lease_current bundle.worker_epoch now t) _ h6 in
      let (_, _, h8) = >>=-eq-ok (write_mutations projection.mutations) _ h7 in
      let (_, _, made) =
        >>=-eq-ok (write_scenario bundle.campaign_id bundle.turn_id bundle.scenario_update scenario)
          _ h8 in
      (
        projection,
        and_left (is_resolving t.resolution_status) _ mine,
        ap (λ p. p.0) (from_ok made),
        ap (λ p. p.1) (from_ok made),
      )
    where
      and_left : (a b : Bool) → not (a && b) ≡ false → a ≡ true
      and_left a b k = ground arith

  commit_row-IsWritten :
      (bundle : CommitBundle) (started now : ℕ) (c : CampaignModel) (t : TurnModel)
      (tables after : TurnTables) (scenario scenario' : ScenarioTables) (version : Option ℕ)
      → HasTurnIds tables.turns
      → Among t tables.turns
      → commit_row authorized is_open context_of event_id_factory check_mutations write_mutations
          bundle started now c t tables scenario
        ≡ ok (version, after, scenario')
      → Evolves IsWritten tables.turns after.turns
  unfolding write_projection write_turn committed_turn
  commit_row-IsWritten bundle started now c t tables after scenario scenario' version u among h =
      let (projection, mine, _, same) =
        commit_row-write_projection bundle started now c t tables after scenario scenario' version
          h in
      subst (λ made. Evolves IsWritten tables.turns made.turns) same
        (row_written t
          (committed_turn projection.committed_state_version started projection.narration_input)
          tables.turns u among
          (written t _
            (λ row.
              committed_turn-TurnStep projection.committed_state_version started
                projection.narration_input t row mine)
            refl))

  pub commit_resolution-IsWritten :
      (bundle : CommitBundle) (started now : ℕ) (tables after : TurnTables)
      (scenario scenario' : ScenarioTables) (version : Option ℕ)
      → HasTurnIds tables.turns
      → commit_resolution authorized is_open context_of event_id_factory check_mutations
          write_mutations bundle started now tables scenario
        ≡ ok (version, after, scenario')
      → Evolves IsWritten tables.turns after.turns
  unfolding commit_resolution
  commit_resolution-IsWritten bundle started now tables after scenario scenario' version u h =
      let (c, _, rest) = >>=-eq-ok (campaign_of bundle.campaign_id tables.campaigns) _ h in
      let (_, _, rest') = >>=-eq-ok (authorize_story_run c) _ rest in
      let (t, found, last) =
        >>=-eq-ok (turn_of bundle.turn_id bundle.campaign_id tables.turns) _ rest' in
      elim (Bool-cases (is_committed t.resolution_status)) [
        | inl again ↦
            subst (λ p. Evolves IsWritten tables.turns p.1.turns) (from_ok (rw again at last))
              (Evolves-refl IsWritten tables.turns IsWritten-refl)
        | inr fresh ↦
            commit_row-IsWritten bundle started now c t tables after scenario scenario' version u
              (find-Among _ tables.turns t (or_raise-eq-ok _ _ t found)) (rw fresh at last)
      ]
