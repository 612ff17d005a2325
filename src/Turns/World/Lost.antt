-- ===== src/Turns/World/Lost.antt =====
-- What a worker can still do that has lost the resolution of a turn
-- (infrastructure/postgres/repositories.py).
use ai_rpg.Prelude.{
  ℕ, String, Bool, true, false, ◌&&◌, not, ◌<◌, ◌≡◌, refl, sym, ◌∙◌, Option, none, some, List,
  arith, Result, ok, err, Bool-cases, Option-cases, inl, inr, ◌⊎◌, id_eq, nat_eq, nat_eq_iff, find,
  find-holds, >>=-eq-ok, raise_if-eq-ok, checks, checks-AllFalse, from_ok, or_raise-eq-ok, ◌==◌,
}
use mathlib.Core.Path.{subst, ap}
use ai_rpg.Prelude.Rows.{Among, Among-All, Among-IsOnly, find-Among}
use ai_rpg.Domain.Results.{Uuid}
use ai_rpg.Text.{Text}
use ai_rpg.Application.Ports.{CommitBundle}
use ai_rpg.Application.Mutations.{CanonicalMutation}
use ai_rpg.Application.Resolution.Reactions.{TurnCommitContext}
use ai_rpg.Turns.Rows.{TurnModel, CampaignModel, Route, TurnTables}
use ai_rpg.Turns.Leases.{
  is_resolving, has_resolution, record_initial_route, promote_to_mechanical, update_where,
}
use ai_rpg.Turns.Commits.{
  resolution_phase, NarrativeCommit, campaign_of, turn_of, authorize_story_run, has_ended_unapplied,
  is_committed, is_completed, finalize_not_applied, finalize_row, finalize_turn, narrative_guards,
  commit_narrative, commit_narrative_row,
}
use ai_rpg.Turns.Calls.{
  FailureDisposition, owns, has_budget, of_campaign, reserve, has_phase, record_failure,
}
use ai_rpg.Usage.{Settings, UsageTables}
use ai_rpg.Turns.Resolve.{ScenarioTables, commit_resolution}
use ai_rpg.Turns.Phases.{turn_phase, IsLostResolution, TurnMoves-IsLostResolution}
use ai_rpg.Turns.Steps.{resolving_lem}
use ai_rpg.Turns.World.{World, Calls}
use ai_rpg.Turns.World.Fences.{HasTurns, Calls-HasTurns, Calls-LaterTurn}

-- The worker of an epoch does not have the resolution of a row.
abbrev IsWithout : ℕ → TurnModel → Type 0
IsWithout epoch u =
    (is_resolving u.resolution_status && nat_eq u.resolution.worker_epoch epoch) ≡ false

lost-IsWithout :
    (epoch : ℕ) (u : TurnModel) → IsLostResolution epoch (turn_phase u) → IsWithout epoch u
unfolding turn_phase
lost-IsWithout epoch u lost = elim (Bool-cases (is_resolving u.resolution_status)) [
  | inl runs ↦
      let over : epoch < u.resolution.worker_epoch =
        rw (resolving_lem u.resolution_status runs) at lost in
      ground (arith, nat_eq_iff u.resolution.worker_epoch epoch)
  | inr ended ↦ ground arith
]

-- A transaction that raised, or that returned and wrote nothing.
abbrev pub WroteNothing {κ} : {A : Type κ} → Result (A × TurnTables) → TurnTables → Type 0
WroteNothing (ok (a, after)) before = after ≡ before
WroteNothing (err e) before = Unit

nothing {κ} :
    {A : Type κ} (r : Result (A × TurnTables)) (before : TurnTables)
    → ((a : A) (after : TurnTables) → r ≡ ok (a, after) → after ≡ before)
    → WroteNothing r before
nothing (ok (a, after)) before f = f a after refl
nothing (err e) before f = tt

-- A reservation that raised, or that was refused and wrote nothing.
abbrev pub Refused :
    Result (Bool × UsageTables × List TurnModel) → UsageTables → List TurnModel → Type 0
Refused (ok (done, usage', turns')) usage turns =
    (done ≡ false) × (usage' ≡ usage) × (turns' ≡ turns)
Refused (err e) usage turns = Unit

Result-Refused :
    (r : Result (Bool × UsageTables × List TurnModel)) (usage : UsageTables)
    (turns : List TurnModel)
    → ((done : Bool) (usage' : UsageTables) (turns' : List TurnModel)
        → r ≡ ok (done, usage', turns')
        → (done ≡ false) × (usage' ≡ usage) × (turns' ≡ turns))
    → Refused r usage turns
Result-Refused (ok (done, usage', turns')) usage turns f = f done usage' turns' refl
Result-Refused (err e) usage turns f = tt

-- A failure that raised, or that wrote nothing.
abbrev pub FailedNothing :
    Result (Option FailureDisposition × List TurnModel) → List TurnModel → Type 0
FailedNothing (ok (disposition, after)) before = (disposition ≡ none) × (after ≡ before)
FailedNothing (err e) before = Unit

Result-FailedNothing :
    (r : Result (Option FailureDisposition × List TurnModel)) (before : List TurnModel)
    → ((d : Option FailureDisposition) (after : List TurnModel)
        → r ≡ ok (d, after)
        → (d ≡ none) × (after ≡ before))
    → FailedNothing r before
Result-FailedNothing (ok (d, after)) before f = f d after refl
Result-FailedNothing (err e) before f = tt

of_campaign-eq-ok :
    {A : Type 0} (turn_id : Uuid) (missing : A) (next : CampaignModel → TurnModel → Result A)
    (tables : TurnTables) (a : A)
    → of_campaign turn_id missing next tables ≡ ok a
    → (missing ≡ a) ⊎ ((c : CampaignModel) × (t : TurnModel) × (next c t ≡ ok a))
of_campaign-eq-ok turn_id missing next tables a h =
    elim (Option-cases (find (λ t. t.id == turn_id) tables.turns)) [
      | inl absent ↦ inl (from_ok (rw (of_campaign, absent) at h))
      | inr (t, found) ↦
          let (c, _, rest) =
            >>=-eq-ok (campaign_of t.campaign_id tables.campaigns) _
              (rw (of_campaign, found) at h) in
          let (_, _, last) = >>=-eq-ok (authorize_story_run c) _ rest in inr (c, t, last)
    ]

none_found :
    (p : TurnModel → Bool) (turns : List TurnModel)
    → ((u : TurnModel) → Among u turns → p u ≡ true → ⊥)
    → find p turns ≡ none
none_found p turns none_has = elim (Option-cases (find p turns)) [
  | inl missing ↦ missing
  | inr (u, found) ↦ absurd (none_has u (find-Among p turns u found) (find-holds p turns u found))
]

-- What a reservation and a failure are, where no row is the worker's.
reserve_without :
    (settings : Settings) (turn_id : Uuid) (epoch started now later : ℕ) (usage : UsageTables)
    (tables : TurnTables) (done : Bool) (usage' : UsageTables) (turns' : List TurnModel)
    → find (λ u. owns resolution_phase turn_id epoch now u && has_budget u) tables.turns ≡ none
    → reserve settings turn_id resolution_phase epoch started now later usage tables
      ≡ ok (done, usage', turns')
    → (done ≡ false) × (usage' ≡ usage) × (turns' ≡ tables.turns)
unfolding reserve
reserve_without settings turn_id epoch started now later usage tables done usage' turns' missing h =
    elim (of_campaign-eq-ok turn_id (false, usage, tables.turns) _ tables (done, usage', turns')
      h) [ inl same ↦ same_parts same | inr (c, t, row) ↦ same_parts (from_ok (rw missing at row)) ]
  where
    same_parts :
        ◌≡◌ {A = Bool × UsageTables × List TurnModel}
          (false, usage, tables.turns)
          (done, usage', turns')
        → (done ≡ false) × (usage' ≡ usage) × (turns' ≡ tables.turns)
    same_parts same = (ap (λ p. p.0) (sym same), ap (λ p. p.1) (sym same), ap (λ p. p.2) (sym same))

record_failure_without :
    (turn_id : Uuid) (epoch : ℕ) (code : String) (max_attempts now : ℕ) (tables : TurnTables)
    (d : Option FailureDisposition) (after : List TurnModel)
    → find (has_phase resolution_phase turn_id epoch now) tables.turns ≡ none
    → record_failure turn_id resolution_phase epoch code max_attempts now tables ≡ ok (d, after)
    → (d ≡ none) × (after ≡ tables.turns)
unfolding record_failure
record_failure_without turn_id epoch code max_attempts now tables d after missing h =
    elim (of_campaign-eq-ok turn_id (none, tables.turns) _ tables (d, after) h) [
      | inl same ↦ (ap (λ p. p.0) (sym same), ap (λ p. p.1) (sym same))
      | inr (c, t, row) ↦
          let same = from_ok (rw missing at row) in
          (ap (λ p. p.0) (sym same), ap (λ p. p.1) (sym same))
    ]

no_row :
    (f : TurnModel → TurnModel) (p : TurnModel → Bool) (turns : List TurnModel)
    → ((u : TurnModel) → Among u turns → p u ≡ true → ⊥)
    → update_where f (find p turns) turns ≡ (false, turns)
no_row f p turns none_has = elim (Option-cases (find p turns)) [
  | inl missing ↦ rw missing refl
  | inr (u, found) ↦ absurd (none_has u (find-Among p turns u found) (find-holds p turns u found))
]

finalize_without :
    (epoch : ℕ) (narration : Text) (now : ℕ) (event_id : Uuid) (c : CampaignModel) (u : TurnModel)
    (tables after : TurnTables) (done : Bool)
    → IsWithout epoch u
    → finalize_turn epoch narration now event_id c u tables ≡ ok (done, after)
    → after ≡ tables
finalize_without epoch narration now event_id c u tables after done without h =
    elim (Bool-cases (has_ended_unapplied u)) [
      | inl ended ↦ ap (λ p. p.1) (sym (from_ok (rw ended at h)))
      | inr open_still ↦ ap (λ p. p.1) (sym (from_ok (rw (open_still, without) at h)))
    ]

finalize_row_without :
    (epoch : ℕ) (narration : Text) (now : ℕ) (event_id : Uuid) (o : Option TurnModel)
    (tables after : TurnTables) (done : Bool)
    → ((u : TurnModel) → o ≡ some u → IsWithout epoch u)
    → finalize_row epoch narration now event_id o tables ≡ ok (done, after)
    → after ≡ tables
finalize_row_without epoch narration now event_id none tables after done without h =
    ap (λ p. p.1) (sym (from_ok h))
finalize_row_without epoch narration now event_id (some u) tables after done without h =
    let (c, _, rest) = >>=-eq-ok (campaign_of u.campaign_id tables.campaigns) _ h in
    let (_, _, last) = >>=-eq-ok (authorize_story_run c) _ rest in
    finalize_without epoch narration now event_id c u tables after done (without u refl) last

narrative_without :
    (authorized : TurnModel → Bool) (commit : NarrativeCommit) (started now : ℕ) (event_id : Uuid)
    (c : CampaignModel) (u : TurnModel) (tables after : TurnTables) (version : Option ℕ)
    → IsWithout commit.worker_epoch u
    → commit_narrative_row authorized commit started now event_id c u tables ≡ ok (version, after)
    → after ≡ tables
narrative_without authorized commit started now event_id c u tables after version without h =
    elim (Bool-cases (is_committed u.resolution_status && is_completed u.narration_status)) [
      | inl again ↦ ap (λ p. p.1) (sym (from_ok (rw again at h)))
      | inr fresh ↦
          let (_, passed, _) =
            >>=-eq-ok (checks (narrative_guards authorized commit c u)) _ (rw fresh at h) in
          let tests = checks-AllFalse (narrative_guards authorized commit c u) passed in
          absurd (both (is_resolving u.resolution_status) _ _ without tests.0)
    ]
  where
    both : (a b d : Bool) → (a && d) ≡ false → not (a && b && d) ≡ false → ⊥
    both a b d h k = ground arith

abbrev pub CommittedNothing :
    Result (Option ℕ × TurnTables × ScenarioTables) → TurnTables → ScenarioTables → Type 0
CommittedNothing (ok (v, after, scenario')) tables scenario =
    (after ≡ tables) × (scenario' ≡ scenario)
CommittedNothing (err e) tables scenario = Unit

committed_nothing :
    (r : Result (Option ℕ × TurnTables × ScenarioTables)) (tables : TurnTables)
    (scenario : ScenarioTables)
    → ((v : Option ℕ) (after : TurnTables) (scenario' : ScenarioTables)
        → r ≡ ok (v, after, scenario')
        → (after ≡ tables) × (scenario' ≡ scenario))
    → CommittedNothing r tables scenario
committed_nothing (ok (v, after, scenario')) tables scenario f = f v after scenario' refl
committed_nothing (err e) tables scenario f = tt

-- The rows of a turn in a later world are without a worker that had lost it.
later-IsWithout :
    (w w' : World) (t : TurnModel) (epoch : ℕ)
    → Calls w w'
    → HasTurns w
    → Among t w.tables.turns
    → IsLostResolution epoch (turn_phase t)
    → (u : TurnModel) → Among u w'.tables.turns
    → u.id ≡ t.id
    → IsWithout epoch u
later-IsWithout w w' t epoch calls has among lost u there same =
    let (v, later, step) = Calls-LaterTurn w w' t calls has among in
    let has' = Calls-HasTurns w w' calls has in
    let only = Among-IsOnly (λ x. x.id) w'.tables.turns v has'.ids later in
    let same_id : v.id ≡ t.id = ap (λ p. p.0) step.same in
    let equal : u ≡ v =
      Among-All (λ x. x.id ≡ v.id → x ≡ v) u w'.tables.turns there only (same ∙ sym same_id) in
    rw equal (lost-IsWithout epoch v (TurnMoves-IsLostResolution epoch step.moves lost))

of_turn :
    (turn_id campaign_id : Uuid) (t : TurnModel)
    → (t.id == turn_id && t.campaign_id == campaign_id) ≡ true
    → t.id ≡ turn_id
of_turn turn_id campaign_id t k = ground (arith, nat_eq_iff t.id turn_id)

commit_narrative_without :
    (authorized : TurnModel → Bool) (commit : NarrativeCommit) (started now : ℕ) (event_id : Uuid)
    (tables after : TurnTables) (version : Option ℕ)
    → ((u : TurnModel)
        → Among u tables.turns
        → u.id ≡ commit.turn_id
        → IsWithout commit.worker_epoch u)
    → commit_narrative authorized commit started now event_id tables ≡ ok (version, after)
    → after ≡ tables
unfolding commit_narrative
commit_narrative_without authorized commit started now event_id tables after version without h =
    let (c, _, rest) = >>=-eq-ok (campaign_of commit.campaign_id tables.campaigns) _ h in
    let (_, _, rest') = >>=-eq-ok (authorize_story_run c) _ rest in
    let (u, found, last) =
      >>=-eq-ok (turn_of commit.turn_id commit.campaign_id tables.turns) _ rest' in
    let row = or_raise-eq-ok _ _ u found in
    narrative_without authorized commit started now event_id c u tables after version
      (without u (find-Among _ tables.turns u row)
        (of_turn commit.turn_id commit.campaign_id u (find-holds _ tables.turns u row)))
      last

module _ (authorized : TurnModel → Bool) (is_open : CampaignModel → Bool)
    (context_of : TurnModel → TurnCommitContext) (event_id_factory : ℕ → Uuid)
    (check_mutations write_mutations : List CanonicalMutation → Result (Unit {0})) where
  commit_without :
      (bundle : CommitBundle) (started now : ℕ) (tables after : TurnTables)
      (scenario scenario' : ScenarioTables) (version : Option ℕ)
      → ((u : TurnModel)
          → Among u tables.turns
          → u.id ≡ bundle.turn_id
          → IsWithout bundle.worker_epoch u)
      → commit_resolution authorized is_open context_of event_id_factory check_mutations
          write_mutations bundle started now tables scenario
        ≡ ok (version, after, scenario')
      → (after ≡ tables) × (scenario' ≡ scenario)
  unfolding commit_resolution
  commit_without bundle started now tables after scenario scenario' version without h =
      let (c, _, rest) = >>=-eq-ok (campaign_of bundle.campaign_id tables.campaigns) _ h in
      let (_, _, rest') = >>=-eq-ok (authorize_story_run c) _ rest in
      let (t, found, last) =
        >>=-eq-ok (turn_of bundle.turn_id bundle.campaign_id tables.turns) _ rest' in
      let row = or_raise-eq-ok _ _ t found in
      elim (Bool-cases (is_committed t.resolution_status)) [
        | inl again ↦
            let same = from_ok (rw again at last) in
            (ap (λ p. p.1) (sym same), ap (λ p. p.2) (sym same))
        | inr fresh ↦
            let (mine, _) =
              raise_if-eq-ok
                (not (
                  is_resolving t.resolution_status
                  && nat_eq t.resolution.worker_epoch bundle.worker_epoch))
                _ _ _ (rw fresh at last) in
            let missing =
              without t (find-Among _ tables.turns t row)
                (of_turn bundle.turn_id bundle.campaign_id t (find-holds _ tables.turns t row)) in
            absurd (mine_and_missing _ missing mine)
      ]
    where
      mine_and_missing : (b : Bool) → b ≡ false → not b ≡ false → ⊥
      mine_and_missing b h k = ground arith

  -- If the turns of a world are in order and a worker has lost the resolution of one of them, since
  -- it has ended or gone on to a later epoch, then after any transactions of the workers that worker
  -- writes nothing more of the resolution with that epoch: it records no route and promotes nothing; its
  -- attempts to finalize the turn or to commit a narrative or a mechanical resolution of it raise or
  -- leave the turns, campaigns, events, choices and the scenario as they are; it is granted no call of
  -- a model, and nothing is counted or reserved; and it can record no failure of the resolution.
  pub lost_worker :
      (w w' : World) (t : TurnModel) (route : Route) (version : String) (reasons : List String)
      (narration : Text) (commit : NarrativeCommit) (bundle : CommitBundle) (started now : ℕ)
      (event_id : Uuid) (settings : Settings) (later : ℕ) (code : String) (max_attempts : ℕ)
      → Calls w w'
      → HasTurns w
      → Among t w.tables.turns
      → IsLostResolution bundle.worker_epoch (turn_phase t)
      → bundle.turn_id ≡ t.id
      → commit.turn_id ≡ t.id
      → commit.worker_epoch ≡ bundle.worker_epoch
      → (record_initial_route t.id bundle.worker_epoch route version reasons now w'.tables.turns
          ≡ (false, w'.tables.turns))
        × (promote_to_mechanical t.id bundle.worker_epoch now w'.tables.turns
            ≡ (false, w'.tables.turns))
        × WroteNothing
            (finalize_not_applied t.id bundle.worker_epoch narration now event_id w'.tables)
            w'.tables
        × WroteNothing (commit_narrative authorized commit started now event_id w'.tables) w'.tables
        × CommittedNothing
            (commit_resolution authorized is_open context_of event_id_factory check_mutations
              write_mutations bundle started now w'.tables w'.scenario)
            w'.tables
            w'.scenario
        × Refused
            (reserve settings t.id resolution_phase bundle.worker_epoch started now later w'.usage
              w'.tables)
            w'.usage
            w'.tables.turns
        × FailedNothing
            (record_failure t.id resolution_phase bundle.worker_epoch code max_attempts now
              w'.tables)
            w'.tables.turns
  unfolding record_initial_route promote_to_mechanical finalize_not_applied
  lost_worker w w' t route version reasons narration commit bundle started now event_id settings
        later code max_attempts calls has among lost of_bundle of_commit epoch =
      let without = later-IsWithout w w' t bundle.worker_epoch calls has among lost in
      (
        no_row _ _ w'.tables.turns (λ u there h. holds u _ (without u there) h),
        no_row _ _ w'.tables.turns (λ u there h. holds u _ (without u there) h),
        nothing _ w'.tables (λ done after h.
            finalize_row_without bundle.worker_epoch narration now event_id _ w'.tables after done
              (λ u found.
                without u (find-Among _ w'.tables.turns u found)
                  ((nat_eq_iff u.id t.id).0 (find-holds _ w'.tables.turns u found)))
              h),
        nothing _ w'.tables (λ v after h.
            commit_narrative_without authorized commit started now event_id w'.tables after v
              (λ u there same.
                subst (λ e. IsWithout e u) (sym epoch) (without u there (same ∙ of_commit)))
              h),
        committed_nothing _ w'.tables w'.scenario (λ v after scenario' h.
            commit_without bundle started now w'.tables after w'.scenario scenario' v
              (λ u there same. without u there (same ∙ of_bundle)) h),
        Result-Refused _ w'.usage w'.tables.turns (λ done usage' turns' h.
            reserve_without settings t.id bundle.worker_epoch started now later w'.usage w'.tables
              done usage' turns'
              (none_found _ w'.tables.turns (λ u there k. holds_twice u (without u there) k)) h),
        Result-FailedNothing _ w'.tables.turns (λ d after h.
            record_failure_without t.id bundle.worker_epoch code max_attempts now w'.tables d after
              (none_found _ w'.tables.turns
                (λ u there k. holds u true (without u there) (twice _ k)))
              h),
      )
    where
      holds :
          (u : TurnModel) (more : Bool)
          → (u.id ≡ t.id → IsWithout bundle.worker_epoch u)
          → (has_resolution t.id bundle.worker_epoch now u && more) ≡ true
          → ⊥
      holds u more without h =
          let same : u.id ≡ t.id = ground (arith, nat_eq_iff u.id t.id) in
          let missing = without same in ground arith

      twice : (b : Bool) → b ≡ true → (b && true) ≡ true
      twice b h = ground arith

      holds_twice :
          (u : TurnModel)
          → (u.id ≡ t.id → IsWithout bundle.worker_epoch u)
          → (owns resolution_phase t.id bundle.worker_epoch now u && has_budget u) ≡ true
          → ⊥
      holds_twice u without h = holds u true without (ground arith)
