-- ===== src/Turns/World/Counts.antt =====
-- What a reserved call and a failure write into the table of turns
-- (infrastructure/postgres/repositories.py).
use ai_rpg.Prelude.{
  ℕ, String, Bool, true, ◌&&◌, ◌≡◌, refl, Option, none, some, List, arith, Result, ok, err, ◌>>=◌,
  ◌>>◌, Bool-cases, Option-cases, inl, inr, ◌⊎◌, id_eq, find, find-holds, >>=-eq-ok, from_ok,
  story_error, ◌==◌,
}
use mathlib.Core.Path.{subst}
use ai_rpg.Prelude.Rows.{Evolves, Evolves-refl, find-Among, Among}
use ai_rpg.Domain.Results.{Uuid}
use ai_rpg.Usage.{Settings, UsageTables}
use ai_rpg.Turns.Rows.{TurnModel, CampaignModel, TurnTables}
use ai_rpg.Turns.Commits.{
  LlmPhase, resolution_phase, narration_phase, campaign_of, authorize_story_run,
}
use ai_rpg.Turns.Calls.{
  FailureDisposition, count_call, owns, has_budget, reserve_counted, reserve_row, reserve,
  of_campaign, fail_phase, failure_row, has_phase, may_retry, record_failure, failed_resolution,
  failed_narration,
}
use ai_rpg.Turns.Steps.Resolution.{count_call-TurnStep, failed_resolution-TurnStep}
use ai_rpg.Turns.Steps.Narration.{failed_narration-TurnStep}
use ai_rpg.Turns.World.Writes.{IsWritten, IsWritten-refl, written, HasTurnIds, row_written}

-- A call is counted of a row that has budget left.
count_call-IsWritten : (t : TurnModel) → has_budget t ≡ true → IsWritten t (count_call t)
unfolding count_call
count_call-IsWritten t h = written t _ (λ row. count_call-TurnStep t row (ground arith)) refl

reserve_counted-IsWritten :
    (phase : LlmPhase) (worker_epoch later : ℕ) (t : TurnModel) (r : Result UsageTables)
    (usage usage' : UsageTables) (turns turns' : List TurnModel) (done : Bool)
    → HasTurnIds turns
    → Among t turns
    → has_budget t ≡ true
    → reserve_counted phase worker_epoch later t r usage turns ≡ ok (done, usage', turns')
    → Evolves IsWritten turns turns'
reserve_counted-IsWritten phase worker_epoch later t (ok after) usage usage' turns turns' done u
      among room h =
    elim (Bool-cases (owns phase t.id worker_epoch later t)) [
      | inl mine ↦
          subst (λ p. Evolves IsWritten turns p.2) (from_ok (rw mine at h))
            (row_written t count_call turns u among (count_call-IsWritten t room))
      | inr lost ↦
          subst (λ p. Evolves IsWritten turns p.2) (from_ok (rw lost at h))
            (Evolves-refl IsWritten turns IsWritten-refl)
    ]
reserve_counted-IsWritten phase worker_epoch later t (err (story_error code status)) usage usage'
      turns turns' done u among room h =
    subst (λ p. Evolves IsWritten turns p.2) (from_ok h)
      (Evolves-refl IsWritten turns IsWritten-refl)
reserve_counted-IsWritten phase worker_epoch later t (err e) usage usage' turns turns' done u among
      room h =
    cc

reserve_row-IsWritten :
    (settings : Settings) (phase : LlmPhase) (worker_epoch started later : ℕ) (o : Option TurnModel)
    (usage usage' : UsageTables) (turns turns' : List TurnModel) (done : Bool)
    → HasTurnIds turns
    → ((t : TurnModel) → o ≡ some t → Among t turns × (has_budget t ≡ true))
    → reserve_row settings phase worker_epoch started later o usage turns
      ≡ ok (done, usage', turns')
    → Evolves IsWritten turns turns'
reserve_row-IsWritten settings phase worker_epoch started later none usage usage' turns turns' done
      u held h =
    subst (λ p. Evolves IsWritten turns p.2) (from_ok h)
      (Evolves-refl IsWritten turns IsWritten-refl)
reserve_row-IsWritten settings phase worker_epoch started later (some t) usage usage' turns turns'
      done u held h =
    reserve_counted-IsWritten phase worker_epoch later t _ usage usage' turns turns' done u
      (held t refl).0 (held t refl).1 h

-- What is done to a turn is done once its campaign is found and its story goes on.
of_campaign_lem :
    {A : Type 0} (turn_id : Uuid) (missing : A) (next : CampaignModel → TurnModel → Result A)
    (tables : TurnTables) (a : A)
    → of_campaign turn_id missing next tables ≡ ok a
    → (missing ≡ a) ⊎ ((c : CampaignModel) × (t : TurnModel) × (next c t ≡ ok a))
of_campaign_lem turn_id missing next tables a h =
    elim (Option-cases (find (λ t. t.id == turn_id) tables.turns)) [
      | inl none_there ↦ inl (from_ok (rw (of_campaign, none_there) at h))
      | inr (t, found) ↦
          let rest : (campaign_of t.campaign_id tables.campaigns >>= λ c.
          (authorize_story_run c >> next c t))
              ≡ ok a =
            rw (of_campaign, found) at h in
          let (c, _, rest') = >>=-eq-ok (campaign_of t.campaign_id tables.campaigns) _ rest in
          let (_, _, last) = >>=-eq-ok (authorize_story_run c) _ rest' in inr (c, t, last)
    ]

owned-has_budget :
    (phase : LlmPhase) (turn_id : Uuid) (worker_epoch now : ℕ) (t : TurnModel)
    → (owns phase turn_id worker_epoch now t && has_budget t) ≡ true
    → has_budget t ≡ true
owned-has_budget phase turn_id worker_epoch now t h = ground arith

pub reserve-IsWritten :
    (settings : Settings) (turn_id : Uuid) (phase : LlmPhase) (worker_epoch started now later : ℕ)
    (usage usage' : UsageTables) (tables : TurnTables) (turns : List TurnModel) (done : Bool)
    → HasTurnIds tables.turns
    → reserve settings turn_id phase worker_epoch started now later usage tables
      ≡ ok (done, usage', turns)
    → Evolves IsWritten tables.turns turns
unfolding reserve
reserve-IsWritten settings turn_id phase worker_epoch started now later usage usage' tables turns
      done u h =
    elim (of_campaign_lem turn_id _ _ tables _ h) [
      | inl same ↦
          subst (λ p. Evolves IsWritten tables.turns p.2) same
            (Evolves-refl IsWritten tables.turns IsWritten-refl)
      | inr (c, t, last) ↦
          reserve_row-IsWritten settings phase worker_epoch started later _ usage usage'
            tables.turns turns done u
            (λ x found. (
              find-Among _ tables.turns x found,
              owned-has_budget phase turn_id worker_epoch now x (find-holds _ tables.turns x found),
            ))
            last
    ]

fail_phase-IsWritten :
    (phase : LlmPhase) (turn_id : Uuid) (worker_epoch now : ℕ) (again : Bool) (code : String)
    (t : TurnModel)
    → has_phase phase turn_id worker_epoch now t ≡ true
    → IsWritten t (fail_phase phase again code now t)
unfolding failed_resolution failed_narration
fail_phase-IsWritten resolution_phase turn_id worker_epoch now again code t h =
    written t _ (λ row. failed_resolution-TurnStep again code now t row (ground arith)) refl
fail_phase-IsWritten narration_phase turn_id worker_epoch now again code t h =
    written t _ (λ row. failed_narration-TurnStep again code now t row (ground arith)) refl

failure_row-IsWritten :
    (phase : LlmPhase) (turn_id : Uuid) (worker_epoch : ℕ) (code : String) (max_attempts now : ℕ)
    (o : Option TurnModel) (turns : List TurnModel)
    → HasTurnIds turns
    → ((t : TurnModel)
        → o ≡ some t
        → Among t turns × (has_phase phase turn_id worker_epoch now t ≡ true))
    → Evolves IsWritten turns (failure_row phase code max_attempts now o turns).1
failure_row-IsWritten phase turn_id worker_epoch code max_attempts now none turns u held =
    Evolves-refl IsWritten turns IsWritten-refl
failure_row-IsWritten phase turn_id worker_epoch code max_attempts now (some t) turns u held =
    row_written t (fail_phase phase (may_retry phase max_attempts now t) code now) turns u
      (held t refl).0
      (fail_phase-IsWritten phase turn_id worker_epoch now (may_retry phase max_attempts now t) code
        t (held t refl).1)

pub record_failure-IsWritten :
    (turn_id : Uuid) (phase : LlmPhase) (worker_epoch : ℕ) (code : String) (max_attempts now : ℕ)
    (tables : TurnTables) (disposition : Option FailureDisposition) (turns : List TurnModel)
    → HasTurnIds tables.turns
    → record_failure turn_id phase worker_epoch code max_attempts now tables
      ≡ ok (disposition, turns)
    → Evolves IsWritten tables.turns turns
unfolding record_failure
record_failure-IsWritten turn_id phase worker_epoch code max_attempts now tables disposition turns u
      h =
    elim (of_campaign_lem turn_id _ _ tables _ h) [
      | inl same ↦
          subst (λ p. Evolves IsWritten tables.turns p.1) same
            (Evolves-refl IsWritten tables.turns IsWritten-refl)
      | inr (c, t, last) ↦
          subst (λ p. Evolves IsWritten tables.turns p.1) (from_ok last)
            (failure_row-IsWritten phase turn_id worker_epoch code max_attempts now _ tables.turns u
              λ x found. (find-Among _ tables.turns x found, find-holds _ tables.turns x found))
    ]
