-- ===== src/Turns/World/Ends.antt =====
-- What the transactions that end a phase write into the table of turns
-- (infrastructure/postgres/repositories.py).
use ai_rpg.Prelude.{
  ℕ, String, Bool, true, false, ◌&&◌, not, ◌≡◌, refl, Option, none, some, List, arith, ok,
  Bool-cases, inl, inr, id_eq, nat_eq, find-holds, >>=-eq-ok, from_ok, or_raise-eq-ok, checks,
  checks-AllFalse,
}
use mathlib.Core.Path.{subst}
use ai_rpg.Prelude.Rows.{Evolves, Evolves-refl, find-Among, Among}
use ai_rpg.Domain.Results.{Uuid}
use ai_rpg.Text.{Text}
use ai_rpg.Turns.Rows.{TurnModel, CampaignModel, TurnTables}
use ai_rpg.Turns.Leases.{is_resolving, is_generating}
use ai_rpg.Turns.Commits.{
  ChoiceDraft, NarrativeCommit, campaign_of, turn_of, authorize_story_run, assert_lease_current,
  has_ended_unapplied, is_committed, is_completed, write_event, write_turn, add_choices,
  unapplied_turn, narrated_turn, finalize_not_applied, finalize_row, finalize_turn, finalize_found,
  narrative_guards, commit_narrative, commit_narrative_row,
}
use ai_rpg.Turns.Calls.{saved_turn, save_row, save_conditionally, is_savable}
use ai_rpg.Turns.Steps.Resolution.{unapplied_turn-TurnStep, narrated_turn-TurnStep}
use ai_rpg.Turns.Steps.Narration.{saved_turn-TurnStep}
use ai_rpg.Turns.World.Writes.{IsWritten, IsWritten-refl, written, HasTurnIds, row_written}

finalize_turn-IsWritten :
    (worker_epoch : ℕ) (narration : Text) (now : ℕ) (event_id : Uuid) (c : CampaignModel)
    (t : TurnModel) (tables after : TurnTables) (done : Bool)
    → HasTurnIds tables.turns
    → Among t tables.turns
    → finalize_turn worker_epoch narration now event_id c t tables ≡ ok (done, after)
    → Evolves IsWritten tables.turns after.turns
unfolding write_event write_turn unapplied_turn
finalize_turn-IsWritten worker_epoch narration now event_id c t tables after done u among h =
    elim (Bool-cases (has_ended_unapplied t)) [
      | inl ended ↦
          subst (λ p. Evolves IsWritten tables.turns p.1.turns) (from_ok (rw ended at h))
            (Evolves-refl IsWritten tables.turns IsWritten-refl)
      | inr open_still ↦
          elim (Bool-cases
            (is_resolving t.resolution_status && nat_eq t.resolution.worker_epoch worker_epoch)) [
              | inl mine ↦
                  let rest : finalize_found worker_epoch narration now event_id c t tables
                      ≡ ok (done, after) =
                    rw (open_still, mine) at h in
                  let (_, _, made) = >>=-eq-ok (assert_lease_current worker_epoch now t) _ rest in
                  subst (λ p. Evolves IsWritten tables.turns p.1.turns) (from_ok made)
                    (row_written t (unapplied_turn narration) tables.turns u among (
                      written t _ (λ row. unapplied_turn-TurnStep narration t row (ground arith))
                        refl))
              | inr other ↦
                  subst (λ p. Evolves IsWritten tables.turns p.1.turns)
                    (from_ok (rw (open_still, other) at h))
                    (Evolves-refl IsWritten tables.turns IsWritten-refl)
            ]
    ]

finalize_row-IsWritten :
    (worker_epoch : ℕ) (narration : Text) (now : ℕ) (event_id : Uuid) (o : Option TurnModel)
    (tables after : TurnTables) (done : Bool)
    → HasTurnIds tables.turns
    → ((t : TurnModel) → o ≡ some t → Among t tables.turns)
    → finalize_row worker_epoch narration now event_id o tables ≡ ok (done, after)
    → Evolves IsWritten tables.turns after.turns
finalize_row-IsWritten worker_epoch narration now event_id none tables after done u among h =
    subst (λ p. Evolves IsWritten tables.turns p.1.turns) (from_ok h)
      (Evolves-refl IsWritten tables.turns IsWritten-refl)
finalize_row-IsWritten worker_epoch narration now event_id (some t) tables after done u among h =
    let (c, _, rest) = >>=-eq-ok (campaign_of t.campaign_id tables.campaigns) _ h in
    let (_, _, rest') = >>=-eq-ok (authorize_story_run c) _ rest in
    finalize_turn-IsWritten worker_epoch narration now event_id c t tables after done u
      (among t refl) rest'

pub finalize_not_applied-IsWritten :
    (turn_id : Uuid) (worker_epoch : ℕ) (narration : Text) (now : ℕ) (event_id : Uuid)
    (tables after : TurnTables) (done : Bool)
    → HasTurnIds tables.turns
    → finalize_not_applied turn_id worker_epoch narration now event_id tables ≡ ok (done, after)
    → Evolves IsWritten tables.turns after.turns
unfolding finalize_not_applied
finalize_not_applied-IsWritten turn_id worker_epoch narration now event_id tables after done u h =
    finalize_row-IsWritten worker_epoch narration now event_id _ tables after done u
      (λ t found. find-Among _ tables.turns t found) h

turn_of-Among :
    (turn_id campaign_id : Uuid) (turns : List TurnModel) (t : TurnModel)
    → turn_of turn_id campaign_id turns ≡ ok t
    → Among t turns
turn_of-Among turn_id campaign_id turns t h = find-Among _ turns t (or_raise-eq-ok _ _ t h)

commit_narrative_row-IsWritten :
    (authorized : TurnModel → Bool) (commit : NarrativeCommit) (started now : ℕ) (event_id : Uuid)
    (c : CampaignModel) (t : TurnModel) (tables after : TurnTables) (version : Option ℕ)
    → HasTurnIds tables.turns
    → Among t tables.turns
    → commit_narrative_row authorized commit started now event_id c t tables ≡ ok (version, after)
    → Evolves IsWritten tables.turns after.turns
unfolding write_event write_turn add_choices narrated_turn
commit_narrative_row-IsWritten authorized commit started now event_id c t tables after version u
      among h =
    elim (Bool-cases (is_committed t.resolution_status && is_completed t.narration_status)) [
      | inl again ↦
          subst (λ p. Evolves IsWritten tables.turns p.1.turns) (from_ok (rw again at h))
            (Evolves-refl IsWritten tables.turns IsWritten-refl)
      | inr fresh ↦
          let (_, passed, rest) =
            >>=-eq-ok (checks (narrative_guards authorized commit c t)) _ (rw fresh at h) in
          let tests = checks-AllFalse (narrative_guards authorized commit c t) passed in
          let (_, _, made) = >>=-eq-ok (assert_lease_current commit.worker_epoch now t) _ rest in
          subst (λ p. Evolves IsWritten tables.turns p.1.turns) (from_ok made)
            (row_written t (narrated_turn c.state_version started commit.narration) tables.turns u
              among
              (written t _
                (λ row.
                  narrated_turn-TurnStep c.state_version started commit.narration t row
                    (is_first (is_resolving t.resolution_status) _ _ tests.0))
                refl))
    ]
  where
    is_first : (a b d : Bool) → not (a && b && d) ≡ false → a ≡ true
    is_first a b d k = ground arith

pub commit_narrative-IsWritten :
    (authorized : TurnModel → Bool) (commit : NarrativeCommit) (started now : ℕ) (event_id : Uuid)
    (tables after : TurnTables) (version : Option ℕ)
    → HasTurnIds tables.turns
    → commit_narrative authorized commit started now event_id tables ≡ ok (version, after)
    → Evolves IsWritten tables.turns after.turns
unfolding commit_narrative
commit_narrative-IsWritten authorized commit started now event_id tables after version u h =
    let (c, _, rest) = >>=-eq-ok (campaign_of commit.campaign_id tables.campaigns) _ h in
    let (_, _, rest') = >>=-eq-ok (authorize_story_run c) _ rest in
    let (t, found, last) =
      >>=-eq-ok (turn_of commit.turn_id commit.campaign_id tables.turns) _ rest' in
    commit_narrative_row-IsWritten authorized commit started now event_id c t tables after version u
      (turn_of-Among commit.turn_id commit.campaign_id tables.turns t found) last

save_row-IsWritten :
    (narration : Text) (choices : List ChoiceDraft) (reason : Option String) (event_id : Uuid)
    (c : CampaignModel) (o : Option TurnModel) (tables : TurnTables)
    → HasTurnIds tables.turns
    → ((t : TurnModel)
        → o ≡ some t
        → Among t tables.turns × (is_generating t.narration_status ≡ true))
    → Evolves IsWritten tables.turns (save_row narration choices reason event_id c o tables).1.turns
unfolding write_event write_turn add_choices saved_turn
save_row-IsWritten narration choices reason event_id c none tables u held =
    Evolves-refl IsWritten tables.turns IsWritten-refl
save_row-IsWritten narration choices reason event_id c (some t) tables u held =
    row_written t (saved_turn narration reason) tables.turns u (held t refl).0
      (written t _ (λ row. saved_turn-TurnStep narration reason t row (held t refl).1) refl)

pub save_conditionally-IsWritten :
    (campaign_id turn_id : Uuid) (worker_epoch : ℕ) (narration : Text) (choices : List ChoiceDraft)
    (reason : Option String) (now : ℕ) (event_id : Uuid) (tables after : TurnTables) (done : Bool)
    → HasTurnIds tables.turns
    → save_conditionally campaign_id turn_id worker_epoch narration choices reason now event_id
        tables
      ≡ ok (done, after)
    → Evolves IsWritten tables.turns after.turns
unfolding save_conditionally
save_conditionally-IsWritten campaign_id turn_id worker_epoch narration choices reason now event_id
      tables after done u h =
    let (c, _, rest) = >>=-eq-ok (campaign_of campaign_id tables.campaigns) _ h in
    let (_, _, made) = >>=-eq-ok (authorize_story_run c) _ rest in
    subst (λ p. Evolves IsWritten tables.turns p.1.turns) (from_ok made)
      (save_row-IsWritten narration choices reason event_id c _ tables u λ t found.
        (find-Among _ tables.turns t found, savable t (find-holds _ tables.turns t found)))
  where
    savable :
        (t : TurnModel)
        → is_savable campaign_id turn_id worker_epoch reason now t ≡ true
        → is_generating t.narration_status ≡ true
    savable t k = ground arith
