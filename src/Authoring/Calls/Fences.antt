-- ===== src/Authoring/Calls/Fences.antt =====
-- What a lease of a job is worth after any calls (infrastructure/postgres/story_jobs.py).
use ai_rpg.Prelude.{
  ℕ, String, Bool, true, false, ◌≤◌, ◌<◌, ◌≡◌, refl, sym, ◌∙◌, Option, none, some, List, arith,
  Result, ok, err, inl, inr, Option-cases, All,
}
use mathlib.Core.Path.{subst, ap}
use ai_rpg.Prelude.Rows.{Among, Among-All, Evolves-Among, Among-update}
use ai_rpg.Stories.Json.{Json}
use ai_rpg.Authoring.Tables.{
  authoring_limits, AuthoringJobModel, StoryProposal, JobLease, AuthoringUsage, Clock,
}
use ai_rpg.Authoring.Rows.{is_running, reserve_job, update_job}
use ai_rpg.Authoring.Keeps.{IsRow, running_lem}
use ai_rpg.Authoring.Steps.{JobStep, JobStep-refl, JobStep-trans}
use ai_rpg.Authoring.Phases.{phase, IsLost, Moves-IsLost}
use ai_rpg.Authoring.Jobs.{Database, fenced, reserve_call, succeed, fail}
use ai_rpg.Authoring.Calls.{Deployment, Reach, here, then_step, reserves}
use ai_rpg.Authoring.Calls.Kept.{IsKept, fenced_lem, fenced-Among}
use ai_rpg.Authoring.Calls.Writes.{HasIds, IsReserved, reserve_call_lem}
use ai_rpg.Authoring.Calls.Ends.{succeed_lem}
use ai_rpg.Authoring.Calls.Invariant.{IsSound, Grows, writes, adds, Step-Grows, Reach-IsSound}

-- The row of a job in a later table, where its phase has moved as it may and its input is the same.
abbrev pub LaterRow : AuthoringJobModel → List AuthoringJobModel → Type 0
LaterRow j jobs = (k : AuthoringJobModel) × Among k jobs × JobStep j k

Grows-LaterRow :
    (d : Deployment) (xs ys : List AuthoringJobModel) (j : AuthoringJobModel)
    → Grows d xs ys
    → All IsRow xs
    → Among j xs
    → LaterRow j ys
Grows-LaterRow d xs ys j (writes kept runs) rows among =
    let (k, later, step) = Evolves-Among IsKept xs ys j kept among in
    (k, later, (step.sound (Among-All IsRow j xs among rows)).0)
Grows-LaterRow d xs ys j
      (adds db db' job_id fresh same same' model_id owner story_id key request clock queued) rows
      among =
    (
      j,
      subst (Among j) (sym queued.writes ∙ same') (inr (subst (Among j) (sym same) among)),
      JobStep-refl j,
    )

-- If the limits are ones that can be built and a store of authoring jobs is sound, then after any
-- calls of owners and workers each of its jobs is still there with the input it had; its phase has
-- moved as the machine of phases allows, within the attempts that the job has; and its count of
-- requests has not gone down.
pub Reach-LaterRow :
    (d : Deployment) (db db' : Database) (j : AuthoringJobModel)
    → authoring_limits d.limits ≡ ok tt
    → Reach d db db'
    → IsSound d db.authoring.jobs
    → Among j db.authoring.jobs
    → LaterRow j db'.authoring.jobs
Reach-LaterRow d db db' j valid here sound among = (j, among, JobStep-refl j)
Reach-LaterRow d db db' j valid (then_step {mid} rest step) sound among =
    let (k, later, first) = Reach-LaterRow d db mid j valid rest sound among in
    let mid_sound = Reach-IsSound d db mid valid rest sound in
    let (l, last, second) =
      Grows-LaterRow d mid.authoring.jobs db'.authoring.jobs k
        (Step-Grows d mid db' mid_sound.ids step) mid_sound.rows later in
    (l, last, JobStep-trans j k l first second)

-- The job that a lease still has, in a table with the row of its job.
held_row :
    (lease : JobLease) (clock : Clock) (jobs : List AuthoringJobModel) (k l : AuthoringJobModel)
    → HasIds jobs
    → Among k jobs
    → k.id ≡ lease.id
    → fenced lease clock jobs ≡ some l
    → (l ≡ k) × (is_running k.state ≡ true) × (k.lease_epoch ≡ lease.epoch)
held_row lease clock jobs k l u among same had =
    let (of_lease, runs, epoch, only) = fenced_lem lease clock jobs l u had in
    let equal : k ≡ l =
      Among-All (λ x. x.id ≡ l.id → x ≡ l) k jobs among only (same ∙ sym of_lease) in
    (sym equal, rw equal runs, rw equal epoch)

lost_phase :
    (epoch : ℕ) (k : AuthoringJobModel)
    → is_running k.state ≡ true
    → k.lease_epoch ≡ epoch
    → IsLost epoch (phase k)
    → ⊥
unfolding phase
lost_phase epoch k runs same lost =
    let over : epoch < k.lease_epoch = rw (running_lem k.state runs) at lost in omega arith

lost_stays :
    (d : Deployment) (db db' : Database) (lease : JobLease) (clock : Clock) (j : AuthoringJobModel)
    → authoring_limits d.limits ≡ ok tt
    → Reach d db db'
    → IsSound d db.authoring.jobs
    → Among j db.authoring.jobs
    → j.id ≡ lease.id
    → IsLost lease.epoch (phase j)
    → fenced lease clock db'.authoring.jobs ≡ none
lost_stays d db db' lease clock j valid reach sound among same lost =
    let (k, later, step) = Reach-LaterRow d db db' j valid reach sound among in
    let sound' = Reach-IsSound d db db' valid reach sound in
    let same_id : k.id ≡ j.id = ap (λ p. p.0) step.input in
    elim (Option-cases (fenced lease clock db'.authoring.jobs)) [
      | inl none_held ↦ none_held
      | inr (l, had) ↦
          let (_, runs, epoch) =
            held_row lease clock db'.authoring.jobs k l sound'.ids later (same_id ∙ same) had in
          absurd (lost_phase lease.epoch k runs epoch (Moves-IsLost lease.epoch step.moves lost))
    ]

-- A call that raised, or that returned False, and so wrote nothing.
abbrev pub IsRefused {ℓ} : {S : Type ℓ} → Result (Bool × S) → S → Type ℓ
IsRefused (ok (b, after)) before = (b ≡ false) × (after ≡ before)
IsRefused (err e) before = Unit

refused {ℓ} :
    {S : Type ℓ} (r : Result (Bool × S)) (before : S)
    → ((b : Bool) (after : S) → r ≡ ok (b, after) → (b ≡ false) × (after ≡ before))
    → IsRefused r before
refused (ok (b, after)) before f = f b after refl
refused (err e) before f = tt

-- If a lease has lost its job in a sound store, since the job has ended or gone on to a later epoch,
-- then after any calls it reserves no request and ends no job: `reserve_call` and `succeed` raise or
-- return False, `fail` returns False, and none of them writes.
pub lost_lease :
    (d : Deployment) (db db' : Database) (lease : JobLease) (clock : Clock) (j : AuthoringJobModel)
    (proposal : Option StoryProposal) (plan : Option Json) (usage : AuthoringUsage) (code : String)
    (complete : Bool) (actual_model : Option String)
    → authoring_limits d.limits ≡ ok tt
    → Reach d db db'
    → IsSound d db.authoring.jobs
    → Among j db.authoring.jobs
    → j.id ≡ lease.id
    → IsLost lease.epoch (phase j)
    → IsRefused (reserve_call d.settings lease clock db') db'
      × IsRefused
          (succeed lease proposal plan usage actual_model clock db'.stories db'.authoring)
          db'.authoring
      × (fail lease code usage complete actual_model clock db'.authoring ≡ (false, db'.authoring))
unfolding fail
lost_lease d db db' lease clock j proposal plan usage code complete actual_model valid reach sound
      among same lost =
    let gone = lost_stays d db db' lease clock j valid reach sound among same lost in
    (
      refused (reserve_call d.settings lease clock db') db' λ b after h.
          elim (reserve_call_lem d.settings lease clock db' after b h) [
            | inl nothing ↦ nothing
            | inr (_, made) ↦ cc (gone, made.had)
          ],
      refused (succeed lease proposal plan usage actual_model clock db'.stories db'.authoring)
          db'.authoring
          λ b after h.
            elim (succeed_lem lease proposal plan usage actual_model clock db'.stories db'.authoring
              after b h) [ inl nothing ↦ nothing | inr (_, made) ↦ cc (gone, made.had) ],
      rw gone refl,
    )

-- A reservation leaves a row that has sent its request.
reserved_row :
    (lease : JobLease) (clock : Clock) (db db' : Database)
    → HasIds db.authoring.jobs
    → IsReserved lease clock db db'
    → (j : AuthoringJobModel) × Among j db'.authoring.jobs
      × (j.id ≡ lease.id)
      × (1 ≤ j.physical_requests)
unfolding reserve_job update_job
reserved_row lease clock db db' u made = (
  reserve_job clock.written made.job,
  rw (made.wrote) (
      Among-update (λ k. k.id) made.job (reserve_job clock.written) db.authoring.jobs
        (fenced-Among lease clock db.authoring.jobs made.job made.had)),
  (fenced_lem lease clock db.authoring.jobs made.job u made.had).0,
  omega arith,
)

-- If a request was reserved for a job of a sound store, then after any calls no other is reserved for
-- it, by whatever lease of the job: `reserve_call` raises or returns False and writes nothing.
pub reserve_call-once :
    (d : Deployment) (db after later : Database) (lease again : JobLease) (clock clock' : Clock)
    → authoring_limits d.limits ≡ ok tt
    → IsSound d db.authoring.jobs
    → reserve_call d.settings lease clock db ≡ ok (true, after)
    → Reach d after later
    → again.id ≡ lease.id
    → IsRefused (reserve_call d.settings again clock' later) later
reserve_call-once d db after later lease again clock clock' valid sound h reach same =
    refused (reserve_call d.settings again clock' later) later λ b last k.
      elim (reserve_call_lem d.settings again clock' later last b k) [
        | inl nothing ↦ nothing
        | inr (_, made) ↦ absurd (elim (reserve_call_lem d.settings lease clock db after true h) [
          | inl (untrue, _) ↦ cc untrue
          | inr (_, first) ↦ twice first made
        ])
      ]
  where
    twice :
        {last : Database} → IsReserved lease clock db after → IsReserved again clock' later last → ⊥
    twice first made =
        let (j, among, of_lease, sent) = reserved_row lease clock db after sound.ids first in
        let after_sound =
          Reach-IsSound d db after valid (then_step here (reserves lease clock true h)) sound in
        let (k, there, step) = Reach-LaterRow d after later j valid reach after_sound among in
        let later_sound = Reach-IsSound d after later valid reach after_sound in
        let same_id : k.id ≡ j.id = ap (λ p. p.0) step.input in
        let (equal, _, _) =
          held_row again clock' later.authoring.jobs k made.job later_sound.ids there
            (same_id ∙ of_lease ∙ sym same) made.had in
        let none_sent : k.physical_requests ≡ 0 =
          subst (λ x. x.physical_requests ≡ 0) equal made.none_before in
        omega (arith, step.requests)
