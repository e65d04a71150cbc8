-- ===== src/Provision/Lifecycle/Course.antt =====
-- The lifecycle of a job, apart from who moves it, and the changes of the jobs that follow it.
use conductor_dashboard.Common.{
  ℕ, ◌≡◌, ◌≢◌, ◌⊎◌, refl, sym, ap, subst, ◌∙◌, inl, inr, String, true, Option, none, some, arith,
  ◌==◌, ==_iff, ltb, Bool-cases,
}
use conductor_dashboard.Provision.{
  JobStatus, queued, approved, running, completed, failed, rejected, cancelled, Job, Db,
}
use conductor_dashboard.Provision.Jobs.{Action, approve, reject, cancel, allows, change_job}
use conductor_dashboard.Provision.Run.{Exec}
use conductor_dashboard.Provision.Rule.Queued.{Grows}
use conductor_dashboard.Provision.Rule.Approved.{Alters, Transits}
use conductor_dashboard.Provision.Rule.Started.{Begins}
use conductor_dashboard.Provision.Rule.Waits.{IsFresh, other_row}

-- The lifecycle.
pub data Moves : JobStatus → JobStatus → Type 0 where
  approves_queued : Moves queued approved
  approves_rejected : Moves rejected approved
  approves_failed : Moves failed approved
  rejects_queued : Moves queued rejected
  rejects_approved : Moves approved rejected
  rejects_failed : Moves failed rejected
  cancels_queued : Moves queued cancelled
  cancels_approved : Moves approved cancelled
  cancels_failed : Moves failed cancelled
  cancels_rejected : Moves rejected cancelled
  runs : Moves approved running
  completes : Moves running completed
  fails : Moves running failed

-- No move leads on from a completed or a cancelled job.
pub final-Moves : {a b : JobStatus} → Moves a b → (a ≢ completed) × (a ≢ cancelled)
final-Moves approves_queued = (λ e. cc e, λ e. cc e)
final-Moves approves_rejected = (λ e. cc e, λ e. cc e)
final-Moves approves_failed = (λ e. cc e, λ e. cc e)
final-Moves rejects_queued = (λ e. cc e, λ e. cc e)
final-Moves rejects_approved = (λ e. cc e, λ e. cc e)
final-Moves rejects_failed = (λ e. cc e, λ e. cc e)
final-Moves cancels_queued = (λ e. cc e, λ e. cc e)
final-Moves cancels_approved = (λ e. cc e, λ e. cc e)
final-Moves cancels_failed = (λ e. cc e, λ e. cc e)
final-Moves cancels_rejected = (λ e. cc e, λ e. cc e)
final-Moves runs = (λ e. cc e, λ e. cc e)
final-Moves completes = (λ e. cc e, λ e. cc e)
final-Moves fails = (λ e. cc e, λ e. cc e)

-- One move or more.
pub data Lives (a : JobStatus) : JobStatus → Type 0 where
  once : {b : JobStatus} → Moves a b → Lives a b
  later : {b c : JobStatus} → Lives a b → Moves b c → Lives a c

Lives-trans : {a b c : JobStatus} → Lives a b → Lives b c → Lives a c
Lives-trans l (once m) = later l m
Lives-trans l (later k m) = later (Lives-trans l k) m

-- A job stays as it is, or moves along the lifecycle and keeps what was asked for.
abbrev pub Follows : Job → Job → Type 0
Follows j j' =
    (j' ≡ j)
    ⊎ (Lives j.status j'.status
        × (j'.requested_by ≡ j.requested_by)
        × (j'.dry_run ≡ j.dry_run)
        × (j'.plan ≡ j.plan))

pub Follows-trans : (i j k : Job) → Follows i j → Follows j k → Follows i k
Follows-trans i j k (inl a) f = subst (λ x. Follows x k) a f
Follows-trans i j k (inr a) (inl b) = subst (λ x. Follows i x) (sym b) (inr a)
Follows-trans i j k (inr (l, r, d, p)) (inr (l', r', d', p')) =
    inr (Lives-trans l l', r' ∙ r, d' ∙ d, p' ∙ p)

-- Every job there is follows the lifecycle.
abbrev pub AllFollow : Db → Db → Type 0
AllFollow db db' =
    (n : ℕ) (j : Job) → db.jobs n ≡ some j → (j' : Job) × (db'.jobs n ≡ some j') × Follows j j'

pub Grows-AllFollow : (db db' : Db) → IsFresh db → Grows db db' → AllFollow db db'
Grows-AllFollow db db' fresh (old, more, above) n j h = elim (Bool-cases (ltb n db.next_job)) [
  | inl e ↦ (j, old n (ground (arith, e)) ∙ h, inl refl)
  | inr e ↦ absurd (let q = fresh n (ground (arith, e)) in cc)
]

pub same-AllFollow : (db db' : Db) → db'.jobs ≡ db.jobs → AllFollow db db'
same-AllFollow db db' same n j h = (j, ap (λ x. x n) same ∙ h, inl refl)

pub Alters-AllFollow :
    (id : ℕ) (f : Job → Job) (j : Job) (db db' : Db)
    → db.jobs id ≡ some j
    → Alters id f db db'
    → Follows j (f j)
    → AllFollow db db'
Alters-AllFollow id f j db db' row alters follows n j' h = elim (Bool-cases (n == id)) [
  | inl e ↦
      let here : n ≡ id = (==_iff n id).0 e in
      let two : some j ≡ some j' = sym row ∙ ap db.jobs (sym here) ∙ h in
      let it : j ≡ j' = ground (arith, two) in
      (f j', ap (λ x. x n) alters.0 ∙ rw (e, h) refl, subst (λ x. Follows x (f x)) it follows)
  | inr e ↦ (j', other_row id n f db db' (ground (arith, e)) alters ∙ h, inl refl)
]

-- Each action that is allowed is a move.
action-Moves :
    (action : Action) (s : JobStatus) (by : String) (now : ℕ) (j : Job)
    → allows action s ≡ true
    → Moves s (change_job action by now j).status
action-Moves approve queued by now j h = approves_queued
action-Moves approve rejected by now j h = approves_rejected
action-Moves approve failed by now j h = approves_failed
action-Moves approve approved by now j h = absurd (cc)
action-Moves approve running by now j h = absurd (cc)
action-Moves approve completed by now j h = absurd (cc)
action-Moves approve cancelled by now j h = absurd (cc)
action-Moves reject queued by now j h = rejects_queued
action-Moves reject approved by now j h = rejects_approved
action-Moves reject failed by now j h = rejects_failed
action-Moves reject rejected by now j h = absurd (cc)
action-Moves reject running by now j h = absurd (cc)
action-Moves reject completed by now j h = absurd (cc)
action-Moves reject cancelled by now j h = absurd (cc)
action-Moves cancel queued by now j h = cancels_queued
action-Moves cancel approved by now j h = cancels_approved
action-Moves cancel failed by now j h = cancels_failed
action-Moves cancel rejected by now j h = cancels_rejected
action-Moves cancel running by now j h = absurd (cc)
action-Moves cancel completed by now j h = absurd (cc)
action-Moves cancel cancelled by now j h = absurd (cc)

action-Follows :
    (action : Action) (by : String) (now : ℕ) (j : Job)
    → allows action j.status ≡ true
    → Follows j (change_job action by now j)
action-Follows approve by now j h =
    inr (once (action-Moves approve j.status by now j h), refl, refl, refl)
action-Follows reject by now j h =
    inr (once (action-Moves reject j.status by now j h), refl, refl, refl)
action-Follows cancel by now j h =
    inr (once (action-Moves cancel j.status by now j h), refl, refl, refl)

pub Transits-AllFollow :
    (id : ℕ) (by : String) (action : Action) (now : ℕ) (db db' : Db)
    → Transits id by action now db db'
    → AllFollow db db'
Transits-AllFollow id by action now db db' (inl same) =
    same-AllFollow db db' (ap (λ x. x.jobs) same)
Transits-AllFollow id by action now db db' (inr (j, row, allowed, alters)) =
    Alters-AllFollow id (change_job action by now) j db db' row alters
      (action-Follows action by now j allowed)

-- A job that runs, and ends.
pub ends-Lives : (s t : JobStatus) → s ≡ running → (t ≡ completed) ⊎ (t ≡ failed) → Moves s t
ends-Lives s t run (inl e) =
    subst (λ x. Moves x t) (sym run) (subst (λ x. Moves running x) (sym e) completes)
ends-Lives s t run (inr e) =
    subst (λ x. Moves x t) (sym run) (subst (λ x. Moves running x) (sym e) fails)

runs-Lives : (s t : JobStatus) → s ≡ approved → t ≡ running → Lives s t
runs-Lives s t a run =
    subst (λ x. Lives x t) (sym a) (subst (λ x. Lives approved x) (sym run) (once runs))

pub Begins-Follows :
    (id : ℕ) (by : String) (j j' : Job) (out : Option Exec)
    → j.status ≡ approved
    → Begins id by j j' out
    → Follows j j'
Begins-Follows id by j j' none a (ended, r, d, p) =
    inr (
      later (runs-Lives j.status running a refl) (ends-Lives running j'.status refl ended),
      r,
      d,
      p,
    )
Begins-Follows id by j j' (some e) a (run, approver, r, d, p, rest, dry, actor) =
    inr (runs-Lives j.status j'.status a run, r, d, p)
