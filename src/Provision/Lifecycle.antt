-- ===== src/Provision/Lifecycle.antt =====
-- The lifecycle of a job, against the requests and executions.
pub mod Course
use conductor_dashboard.Common.{
  ℕ, ◌≤◌, ◌≡◌, ◌≢◌, ◌⊎◌, refl, sym, ap, subst, ◌∙◌, inl, inr, String, Option, none, some, List, [],
  ◌∷◌, arith, ◌==◌, ==_iff, true, false, Bool-cases, if◌then◌else◌,
}
use conductor_dashboard.Provision.{
  JobStatus, queued, approved, running, completed, failed, rejected, cancelled, Job, Db,
}
use conductor_dashboard.Provision.Request.{
  create_tenant_and_bootstrap_job, create_tenant_decommission_job, queue_job,
}
use conductor_dashboard.Provision.Jobs.{Action, allows, change_job, transition_provision_job_status}
use conductor_dashboard.Provision.Execute.{
  Begun, refused, began, outcome_of, step_call, after_step, execute_provision_job,
}
use conductor_dashboard.Provision.Run.{Exec, Outcome}
use conductor_dashboard.Provision.System.{
  System, Input, create, retire, queue, change, execute, result, handle, resume, play, admit,
  settle,
}
use conductor_dashboard.Provision.Rule.{handle-IsValid, allows-idle}
use conductor_dashboard.Provision.Rule.Queued.{create-Grows, retire-Grows, queue_job-Grows}
use conductor_dashboard.Provision.Rule.Approved.{Alters, transition-Transits}
use conductor_dashboard.Provision.Rule.Started.{Starts, execute-Starts, AfterGoes, after_step-Goes}
use conductor_dashboard.Provision.Rule.Waits.{IsValid, other_row}
use conductor_dashboard.Provision.Lifecycle.Course.{
  Lives, once, later, final-Moves, Follows, Follows-trans, AllFollow, Grows-AllFollow,
  same-AllFollow, Alters-AllFollow, Transits-AllFollow, Begins-Follows, ends-Lives,
}

admit-AllFollow :
    (id : ℕ) (by : String) (out : Db × Begun) (s : System)
    → Starts id by s.db out
    → AllFollow s.db (admit out s).db
admit-AllFollow id by (db, refused why) s (rows, next) = same-AllFollow s.db db rows
admit-AllFollow id by (db, began none) s (j, f, row, (a, rule), rows, next, begins) =
    Alters-AllFollow id f j s.db db row (rows, next) (Begins-Follows id by j (f j) none a begins)
admit-AllFollow id by (db, began (some e)) s (j, f, row, (a, rule), rows, next, begins) =
    Alters-AllFollow id f j s.db db row (rows, next)
      (Begins-Follows id by j (f j) (some e) a begins)

settle-AllFollow :
    (i : ℕ) (e : Exec) (out : Db × Option Exec) (s : System)
    → IsValid s
    → s.execs i ≡ some e
    → AfterGoes e s.db out
    → AllFollow s.db (settle i out s).db
settle-AllFollow i e (db, none) s valid here (f, rows, next, ends) =
    let (below, (j, row, run, dry, keeps)) = valid.0 i e here in
    let (ended, r, d, p) = ends j in
    Alters-AllFollow e.run.job f j s.db db row (rows, next)
      (inr (once (ends-Lives j.status (f j).status run ended), r, d, p))
settle-AllFollow i e (db, some e') s valid here (rows, next, job, dry, actor) =
    same-AllFollow s.db db rows

resume-AllFollow :
    (now i : ℕ) (o : Outcome) (s : System) (e : Option Exec)
    → IsValid s
    → s.execs i ≡ e
    → AllFollow s.db (resume e now i o s).db
unfolding resume
resume-AllFollow now i o s none valid here = same-AllFollow s.db s.db refl
resume-AllFollow now i o s (some e) valid here =
    let out = outcome_of (step_call s.is_daemon e.step e.run.dry) e.step.key o in
    settle-AllFollow i e (after_step now e out s.db) s valid here (after_step-Goes now e out s.db)

handle-AllFollow : (i : Input) (s : System) → IsValid s → AllFollow s.db (handle i s).db
unfolding handle
handle-AllFollow (create now by env r) s valid =
    Grows-AllFollow s.db (create_tenant_and_bootstrap_job env r by now s.db).0 valid.2
      (create-Grows env r by now s.db)
handle-AllFollow (retire now by tenant r) s valid =
    Grows-AllFollow s.db (create_tenant_decommission_job tenant r by now s.db).0 valid.2
      (retire-Grows tenant r by now s.db)
handle-AllFollow (queue now by tenant kind dry request plan) s valid =
    Grows-AllFollow s.db (queue_job tenant kind dry request plan by now s.db).0 valid.2
      (queue_job-Grows tenant kind dry request plan by now s.db)
handle-AllFollow (change now by job action) s valid =
    Transits-AllFollow job by action now s.db
      (transition_provision_job_status job by action now s.db).0
      (transition-Transits job by action now s.db)
handle-AllFollow (execute now by job) s valid =
    admit-AllFollow job by (execute_provision_job now job by s.allow s.db) s
      (execute-Starts now job by s.allow s.db)
handle-AllFollow (result now i o) s valid = resume-AllFollow now i o s (s.execs i) valid refl

-- In a state that keeps the rules of executions, any sequence of requests, executions and outcomes of
-- commands refines the lifecycle: a job there is either stays as it is, or has moved by one or more of the
-- lifecycle's moves, with who asked for it, whether it is a dry run and its plan unchanged.
pub play-Follows :
    (is : List Input) (s : System) (n : ℕ) (j : Job)
    → IsValid s
    → s.db.jobs n ≡ some j
    → (j' : Job) × ((play is s).db.jobs n ≡ some j') × Follows j j'
unfolding play
play-Follows [] s n j valid h = (j, h, inl refl)
play-Follows (i ∷ is) s n j valid h =
    let (k, there, one) = handle-AllFollow i s valid n j h in
    let (j', end, more) = play-Follows is (handle i s) n k (handle-IsValid i s valid) there in
    (j', end, Follows-trans j k j' one more)

-- Nothing leads on from a completed or a cancelled job.
final-Lives : {a b : JobStatus} → Lives a b → (a ≢ completed) × (a ≢ cancelled)
final-Lives (once m) = final-Moves m
final-Lives (later l m) = final-Lives l

-- A completed or cancelled job stays as it is, whatever requests, executions and outcomes of commands
-- follow, in a state that keeps the rules of executions.
pub play-final :
    (is : List Input) (s : System) (n : ℕ) (j : Job)
    → IsValid s
    → s.db.jobs n ≡ some j
    → (j.status ≡ completed) ⊎ (j.status ≡ cancelled)
    → (play is s).db.jobs n ≡ some j
play-final is s n j valid h final = kept final (play-Follows is s n j valid h)
  where
    kept :
        (j.status ≡ completed) ⊎ (j.status ≡ cancelled)
        → (j' : Job) × ((play is s).db.jobs n ≡ some j') × Follows j j'
        → (play is s).db.jobs n ≡ some j
    kept final (j', there, inl same) = there ∙ ap some same
    kept (inl done) (j', there, inr (l, rest, d, p)) = absurd ((final-Lives l).0 done)
    kept (inr done) (j', there, inr (l, rest, d, p)) = absurd ((final-Lives l).1 done)
