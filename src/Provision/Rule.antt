-- ===== src/Provision/Rule.antt =====
-- The rules of executions, over all requests and outcomes.
pub mod Queued
pub mod Approved
pub mod Started
pub mod Waits
pub mod Admitted
pub mod Resumed
use Prim.Native.Nat
use conductor_dashboard.Common.{
  ℕ, ◌≤◌, ◌≡◌, ◌≢◌, sym, subst, inl, inr, String, true, false, refl, Option, none, some, List, [],
  ◌∷◌,
}
use conductor_dashboard.Provision.{running, approved, Job, Db}
use conductor_dashboard.Provision.Execute.{outcome_of, step_call, execute_provision_job, after_step}
use conductor_dashboard.Provision.Run.{Exec, Outcome}
use conductor_dashboard.Provision.Request.{
  create_tenant_and_bootstrap_job, create_tenant_decommission_job, queue_job,
}
use conductor_dashboard.Provision.Jobs.{
  Action, change_job, approve, reject, cancel, transition_provision_job_status, allows,
}
use conductor_dashboard.Provision.System.{
  System, Input, create, retire, queue, change, execute, result, handle, resume, play,
}
use conductor_dashboard.Provision.Rule.Queued.{Grows, create-Grows, retire-Grows, queue_job-Grows}
use conductor_dashboard.Provision.Rule.Approved.{Transits, transition-Transits}
use conductor_dashboard.Provision.Rule.Started.{
  execute-Starts, after_step-Goes, KeepsRule, approver_of,
}
use conductor_dashboard.Provision.Rule.Waits.{
  IsValid, IsFresh, Grows-Calm, Calm, Alters-Calm, Calm-IsValid,
}
use conductor_dashboard.Provision.Rule.Admitted.{admit-IsValid}
use conductor_dashboard.Provision.Rule.Resumed.{settle-IsValid}

Grows-IsValid : (s : System) (db : Db) → IsValid s → Grows s.db db → IsValid (record s { db = db })
Grows-IsValid s db valid grows = Calm-IsValid s db valid (Grows-Calm s.db db valid.2 grows)

-- No action is allowed on a job that runs.
pub allows-idle : (action : Action) (j : Job) → allows action j.status ≡ true → j.status ≢ running
allows-idle approve j h run = let q = rw run at h in cc q
allows-idle reject j h run = let q = rw run at h in cc q
allows-idle cancel j h run = let q = rw run at h in cc q

pub Transits-Calm :
    (id : ℕ) (by : String) (action : Action) (now : ℕ) (db db' : Db)
    → IsFresh db
    → Transits id by action now db db'
    → Calm db db'
Transits-Calm id by action now db db' fresh (inl same) =
    subst (Calm db) (sym same) (λ n j h run. h, fresh)
Transits-Calm id by action now db db' fresh (inr (j, row, allowed, alters)) =
    Alters-Calm id (change_job action by now) j db db' fresh row (allows-idle action j allowed)
      alters

resume-IsValid :
    (now i : ℕ) (o : Outcome) (s : System) (e : Option Exec)
    → IsValid s
    → s.execs i ≡ e
    → IsValid (resume e now i o s)
unfolding resume
resume-IsValid now i o s none valid here = valid
resume-IsValid now i o s (some e) valid here =
    let out = outcome_of (step_call s.is_daemon e.step e.run.dry) e.step.key o in
    settle-IsValid i e (after_step now e out s.db) s valid here (after_step-Goes now e out s.db)

pub handle-IsValid : (i : Input) (s : System) → IsValid s → IsValid (handle i s)
unfolding handle
handle-IsValid (create now by env r) s valid =
    Grows-IsValid s (create_tenant_and_bootstrap_job env r by now s.db).0 valid
      (create-Grows env r by now s.db)
handle-IsValid (retire now by tenant r) s valid =
    Grows-IsValid s (create_tenant_decommission_job tenant r by now s.db).0 valid
      (retire-Grows tenant r by now s.db)
handle-IsValid (queue now by tenant kind dry request plan) s valid =
    Grows-IsValid s (queue_job tenant kind dry request plan by now s.db).0 valid
      (queue_job-Grows tenant kind dry request plan by now s.db)
handle-IsValid (change now by job action) s valid =
    Calm-IsValid s (transition_provision_job_status job by action now s.db).0 valid (
      Transits-Calm job by action now s.db
        (transition_provision_job_status job by action now s.db).0 valid.2
        (transition-Transits job by action now s.db))
handle-IsValid (execute now by job) s valid =
    admit-IsValid job by (execute_provision_job now job by s.allow s.db) s valid
      (execute-Starts now job by s.allow s.db)
handle-IsValid (result now i o) s valid = resume-IsValid now i o s (s.execs i) valid refl

-- From a state in which each execution that waits has a job that runs and keeps the two-person rule, no two
-- of them have one job, and no job has an id that is still to come, any sequence of requests, executions
-- and outcomes of commands leads to such a state.
pub play-IsValid : (is : List Input) (s : System) → IsValid s → IsValid (play is s)
unfolding play
play-IsValid [] s valid = valid
play-IsValid (i ∷ is) s valid = play-IsValid is (handle i s) (handle-IsValid i s valid)

-- Where nothing is executed at first, and no job has an id that is still to come: whenever an execution of
-- a live job waits for a command, the job's approver is neither who asked for the job nor who runs it, and
-- no other execution that waits has this job.
pub play-two_persons :
    (is : List Input) (s : System) (i : ℕ) (e : Exec)
    → ((n : ℕ) → s.execs n ≡ none)
    → ((n : ℕ) → s.db.next_job ≤ n → s.db.jobs n ≡ none)
    → (play is s).execs i ≡ some e
    → e.run.dry ≡ false
    → ((j : Job) × ((play is s).db.jobs e.run.job ≡ some j)
        × (j.status ≡ running)
        × (approver_of j ≢ j.requested_by)
        × (approver_of j ≢ e.run.actor))
      × ((k : ℕ) (e' : Exec) → (play is s).execs k ≡ some e' → e'.run.job ≡ e.run.job → k ≡ i)
play-two_persons is s i e idle fresh here live =
    let valid = play-IsValid is s (
      λ n e' h. absurd (let q = idle n in cc),
      λ n k e1 e2 h h'. absurd (let q = idle n in cc),
      fresh,
    ) in
    let (below, (j, row, run, dry, rule)) = valid.0 i e here in
    let (other, runner) : KeepsRule false (approver_of j) j.requested_by e.run.actor =
      rw live at rule in
    ((j, row, run, other, runner), λ k e' there same. valid.1 k i e' e there here same)
