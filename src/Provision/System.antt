-- ===== src/Provision/System.antt =====
-- The requests of all callers and the outcomes of commands, in any order.
use conductor_dashboard.Common.{
  ℕ, suc, String, Bool, Option, none, some, List, [], ◌∷◌, Rows, insert_row, ◌==◌, if◌then◌else◌,
}
use conductor_dashboard.Provision.{JobType, JobRequest, Step, Db}
use conductor_dashboard.Provision.Request.{
  DecommissionRequest, create_tenant_and_bootstrap_job, create_tenant_decommission_job, queue_job,
}
use conductor_dashboard.Provision.Fields.{Env, BootstrapRequest}
use conductor_dashboard.Provision.Jobs.{Action, transition_provision_job_status}
use conductor_dashboard.Provision.Execute.{
  Begun, refused, began, step_call, outcome_of, after_step, execute_provision_job,
}
use conductor_dashboard.Provision.Run.{Exec, Outcome}

-- `allow` is MC_SUPER_PROVISION_EXEC, `is_daemon` the provisioning mode; an execution that waits stands in
-- `execs` under a number of its own.
pub record System : Type 0 where
  pub db : Db
  pub execs : Rows Exec
  pub next_exec : ℕ
  pub allow : Bool
  pub is_daemon : Bool

-- A request at a time by a user, or what came of the command that an execution awaits.
pub data Input : Type 0 where
  create : ℕ → String → Env → BootstrapRequest → Input
  retire : ℕ → String → ℕ → DecommissionRequest → Input
  queue : ℕ → String → ℕ → JobType → Option Bool → JobRequest → List Step → Input
  change : ℕ → String → ℕ → Action → Input
  execute : ℕ → String → ℕ → Input
  result : ℕ → ℕ → Outcome → Input

abbrev pub admit : Db × Begun → System → System
admit (db, refused why) s = record s { db = db }
admit (db, began none) s = record s { db = db }
admit (db, began (some e)) s = record s {
  db = db;
  execs = insert_row s.execs s.next_exec e;
  next_exec = suc s.next_exec;
}

abbrev pub replace : ℕ → Option Exec → Rows Exec → Rows Exec
replace i e execs n = if n == i then e else execs n

abbrev pub settle : ℕ → Db × Option Exec → System → System
settle i (db, e) s = record s { db = db; execs = replace i e s.execs }

unfoldable pub resume : Option Exec → ℕ → ℕ → Outcome → System → System
unfolding step_call outcome_of after_step
resume none now i o s = s
resume (some e) now i o s =
    settle i
      (after_step now e (outcome_of (step_call s.is_daemon e.step e.run.dry) e.step.key o) s.db) s

unfoldable pub handle : Input → System → System
unfolding create_tenant_and_bootstrap_job create_tenant_decommission_job queue_job
    transition_provision_job_status execute_provision_job resume
handle (create now by env r) s = record s {
  db = (create_tenant_and_bootstrap_job env r by now s.db).0;
}
handle (retire now by tenant r) s = record s {
  db = (create_tenant_decommission_job tenant r by now s.db).0;
}
handle (queue now by tenant kind dry request plan) s = record s {
  db = (queue_job tenant kind dry request plan by now s.db).0;
}
handle (change now by job action) s = record s {
  db = (transition_provision_job_status job by action now s.db).0;
}
handle (execute now by job) s = admit (execute_provision_job now job by s.allow s.db) s
handle (result now i o) s = resume (s.execs i) now i o s

unfoldable pub play : List Input → System → System
unfolding handle
play [] s = s
play (i ∷ is) s = play is (handle i s)
