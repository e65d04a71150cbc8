-- ===== src/Provision/Execute.antt =====
-- `executeProvisionJob` and `runProvisionStep`. An execution stops where it awaits a step's command; what
-- came of the command is an argument of what follows.
use Prim.Native.String
use conductor_dashboard.Common.{
  ℕ, String, Bool, true, false, not, ◌&&◌, Option, none, some, List, [], ◌∷◌, ◌++◌, ◌==◌,
  if◌then◌else◌, text_truthy,
}
use conductor_dashboard.Provision.{
  TenantStatus, Step, info, error, Db, bootstrap_completed, bootstrap_failed,
}
use conductor_dashboard.Provision.Fields.{log_event, log_audit}
use conductor_dashboard.Provision.Jobs.{JobRow, set_job, get_provision_job}
use conductor_dashboard.Provision.Run.{
  Call, Exec, Outcome, Refusal, Run, artifact_of, check_job, child, complete_job, completed_status,
  daemon, fail_job, finished, invalid, job_not_found, no_artifacts, set_tenant, skip, start_job,
  started_status, sudo, threw, write_artifacts,
}

unfoldable pub complete : ℕ → Run → Db → Db
complete now r db = log_audit bootstrap_completed r.actor r.tenant (
    log_event r.job info "finish" (
      set_tenant r.tenant (completed_status r.dry r.kind r.previous) now
        (set_job r.job (complete_job now r.results) db)))

-- The catch block.
unfoldable pub fail : ℕ → Run → String → Db → Db
fail now r message db = log_audit bootstrap_failed r.actor r.tenant (
    log_event r.job error "error" (
      set_tenant r.tenant TenantStatus.error now
        (set_job r.job (fail_job now r.results message) db)))

-- The loop over the steps that are left, up to the next wait.
unfoldable pub next_step : ℕ → Run → List Step → Db → Db × Option Exec
unfolding complete fail
next_step now r [] db = (complete now r db, none)
next_step now r (s ∷ rest) db =
    let logged = log_event r.job info s.key db in
    if not r.dry && not r.allow
    then (
      fail now r
          "Execution disabled. Set MC_SUPER_PROVISION_EXEC=true to allow non-dry-run provisioning."
          logged,
      none,
    )
    else (logged, some (record { run = r; step = s; rest = rest }))

abbrev pub timeout_of : Option ℕ → ℕ
timeout_of none = 15000
timeout_of (some t) = if t == 0 then 15000 else t

abbrev pub local_call : Bool → Bool → List String → ℕ → Call
local_call root true command timeout = skip
local_call true false command timeout = sudo command timeout
local_call false false command timeout = child command timeout

-- runProvisionStep; `is_daemon` is MC_SUPER_PROVISION_MODE === 'daemon', its default.
unfoldable pub step_call : Bool → Step → Bool → Call
step_call is_daemon s dry = elim s.command [
  | [] ↦ invalid
  | c ∷ args ↦
      if not (text_truthy c)
      then invalid
      else (if s.requires_root && is_daemon
          then daemon s.command (timeout_of s.timeout_ms) dry
          else local_call s.requires_root dry s.command (timeout_of s.timeout_ms))
]

-- Where nothing is run, nothing else can come of it.
unfoldable pub outcome_of : Call → String → Outcome → Outcome
outcome_of skip key o = finished 0 true
outcome_of invalid key o = threw (String.◌++◌ "Invalid command for step " key)
outcome_of (daemon c t d) key o = o
outcome_of (sudo c t) key o = o
outcome_of (child c t) key o = o

abbrev pub add_result : Run → Step → ℕ → Bool → Run
add_result r s code skipped = record r {
  results = r.results ++ record { key = s.key; ok = code == 0; skipped = skipped } ∷ [];
}

-- What follows the wait: an event, `Completed` or skipped, and the next step; or the catch block.
unfoldable pub after_step : ℕ → Exec → Outcome → Db → Db × Option Exec
unfolding next_step fail
after_step now e (threw message) db = (fail now e.run message db, none)
after_step now e (finished code skipped) db =
    next_step now (add_result e.run e.step code skipped) e.rest
      (log_event e.run.job info e.step.key db)

pub data Begun : Type 0 where
  refused : Refusal → Begun
  began : Option Exec → Begun

abbrev pub run_of : ℕ → JobRow → String → Bool → Run
run_of id r actor allow = record {
  job = id;
  tenant = r.job.tenant_id;
  actor = actor;
  dry = r.job.dry_run;
  kind = r.job.job_type;
  previous = r.tenant.status;
  allow = allow;
  results = [];
}

abbrev pub began_with : Db × Option Exec → Db × Begun
began_with (db, e) = (db, began e)

-- From the first UPDATE to the first wait.
unfoldable pub start : ℕ → ℕ → JobRow → String → Bool → Db → Db × Begun
unfolding next_step
start now id r actor allow db =
    let run = run_of id r actor allow in
    let marked = log_event id info "start" (
      set_tenant r.job.tenant_id (started_status r.job.dry_run r.job.job_type r.tenant.status) now
        (set_job id (start_job now) db)) in
    began_with (next_step now run r.job.plan marked)

abbrev pub start_written : ℕ → ℕ → JobRow → String → Bool → Db → Option Db → Db × Begun
start_written now id r actor allow db none = (db, refused no_artifacts)
start_written now id r actor allow db (some written) = start now id r actor allow written

abbrev pub start_checked : ℕ → ℕ → JobRow → String → Bool → Db → Option Refusal → Db × Begun
start_checked now id r actor allow db (some why) = (db, refused why)
start_checked now id r actor allow db none =
    start_written now id r actor allow db (write_artifacts r.job.job_type (artifact_of r) db)

unfoldable pub execute_found : ℕ → ℕ → Option JobRow → String → Bool → Db → Db × Begun
unfolding check_job artifact_of start
execute_found now id none actor allow db = (db, refused job_not_found)
execute_found now id (some r) actor allow db =
    start_checked now id r actor allow db (check_job r.job actor)

-- executeProvisionJob, up to its first wait
unfoldable pub execute_provision_job : ℕ → ℕ → String → Bool → Db → Db × Begun
unfolding execute_found get_provision_job
execute_provision_job now id actor allow db =
    execute_found now id (get_provision_job id db) actor allow db
