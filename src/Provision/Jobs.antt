-- ===== src/Provision/Jobs.antt =====
-- `transitionProvisionJobStatus`: approve, reject and cancel.
use conductor_dashboard.Common.{
  ℕ, String, Bool, true, false, Option, none, some, List, find, ◌==◌, update, if◌then◌else◌,
}
use conductor_dashboard.Provision.{
  JobStatus, queued, approved, running, completed, failed, rejected, cancelled, Job, Tenant, info,
  warn, Db, job_approved, job_rejected, job_cancelled,
}
use conductor_dashboard.Provision.Fields.{log_event, log_audit}

pub data Action : Type 0 where
  approve reject cancel : Action

pub data Changed : Type 0 where
  not_found : Changed
  immutable : JobStatus → Changed
  not_allowed : JobStatus → Changed
  changed : Changed

-- Running, completed and cancelled jobs.
abbrev pub is_immutable : JobStatus → Bool
is_immutable running = true
is_immutable completed = true
is_immutable cancelled = true
is_immutable queued = false
is_immutable approved = false
is_immutable failed = false
is_immutable rejected = false

-- The statuses from which each action is allowed.
abbrev pub allows : Action → JobStatus → Bool
allows approve queued = true
allows approve rejected = true
allows approve failed = true
allows approve approved = false
allows approve running = false
allows approve completed = false
allows approve cancelled = false
allows reject queued = true
allows reject approved = true
allows reject failed = true
allows reject rejected = false
allows reject running = false
allows reject completed = false
allows reject cancelled = false
allows cancel queued = true
allows cancel approved = true
allows cancel failed = true
allows cancel rejected = true
allows cancel running = false
allows cancel completed = false
allows cancel cancelled = false

abbrev pub change_job : Action → String → ℕ → Job → Job
change_job approve actor now j = record j {
  status = approved;
  approved_by = some actor;
  error_text = none;
  updated_at = now;
}
change_job reject actor now j = record j { status = rejected; updated_at = now }
change_job cancel actor now j = record j {
  status = cancelled;
  completed_at = some now;
  updated_at = now;
}

abbrev pub log_change : Action → String → ℕ → ℕ → Db → Db
log_change approve actor job tenant db =
    log_audit job_approved actor tenant (log_event job info "approval" db)
log_change reject actor job tenant db =
    log_audit job_rejected actor tenant (log_event job warn "approval" db)
log_change cancel actor job tenant db =
    log_audit job_cancelled actor tenant (log_event job warn "cancel" db)

-- UPDATE provision_jobs … WHERE id = ?
abbrev pub set_job : ℕ → (Job → Job) → Db → Db
set_job id f db = record db { jobs = update db.jobs id (λ j. true) f }

-- A job with the columns of its tenant that the join adds.
pub record JobRow : Type 0 where
  pub job : Job
  pub tenant : Tenant

abbrev pub with_tenant : Job → Option Tenant → Option JobRow
with_tenant j none = none
with_tenant j (some t) = some (record { job = j; tenant = t })

abbrev pub join_tenant : Option Job → List Tenant → Option JobRow
join_tenant none ts = none
join_tenant (some j) ts = with_tenant j (find (λ t. t.id == j.tenant_id) ts)

-- getProvisionJob, without the events
unfoldable pub get_provision_job : ℕ → Db → Option JobRow
get_provision_job id db = join_tenant (db.jobs id) db.tenants

unfoldable pub transition_found : Option JobRow → ℕ → String → Action → ℕ → Db → Db × Changed
transition_found none id actor action now db = (db, not_found)
transition_found (some r) id actor action now db =
    if is_immutable r.job.status
    then (db, immutable r.job.status)
    else (if allows action r.job.status
        then (
          log_change action actor id r.job.tenant_id (set_job id (change_job action actor now) db),
          changed,
        )
        else (db, not_allowed r.job.status))

unfoldable pub transition_provision_job_status : ℕ → String → Action → ℕ → Db → Db × Changed
unfolding transition_found get_provision_job
transition_provision_job_status id actor action now db =
    transition_found (get_provision_job id db) id actor action now db
