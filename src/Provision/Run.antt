-- ===== src/Provision/Run.antt =====
-- An execution of a job: its checks, and what it writes of jobs and tenants.
use conductor_dashboard.Common.{
  ℕ, String, Bool, true, false, not, ◌&&◌, Option, none, some, List, [], ◌∷◌, ◌++◌, update_where,
  leb, ◌==◌, str_eq, if◌then◌else◌, get_or_else, text_truthy, trim,
}
use conductor_dashboard.Provision.{
  TenantStatus, provisioning, decommissioning, active, suspended, JobStatus, queued, approved,
  running, completed, failed, rejected, cancelled, JobType, bootstrap, decommission, Step, Tenant,
  JobRequest, StepResult, Job, info, error, Artifact, Db, bootstrap_completed, bootstrap_failed,
}
use conductor_dashboard.Provision as P
use conductor_dashboard.Provision.Fields.{is_dry, text_or}
use conductor_dashboard.Provision.Jobs.{JobRow}

pub data Refusal : Type 0 where
  job_not_found : Refusal
  not_approved : JobStatus → Refusal
  empty_plan dry_run_mismatch missing_approver : Refusal
  approved_by_requester approved_by_runner : Refusal
  no_artifacts : Refusal

-- What an execution holds while it runs: `dry`, `kind` and `previous` as they were read at its start,
-- `allow` for MC_SUPER_PROVISION_EXEC.
pub record Run : Type 0 where
  pub job : ℕ
  pub tenant : ℕ
  pub actor : String
  pub dry : Bool
  pub kind : JobType
  pub previous : TenantStatus
  pub allow : Bool
  pub results : List StepResult

-- An execution that waits for the command of a step.
pub record Exec : Type 0 where
  pub run : Run
  pub step : Step
  pub rest : List Step

pub data Outcome : Type 0 where
  finished : ℕ → Bool → Outcome  -- the code, and whether the command was skipped
  threw : String → Outcome

-- What runProvisionStep does: a request to the provisioner's daemon with its `dryRun`, sudo, a child of its
-- own, nothing, or an error where the command is empty.
pub data Call : Type 0 where
  daemon : List String → ℕ → Bool → Call
  sudo : List String → ℕ → Call
  child : List String → ℕ → Call
  skip : Call
  invalid : Call

abbrev pub is_approved : JobStatus → Bool
is_approved approved = true
is_approved queued = false
is_approved running = false
is_approved completed = false
is_approved failed = false
is_approved rejected = false
is_approved cancelled = false

abbrev pub is_empty : List Step → Bool
is_empty [] = true
is_empty (s ∷ ss) = false

abbrev pub same_bool : Bool → Bool → Bool
same_bool true b = b
same_bool false b = not b

-- The two-person rule of a live job.
abbrev pub check_persons : Bool → String → String → String → Option Refusal
check_persons true approver requester actor = none
check_persons false approver requester actor =
    if str_eq approver requester
    then some approved_by_requester
    else (if str_eq approver actor then some approved_by_runner else none)

-- The checks before the artifacts, in order.
unfoldable pub check_job : Job → String → Option Refusal
check_job j actor =
    let approver = text_or "" j.approved_by in
    if not (is_approved j.status)
    then some (not_approved j.status)
    else (if is_empty j.plan
        then some empty_plan
        else (if not (same_bool (is_dry j.request.dry_run) j.dry_run)
            then some dry_run_mismatch
            else (if not (text_truthy approver)
                then some missing_approver
                else check_persons j.dry_run approver j.requested_by actor)))

abbrev pub valid_artifact : String → String → String → ℕ → Option Artifact
valid_artifact slug user home port =
    if text_truthy slug && text_truthy user && text_truthy home && (leb 1024 port && leb port 65535)
    then some (record { slug = slug; linux_user = user; openclaw_home = home; gateway_port = port })
    else none

-- ensureProvisionArtifacts: none where it throws. The job's row has no gateway_port of its tenant.
unfoldable pub artifact_of : JobRow → Option Artifact
artifact_of r =
    valid_artifact (trim (text_or r.tenant.slug r.job.request.slug)) (trim r.tenant.linux_user)
      (trim r.tenant.openclaw_home) (get_or_else 0 r.job.request.gateway_port)

-- A bootstrap writes its artifacts first; none where it throws.
abbrev pub write_artifacts : JobType → Option Artifact → Db → Option Db
write_artifacts bootstrap none db = none
write_artifacts bootstrap (some a) db = some (record db { files = db.files ++ a ∷ [] })
write_artifacts P.update a db = some db
write_artifacts decommission a db = some db

abbrev pub started_status : Bool → JobType → TenantStatus → TenantStatus
started_status true kind previous = previous
started_status false decommission previous = decommissioning
started_status false bootstrap previous = provisioning
started_status false P.update previous = provisioning

abbrev pub completed_status : Bool → JobType → TenantStatus → TenantStatus
completed_status dry bootstrap previous = active
completed_status dry P.update previous = active
completed_status true decommission previous = previous
completed_status false decommission previous = suspended

-- UPDATE tenants SET status = ?, updated_at = …
abbrev pub set_tenant : ℕ → TenantStatus → ℕ → Db → Db
set_tenant id status now db = record db {
  tenants =
      update_where (λ t. t.id == id) (λ t. record t { status = status; updated_at = now })
        db.tenants;
}

abbrev pub start_job : ℕ → Job → Job
start_job now j = record j { status = running; started_at = some now; updated_at = now }

abbrev pub complete_job : ℕ → List StepResult → Job → Job
complete_job now results j = record j {
  status = completed;
  completed_at = some now;
  results = some results;
  error_text = none;
  updated_at = now;
}

abbrev pub fail_job : ℕ → List StepResult → String → Job → Job
fail_job now results message j = record j {
  status = failed;
  completed_at = some now;
  results = some results;
  error_text = some message;
  updated_at = now;
}
