-- ===== src/Provision.antt =====
-- lib/super-admin.ts and the routes under app/api/super: tenants, and the jobs that set them up and take
-- them down. A JSON column is the value that it encodes; a tenant's `config` and the texts of events are
-- left out.
pub mod Plan
pub mod Fields
pub mod Request
pub mod Jobs
pub mod Run
pub mod Execute
pub mod System
pub mod Rule
pub mod Lifecycle
pub mod Finish
pub mod Restart
mod Tests
use conductor_dashboard.Common.{ℕ, String, Bool, Option, List, Rows}

pub data TenantStatus : Type 0 where
  pending provisioning decommissioning active suspended error : TenantStatus

pub data JobStatus : Type 0 where
  queued approved running completed failed rejected cancelled : JobStatus

pub data JobType : Type 0 where
  bootstrap update decommission : JobType

-- ProvisionStep; a timeout that is missing is `none`.
pub record Step : Type 0 where
  pub key : String
  pub title : String
  pub command : List String
  pub requires_root : Bool
  pub timeout_ms : Option ℕ

pub record Tenant : Type 0 where
  pub id : ℕ
  pub slug : String
  pub display_name : String
  pub linux_user : String
  pub plan_tier : String
  pub status : TenantStatus
  pub openclaw_home : String
  pub workspace_root : String
  pub gateway_port : Option ℕ
  pub dashboard_port : Option ℕ
  pub created_by : String
  pub owner_gateway : String
  pub updated_at : ℕ

-- The fields of `request_json` that an execution reads.
pub record JobRequest : Type 0 where
  pub dry_run : Option Bool
  pub slug : Option String
  pub gateway_port : Option ℕ

pub record StepResult : Type 0 where
  pub key : String
  pub ok : Bool
  pub skipped : Bool

pub record Job : Type 0 where
  pub tenant_id : ℕ
  pub job_type : JobType
  pub status : JobStatus
  pub dry_run : Bool
  pub requested_by : String
  pub approved_by : Option String
  pub request : JobRequest
  pub plan : List Step
  pub results : Option (List StepResult)
  pub error_text : Option String
  pub started_at : Option ℕ
  pub completed_at : Option ℕ
  pub updated_at : ℕ

pub data Level : Type 0 where
  info warn error : Level

pub record ProvisionEvent : Type 0 where
  pub job_id : ℕ
  pub level : Level
  pub step_key : String

pub data AuditAction : Type 0 where
  bootstrap_requested decommission_requested : AuditAction
  job_approved job_rejected job_cancelled : AuditAction
  bootstrap_completed bootstrap_failed : AuditAction

-- An audit entry: its action, actor and tenant.
pub record Audit : Type 0 where
  pub action : AuditAction
  pub actor : String
  pub tenant_id : ℕ

-- The file openclaw-gateway.env of a tenant.
pub record Artifact : Type 0 where
  pub slug : String
  pub linux_user : String
  pub openclaw_home : String
  pub gateway_port : ℕ

-- Events, audit entries and files stand oldest first.
pub record Db : Type 0 where
  pub tenants : List Tenant
  pub jobs : Rows Job
  pub next_tenant : ℕ
  pub next_job : ℕ
  pub events : List ProvisionEvent
  pub audit : List Audit
  pub files : List Artifact
