-- ===== src/Provision/Request.antt =====
-- `createTenantAndBootstrapJob`, `createTenantDecommissionJob` and POST /api/super/provision-jobs: what
-- puts a job into the queue.
use Prim.Native.String.{◌++◌}
use conductor_dashboard.Common.{
  ℕ, suc, String, Bool, not, Option, none, some, List, ◌∷◌, find, ◌==◌, if◌then◌else◌, get_or_else,
  text_truthy, trim,
}
use conductor_dashboard.Provision.{
  pending, JobType, bootstrap, decommission, Step, Tenant, JobRequest, info, warn,
  bootstrap_requested, decommission_requested, Db,
}
use conductor_dashboard.Provision.Plan.{Paths, build_bootstrap_plan, build_decommission_plan}
use conductor_dashboard.Provision.Fields.{
  invalid_port, owner_too_long, missing_template, invalid_slug, missing_name, invalid_user,
  BootstrapRequest, Created, Env, Error, add_job, created, ensure_port, is_dry, is_valid_slug,
  is_valid_user, log_audit, log_event, new_job, normalize_owner_gateway, not_unique, port_required,
  refused, taken, tenant_not_found, text_or,
}

-- The tenant and the job of a request whose fields are in order, in one transaction.
unfoldable pub insert_tenant : Env → Bool → String → ℕ → Tenant → String → Db → Db × Created
unfolding build_bootstrap_plan
insert_tenant env dry by now tenant template db =
    let paths : Paths = record {
      slug = tenant.slug;
      linux_user = tenant.linux_user;
      openclaw_home = tenant.openclaw_home;
      workspace_root = tenant.workspace_root;
    } in
    let plan =
      build_bootstrap_plan paths (env.home_of tenant.linux_user) (env.artifact_dir tenant.slug)
        template env.systemd_template in
    let request : JobRequest = record {
      dry_run = some dry;
      slug = some tenant.slug;
      gateway_port = tenant.gateway_port;
    } in
    let added : Db = record db {
      tenants = tenant ∷ db.tenants;
      next_tenant = suc db.next_tenant;
    } in
    let queued_db = add_job (new_job tenant.id bootstrap dry by request plan now) added in
    (
      log_audit bootstrap_requested by tenant.id (log_event db.next_job info "queued" queued_db),
      created db.next_job,
    )

-- The fields, as far as they can be refused.
pub record Fields : Type 0 where
  pub slug : String
  pub display_name : String
  pub linux_user : String
  pub gateway_port : Option (Option ℕ)
  pub dashboard_port : Option (Option ℕ)
  pub owner : Option String

unfoldable pub fields_of : Env → BootstrapRequest → Fields
unfolding ensure_port normalize_owner_gateway
fields_of env r =
    let slug = env.lower (trim r.slug) in
    record {
      slug = slug;
      display_name = trim r.display_name;
      linux_user = env.lower (trim (text_or ("oc-" ++ slug) r.linux_user));
      gateway_port = ensure_port r.gateway_port;
      dashboard_port = ensure_port r.dashboard_port;
      owner = normalize_owner_gateway r.owner_gateway env.default_owner;
    }

abbrev pub new_tenant :
    Env → BootstrapRequest → Fields → String → ℕ → Option ℕ → Option ℕ → String → ℕ → Tenant
new_tenant env r f by id gateway dashboard owner now = record {
  id = id;
  slug = f.slug;
  display_name = f.display_name;
  linux_user = f.linux_user;
  plan_tier = env.lower (trim (text_or "standard" r.plan_tier));
  status = pending;
  openclaw_home = env.openclaw_home_of f.linux_user;
  workspace_root = env.workspace_of f.linux_user;
  gateway_port = gateway;
  dashboard_port = dashboard;
  created_by = by;
  owner_gateway = owner;
  updated_at = now;
}

-- The ports and the owner throw in this order.
unfoldable pub insert_checked :
    Env
    → BootstrapRequest
    → Fields
    → String
    → ℕ
    → String
    → Option (Option ℕ)
    → Option (Option ℕ)
    → Option String
    → Db
    → Db × Created
unfolding insert_tenant
insert_checked env r f by now template none dashboard owner db = (db, refused invalid_port)
insert_checked env r f by now template (some gateway) none owner db = (db, refused invalid_port)
insert_checked env r f by now template (some gateway) (some dashboard) none db =
    (db, refused owner_too_long)
insert_checked env r f by now template (some none) (some dashboard) (some owner) db =
    (db, refused port_required)
insert_checked env r f by now template (some (some gateway)) (some dashboard) (some owner) db =
    if taken f.slug f.linux_user db.tenants
    then (db, refused not_unique)
    else insert_tenant env (is_dry r.dry_run) by now
        (new_tenant env r f by db.next_tenant (some gateway) dashboard owner now) template db

-- The refusals before the ports, in order.
unfoldable pub check_fields : String → Fields → Option Error
unfolding is_valid_slug is_valid_user
check_fields template f =
    if not (text_truthy template)
    then some missing_template
    else (if not (is_valid_slug f.slug)
        then some invalid_slug
        else (if not (text_truthy f.display_name)
            then some missing_name
            else (if not (is_valid_user f.linux_user) then some invalid_user else none)))

unfoldable pub create_unless :
    Option Error → Env → BootstrapRequest → Fields → String → ℕ → String → Db → Db × Created
unfolding insert_checked
create_unless (some why) env r f by now template db = (db, refused why)
create_unless none env r f by now template db =
    insert_checked env r f by now template f.gateway_port f.dashboard_port f.owner db

-- createTenantAndBootstrapJob
unfoldable pub create_tenant_and_bootstrap_job :
    Env → BootstrapRequest → String → ℕ → Db → Db × Created
unfolding create_unless check_fields fields_of
create_tenant_and_bootstrap_job env r by now db =
    let template = get_or_else "" env.openclaw_template in
    let f = fields_of env r in create_unless (check_fields template f) env r f by now template db

pub record DecommissionRequest : Type 0 where
  pub dry_run : Option Bool
  pub remove_linux_user : Bool
  pub remove_state_dirs : Bool

unfoldable pub decommission_found :
    Option Tenant → DecommissionRequest → String → ℕ → Db → Db × Created
unfolding build_decommission_plan
decommission_found none r by now db = (db, refused tenant_not_found)
decommission_found (some t) r by now db =
    let paths : Paths = record {
      slug = t.slug;
      linux_user = t.linux_user;
      openclaw_home = t.openclaw_home;
      workspace_root = t.workspace_root;
    } in
    let plan = build_decommission_plan paths r.remove_linux_user r.remove_state_dirs in
    let dry = is_dry r.dry_run in
    let request : JobRequest = record {
      dry_run = some dry;
      slug = some t.slug;
      gateway_port = none;
    } in
    let queued_db = add_job (new_job t.id decommission dry by request plan now) db in
    (
      log_audit decommission_requested by t.id (log_event db.next_job warn "queued" queued_db),
      created db.next_job,
    )

-- createTenantDecommissionJob, for an id that is a positive number
unfoldable pub create_tenant_decommission_job :
    ℕ → DecommissionRequest → String → ℕ → Db → Db × Created
unfolding decommission_found
create_tenant_decommission_job tenant r by now db =
    decommission_found (find (λ t. t.id == tenant) db.tenants) r by now db

unfoldable pub queue_found :
    Option Tenant → JobType → Option Bool → JobRequest → List Step → String → ℕ → Db → Db × Created
queue_found none kind dry request plan by now db = (db, refused tenant_not_found)
queue_found (some t) kind dry request plan by now db =
    (add_job (new_job t.id kind (is_dry dry) by request plan now) db, created db.next_job)

-- POST /api/super/provision-jobs with a valid id and type; `plan` is [] where the body has no array, and
-- `request` the body's `request_json`, {} where it has none.
unfoldable pub queue_job :
    ℕ → JobType → Option Bool → JobRequest → List Step → String → ℕ → Db → Db × Created
unfolding queue_found
queue_job tenant kind dry request plan by now db =
    queue_found (find (λ t. t.id == tenant) db.tenants) kind dry request plan by now db
