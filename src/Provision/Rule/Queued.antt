-- ===== src/Provision/Rule/Queued.antt =====
-- What a request that queues a job leaves of the jobs there are.
use conductor_dashboard.Common.{
  ℕ, ◌<◌, ◌≤◌, ◌≡◌, refl, ap, inl, inr, String, Bool, false, Option, none, some, List, arith, find,
  ◌==◌, Bool-cases, Option-cases,
}
use conductor_dashboard.Provision.{JobType, JobRequest, Step, Tenant, Job, Db}
use conductor_dashboard.Provision.Request.{
  Fields, DecommissionRequest, insert_tenant, fields_of, insert_checked, create_unless,
  create_tenant_and_bootstrap_job, decommission_found, create_tenant_decommission_job, queue_found,
  queue_job, new_tenant,
}
use conductor_dashboard.Provision.Fields.{
  Env, BootstrapRequest, taken, new_job, add_job, Error, is_dry,
}
use conductor_dashboard.Provision.Jobs.{JobRow, get_provision_job}

-- The jobs there are stay as they are, and new ones have new ids, below the next one.
abbrev pub Grows : Db → Db → Type 0
Grows db db' =
    ((n : ℕ) → n < db.next_job → db'.jobs n ≡ db.jobs n)
    × (db.next_job ≤ db'.next_job)
    × ((n : ℕ) → db'.next_job ≤ n → db'.jobs n ≡ db.jobs n)

Grows-refl : (db : Db) → Grows db db
Grows-refl db = (λ n h. refl, omega arith, λ n h. refl)

add_job-Grows : (j : Job) (db : Db) → Grows db (add_job j db)
add_job-Grows j db = (
  λ n h. let other : (n == db.next_job) ≡ false = ground (arith, h) in rw other refl,
  omega arith,
  λ n h. let other : (n == db.next_job) ≡ false = ground (arith, h) in rw other refl,
)

insert_tenant-Grows :
    (env : Env) (dry : Bool) (by : String) (now : ℕ) (t : Tenant) (template : String) (db : Db)
    → Grows db (insert_tenant env dry by now t template db).0
unfolding insert_tenant
insert_tenant-Grows env dry by now t template db = (
  λ n h. let other : (n == db.next_job) ≡ false = ground (arith, h) in rw other refl,
  omega arith,
  λ n h. let other : (n == db.next_job) ≡ false = ground (arith, h) in rw other refl,
)

insert_checked-Grows :
    (env : Env) (r : BootstrapRequest) (f : Fields) (by : String) (now : ℕ) (template : String)
    (gateway dashboard : Option (Option ℕ)) (owner : Option String) (db : Db)
    → Grows db (insert_checked env r f by now template gateway dashboard owner db).0
unfolding insert_checked
insert_checked-Grows env r f by now template none dashboard owner db = Grows-refl db
insert_checked-Grows env r f by now template (some gateway) none owner db = Grows-refl db
insert_checked-Grows env r f by now template (some gateway) (some dashboard) none db = Grows-refl db
insert_checked-Grows env r f by now template (some none) (some dashboard) (some owner) db =
    Grows-refl db
insert_checked-Grows env r f by now template (some (some port)) (some dashboard) (some owner) db =
    elim (Bool-cases (taken f.slug f.linux_user db.tenants)) [
      | inl e ↦ rw e (Grows-refl db)
      | inr e ↦ rw e (
          insert_tenant-Grows env (is_dry r.dry_run) by now
            (new_tenant env r f by db.next_tenant (some port) dashboard owner now) template db)
    ]

create_unless-Grows :
    (why : Option Error) (env : Env) (r : BootstrapRequest) (f : Fields) (by : String) (now : ℕ)
    (template : String) (db : Db)
    → Grows db (create_unless why env r f by now template db).0
unfolding create_unless
create_unless-Grows (some why) env r f by now template db = Grows-refl db
create_unless-Grows none env r f by now template db =
    insert_checked-Grows env r f by now template f.gateway_port f.dashboard_port f.owner db

pub create-Grows :
    (env : Env) (r : BootstrapRequest) (by : String) (now : ℕ) (db : Db)
    → Grows db (create_tenant_and_bootstrap_job env r by now db).0
unfolding create_tenant_and_bootstrap_job
create-Grows env r by now db = create_unless-Grows _ env r (fields_of env r) by now _ db

decommission_found-Grows :
    (t : Option Tenant) (r : DecommissionRequest) (by : String) (now : ℕ) (db : Db)
    → Grows db (decommission_found t r by now db).0
unfolding decommission_found
decommission_found-Grows none r by now db = Grows-refl db
decommission_found-Grows (some t) r by now db = (
  λ n h. let other : (n == db.next_job) ≡ false = ground (arith, h) in rw other refl,
  omega arith,
  λ n h. let other : (n == db.next_job) ≡ false = ground (arith, h) in rw other refl,
)

pub retire-Grows :
    (tenant : ℕ) (r : DecommissionRequest) (by : String) (now : ℕ) (db : Db)
    → Grows db (create_tenant_decommission_job tenant r by now db).0
unfolding create_tenant_decommission_job
retire-Grows tenant r by now db =
    decommission_found-Grows (find (λ t. t.id == tenant) db.tenants) r by now db

queue_found-Grows :
    (t : Option Tenant) (kind : JobType) (dry : Option Bool) (request : JobRequest)
    (plan : List Step) (by : String) (now : ℕ) (db : Db)
    → Grows db (queue_found t kind dry request plan by now db).0
unfolding queue_found
queue_found-Grows none kind dry request plan by now db = Grows-refl db
queue_found-Grows (some t) kind dry request plan by now db =
    add_job-Grows (new_job t.id kind (is_dry dry) by request plan now) db

pub queue_job-Grows :
    (tenant : ℕ) (kind : JobType) (dry : Option Bool) (request : JobRequest) (plan : List Step)
    (by : String) (now : ℕ) (db : Db)
    → Grows db (queue_job tenant kind dry request plan by now db).0
unfolding queue_job
queue_job-Grows tenant kind dry request plan by now db =
    queue_found-Grows (find (λ t. t.id == tenant) db.tenants) kind dry request plan by now db

-- A row of the join is a row of the table.
pub get_provision_job-row :
    (id : ℕ) (db : Db) (r : JobRow) → get_provision_job id db ≡ some r → db.jobs id ≡ some r.job
unfolding get_provision_job
get_provision_job-row id db r h = elim (Option-cases (db.jobs id)) [
  | inl missing ↦ absurd (let q = rw missing at h in cc q)
  | inr (j, found) ↦ elim (Option-cases (find (λ t. t.id == j.tenant_id) db.tenants)) [
    | inl missing ↦ absurd (let q = rw (found, missing) at h in cc q)
    | inr (t, there) ↦
        let row : JobRow = record { job = j; tenant = t } in
        let q : some row ≡ some r = rw (found, there) at h in
        let same : row ≡ r = ground (arith, q) in rw found (ap (λ x. some x.job) same)
  ]
]
