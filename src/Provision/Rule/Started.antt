-- ===== src/Provision/Rule/Started.antt =====
-- What the start of an execution, and the end of a wait, leave of the jobs.
use conductor_dashboard.Common.{
  ℕ, ◌≡◌, ◌≢◌, ◌⊎◌, refl, ap, ◌∙◌, subst, inl, inr, String, Bool, true, false, not, ◌&&◌, Option,
  none, some, List, [], ◌∷◌, str_eq, eq_iff, update, update-update, Bool-cases, Option-cases,
  text_truthy,
}
use conductor_dashboard.Provision.{
  JobStatus, queued, approved, running, completed, failed, rejected, cancelled, JobType, bootstrap,
  decommission, Step, Job, Db, Artifact, TenantStatus,
}
use conductor_dashboard.Provision as P
use conductor_dashboard.Provision.Fields.{text_or, is_dry, log_event}
use conductor_dashboard.Provision.Jobs.{JobRow, set_job, get_provision_job}
use conductor_dashboard.Provision.Execute.{
  complete, fail, next_step, after_step, Begun, refused, began, run_of, start, start_checked,
  execute_found, execute_provision_job, add_result, began_with,
}
use conductor_dashboard.Provision.Run.{
  Refusal, Run, Exec, Outcome, finished, threw, is_approved, is_empty, same_bool, check_persons,
  check_job, artifact_of, write_artifacts, start_job, complete_job, fail_job, set_tenant,
  started_status,
}
use conductor_dashboard.Provision.Rule.Queued.{get_provision_job-row}

-- The approver is neither who asked for the job nor who runs it, unless the job is a dry run.
abbrev pub KeepsRule : Bool → String → String → String → Type 0
KeepsRule true approver requester actor = Unit
KeepsRule false approver requester actor = (approver ≢ requester) × (approver ≢ actor)

check_persons-KeepsRule :
    (dry : Bool) (a r x : String) → check_persons dry a r x ≡ none → KeepsRule dry a r x
check_persons-KeepsRule true a r x h = tt
check_persons-KeepsRule false a r x h = elim (Bool-cases (str_eq a r)) [
  | inl e ↦ absurd (let q = rw e at h in cc q)
  | inr e ↦ elim (Bool-cases (str_eq a x)) [
    | inl f ↦ absurd (let q = rw (e, f) at h in cc q)
    | inr f ↦ (λ same. let q = (eq_iff a r).1 same in cc, λ same. let q = (eq_iff a x).1 same in cc)
  ]
]

abbrev pub approver_of : Job → String
approver_of j = text_or "" j.approved_by

-- What a job that passes the checks is like.
pub check_job-KeepsRule :
    (j : Job) (actor : String)
    → check_job j actor ≡ none
    → (j.status ≡ approved) × KeepsRule j.dry_run (approver_of j) j.requested_by actor
unfolding check_job
check_job-KeepsRule j actor h = elim (Bool-cases (is_approved j.status)) [
  | inr e ↦ absurd (let q = rw e at h in cc q)
  | inl e ↦ elim (Bool-cases (is_empty j.plan)) [
    | inl f ↦ absurd (let q = rw (e, f) at h in cc q)
    | inr f ↦ elim (Bool-cases (same_bool (is_dry j.request.dry_run) j.dry_run)) [
      | inr g ↦ absurd (let q = rw (e, f, g) at h in cc q)
      | inl g ↦ elim (Bool-cases (text_truthy (approver_of j))) [
        | inr k ↦ absurd (let q = rw (e, f, g, k) at h in cc q)
        | inl k ↦ (
          is_approved-approved j.status e,
          check_persons-KeepsRule j.dry_run (approver_of j) j.requested_by actor
              (rw (e, f, g, k) at h),
        )
      ]
    ]
  ]
]
  where
    is_approved-approved : (s : JobStatus) → is_approved s ≡ true → s ≡ approved
    is_approved-approved approved h = refl
    is_approved-approved queued h = absurd (cc)
    is_approved-approved running h = absurd (cc)
    is_approved-approved completed h = absurd (cc)
    is_approved-approved failed h = absurd (cc)
    is_approved-approved rejected h = absurd (cc)
    is_approved-approved cancelled h = absurd (cc)

-- The end of a job: it is completed or failed, and nothing else of it changes that was asked for.
abbrev pub Ends : Job → Job → Type 0
Ends j j' =
    ((j'.status ≡ completed) ⊎ (j'.status ≡ failed))
    × (j'.requested_by ≡ j.requested_by)
    × (j'.dry_run ≡ j.dry_run)
    × (j'.plan ≡ j.plan)

-- A loop that goes on leaves the jobs and waits for its own job; one that ends has ended that job.
abbrev pub Goes : Run → Db → Db × Option Exec → Type 0
Goes r db (db', none) =
    (f : Job → Job) × (db'.jobs ≡ update db.jobs r.job (λ j. true) f)
    × (db'.next_job ≡ db.next_job)
    × ((j : Job) → Ends j (f j))
Goes r db (db', some e) = (db'.jobs ≡ db.jobs) × (db'.next_job ≡ db.next_job) × (e.run ≡ r)

fail-Goes :
    (now : ℕ) (r : Run) (message : String) (db : Db) → Goes r db (fail now r message db, none)
unfolding fail
fail-Goes now r message db =
    (fail_job now r.results message, refl, refl, λ j. (inr refl, refl, refl, refl))

complete-Goes : (now : ℕ) (r : Run) (db : Db) → Goes r db (complete now r db, none)
unfolding complete
complete-Goes now r db = (complete_job now r.results, refl, refl, λ j. (inl refl, refl, refl, refl))

pub next_step-Goes :
    (now : ℕ) (r : Run) (plan : List Step) (db : Db) → Goes r db (next_step now r plan db)
unfolding next_step
next_step-Goes now r [] db = complete-Goes now r db
next_step-Goes now r (s ∷ rest) db = elim (Bool-cases (not r.dry && not r.allow)) [
  | inl e ↦ rw e (fail-Goes now r _ (log_event r.job P.info s.key db))
  | inr e ↦ rw e (refl, refl, refl)
]

abbrev pub AfterGoes : Exec → Db → Db × Option Exec → Type 0
AfterGoes e db (db', none) =
    (f : Job → Job) × (db'.jobs ≡ update db.jobs e.run.job (λ j. true) f)
    × (db'.next_job ≡ db.next_job)
    × ((j : Job) → Ends j (f j))
AfterGoes e db (db', some e') =
    (db'.jobs ≡ db.jobs)
    × (db'.next_job ≡ db.next_job)
    × (e'.run.job ≡ e.run.job)
    × (e'.run.dry ≡ e.run.dry)
    × (e'.run.actor ≡ e.run.actor)

pub after_step-Goes :
    (now : ℕ) (e : Exec) (o : Outcome) (db : Db) → AfterGoes e db (after_step now e o db)
unfolding after_step
after_step-Goes now e (threw message) db = fail-Goes now e.run message db
after_step-Goes now e (finished code skipped) db =
    weaken (add_result e.run e.step code skipped)
      (next_step now (add_result e.run e.step code skipped) e.rest
        (log_event e.run.job P.info e.step.key db))
      refl refl refl
      (next_step-Goes now (add_result e.run e.step code skipped) e.rest
        (log_event e.run.job P.info e.step.key db))
  where
    weaken :
        (r : Run) (out : Db × Option Exec)
        → r.job ≡ e.run.job
        → r.dry ≡ e.run.dry
        → r.actor ≡ e.run.actor
        → Goes r (log_event e.run.job P.info e.step.key db) out
        → AfterGoes e db out
    weaken r (db', none) a b c (f, js, nx, k) = (f, rw a at js, nx, k)
    weaken r (db', some e') a b c (js, nx, same) =
        (js, nx, ap (λ x. x.job) same ∙ a, ap (λ x. x.dry) same ∙ b, ap (λ x. x.actor) same ∙ c)

-- What a start does to its job: it runs while the call waits, and has ended where the call returns.
abbrev pub Begins : ℕ → String → Job → Job → Option Exec → Type 0
Begins id actor j j' none = Ends j j'
Begins id actor j j' (some e) =
    (j'.status ≡ running)
    × (j'.approved_by ≡ j.approved_by)
    × (j'.requested_by ≡ j.requested_by)
    × (j'.dry_run ≡ j.dry_run)
    × (j'.plan ≡ j.plan)
    × (e.run.job ≡ id)
    × (e.run.dry ≡ j.dry_run)
    × (e.run.actor ≡ actor)

-- An execution that is not refused has an approved job that keeps the rule, and changes that job alone.
abbrev pub Starts : ℕ → String → Db → Db × Begun → Type 0
Starts id actor db (db', refused why) = (db'.jobs ≡ db.jobs) × (db'.next_job ≡ db.next_job)
Starts id actor db (db', began out) =
    (j : Job) × (f : Job → Job) × (db.jobs id ≡ some j)
    × ((j.status ≡ approved) × KeepsRule j.dry_run (approver_of j) j.requested_by actor)
    × (db'.jobs ≡ update db.jobs id (λ j. true) f)
    × (db'.next_job ≡ db.next_job)
    × Begins id actor j (f j) out

started-Starts :
    (now id : ℕ) (r : JobRow) (actor : String) (allow : Bool) (db marked : Db)
    (out : Db × Option Exec)
    → db.jobs id ≡ some r.job
    → check_job r.job actor ≡ none
    → marked.jobs ≡ update db.jobs id (λ j. true) (start_job now)
    → marked.next_job ≡ db.next_job
    → Goes (run_of id r actor allow) marked out
    → Starts id actor db (began_with out)
started-Starts now id r actor allow db marked (db', none) row ok js nx (f, g, k, ends) = (
  r.job,
  λ j. f (start_job now j),
  row,
  check_job-KeepsRule r.job actor ok,
  g
      ∙ ap (λ x. update x id (λ j. true) f) js
      ∙ update-update db.jobs id (λ j. true) (start_job now) f (λ j. refl),
  k ∙ nx,
  ends (start_job now r.job),
)
started-Starts now id r actor allow db marked (db', some e) row ok js nx (g, k, same) = (
  r.job,
  start_job now,
  row,
  check_job-KeepsRule r.job actor ok,
  g ∙ js,
  k ∙ nx,
  (
    refl,
    refl,
    refl,
    refl,
    refl,
    ap (λ x. x.job) same,
    ap (λ x. x.dry) same,
    ap (λ x. x.actor) same,
  ),
)

start-Starts :
    (now id : ℕ) (r : JobRow) (actor : String) (allow : Bool) (db written : Db)
    → db.jobs id ≡ some r.job
    → check_job r.job actor ≡ none
    → written.jobs ≡ db.jobs
    → written.next_job ≡ db.next_job
    → Starts id actor db (start now id r actor allow written)
unfolding start
start-Starts now id r actor allow db written row ok same next =
    let run = run_of id r actor allow in
    let marked = log_event id P.info "start" (
      set_tenant r.job.tenant_id (started_status r.job.dry_run r.job.job_type r.tenant.status) now
        (set_job id (start_job now) written)) in
    started-Starts now id r actor allow db marked (next_step now run r.job.plan marked) row ok
      (ap (λ x. update x id (λ j. true) (start_job now)) same) next
      (next_step-Goes now run r.job.plan marked)

-- The artifacts leave the jobs.
abbrev pub Leaves : Db → Option Db → Type 0
Leaves db none = Unit
Leaves db (some db') = (db'.jobs ≡ db.jobs) × (db'.next_job ≡ db.next_job)

write_artifacts-Leaves :
    (kind : JobType) (a : Option Artifact) (db : Db) → Leaves db (write_artifacts kind a db)
write_artifacts-Leaves bootstrap none db = tt
write_artifacts-Leaves bootstrap (some a) db = (refl, refl)
write_artifacts-Leaves P.update a db = (refl, refl)
write_artifacts-Leaves decommission a db = (refl, refl)

start_checked-Starts :
    (now id : ℕ) (r : JobRow) (actor : String) (allow : Bool) (db : Db) (why : Option Refusal)
    → db.jobs id ≡ some r.job
    → check_job r.job actor ≡ why
    → Starts id actor db (start_checked now id r actor allow db why)
start_checked-Starts now id r actor allow db (some why) row ok = (refl, refl)
start_checked-Starts now id r actor allow db none row ok =
    elim (Option-cases (write_artifacts r.job.job_type (artifact_of r) db)) [
      | inl e ↦ rw e (refl, refl)
      | inr (written, e) ↦
          let kept =
            subst (Leaves db) e (write_artifacts-Leaves r.job.job_type (artifact_of r) db) in
          rw e (start-Starts now id r actor allow db written row ok kept.0 kept.1)
    ]

execute_found-Starts :
    (now id : ℕ) (o : Option JobRow) (actor : String) (allow : Bool) (db : Db)
    → ((r : JobRow) → o ≡ some r → db.jobs id ≡ some r.job)
    → Starts id actor db (execute_found now id o actor allow db)
unfolding execute_found
execute_found-Starts now id none actor allow db row = (refl, refl)
execute_found-Starts now id (some r) actor allow db row =
    start_checked-Starts now id r actor allow db (check_job r.job actor) (row r refl) refl

pub execute-Starts :
    (now id : ℕ) (actor : String) (allow : Bool) (db : Db)
    → Starts id actor db (execute_provision_job now id actor allow db)
unfolding execute_provision_job
execute-Starts now id actor allow db =
    execute_found-Starts now id (get_provision_job id db) actor allow db
      (get_provision_job-row id db)
