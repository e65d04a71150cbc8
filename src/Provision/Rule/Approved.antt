-- ===== src/Provision/Rule/Approved.antt =====
-- What an approval, a rejection or a cancellation does to the jobs.
use conductor_dashboard.Common.{
  ℕ, ◌≡◌, ◌⊎◌, refl, inl, inr, String, true, Option, none, some, update, Bool-cases,
}
use conductor_dashboard.Provision.{Job, Db}
use conductor_dashboard.Provision.Jobs.{
  Action, is_immutable, allows, set_job, change_job, log_change, approve, reject, cancel, JobRow,
  get_provision_job, transition_found, transition_provision_job_status,
}
use conductor_dashboard.Provision.Rule.Queued.{get_provision_job-row}

-- One job is changed, and no other.
abbrev pub Alters : ℕ → (Job → Job) → Db → Db → Type 0
Alters id f db db' = (db'.jobs ≡ update db.jobs id (λ j. true) f) × (db'.next_job ≡ db.next_job)

log_change-Alters :
    (action : Action) (actor : String) (job tenant id : ℕ) (f : Job → Job) (db : Db)
    → Alters id f db (log_change action actor job tenant (set_job id f db))
log_change-Alters approve actor job tenant id f db = (refl, refl)
log_change-Alters reject actor job tenant id f db = (refl, refl)
log_change-Alters cancel actor job tenant id f db = (refl, refl)

abbrev pub Transits : ℕ → String → Action → ℕ → Db → Db → Type 0
Transits id by action now db db' =
    (db' ≡ db)
    ⊎ ((j : Job) × (db.jobs id ≡ some j)
        × (allows action j.status ≡ true)
        × Alters id (change_job action by now) db db')

transition_found-Transits :
    (o : Option JobRow) (id : ℕ) (by : String) (action : Action) (now : ℕ) (db : Db)
    → ((r : JobRow) → o ≡ some r → db.jobs id ≡ some r.job)
    → Transits id by action now db (transition_found o id by action now db).0
unfolding transition_found
transition_found-Transits none id by action now db row = inl refl
transition_found-Transits (some r) id by action now db row =
    elim (Bool-cases (is_immutable r.job.status)) [
      | inl e ↦ rw e (inl refl)
      | inr e ↦ elim (Bool-cases (allows action r.job.status)) [
        | inr f ↦ rw (e, f) (inl refl)
        | inl f ↦
            rw (e, f)
              (inr (
                r.job,
                row r refl,
                f,
                log_change-Alters action by id r.job.tenant_id id (change_job action by now) db,
              ))
      ]
    ]

pub transition-Transits :
    (id : ℕ) (by : String) (action : Action) (now : ℕ) (db : Db)
    → Transits id by action now db (transition_provision_job_status id by action now db).0
unfolding transition_provision_job_status
transition-Transits id by action now db =
    transition_found-Transits (get_provision_job id db) id by action now db
      (get_provision_job-row id db)
