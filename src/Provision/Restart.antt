-- ===== src/Provision/Restart.antt =====
-- A job that runs with no execution of its own, as a restart of the server leaves it.
use conductor_dashboard.Common.{
  ℕ, ◌≡◌, ◌≢◌, refl, sym, ap, ◌∙◌, inl, inr, String, Option, none, some, List, [], ◌∷◌, arith, ◌==◌,
  Bool-cases,
}
use conductor_dashboard.Provision.{running, Job, Db}
use conductor_dashboard.Provision.Request.{
  create_tenant_and_bootstrap_job, create_tenant_decommission_job, queue_job,
}
use conductor_dashboard.Provision.Jobs.{transition_provision_job_status}
use conductor_dashboard.Provision.Execute.{
  Begun, refused, began, outcome_of, step_call, after_step, execute_provision_job,
}
use conductor_dashboard.Provision.Run.{Exec, Outcome}
use conductor_dashboard.Provision.System.{
  System, Input, create, retire, queue, change, execute, result, handle, resume, play, admit,
  settle,
}
use conductor_dashboard.Provision.Rule.{handle-IsValid, Transits-Calm}
use conductor_dashboard.Provision.Rule.Queued.{create-Grows, retire-Grows, queue_job-Grows}
use conductor_dashboard.Provision.Rule.Approved.{transition-Transits}
use conductor_dashboard.Provision.Rule.Started.{Starts, execute-Starts, AfterGoes, after_step-Goes}
use conductor_dashboard.Provision.Rule.Waits.{IsValid, Grows-Calm, Alters-Calm, other_row}
use conductor_dashboard.Provision.Rule.Admitted.{approved-idle}

-- No execution waits for the job.
abbrev pub IsUnattended : ℕ → System → Type 0
IsUnattended n s = (i : ℕ) (e : Exec) → s.execs i ≡ some e → e.run.job ≢ n

abbrev Stays : ℕ → Job → System → Type 0
Stays n j s = (s.db.jobs n ≡ some j) × IsUnattended n s

admit-Stays :
    (id n : ℕ) (j : Job) (by : String) (out : Db × Begun) (s : System)
    → IsValid s
    → j.status ≡ running
    → Stays n j s
    → Starts id by s.db out
    → Stays n j (admit out s)
admit-Stays id n j by (db, refused why) s valid run (row, alone) (rows, next) =
    (ap (λ x. x n) rows ∙ row, alone)
admit-Stays id n j by (db, began none) s valid run (row, alone)
      (j0, f, row0, (a, rule), rows, next, begins) =
    let calm = Alters-Calm id f j0 s.db db valid.2 row0 (approved-idle j0 a) (rows, next) in
    (calm.0 n j row run, alone)
admit-Stays id n j by (db, began (some e)) s valid run (row, alone)
      (j0, f, row0, (a, rule), rows, next, begins) =
    let calm = Alters-Calm id f j0 s.db db valid.2 row0 (approved-idle j0 a) (rows, next) in
    (
      calm.0 n j row run,
      λ i e' h. elim (Bool-cases (i == s.next_exec)) [
        | inl x ↦
            let it : e ≡ e' = ground (arith, (rw x at h)) in
            λ here.
              let two : some j0 ≡ some j =
                sym row0 ∙ ap s.db.jobs (sym begins.5 ∙ ap (λ z. z.run.job) it ∙ here) ∙ row in
              let same : j0 ≡ j = ground (arith, two) in
              approved-idle j0 a (ap (λ z. z.status) same ∙ run)
        | inr x ↦ alone i e' (rw x at h)
      ],
    )

settle-Stays :
    (i n : ℕ) (j : Job) (e : Exec) (out : Db × Option Exec) (s : System)
    → s.execs i ≡ some e
    → Stays n j s
    → AfterGoes e s.db out
    → Stays n j (settle i out s)
settle-Stays i n j e (db, none) s here (row, alone) (f, rows, next, ends) = (
  other_row e.run.job n f s.db db (λ same. alone i e here (sym same)) (rows, next) ∙ row,
  λ k e' h. elim (Bool-cases (k == i)) [
    | inl x ↦ absurd (let q = rw x at h in cc q)
    | inr x ↦ alone k e' (rw x at h)
  ],
)
settle-Stays i n j e (db, some w) s here (row, alone) (rows, next, job, dry, actor) = (
  ap (λ x. x n) rows ∙ row,
  λ k e' h. elim (Bool-cases (k == i)) [
    | inl x ↦
        let it : w ≡ e' = ground (arith, (rw x at h)) in
        λ there. alone i e here (sym job ∙ ap (λ z. z.run.job) it ∙ there)
    | inr x ↦ alone k e' (rw x at h)
  ],
)

resume-Stays :
    (now i n : ℕ) (j : Job) (o : Outcome) (s : System) (e : Option Exec)
    → s.execs i ≡ e
    → Stays n j s
    → Stays n j (resume e now i o s)
unfolding resume
resume-Stays now i n j o s none here stays = stays
resume-Stays now i n j o s (some e) here stays =
    let out = outcome_of (step_call s.is_daemon e.step e.run.dry) e.step.key o in
    settle-Stays i n j e (after_step now e out s.db) s here stays (after_step-Goes now e out s.db)

handle-Stays :
    (x : Input) (s : System) (n : ℕ) (j : Job)
    → IsValid s
    → j.status ≡ running
    → Stays n j s
    → Stays n j (handle x s)
unfolding handle
handle-Stays (create now by env r) s n j valid run (row, alone) = (
  (Grows-Calm s.db (create_tenant_and_bootstrap_job env r by now s.db).0 valid.2
        (create-Grows env r by now s.db)).0
      n j row run,
  alone,
)
handle-Stays (retire now by tenant r) s n j valid run (row, alone) = (
  (Grows-Calm s.db (create_tenant_decommission_job tenant r by now s.db).0 valid.2
        (retire-Grows tenant r by now s.db)).0
      n j row run,
  alone,
)
handle-Stays (queue now by tenant kind dry request plan) s n j valid run (row, alone) = (
  (Grows-Calm s.db (queue_job tenant kind dry request plan by now s.db).0 valid.2
        (queue_job-Grows tenant kind dry request plan by now s.db)).0
      n j row run,
  alone,
)
handle-Stays (change now by job action) s n j valid run (row, alone) = (
  (Transits-Calm job by action now s.db (transition_provision_job_status job by action now s.db).0
        valid.2 (transition-Transits job by action now s.db)).0
      n j row run,
  alone,
)
handle-Stays (execute now by job) s n j valid run stays =
    admit-Stays job n j by (execute_provision_job now job by s.allow s.db) s valid run stays
      (execute-Starts now job by s.allow s.db)
handle-Stays (result now i o) s n j valid run stays =
    resume-Stays now i n j o s (s.execs i) refl stays

play-Stays :
    (is : List Input) (s : System) (n : ℕ) (j : Job)
    → IsValid s
    → j.status ≡ running
    → Stays n j s
    → Stays n j (play is s)
unfolding play
play-Stays [] s n j valid run stays = stays
play-Stays (x ∷ is) s n j valid run stays =
    play-Stays is (handle x s) n j (handle-IsValid x s valid) run
      (handle-Stays x s n j valid run stays)

-- In a state that keeps the rules of executions, a job that runs and that no execution waits for stays as it
-- is under every sequence of requests, executions and outcomes of commands: it can neither be executed,
-- approved, rejected nor cancelled any more.
pub play-lost :
    (is : List Input) (s : System) (n : ℕ) (j : Job)
    → IsValid s
    → s.db.jobs n ≡ some j
    → j.status ≡ running
    → IsUnattended n s
    → (play is s).db.jobs n ≡ some j
play-lost is s n j valid row run alone = (play-Stays is s n j valid run (row, alone)).0
