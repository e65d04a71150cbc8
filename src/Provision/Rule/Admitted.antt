-- ===== src/Provision/Rule/Admitted.antt =====
-- The start of an execution.
use conductor_dashboard.Common.{
  ℕ, ◌≡◌, ◌≢◌, refl, sym, ap, subst, ◌∙◌, inl, inr, String, true, none, some, arith, ◌==◌, ==_iff,
  Bool-cases,
}
use conductor_dashboard.Provision.{running, approved, Job, Db}
use conductor_dashboard.Provision.Execute.{Begun, refused, began}
use conductor_dashboard.Provision.Run.{Exec}
use conductor_dashboard.Provision.System.{System, admit}
use conductor_dashboard.Provision.Rule.Approved.{Alters}
use conductor_dashboard.Provision.Rule.Started.{KeepsRule, approver_of, Starts, Begins}
use conductor_dashboard.Provision.Rule.Waits.{Waits, IsValid, Alters-Calm, Calm-Waits, Calm-IsValid}

pub approved-idle : (j : Job) → j.status ≡ approved → j.status ≢ running
approved-idle j a run = let q : approved ≡ running = sym a ∙ run in cc q

-- The row that a start has changed.
changed_row :
    (id : ℕ) (f : Job → Job) (j : Job) (db db' : Db)
    → db.jobs id ≡ some j
    → Alters id f db db'
    → db'.jobs id ≡ some (f j)
changed_row id f j db db' row (rows, next) =
    let same : (id == id) ≡ true = ground arith in ap (λ x. x id) rows ∙ rw (same, row) refl

begun-Waits :
    (id : ℕ) (by : String) (f : Job → Job) (j : Job) (e : Exec) (db db' : Db)
    → db.jobs id ≡ some j
    → KeepsRule j.dry_run (approver_of j) j.requested_by by
    → Alters id f db db'
    → Begins id by j (f j) (some e)
    → Waits db' e
begun-Waits id by f j e db db' row rule alters
      (run, approver, requester, dry, plan, job, dry_e, actor) =
    (
      f j,
      ap db'.jobs job ∙ changed_row id f j db db' row alters,
      run,
      dry ∙ sym dry_e,
      rw (dry_e, actor, approver, requester) rule,
    )

-- A job that waits is not one that is approved.
waiting-other :
    (id i : ℕ) (j : Job) (e : Exec) (s : System)
    → IsValid s
    → s.db.jobs id ≡ some j
    → j.status ≡ approved
    → s.execs i ≡ some e
    → e.run.job ≢ id
waiting-other id i j e s (each, single, fresh) row a h same =
    let (below, waits) = each i e h in
    let (j', row', run, dry, keeps) = waits in
    let two : some j ≡ some j' = sym row ∙ ap s.db.jobs (sym same) ∙ row' in
    let it : j ≡ j' = ground (arith, two) in approved-idle j a (ap (λ x. x.status) it ∙ run)

pub admit-IsValid :
    (id : ℕ) (by : String) (out : Db × Begun) (s : System)
    → IsValid s
    → Starts id by s.db out
    → IsValid (admit out s)
admit-IsValid id by (db, refused why) s valid (rows, next) = Calm-IsValid s db valid (
  λ n j h run. ap (λ x. x n) rows ∙ h,
  λ n h. ap (λ x. x n) rows ∙ valid.2 n (omega (arith, h, next)),
)
admit-IsValid id by (db, began none) s valid (j, f, row, (a, rule), rows, next, begins) =
    Calm-IsValid s db valid
      (Alters-Calm id f j s.db db valid.2 row (approved-idle j a) (rows, next))
admit-IsValid id by (db, began (some e)) s valid (j, f, row, (a, rule), rows, next, begins) =
    let calm = Alters-Calm id f j s.db db valid.2 row (approved-idle j a) (rows, next) in
    let job : e.run.job ≡ id = begins.5 in
    let new : Waits db e = begun-Waits id by f j e s.db db row rule (rows, next) begins in
    (
      λ i e' h. elim (Bool-cases (i == s.next_exec)) [
        | inl x ↦
            let same : e ≡ e' = ground (arith, (rw x at h)) in
            let here : i ≡ s.next_exec = (==_iff i s.next_exec).0 x in
            (omega (arith, here), subst (Waits db) same new)
        | inr x ↦
            let (below, waits) = valid.0 i e' (rw x at h) in
            (omega (arith, below), Calm-Waits s.db db e' calm waits)
      ],
      λ i k e1 e2 h1 h2 same. elim (Bool-cases (i == s.next_exec)) [
        | inl x ↦ elim (Bool-cases (k == s.next_exec)) [
          | inl y ↦ (==_iff i s.next_exec).0 x ∙ sym ((==_iff k s.next_exec).0 y)
          | inr y ↦
              let it : e ≡ e1 = ground (arith, (rw x at h1)) in
              absurd (
                waiting-other id k j e2 s valid row a (rw y at h2)
                  (sym same ∙ ap (λ z. z.run.job) (sym it) ∙ job))
        ]
        | inr x ↦ elim (Bool-cases (k == s.next_exec)) [
          | inl y ↦
              let it : e ≡ e2 = ground (arith, (rw y at h2)) in
              absurd (
                waiting-other id i j e1 s valid row a (rw x at h1)
                  (same ∙ ap (λ z. z.run.job) (sym it) ∙ job))
          | inr y ↦ valid.1 i k e1 e2 (rw x at h1) (rw y at h2) same
        ]
      ],
      calm.1,
    )
