-- ===== src/Provision/Rule/Waits.antt =====
-- What holds of the executions that wait, and what a change of the jobs leaves of it.
use conductor_dashboard.Common.{
  ℕ, ◌<◌, ◌≤◌, ◌≡◌, ◌≢◌, refl, sym, ap, ◌∙◌, inl, inr, false, none, some, arith, ◌==◌, ==_iff, ltb,
  Bool-cases,
}
use conductor_dashboard.Provision.{running, Job, Db}
use conductor_dashboard.Provision.Run.{Exec}
use conductor_dashboard.Provision.System.{System}
use conductor_dashboard.Provision.Rule.Queued.{Grows}
use conductor_dashboard.Provision.Rule.Approved.{Alters}
use conductor_dashboard.Provision.Rule.Started.{KeepsRule, approver_of}

-- The job of an execution that waits runs, and was approved under the two-person rule.
abbrev pub Waits : Db → Exec → Type 0
Waits db e =
    (j : Job) × (db.jobs e.run.job ≡ some j)
    × (j.status ≡ running)
    × (j.dry_run ≡ e.run.dry)
    × KeepsRule e.run.dry (approver_of j) j.requested_by e.run.actor

-- No job has an id that is still to come.
abbrev pub IsFresh : Db → Type 0
IsFresh db = (n : ℕ) → db.next_job ≤ n → db.jobs n ≡ none

-- Each execution that waits keeps the rule, no two of them are of one job, and no job or execution has a
-- number that is still to come.
abbrev pub IsValid : System → Type 0
IsValid s =
    ((i : ℕ) (e : Exec) → s.execs i ≡ some e → (i < s.next_exec) × Waits s.db e)
    × ((i k : ℕ) (e e' : Exec)
        → s.execs i ≡ some e
        → s.execs k ≡ some e'
        → e.run.job ≡ e'.run.job
        → i ≡ k)
    × IsFresh s.db

-- The jobs that run stay as they are.
abbrev pub Calm : Db → Db → Type 0
Calm db db' =
    ((n : ℕ) (j : Job) → db.jobs n ≡ some j → j.status ≡ running → db'.jobs n ≡ some j)
    × IsFresh db'

pub Grows-Calm : (db db' : Db) → IsFresh db → Grows db db' → Calm db db'
Grows-Calm db db' fresh (old, more, above) = (
  λ n j h run. elim (Bool-cases (ltb n db.next_job)) [
    | inl e ↦ old n (ground (arith, e)) ∙ h
    | inr e ↦ absurd (let q = fresh n (ground (arith, e)) in cc)
  ],
  λ n h. above n h ∙ fresh n (omega (arith, h, more)),
)

pub other_row :
    (id n : ℕ) (f : Job → Job) (db db' : Db) → n ≢ id → Alters id f db db' → db'.jobs n ≡ db.jobs n
other_row id n f db db' different (rows, next) =
    let other : (n == id) ≡ false = ground (arith, different) in ap (λ x. x n) rows ∙ rw other refl

pub Alters-IsFresh :
    (id : ℕ) (f : Job → Job) (j : Job) (db db' : Db)
    → IsFresh db
    → db.jobs id ≡ some j
    → Alters id f db db'
    → IsFresh db'
Alters-IsFresh id f j db db' fresh row alters n above = elim (Bool-cases (n == id)) [
  | inl e ↦ absurd (
      let same = (==_iff n id).0 e in
      let q = fresh id (ground (arith, same, above, alters.1)) in cc)
  | inr e ↦
      other_row id n f db db' (ground (arith, e)) alters ∙ fresh n (ground (arith, above, alters.1))
]

pub Alters-Calm :
    (id : ℕ) (f : Job → Job) (j : Job) (db db' : Db)
    → IsFresh db
    → db.jobs id ≡ some j
    → j.status ≢ running
    → Alters id f db db'
    → Calm db db'
Alters-Calm id f j db db' fresh row idle alters = (
  λ n j' h run. elim (Bool-cases (n == id)) [
    | inl e ↦ absurd (
        let same : n ≡ id = (==_iff n id).0 e in
        let two : some j ≡ some j' = sym row ∙ ap db.jobs (sym same) ∙ h in
        let it : j ≡ j' = ground (arith, two) in idle (ap (λ x. x.status) it ∙ run))
    | inr e ↦ other_row id n f db db' (ground (arith, e)) alters ∙ h
  ],
  Alters-IsFresh id f j db db' fresh row alters,
)

pub Calm-Waits : (db db' : Db) (e : Exec) → Calm db db' → Waits db e → Waits db' e
Calm-Waits db db' e (same, fresh) (j, h, run, dry, rule) =
    (j, same e.run.job j h run, run, dry, rule)

pub Calm-IsValid :
    (s : System) (db : Db) → IsValid s → Calm s.db db → IsValid (record s { db = db })
Calm-IsValid s db (each, single, fresh) calm = (
  λ i e h. let (below, waits) = each i e h in (below, Calm-Waits s.db db e calm waits),
  single,
  calm.1,
)
