-- ===== src/Provision/Finish.antt =====
-- The end of executions and of their jobs.
use conductor_dashboard.Common.{
  ℕ, suc, ◌-◌, ◌<◌, ◌≤◌, ◌≡◌, ◌⊎◌, refl, sym, ap, subst, ◌∙◌, inl, inr, Bool, true, false, not,
  ◌&&◌, Option, none, some, List, [], ◌∷◌, arith, ◌==◌, ==_iff, length, if◌then◌else◌, Bool-cases,
}
use conductor_dashboard.Provision.{completed, failed, Step, Job, Db, info}
use conductor_dashboard.Provision.Fields.{log_event}
use conductor_dashboard.Provision.Execute.{
  add_result, Begun, refused, began, outcome_of, step_call, after_step, next_step,
  execute_provision_job,
}
use conductor_dashboard.Provision.Run.{Exec, Run, Outcome, finished, threw}
use conductor_dashboard.Provision.System.{
  System, Input, create, retire, queue, change, execute, result, handle, resume, play, admit,
  settle,
}
use conductor_dashboard.Provision.Rule.Started.{AfterGoes, after_step-Goes}
use conductor_dashboard.Provision.Rule.Waits.{IsValid}

-- The outcomes that an execution waits for.
abbrev awaited : Option Exec → ℕ
awaited none = 0
awaited (some e) = suc (length e.rest)

abbrev is_outcome_of : ℕ → Input → Bool
is_outcome_of i (result now k o) = i == k
is_outcome_of i (create now by env r) = false
is_outcome_of i (retire now by tenant r) = false
is_outcome_of i (queue now by tenant kind dry request plan) = false
is_outcome_of i (change now by job action) = false
is_outcome_of i (execute now by job) = false

-- How many outcomes of the execution i stand among the inputs.
unfoldable pub outcomes_of : ℕ → List Input → ℕ
outcomes_of i [] = 0
outcomes_of i (x ∷ is) = let rest = outcomes_of i is in if is_outcome_of i x then suc rest else rest

next_step-awaited :
    (now : ℕ) (r : Run) (plan : List Step) (db : Db)
    → awaited (next_step now r plan db).1 ≤ length plan
unfolding next_step
next_step-awaited now r [] db = omega arith
next_step-awaited now r (s ∷ rest) db = elim (Bool-cases (not r.dry && not r.allow)) [
  | inl e ↦ rw e (omega arith)
  | inr e ↦ rw e (omega arith)
]

after_step-awaited :
    (now : ℕ) (e : Exec) (o : Outcome) (db : Db) → awaited (after_step now e o db).1 ≤ length e.rest
unfolding after_step
after_step-awaited now e (threw message) db = omega arith
after_step-awaited now e (finished code skipped) db =
    next_step-awaited now (add_result e.run e.step code skipped) e.rest
      (log_event e.run.job info e.step.key db)

-- What one input leaves of an execution that has a number, where it is not an outcome of its own.
abbrev Leaves : ℕ → System → System → Type 0
Leaves i s s' = (s'.execs i ≡ s.execs i) × (s.next_exec ≤ s'.next_exec)

admit-Leaves : (i : ℕ) (out : Db × Begun) (s : System) → i < s.next_exec → Leaves i s (admit out s)
admit-Leaves i (db, refused why) s below = (refl, omega arith)
admit-Leaves i (db, began none) s below = (refl, omega arith)
admit-Leaves i (db, began (some e)) s below =
    let other : (i == s.next_exec) ≡ false = ground (arith, below) in (rw other refl, omega arith)

resume-Leaves :
    (now i k : ℕ) (o : Outcome) (s : System) (e : Option Exec)
    → (i == k) ≡ false
    → Leaves i s (resume e now k o s)
unfolding resume
resume-Leaves now i k o s none other = (refl, omega arith)
resume-Leaves now i k o s (some e) other = (rw other refl, omega arith)

handle-Leaves :
    (i : ℕ) (x : Input) (s : System)
    → is_outcome_of i x ≡ false
    → i < s.next_exec
    → Leaves i s (handle x s)
unfolding handle
handle-Leaves i (create now by env r) s other below = (refl, omega arith)
handle-Leaves i (retire now by tenant r) s other below = (refl, omega arith)
handle-Leaves i (queue now by tenant kind dry request plan) s other below = (refl, omega arith)
handle-Leaves i (change now by job action) s other below = (refl, omega arith)
handle-Leaves i (execute now by job) s other below =
    admit-Leaves i (execute_provision_job now job by s.allow s.db) s below
handle-Leaves i (result now k o) s other below = resume-Leaves now i k o s (s.execs k) other

-- What an outcome of its own leaves of it.
resume-awaited :
    (now i : ℕ) (o : Outcome) (s : System) (e : Option Exec)
    → s.execs i ≡ e
    → (awaited ((resume e now i o s).execs i) ≤ awaited e - 1)
      × ((resume e now i o s).next_exec ≡ s.next_exec)
unfolding resume
resume-awaited now i o s none here = (rw here (omega arith), refl)
resume-awaited now i o s (some e) here =
    let own : (i == i) ≡ true = ground arith in
    let out = outcome_of (step_call s.is_daemon e.step e.run.dry) e.step.key o in
    let less = after_step-awaited now e out s.db in (rw own (omega (arith, less)), refl)

handle-awaited :
    (i : ℕ) (x : Input) (s : System)
    → is_outcome_of i x ≡ true
    → (awaited ((handle x s).execs i) ≤ awaited (s.execs i) - 1)
      × ((handle x s).next_exec ≡ s.next_exec)
unfolding handle
handle-awaited i (result now k o) s own =
    let same : i ≡ k = (==_iff i k).0 own in rw same (resume-awaited now k o s (s.execs k) refl)
handle-awaited i (create now by env r) s own = absurd (cc)
handle-awaited i (retire now by tenant r) s own = absurd (cc)
handle-awaited i (queue now by tenant kind dry request plan) s own = absurd (cc)
handle-awaited i (change now by job action) s own = absurd (cc)
handle-awaited i (execute now by job) s own = absurd (cc)

play-awaited :
    (is : List Input) (i : ℕ) (s : System)
    → i < s.next_exec
    → awaited ((play is s).execs i) ≤ awaited (s.execs i) - outcomes_of i is
unfolding play outcomes_of
play-awaited [] i s below = omega arith
play-awaited (x ∷ is) i s below = elim (Bool-cases (is_outcome_of i x)) [
  | inl own ↦
      let (less, next) = handle-awaited i x s own in
      let rest = play-awaited is i (handle x s) (omega (arith, below, next)) in
      rw own (omega (arith, less, rest))
  | inr other ↦
      let (same, more) = handle-Leaves i x s other below in
      let rest = play-awaited is i (handle x s) (omega (arith, below, more)) in
      rw other (let q = rw same at rest in q)
]

awaited-none : (e : Option Exec) → awaited e ≤ 0 → e ≡ none
awaited-none none h = refl
awaited-none (some e) h = absurd (omega (arith, h))

-- An execution that waits with some steps left is over after as many outcomes of its own as it has steps
-- left and one, or more of them, whatever other inputs come between them and whatever they are.
pub play-ends :
    (is : List Input) (i : ℕ) (e : Exec) (s : System)
    → i < s.next_exec
    → s.execs i ≡ some e
    → length e.rest < outcomes_of i is
    → (play is s).execs i ≡ none
play-ends is i e s below here enough =
    let most = play-awaited is i s below in
    let all : awaited (s.execs i) ≤ outcomes_of i is = rw here (omega (arith, enough)) in
    awaited-none ((play is s).execs i) (omega (arith, most, all))

-- How an execution that is over leaves its job.
abbrev Over : Exec → System → Type 0
Over e s =
    (j : Job) × (s.db.jobs e.run.job ≡ some j) × ((j.status ≡ completed) ⊎ (j.status ≡ failed))

settle-ends :
    (i : ℕ) (e : Exec) (out : Db × Option Exec) (s : System) (j : Job)
    → s.db.jobs e.run.job ≡ some j
    → AfterGoes e s.db out
    → (settle i out s).execs i ≡ none
    → Over e (settle i out s)
settle-ends i e (db, none) s j row (f, rows, next, ends) over =
    let own : (e.run.job == e.run.job) ≡ true = ground arith in
    let (ended, r, d, p) = ends j in (f j, ap (λ x. x e.run.job) rows ∙ rw (own, row) refl, ended)
settle-ends i e (db, some e') s j row goes over =
    let own : (i == i) ≡ true = ground arith in absurd (let q = rw own at over in cc q)

resume-ends :
    (now i : ℕ) (o : Outcome) (e : Exec) (s : System) (waiting : Option Exec) (j : Job)
    → s.db.jobs e.run.job ≡ some j
    → waiting ≡ some e
    → (resume waiting now i o s).execs i ≡ none
    → Over e (resume waiting now i o s)
unfolding resume
resume-ends now i o e s none j row it over = absurd (cc)
resume-ends now i o e s (some w) j row it over =
    let same : w ≡ e = ground (arith, it) in
    let out = outcome_of (step_call s.is_daemon e.step e.run.dry) e.step.key o in
    let last : (resume (some e) now i o s).execs i ≡ none =
      subst (λ x. (resume (some x) now i o s).execs i ≡ none) same over in
    subst (λ x. Over e (resume (some x) now i o s)) (sym same)
      (settle-ends i e (after_step now e out s.db) s j row (after_step-Goes now e out s.db) last)

-- In a state that keeps the rules of executions, an outcome after which an execution waits no more leaves
-- its job completed or failed.
pub result-ends :
    (now i : ℕ) (o : Outcome) (e : Exec) (s : System)
    → IsValid s
    → s.execs i ≡ some e
    → (handle (result now i o) s).execs i ≡ none
    → (j : Job) × ((handle (result now i o) s).db.jobs e.run.job ≡ some j)
      × ((j.status ≡ completed) ⊎ (j.status ≡ failed))
unfolding handle
result-ends now i o e s valid here over =
    let (below, (j, row, run, dry, keeps)) = valid.0 i e here in
    resume-ends now i o e s (s.execs i) j row here over
