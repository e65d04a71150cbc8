-- ===== src/Pipeline/Invariant.antt =====
-- A run that is sound stays so where an operation goes on after a spawn.
pub mod Advance
pub mod Exit
pub mod Control
use conductor_dashboard.Common.{
  ℕ, ◌≡◌, refl, sym, subst, ap, ◌∙◌, inl, inr, Bool, true, false, Option, none, some, List, arith,
  Bool-cases, Option-cases, Rows, update, select, update-update, select_row, ◌==◌, ==_refl,
}
use conductor_dashboard.Pipeline.{RunStep, RunStatus, Run, Db}
use conductor_dashboard.Pipeline.Spawn.{
  seconds, Spawned, truthy_number, in_workspace, link_task, on_pipeline_finished, spawn_step,
}
use conductor_dashboard.Pipeline.Ops.{
  Pending, Wait, advancing, exiting, starting, Begun, responds, returns, awaits, pending_of,
  is_running_run, end_run, move_run, resume_advance,
}
use conductor_dashboard.Pipeline.Control.{link_started, resume, resume_start}
use conductor_dashboard.Pipeline.Shape.{InFlight, Fits, IsSound}
use conductor_dashboard.Pipeline.Effect.{row_after, Landed, SpawnEffect, spawn_step-SpawnEffect}

abbrev pub IsSoundRow : ℕ → Rows Run → Type 0
IsSoundRow n t = (a : Run) → t n ≡ some a → IsSound a

abbrev pub SoundAt : ℕ → Db → Type 0
SoundAt n db = IsSoundRow n db.runs

pub update-IsSoundRow :
    (n : ℕ) (t : Rows Run) (p : Run → Bool) (f : Run → Run)
    → IsSoundRow n t
    → ((a : Run) → t n ≡ some a → p a ≡ true → IsSound (f a))
    → IsSoundRow n (update t n p f)
update-IsSoundRow n t p f h k b e =
    let there = rw (==_refl n) at e in
    elim (Option-cases (t n)) [
      | inl missing ↦ absurd (let q = rw missing at there in cc q)
      | inr (a, found) ↦ elim (Bool-cases (p a)) [
        | inl fits ↦
            let q : f a ≡ b = let z = rw (found, fits) at there in ground arith in
            subst IsSound q (k a found fits)
        | inr differs ↦
            let q : a ≡ b = let z = rw (found, differs) at there in ground arith in
            subst IsSound q (h a found)
      ]
    ]

pub link_task-rows :
    (o : Option ℕ) (status : RunStatus) (now ws : ℕ) (db : Db)
    → ((link_task o status now ws db).runs ≡ db.runs)
      × ((link_task o status now ws db).next_run ≡ db.next_run)
link_task-rows none status now ws db = (refl, refl)
link_task-rows (some t) status now ws db = (refl, refl)

pub link_started-rows :
    (now id ws : ℕ) (task : Option ℕ) (db : Db)
    → ((link_started now id ws task db).runs ≡ db.runs)
      × ((link_started now id ws task db).next_run ≡ db.next_run)
link_started-rows now id ws none db = (refl, refl)
link_started-rows now id ws (some task) db = (refl, refl)

-- A run that ends in a shape that its new status asks for.
pub end_run-SoundAt :
    (id : ℕ) (row : Run) (status : RunStatus) (now ws i : ℕ) (ss : List RunStep) (db : Db)
    → SoundAt id db
    → Fits status i ss
    → SoundAt id (on_pipeline_finished id row status now ws (end_run id ws status i ss now db))
unfolding on_pipeline_finished
end_run-SoundAt id row status now ws i ss db h fits =
    rw
      ((link_task-rows (truthy_number row.task_id) status now ws
        (end_run id ws status i ss now db)).0)
      (update-IsSoundRow id db.runs (in_workspace ws) _ h (λ a e p. fits))

-- The row that a SELECT found in status `running`.
abbrev pub Found : ℕ → ℕ → Run → Db → Type 0
Found id ws row db = (db.runs id ≡ some row) × (row.status ≡ RunStatus.running)

pub Found-row :
    (id ws : ℕ) (db : Db) {row : Run}
    → select db.runs id (in_workspace ws) ≡ some row
    → is_running_run row.status ≡ true
    → Found id ws row db
Found-row id ws db {row} e r = ((select_row db.runs id (in_workspace ws) e).0, ground arith)

pub Found-InFlight :
    (id ws : ℕ) (row : Run) (db : Db)
    → SoundAt id db
    → Found id ws row db
    → InFlight row.current_step row.steps
Found-InFlight id ws row db h (there, running) =
    let s = h row there in rw (ap (λ st. Fits st row.current_step row.steps) running) at s

-- What an operation that waits relies on: the steps it carries are in flight at the step to spawn, and
-- its run still runs, where the operation has not the run's place yet to write.
abbrev pub Placed : Wait → Run → Type 0
Placed (advancing p) a = Unit
Placed (exiting p) a = a.current_step ≡ p.step
Placed (starting pipeline task p) a = a.current_step ≡ p.step

abbrev pub Carries : Pending → Type 0
Carries p = InFlight p.step p.steps

abbrev pub Ready : ℕ → Wait → Db → Type 0
Ready n w db =
    Carries (pending_of w)
    × ((a : Run) → db.runs n ≡ some a → (a.status ≡ RunStatus.running) × Placed w a)

abbrev pub BegunReady : ℕ → Begun → Db → Type 0
BegunReady n (responds r) db = Unit
BegunReady n returns db = Unit
BegunReady n (awaits w) db = (n ≡ (pending_of w).run) × Ready n w db

-- The first part of an operation leaves the run sound, and what waits can rely on it.
abbrev pub Good : ℕ → Db × Begun → Type 0
Good n (db, b) = SoundAt n db × BegunReady n b db

Landed-IsSound :
    (b : Bool) (now c : ℕ) (ss : List RunStep) (a : Run)
    → a.status ≡ RunStatus.running
    → Landed b c ss
    → IsSound (record (row_after b now ss a) { current_step = c; steps = ss })
Landed-IsSound false now c ss a running h = rw running h
Landed-IsSound true now c ss a running h = h

Landed-placed-IsSound :
    (b : Bool) (now c : ℕ) (ss : List RunStep) (a : Run)
    → (a.status ≡ RunStatus.running) × (a.current_step ≡ c)
    → Landed b c ss
    → IsSound (row_after b now ss a)
Landed-placed-IsSound false now c ss a (running, placed) h = rw (running, placed) h
Landed-placed-IsSound true now c ss a e h = h

landed-in_workspace :
    (b : Bool) (now ws : ℕ) (ss : List RunStep) (a : Run)
    → in_workspace ws (row_after b now ss a) ≡ in_workspace ws a
landed-in_workspace false now ws ss a = refl
landed-in_workspace true now ws ss a = refl

module _ (id ws : ℕ) (db : Db) (h : SoundAt id db) where
  -- The spawn, then the write of `advanceRun`.
  spawn_move-SoundAt :
      (now c : ℕ) (db' : Db) (ss : List RunStep)
      → ((a : Run) → db.runs id ≡ some a → a.status ≡ RunStatus.running)
      → SpawnEffect now id ws c db (db', ss)
      → SoundAt id (move_run id ws c ss db')
  spawn_move-SoundAt now c db' ss runs (b, e, landed) =
      subst (IsSoundRow id)
        (sym (
          ap (λ t. update t id (in_workspace ws) (λ r. record r { current_step = c; steps = ss })) e
          ∙ update-update db.runs id (in_workspace ws) (row_after b now ss)
              (λ r. record r { current_step = c; steps = ss }) (landed-in_workspace b now ws ss)))
        (update-IsSoundRow id db.runs (in_workspace ws) _ h
          (λ a there mine. Landed-IsSound b now c ss a (runs a there) landed))

  -- A spawn for a run that stands at the step already.
  spawn_placed-SoundAt :
      (now c : ℕ) (db' : Db) (ss : List RunStep)
      → ((a : Run) → db.runs id ≡ some a → (a.status ≡ RunStatus.running) × (a.current_step ≡ c))
      → SpawnEffect now id ws c db (db', ss)
      → SoundAt id db'
  spawn_placed-SoundAt now c db' ss placed (b, e, landed) = subst (IsSoundRow id) (sym e) (
      update-IsSoundRow id db.runs (in_workspace ws) _ h
        (λ a there mine. Landed-placed-IsSound b now c ss a (placed a there) landed))

  move-SoundAt :
      (c : ℕ) (ss : List RunStep)
      → ((a : Run) → db.runs id ≡ some a → a.status ≡ RunStatus.running)
      → InFlight c ss
      → SoundAt id (move_run id ws c ss db)
  move-SoundAt c ss runs fits =
      update-IsSoundRow id db.runs (in_workspace ws) _ h
        (λ a there mine. Landed-IsSound false 0 c ss a (runs a there) fits)

-- A run keeps its shape where an operation on it goes on, if it is as the operation left it.
pub resume-SoundAt :
    (ms : ℕ) (sp : Spawned) (w : Wait) (db : Db)
    → SoundAt (pending_of w).run db
    → Ready (pending_of w).run w db
    → SoundAt (pending_of w).run (resume ms sp w db).0
unfolding resume resume_advance resume_start
resume-SoundAt ms sp (advancing p) db h (fits, runs) = elim (Bool-cases p.spawns) [
  | inl e ↦
      let r = spawn_step ms p.run p.ws p.step p.auto sp p.steps db in
      rw e (
        spawn_move-SoundAt p.run p.ws db h (seconds ms) p.step r.0 r.1 (λ a there. (runs a there).0)
          (spawn_step-SpawnEffect ms p.run p.ws p.step p.auto sp p.steps db fits))
  | inr e ↦ rw e (move-SoundAt p.run p.ws db h p.step p.steps (λ a there. (runs a there).0) fits)
]
resume-SoundAt ms sp (exiting p) db h (fits, runs) = elim (Bool-cases p.spawns) [
  | inl e ↦
      let r = spawn_step ms p.run p.ws p.step p.auto sp p.steps db in
      rw e (
        spawn_placed-SoundAt p.run p.ws db h (seconds ms) p.step r.0 r.1 runs
          (spawn_step-SpawnEffect ms p.run p.ws p.step p.auto sp p.steps db fits))
  | inr e ↦ rw e h
]
resume-SoundAt ms sp (starting pipeline task p) db h (fits, runs) = elim (Bool-cases p.spawns) [
  | inl e ↦
      let r = spawn_step ms p.run p.ws p.step p.auto sp p.steps db in
      rw e (
        spawn_placed-SoundAt p.run p.ws db h (seconds ms) p.step r.0 r.1 runs
          (spawn_step-SpawnEffect ms p.run p.ws p.step p.auto sp p.steps db fits))
  | inr e ↦ rw e h
]
