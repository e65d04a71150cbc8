-- ===== src/Pipeline/Invariant/Control.antt =====
-- `cancelRun`, and `startPipeline` up to its spawn.
use conductor_dashboard.Common.{
  ℕ, suc, String, ◌≡◌, refl, subst, inl, inr, Bool, Option, none, some, List, [], ◌∷◌, arith, map,
  All, Bool-cases, Option-cases, select, ◌==◌, ==_refl,
}
use conductor_dashboard.Pipeline.{RunStep, RunStatus, Run, PipelineStep, Db}
use conductor_dashboard.Pipeline.Spawn.{seconds, truthy_number, in_workspace}
use conductor_dashboard.Pipeline.Ops.{is_cancellable}
use conductor_dashboard.Pipeline.Control.{
  cancel_step, cancel_row, cancel_run, snapshot, new_run, insert_run, begin_start, start_steps,
  start_row, start_pipeline,
}
use conductor_dashboard.Pipeline.Shape.{InFlight, IsSound, IsSettled, IsPending}
use conductor_dashboard.Pipeline.Invariant.{SoundAt, Good, update-IsSoundRow, link_started-rows}

cancel_step-IsSettled : (now : ℕ) (s : RunStep) → IsSettled (cancel_step now s)
cancel_step-IsSettled now s = ground arith

cancel_steps-IsSettled : (now : ℕ) (ss : List RunStep) → All IsSettled (map (cancel_step now) ss)
cancel_steps-IsSettled now [] = tt
cancel_steps-IsSettled now (s ∷ ss) = (cancel_step-IsSettled now s, cancel_steps-IsSettled now ss)

cancel_row-SoundAt :
    (now id ws : ℕ) (o : Option Run) (db : Db)
    → SoundAt id db
    → SoundAt id (cancel_row now id ws o db).0
unfolding cancel_row
cancel_row-SoundAt now id ws none db h = h
cancel_row-SoundAt now id ws (some row) db h = elim (Bool-cases (is_cancellable row.status)) [
  | inl able ↦ rw able (
      update-IsSoundRow id db.runs (in_workspace ws) _ h
        (λ a e p. cancel_steps-IsSettled now row.steps))
  | inr over ↦ rw over h
]

pub cancel_run-SoundAt :
    (ms id ws : ℕ) (db : Db) → SoundAt id db → SoundAt id (cancel_run ms id ws db).0
unfolding cancel_run
cancel_run-SoundAt ms id ws db h = elim (Bool-cases (id == 0)) [
  | inl missing ↦ rw missing h
  | inr given ↦
      rw given (cancel_row-SoundAt (seconds ms) id ws (select db.runs id (in_workspace ws)) db h)
]

snapshot-All-IsPending :
    (now i : ℕ) (db : Db) (ss : List PipelineStep) → All IsPending (snapshot now (suc i) db ss)
unfolding snapshot
snapshot-All-IsPending now i db [] = tt
snapshot-All-IsPending now i db (s ∷ ss) = (ground arith, snapshot-All-IsPending now (suc i) db ss)

-- A new run is in flight at its first step.
snapshot-InFlight :
    (now : ℕ) (db : Db) (s : PipelineStep) (ss : List PipelineStep)
    → InFlight 0 (snapshot now 0 db (s ∷ ss))
unfolding snapshot
snapshot-InFlight now db s ss = (inl refl, snapshot-All-IsPending now 0 db ss)

-- The new row.
begun_row :
    (now pipeline : ℕ) (by : String) (ws : ℕ) (context : Option String) (task : Option ℕ)
    (auto : Bool) (ss : List RunStep) (a : Run) (db : Db)
    → (begin_start now pipeline ss ws context task auto by db).0.runs db.next_run ≡ some a
    → new_run now ws pipeline ss context task auto by ≡ a
begun_row now pipeline by ws context task auto ss a db e =
    let row = new_run now ws pipeline ss context task auto by in
    let rows = (link_started-rows now db.next_run ws (truthy_number task) (insert_run row db)).0 in
    let there = rw (rows, ==_refl db.next_run) at e in ground arith

start_steps-Good :
    (now pipeline : ℕ) (by : String) (ws : ℕ) (context : Option String) (task : Option ℕ)
    (auto : Bool) (steps : List PipelineStep) (db : Db)
    → SoundAt db.next_run db
    → Good db.next_run (start_steps now pipeline by ws context task auto steps db)
start_steps-Good now pipeline by ws context task auto [] db h = (h, tt)
start_steps-Good now pipeline by ws context task auto (s ∷ ss) db h =
    let ready = snapshot now 0 db (s ∷ ss) in
    let fits : InFlight 0 ready = snapshot-InFlight now db s ss in
    let row = new_run now ws pipeline ready context task auto by in
    (
      λ a e. subst IsSound (begun_row now pipeline by ws context task auto ready a db e) fits,
      (
        refl,
        (
          fits,
          λ a e.
              subst (λ r. (r.status ≡ RunStatus.running) × (r.current_step ≡ 0))
                (begun_row now pipeline by ws context task auto ready a db e) (refl, refl),
        ),
      ),
    )

pub start_pipeline-Good :
    (ms pipeline : ℕ) (by : String) (ws : ℕ) (context : Option String) (task : Option ℕ)
    (auto : Bool) (db : Db)
    → SoundAt db.next_run db
    → Good db.next_run (start_pipeline ms pipeline by ws context task auto db)
unfolding start_pipeline start_row
start_pipeline-Good ms pipeline by ws context task auto db h =
    elim (Option-cases (select db.pipelines pipeline (λ p. p.workspace_id == ws))) [
      | inl missing ↦ rw missing (h, tt)
      | inr (row, found) ↦
          rw found (start_steps-Good (seconds ms) pipeline by ws context task auto row.steps db h)
    ]
