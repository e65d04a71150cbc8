-- ===== src/Pipeline/Invariant/Exit.antt =====
-- A child that exits, or fails to run: `handleStepExit` up to its spawn.
use conductor_dashboard.Common.{
  ℕ, suc, ◌≡◌, refl, inl, inr, Bool, true, false, Option, none, some, arith, get_elem?, Bool-cases,
  ==_refl, select, select_row, List,
}
use conductor_dashboard.Pipeline.{StepStatus, StepError, RunStep, RunStatus, Run, Db}
use conductor_dashboard.Pipeline.Steps.{is_running, Next, fails, finishes, continues}
use conductor_dashboard.Pipeline.Spawn.{seconds, in_workspace, remove_live}
use conductor_dashboard.Pipeline.Ops.{
  is_running_run, move_run, step_exited, handle_step_exit, exit_next, exit_step, exit_row,
}
use conductor_dashboard.Pipeline.Shape.{InFlight, InFlight-running}
use conductor_dashboard.Pipeline.Effect.{Follows, plan_next-Follows}
use conductor_dashboard.Pipeline.Invariant.{
  SoundAt, Good, end_run-SoundAt, Found, Found-row, Found-InFlight, update-IsSoundRow,
}

-- The row after the UPDATE of `handleStepExit`, where the SELECT had found it.
moved_row :
    (id ws c : ℕ) (ss : List RunStep) (row a : Run) (db : Db)
    → Found id ws row db
    → in_workspace ws row ≡ true
    → (move_run id ws c ss db).runs id ≡ some a
    → (a.status ≡ RunStatus.running) × (a.current_step ≡ c)
moved_row id ws c ss row a db (there, running) mine e =
    let e' = rw (==_refl id, there, mine) at e in (ground arith, ground arith)

module _ (now id i ws : ℕ) (success : Bool) (error : Option StepError) (db : Db)
    (h : SoundAt id db) where
  exit_next-Good :
      (row : Run) (next : Next)
      → Found id ws row db
      → in_workspace ws row ≡ true
      → Follows i next
      → Good id (exit_next now id ws i row next db)
  unfolding exit_next
  exit_next-Good row (fails ss) found mine fits =
      (end_run-SoundAt id row RunStatus.failed now ws i ss db h fits, tt)
  exit_next-Good row (finishes status ss) found mine fits =
      (end_run-SoundAt id row status now ws i ss db h fits.0, tt)
  exit_next-Good row (continues ss) found mine fits = (
    update-IsSoundRow id db.runs (in_workspace ws) _ h (λ a e m.
        let q : row ≡ a = cc (found.0) in
        let r : a.status ≡ RunStatus.running = rw q at (found.1) in rw r fits),
    (refl, (fits, λ a e. moved_row id ws (suc i) ss row a db found mine e)),
  )

  -- A running step is the current one, whatever index the listener was left with.
  at_current :
      (row : Run) {s : RunStep}
      → Found id ws row db
      → get_elem? row.steps i ≡ some s
      → is_running s.status ≡ true
      → InFlight i row.steps
  at_current row {s} found e going =
      let flight = Found-InFlight id ws row db h found in
      let running : s.status ≡ StepStatus.running = ground arith in
      let same = InFlight-running row.current_step i row.steps flight e running in rw same at flight

  exit_step-Good :
      (row : Run) (o : Option RunStep)
      → Found id ws row db
      → in_workspace ws row ≡ true
      → get_elem? row.steps i ≡ o
      → Good id (exit_step now id ws i success error row o db)
  unfolding exit_step
  exit_step-Good row none found mine e = (h, tt)
  exit_step-Good row (some s) found mine e = elim (Bool-cases (is_running s.status)) [
    | inl going ↦ rw going (
        exit_next-Good row _ found mine
          (plan_next-Follows success error now i row.steps s (at_current row found e going) e))
    | inr over ↦ rw over (h, tt)
  ]

  exit_row-Good :
      (o : Option Run)
      → select db.runs id (in_workspace ws) ≡ o
      → Good id (exit_row now id ws i success error o db)
  unfolding exit_row
  exit_row-Good none e = (h, tt)
  exit_row-Good (some row) e = elim (Bool-cases (is_running_run row.status)) [
    | inl going ↦ rw going (
        exit_step-Good row (get_elem? row.steps i) (Found-row id ws db e going)
          (select_row db.runs id (in_workspace ws) e).1 refl)
    | inr over ↦ rw over (h, tt)
  ]

pub step_exited-Good :
    (ms id i : ℕ) (success : Bool) (error : Option StepError) (ws : ℕ) (auto : Bool) (db : Db)
    → SoundAt id db
    → Good id (step_exited ms id i success error ws auto db)
unfolding step_exited handle_step_exit
step_exited-Good ms id i success error ws false db h = (h, tt)
step_exited-Good ms id i success error ws true db h =
    exit_row-Good (seconds ms) id i ws success error (record db { live = remove_live id i db.live })
      h (select db.runs id (in_workspace ws)) refl
