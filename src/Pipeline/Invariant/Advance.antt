-- ===== src/Pipeline/Invariant/Advance.antt =====
-- `advanceRun` up to its wait.
use conductor_dashboard.Common.{
  ℕ, ◌≡◌, refl, inl, inr, Bool, Option, none, some, get_elem?, Bool-cases, select, ◌==◌,
}
use conductor_dashboard.Pipeline.{StepError, RunStep, RunStatus, Run, Db}
use conductor_dashboard.Pipeline.Steps.{is_running, Next, fails, finishes, continues}
use conductor_dashboard.Pipeline.Spawn.{seconds, in_workspace}
use conductor_dashboard.Pipeline.Ops.{
  is_running_run, advance_next, advance_step, advance_row, begin_advance,
}
use conductor_dashboard.Pipeline.Effect.{Follows, plan_next-Follows}
use conductor_dashboard.Pipeline.Invariant.{
  SoundAt, Good, end_run-SoundAt, Found, Found-row, Found-InFlight,
}

module _ (now id ws : ℕ) (success : Bool) (error : Option StepError) (db : Db)
    (h : SoundAt id db) where
  advance_next-Good :
      (row : Run) (i : ℕ) (next : Next)
      → Found id ws row db
      → Follows i next
      → Good id (advance_next now id ws i row next db)
  unfolding advance_next
  advance_next-Good row i (fails ss) found fits =
      (end_run-SoundAt id row RunStatus.failed now ws i ss db h fits, tt)
  advance_next-Good row i (finishes status ss) found fits =
      (end_run-SoundAt id row status now ws i ss db h fits.0, tt)
  advance_next-Good row i (continues ss) (there, running) fits =
      (h, (refl, (fits, λ a e. (let q : row ≡ a = cc in rw q at running, tt))))

  advance_step-Good :
      (row : Run) (o : Option RunStep)
      → Found id ws row db
      → get_elem? row.steps row.current_step ≡ o
      → Good id (advance_step now id ws success error row o db)
  unfolding advance_step
  advance_step-Good row none found e = (h, tt)
  advance_step-Good row (some s) found e = elim (Bool-cases (is_running s.status)) [
    | inl going ↦ rw going (
        advance_next-Good row row.current_step _ found (
          plan_next-Follows success error now row.current_step row.steps s
            (Found-InFlight id ws row db h found) e))
    | inr over ↦ rw over (h, tt)
  ]

  advance_row-Good :
      (o : Option Run)
      → select db.runs id (in_workspace ws) ≡ o
      → Good id (advance_row now id ws success error o db)
  unfolding advance_row
  advance_row-Good none e = (h, tt)
  advance_row-Good (some row) e = elim (Bool-cases (is_running_run row.status)) [
    | inl going ↦ rw going (
        advance_step-Good row (get_elem? row.steps row.current_step) (Found-row id ws db e going)
          refl)
    | inr over ↦ rw over (h, tt)
  ]

pub begin_advance-Good :
    (ms id ws : ℕ) (success : Bool) (error : Option StepError) (db : Db)
    → SoundAt id db
    → Good id (begin_advance ms id success error ws db)
unfolding begin_advance
begin_advance-Good ms id ws success error db h = elim (Bool-cases (id == 0)) [
  | inl missing ↦ rw missing (h, tt)
  | inr given ↦ rw given (
      advance_row-Good (seconds ms) id ws success error db h (select db.runs id (in_workspace ws))
        refl)
]
