-- ===== src/Pipeline/Ops.antt =====
-- `handleStepExit` and `advanceRun`. An operation that spawns the next step is two functions: before
-- `spawnStep` has awaited its imports, and after it; `ms` is the clock, and `sp` what the spawn does.
use conductor_dashboard.Common.{
  ℕ, zero, suc, String, Bool, true, false, Option, none, some, List, ◌==◌, if◌then◌else◌, get_elem?,
  select, update, is_some,
}
use conductor_dashboard.Pipeline.{StepError, exit_code, reported, RunStep, RunStatus, Run, Db}
use conductor_dashboard.Pipeline.Steps.{is_running, Next, fails, finishes, continues, plan_next}
use conductor_dashboard.Pipeline.Spawn.{
  seconds, Spawned, SpawnResult, in_workspace, remove_live, spawn_step, on_pipeline_finished,
}

-- The answers of the route; `server_error` is the handler's catch block.
pub data Response : Type 0 where
  invalid_action id_required run_not_found pipeline_not_found no_steps server_error : Response
  not_running : RunStatus → Response
  already_advanced : List RunStep → Response
  ended : RunStatus → List RunStep → Response
  moved : ℕ → List RunStep → Option SpawnResult → Response
  started : ℕ → RunStatus → List RunStep → Option SpawnResult → Response

-- A call that waits for `spawnStep`; `spawns` tells whether a template was found for the step.
pub record Pending : Type 0 where
  pub run : ℕ
  pub ws : ℕ
  pub step : ℕ
  pub steps : List RunStep
  pub auto : Bool
  pub spawns : Bool

-- The operation that goes on after the spawn; a start knows its pipeline and task.
pub data Wait : Type 0 where
  advancing exiting : Pending → Wait
  starting : ℕ → Option ℕ → Pending → Wait

abbrev pub pending_of : Wait → Pending
pending_of (advancing p) = p
pending_of (exiting p) = p
pending_of (starting pipeline task p) = p

-- How the first part of an operation ends: with its answer, without one, or at `spawnStep`.
pub data Begun : Type 0 where
  responds : Response → Begun
  returns : Begun
  awaits : Wait → Begun

abbrev pub is_running_run : RunStatus → Bool
is_running_run RunStatus.running = true
is_running_run _ = false

abbrev pub is_cancellable : RunStatus → Bool
is_cancellable RunStatus.running = true
is_cancellable RunStatus.pending = true
is_cancellable _ = false

-- UPDATE pipeline_runs SET status = ?, current_step = ?, steps_snapshot = ?, completed_at = ? …
abbrev pub end_run : ℕ → ℕ → RunStatus → ℕ → List RunStep → ℕ → Db → Db
end_run run ws status current steps now db = record db {
  runs = update db.runs run (in_workspace ws) λ r. record r {
    status = status;
    current_step = current;
    steps = steps;
    completed_at = some now;
  };
}

-- UPDATE pipeline_runs SET current_step = ?, steps_snapshot = ? …
abbrev pub move_run : ℕ → ℕ → ℕ → List RunStep → Db → Db
move_run run ws current steps db = record db {
  runs =
      update db.runs run (in_workspace ws) λ r. record r { current_step = current; steps = steps };
}

abbrev pub template_of : List RunStep → ℕ → Db → Option String
template_of steps i db = elim (get_elem? steps i) [
  | none ↦ none
  | some s ↦ db.templates s.template_id
]

abbrev pub pending_at : ℕ → ℕ → ℕ → List RunStep → Run → Db → Pending
pending_at run ws i steps row db = record {
  run = run;
  ws = ws;
  step = i;
  steps = steps;
  auto = row.auto_advance;
  spawns = is_some (template_of steps i db);
}

-- What `handleStepExit` does once the guards are passed; it writes before it spawns.
unfoldable pub exit_next : ℕ → ℕ → ℕ → ℕ → Run → Next → Db → Db × Begun
exit_next now run ws i row (fails steps) db =
    let failed = RunStatus.failed in
    (on_pipeline_finished run row failed now ws (end_run run ws failed i steps now db), returns)
exit_next now run ws i row (finishes status steps) db =
    (on_pipeline_finished run row status now ws (end_run run ws status i steps now db), returns)
exit_next now run ws i row (continues steps) db =
    (move_run run ws (suc i) steps db, awaits (exiting (pending_at run ws (suc i) steps row db)))

unfoldable pub exit_step :
    ℕ → ℕ → ℕ → ℕ → Bool → Option StepError → Run → Option RunStep → Db → Db × Begun
unfolding exit_next
exit_step now run ws i success error row none db = (db, returns)
exit_step now run ws i success error row (some s) db =
    if is_running s.status
    then exit_next now run ws i row (plan_next success error now i row.steps s) db
    else (db, returns)

unfoldable pub exit_row : ℕ → ℕ → ℕ → ℕ → Bool → Option StepError → Option Run → Db → Db × Begun
unfolding exit_step
exit_row now run ws i success error none db = (db, returns)
exit_row now run ws i success error (some row) db =
    if is_running_run row.status
    then exit_step now run ws i success error row (get_elem? row.steps i) db
    else (db, returns)

-- `handleStepExit` up to its call of `spawnStep`.
unfoldable pub handle_step_exit : ℕ → ℕ → ℕ → Bool → Option StepError → ℕ → Db → Db × Begun
unfolding exit_row
handle_step_exit ms run i success error ws db =
    exit_row (seconds ms) run ws i success error (select db.runs run (in_workspace ws)) db

-- The spawn that a call waits for, if its template was found.
abbrev pub run_pending : ℕ → Spawned → Pending → Db → Db × List RunStep × Option SpawnResult
run_pending ms sp p db =
    let (db', steps, result) = spawn_step ms p.run p.ws p.step p.auto sp p.steps db in
    if p.spawns then (db', steps, some result) else (db, p.steps, none)

-- A child that exits or fails to run: the listeners that `spawnStep` leaves behind, and the handler.
unfoldable pub step_exited : ℕ → ℕ → ℕ → Bool → Option StepError → ℕ → Bool → Db → Db × Begun
unfolding handle_step_exit
step_exited ms run i success error ws auto db =
    let gone = record db { live = remove_live run i db.live } in
    if auto then handle_step_exit ms run i success error ws gone else (gone, returns)

-- child.on('exit')
abbrev pub exit_of : Option ℕ → Bool × Option StepError
exit_of none = (false, some (exit_code none))
exit_of (some zero) = (true, none)
exit_of (some (suc n)) = (false, some (exit_code (some (suc n))))

unfoldable pub on_exit : ℕ → ℕ → ℕ → Option ℕ → ℕ → Bool → Db → Db × Begun
unfolding step_exited
on_exit ms run i code ws auto db = step_exited ms run i (exit_of code).0 (exit_of code).1 ws auto db

-- child.on('error')
unfoldable pub on_error : ℕ → ℕ → ℕ → String → ℕ → Bool → Db → Db × Begun
unfolding step_exited
on_error ms run i message ws auto db =
    step_exited ms run i false (some (reported message)) ws auto db

unfoldable pub advance_next : ℕ → ℕ → ℕ → ℕ → Run → Next → Db → Db × Begun
advance_next now run ws i row (fails steps) db =
    let failed = RunStatus.failed in
    (
      on_pipeline_finished run row failed now ws (end_run run ws failed i steps now db),
      responds (ended failed steps),
    )
advance_next now run ws i row (finishes status steps) db = (
  on_pipeline_finished run row status now ws (end_run run ws status i steps now db),
  responds (ended status steps),
)
advance_next now run ws i row (continues steps) db =
    (db, awaits (advancing (pending_at run ws (suc i) steps row db)))

unfoldable pub advance_step :
    ℕ → ℕ → ℕ → Bool → Option StepError → Run → Option RunStep → Db → Db × Begun
unfolding advance_next
advance_step now run ws success error row none db = (db, responds server_error)
advance_step now run ws success error row (some s) db =
    if is_running s.status
    then advance_next now run ws row.current_step row
        (plan_next success error now row.current_step row.steps s) db
    else (db, responds (already_advanced row.steps))

unfoldable pub advance_row : ℕ → ℕ → ℕ → Bool → Option StepError → Option Run → Db → Db × Begun
unfolding advance_step
advance_row now run ws success error none db = (db, responds run_not_found)
advance_row now run ws success error (some row) db =
    if is_running_run row.status
    then advance_step now run ws success error row (get_elem? row.steps row.current_step) db
    else (db, responds (not_running row.status))

-- `advanceRun` up to its wait.
unfoldable pub begin_advance : ℕ → ℕ → Bool → Option StepError → ℕ → Db → Db × Begun
unfolding advance_row
begin_advance ms run success error ws db =
    if run == 0
    then (db, responds id_required)
    else advance_row (seconds ms) run ws success error (select db.runs run (in_workspace ws)) db

-- The rest of `advanceRun`.
unfoldable pub resume_advance : ℕ → Spawned → Pending → Db → Db × Response
resume_advance ms sp p db =
    let (db', steps, result) = run_pending ms sp p db in
    (move_run p.run p.ws p.step steps db', moved p.step steps result)
