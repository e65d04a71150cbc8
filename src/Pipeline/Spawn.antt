-- ===== src/Pipeline/Spawn.antt =====
-- `spawnStep` and `onPipelineFinished`. The agent's process and its log file lie outside: what
-- `child_process.spawn` did is an argument.
use conductor_dashboard.Common.{
  ℕ, suc, ◌/◌, String, Bool, true, false, ◌&&◌, Option, none, some, List, ◌∷◌, ◌==◌, if◌then◌else◌,
  get_elem?, modify, update,
}
use conductor_dashboard.Task.{TaskStatus}
use conductor_dashboard.Pipeline.{
  StepStatus, spawn_failed, RunStep, RunStatus, Run, Db, SpawnId, LogFile, pipeline_finished,
}
use conductor_dashboard.Pipeline.Steps.{skip_from, stops}

-- Date.now() in whole seconds
abbrev pub seconds : ℕ → ℕ
seconds ms = ms / 1000

-- The call threw, with a message; or it gave a child, whose pid may be undefined.
pub data Spawned : Type 0 where
  threw : String → Spawned
  child : Option ℕ → Spawned

pub data SpawnResult : Type 0 where
  success : SpawnId → SpawnResult
  failure : String → SpawnResult

-- `x || null` and `if (x)` for a number
abbrev pub truthy_number : Option ℕ → Option ℕ
truthy_number none = none
truthy_number (some n) = if n == 0 then none else some n

abbrev pub in_workspace : ℕ → Run → Bool
in_workspace ws r = r.workspace_id == ws

abbrev pub is_key : ℕ → ℕ → ℕ → ℕ → Bool
is_key run step run' step' = run == run' && step == step'

abbrev pub add_live : ℕ → ℕ → Option ℕ → (ℕ → ℕ → Option ℕ) → ℕ → ℕ → Option ℕ
add_live run step none live r i = live r i
add_live run step (some pid) live r i = if is_key run step r i then some pid else live r i

abbrev pub remove_live : ℕ → ℕ → (ℕ → ℕ → Option ℕ) → ℕ → ℕ → Option ℕ
remove_live run step live r i = if is_key run step r i then none else live r i

-- UPDATE pipeline_runs SET steps_snapshot = ? WHERE id = ? AND workspace_id = ?
abbrev pub write_steps : ℕ → ℕ → List RunStep → Db → Db
write_steps run ws steps db = record db {
  runs = update db.runs run (in_workspace ws) (λ r. record r { steps = steps });
}

abbrev pub mark_spawned : SpawnId → ℕ → Option ℕ → LogFile → RunStep → RunStep
mark_spawned id now pid log s = record s {
  spawn_id = some id;
  started_at = some now;
  pid = pid;
  log_path = some log;
}

abbrev pub mark_spawn_failed : String → ℕ → RunStep → RunStep
mark_spawn_failed message now s = record s {
  status = StepStatus.failed;
  completed_at = some now;
  error = some (spawn_failed message);
}

-- The catch block's on_failure policy, for the array with step `i` already marked as failed.
abbrev pub apply_policy : ℕ → ℕ → ℕ → ℕ → Option RunStep → List RunStep → Db → Db × List RunStep
apply_policy run ws i now none steps db = (db, steps)
apply_policy run ws i now (some s) steps db =
    let skipped = skip_from (suc i) steps in
    if stops s
    then (
      record db {
        runs =
            update db.runs run (in_workspace ws)
              λ r. record r { status = RunStatus.failed; steps = skipped; completed_at = some now };
      },
      skipped,
    )
    else (db, steps)

abbrev pub spawn_failure : ℕ → ℕ → ℕ → ℕ → Bool → String → List RunStep → Db → Db × List RunStep
spawn_failure run ws i now auto message steps db =
    let failed = modify steps i (mark_spawn_failed message now) in
    let written = write_steps run ws failed db in
    if auto
    then apply_policy run ws i now (get_elem? failed i) failed written
    else (written, failed)

-- Returns the tables, the array of steps, which the call changes in place, and the result.
unfoldable pub spawn_step :
    ℕ → ℕ → ℕ → ℕ → Bool → Spawned → List RunStep → Db → Db × List RunStep × SpawnResult
spawn_step ms run ws i auto (child pid) steps db =
    let id : SpawnId = record { run = run; step = i; at_ms = ms } in
    let log : LogFile = record { run = run; step = i } in
    let marked = modify steps i (mark_spawned id (seconds ms) (truthy_number pid) log) in
    let alive = record db { live = add_live run i (truthy_number pid) db.live } in
    (write_steps run ws marked alive, marked, success id)
spawn_step ms run ws i auto (threw message) steps db =
    let (db', steps') = spawn_failure run ws i (seconds ms) auto message steps db in
    (db', steps', failure message)

abbrev pub is_failed_run : RunStatus → Bool
is_failed_run RunStatus.failed = true
is_failed_run _ = false

abbrev pub link_task : Option ℕ → RunStatus → ℕ → ℕ → Db → Db
link_task none status now ws db = db
link_task (some task) status now ws db = record db {
  tasks =
      update db.tasks task (λ t. t.workspace_id == ws)
        λ t. record t {
          status =
              (if is_failed_run status then TaskStatus.in_progress else TaskStatus.quality_review);
          updated_at = now;
        };
}

-- `run` is the row as it was read, before the run finished.
unfoldable pub on_pipeline_finished : ℕ → Run → RunStatus → ℕ → ℕ → Db → Db
on_pipeline_finished id run status now ws db =
    let linked = link_task (truthy_number run.task_id) status now ws db in
    record linked {
      broadcasts = pipeline_finished run.pipeline_id id status run.task_id ∷ linked.broadcasts;
    }
