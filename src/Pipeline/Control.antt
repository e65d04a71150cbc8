-- ===== src/Pipeline/Control.antt =====
-- `cancelRun`, `startPipeline`, and the dispatch of POST /api/pipelines/run behind its role check.
use conductor_dashboard.Common.{
  ℕ, suc, ◌+◌, String, Bool, true, false, Option, none, some, List, [], ◌∷◌, map, ◌==◌,
  if◌then◌else◌, select, update, insert_row, get_or_else, is_some,
}
use conductor_dashboard.Task.{TaskStatus}
use conductor_dashboard.Pipeline.{
  StepStatus, StepError, RunStep, RunStatus, Run, PipelineStep, PipelineRow, Db, pipeline_started,
  activity,
}
use conductor_dashboard.Pipeline.Steps.{is_running}
use conductor_dashboard.Pipeline.Spawn.{
  seconds, Spawned, SpawnResult, truthy_number, in_workspace, remove_live,
}
use conductor_dashboard.Pipeline.Ops.{
  Response, invalid_action, id_required, run_not_found, pipeline_not_found, no_steps, not_running,
  ended, started, Pending, Wait, advancing, exiting, starting, Begun, responds, awaits,
  is_cancellable, template_of, run_pending, begin_advance, resume_advance,
}

abbrev pub is_pending : StepStatus → Bool
is_pending StepStatus.pending = true
is_pending _ = false

abbrev pub cancel_step : ℕ → RunStep → RunStep
cancel_step now s =
    let skipped = record s { status = StepStatus.skipped; completed_at = some now } in
    if is_running s.status then skipped else (if is_pending s.status then skipped else s)

-- The processes of running steps are killed and forgotten.
unfoldable pub kill_steps : ℕ → List RunStep → (ℕ → ℕ → Option ℕ) → ℕ → ℕ → Option ℕ
kill_steps run [] live = live
kill_steps run (s ∷ ss) live =
    kill_steps run ss (if is_running s.status then remove_live run s.step_index live else live)

unfoldable pub cancel_row : ℕ → ℕ → ℕ → Option Run → Db → Db × Response
cancel_row now run ws none db = (db, run_not_found)
cancel_row now run ws (some row) db =
    let steps = map (cancel_step now) row.steps in
    if is_cancellable row.status
    then (
      record db {
        runs =
            update db.runs run (in_workspace ws) λ r. record r {
              status = RunStatus.cancelled;
              steps = steps;
              completed_at = some now;
            };
        live = kill_steps run row.steps db.live;
      },
      ended RunStatus.cancelled steps,
    )
    else (db, not_running row.status)

unfoldable pub cancel_run : ℕ → ℕ → ℕ → Db → Db × Response
unfolding cancel_row
cancel_run ms run ws db =
    if run == 0
    then (db, id_required)
    else cancel_row (seconds ms) run ws (select db.runs run (in_workspace ws)) db

abbrev pub snapshot_step : ℕ → ℕ → PipelineStep → Option String → RunStep
snapshot_step now i s template = record {
  step_index = i;
  template_id = s.template_id;
  template_name = get_or_else "Unknown" template;
  on_failure = s.on_failure;
  status = (if i == 0 then StepStatus.running else StepStatus.pending);
  spawn_id = none;
  started_at = (if i == 0 then some now else none);
  completed_at = none;
  error = none;
  pid = none;
  log_path = none;
}

-- The snapshot of the steps from index `i` on.
unfoldable pub snapshot : ℕ → ℕ → Db → List PipelineStep → List RunStep
snapshot now i db [] = []
snapshot now i db (s ∷ ss) =
    snapshot_step now i s (db.templates s.template_id) ∷ snapshot now (suc i) db ss

-- INSERT INTO pipeline_runs …
abbrev pub new_run : ℕ → ℕ → ℕ → List RunStep → Option String → Option ℕ → Bool → String → Run
new_run now ws pipeline steps context task auto by = record {
  workspace_id = ws;
  pipeline_id = pipeline;
  status = RunStatus.running;
  current_step = 0;
  steps = steps;
  context = context;
  task_id = truthy_number task;
  auto_advance = auto;
  started_at = now;
  completed_at = none;
  triggered_by = by;
}

abbrev pub link_started : ℕ → ℕ → ℕ → Option ℕ → Db → Db
link_started now run ws none db = db
link_started now run ws (some task) db = record db {
  tasks =
      update db.tasks task (λ t. t.workspace_id == ws)
        λ t. record t {
          pipeline_run_id = some run;
          status = TaskStatus.in_progress;
          updated_at = now;
        };
}

abbrev pub count_use : ℕ → ℕ → ℕ → Db → Db
count_use now pipeline ws db = record db {
  pipelines =
      update db.pipelines pipeline (λ p. p.workspace_id == ws)
        λ p. record p { use_count = p.use_count + 1; last_used_at = some now; updated_at = now };
}

abbrev pub insert_run : Run → Db → Db
insert_run row db = record db {
  runs = insert_row db.runs db.next_run row;
  next_run = suc db.next_run;
}

abbrev pub announce : ℕ → ℕ → Option ℕ → Db → Db
announce pipeline run task db = record db {
  broadcasts = pipeline_started pipeline run task ∷ activity pipeline run task ∷ db.broadcasts;
}

-- What the caller is told of the run, read again after the spawn.
abbrev pub started_response : ℕ → Option Run → List RunStep → Option SpawnResult → Response
started_response run none steps result = started run RunStatus.running steps result
started_response run (some r) steps result = started run r.status r.steps result

-- `startPipeline` for a pipeline whose steps give the snapshot `steps`, up to its spawn.
abbrev pub begin_start :
    ℕ → ℕ → List RunStep → ℕ → Option String → Option ℕ → Bool → String → Db → Db × Begun
begin_start now pipeline steps ws context task auto by db =
    let run = db.next_run in
    let inserted = insert_run (new_run now ws pipeline steps context task auto by) db in
    let linked = link_started now run ws (truthy_number task) inserted in
    (
      count_use now pipeline ws linked,
      awaits (
          starting pipeline task (record {
            run = run;
            ws = ws;
            step = 0;
            steps = steps;
            auto = auto;
            spawns = is_some (template_of steps 0 db);
          })),
    )

-- And after it.
unfoldable pub resume_start : ℕ → Spawned → ℕ → Option ℕ → Pending → Db → Db × Response
resume_start ms sp pipeline task p db =
    let (db', steps, result) = run_pending ms sp p db in
    (announce pipeline p.run task db', started_response p.run (db'.runs p.run) p.steps result)

-- The pipeline's steps, which must not be empty.
abbrev pub start_steps :
    ℕ → ℕ → String → ℕ → Option String → Option ℕ → Bool → List PipelineStep → Db → Db × Begun
start_steps now pipeline by ws context task auto [] db = (db, responds no_steps)
start_steps now pipeline by ws context task auto (s ∷ ss) db =
    begin_start now pipeline (snapshot now 0 db (s ∷ ss)) ws context task auto by db

unfoldable pub start_row :
    ℕ → ℕ → String → ℕ → Option String → Option ℕ → Bool → Option PipelineRow → Db → Db × Begun
start_row now pipeline by ws context task auto none db = (db, responds pipeline_not_found)
start_row now pipeline by ws context task auto (some row) db =
    start_steps now pipeline by ws context task auto row.steps db

-- `startPipeline` up to its spawn. `auto` is `auto_advance !== false`, and `context` is null where it
-- was left out or empty.
unfoldable pub start_pipeline :
    ℕ → ℕ → String → ℕ → Option String → Option ℕ → Bool → Db → Db × Begun
unfolding start_row snapshot
start_pipeline ms pipeline by ws context task auto db =
    start_row (seconds ms) pipeline by ws context task auto
      (select db.pipelines pipeline (λ p. p.workspace_id == ws)) db

-- What an operation does once `spawnStep` goes on, and the answer to its client, if it has one.
unfoldable pub resume : ℕ → Spawned → Wait → Db → Db × Option Response
unfolding resume_start resume_advance
resume ms sp (advancing p) db =
    let (db', response) = resume_advance ms sp p db in (db', some response)
resume ms sp (exiting p) db = ((run_pending ms sp p db).0, none)
resume ms sp (starting pipeline task p) db =
    let (db', response) = resume_start ms sp pipeline task p db in (db', some response)

-- A request's body, as far as its action reads it.
pub data Action : Type 0 where
  start : ℕ → Option String → Option ℕ → Bool → Action
  advance : ℕ → Option Bool → Option StepError → Action
  cancel : ℕ → Action
  other : Action

abbrev pub answered : Db × Response → Db × Begun
answered (db, r) = (db, responds r)

-- POST, once the user is known to be an operator, up to a spawn.
unfoldable pub post : ℕ → String → ℕ → Action → Db → Db × Begun
unfolding start_pipeline begin_advance cancel_run
post ms by ws (start pipeline context task auto) db =
    start_pipeline ms pipeline by ws context task auto db
post ms by ws (advance run success error) db =
    begin_advance ms run (get_or_else true success) error ws db
post ms by ws (cancel run) db = answered (cancel_run ms run ws db)
post ms by ws other db = (db, responds invalid_action)
