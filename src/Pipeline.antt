-- ===== src/Pipeline.antt =====
-- app/api/pipelines/run/route.ts: the rows that a pipeline run reads and writes. A JSON column is the
-- value that it encodes. Ids are numbers above 0; 0 stands for an id that the caller left out.
pub mod Steps
pub mod Spawn
pub mod Ops
pub mod Control
pub mod Shape
pub mod Effect
pub mod Invariant
pub mod History
mod Tests
use conductor_dashboard.Common.{ℕ, String, Bool, Option, List, Rows}
use conductor_dashboard.Task.{TaskStatus}

pub data StepStatus : Type 0 where
  pending running completed failed skipped : StepStatus

pub data OnFailure : Type 0 where
  stop continue : OnFailure

-- `pipeline-<run>-step-<step>-<ms>`
pub record SpawnId : Type 0 where
  pub run : ℕ
  pub step : ℕ
  pub at_ms : ℕ

-- `run-<run>-step-<step>.log`, in the logs directory
pub record LogFile : Type 0 where
  pub run : ℕ
  pub step : ℕ

-- The texts that stand in `error`: `Spawn failed: <message>`, `exit code <code>` (null for a signal),
-- and a message taken as it is.
pub data StepError : Type 0 where
  spawn_failed : String → StepError
  exit_code : Option ℕ → StepError
  reported : String → StepError

pub record RunStep : Type 0 where
  pub step_index : ℕ
  pub template_id : ℕ
  pub template_name : String
  pub on_failure : Option OnFailure
  pub status : StepStatus
  pub spawn_id : Option SpawnId
  pub started_at : Option ℕ
  pub completed_at : Option ℕ
  pub error : Option StepError
  pub pid : Option ℕ
  pub log_path : Option LogFile

pub data RunStatus : Type 0 where
  pending running completed completed_with_errors failed cancelled : RunStatus

pub record Run : Type 0 where
  pub workspace_id : ℕ
  pub pipeline_id : ℕ
  pub status : RunStatus
  pub current_step : ℕ
  pub steps : List RunStep
  pub context : Option String
  pub task_id : Option ℕ
  pub auto_advance : Bool
  pub started_at : ℕ
  pub completed_at : Option ℕ
  pub triggered_by : String

pub record TaskRow : Type 0 where
  pub workspace_id : ℕ
  pub status : TaskStatus
  pub pipeline_run_id : Option ℕ
  pub updated_at : ℕ

pub record PipelineStep : Type 0 where
  pub template_id : ℕ
  pub on_failure : Option OnFailure

pub record PipelineRow : Type 0 where
  pub workspace_id : ℕ
  pub name : String
  pub steps : List PipelineStep
  pub use_count : ℕ
  pub last_used_at : Option ℕ
  pub updated_at : ℕ

-- What the event bus is told; `activity` is `logActivity`, which also adds a row of its own.
pub data Broadcast : Type 0 where
  activity : ℕ → ℕ → Option ℕ → Broadcast
  pipeline_started : ℕ → ℕ → Option ℕ → Broadcast
  pipeline_finished : ℕ → ℕ → RunStatus → Option ℕ → Broadcast

-- The tables that the route touches, the next id of a run, the processes that are alive, by run and
-- step, and what was broadcast, latest first. Of a template only the name matters here.
pub record Db : Type 0 where
  pub runs : Rows Run
  pub next_run : ℕ
  pub tasks : Rows TaskRow
  pub pipelines : Rows PipelineRow
  pub templates : Rows String
  pub live : ℕ → ℕ → Option ℕ
  pub broadcasts : List Broadcast
