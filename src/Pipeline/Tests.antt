-- ===== src/Pipeline/Tests.antt =====
-- Runs of the pipeline route on small inputs, and its theorems at such inputs.
use conductor_dashboard.Common.{
  ℕ, ◌≡◌, refl, inl, true, false, Option, none, some, List, [], ◌∷◌, arith, map, All, ◌==◌,
  if◌then◌else◌,
}
use conductor_dashboard.Pipeline.{
  StepStatus, RunStep, RunStatus, Run, PipelineStep, PipelineRow, Db, OnFailure,
}
use conductor_dashboard.Pipeline.Steps.{plan_next}
use conductor_dashboard.Pipeline.Spawn.{child, threw, spawn_step, on_pipeline_finished}
use conductor_dashboard.Pipeline.Ops.{on_exit}
use conductor_dashboard.Pipeline.Control.{start, advance, cancel, new_run, post, resume, kill_steps}
use conductor_dashboard.Pipeline.Invariant.{SoundAt}
use conductor_dashboard.Pipeline.History.{
  System, Event, request, exited, spawned, handle, play, Idle,
}
use conductor_dashboard.Pipeline.History.Invariant.{concerns, Undisturbed}
use conductor_dashboard.Pipeline.History.Sound.{play-SoundAt}
use conductor_dashboard.Pipeline.History.Inert.{cancels}
use conductor_dashboard.Pipeline.History.Final.{play-ended}
use conductor_dashboard.Pipeline.History.Stuck.{IsStuck, spawn_step-IsStuck}

abbrev two_steps : List PipelineStep
two_steps =
    record { template_id = 5; on_failure = some OnFailure.continue }
    ∷ record { template_id = 6; on_failure = none }
    ∷ []

abbrev nightly : PipelineRow
nightly = record {
  workspace_id = 1;
  name = "nightly";
  steps = two_steps;
  use_count = 0;
  last_used_at = none;
  updated_at = 0;
}

abbrev fresh : Db
fresh = record {
  runs = λ n. none;
  next_run = 1;
  tasks = λ n. none;
  pipelines = λ n. if n == 3 then some nightly else none;
  templates = λ n. if n == 5 then some "build" else (if n == 6 then some "test" else none);
  live = λ r i. none;
  broadcasts = [];
}

abbrev idle_system : Db → System
idle_system db = record { db = db; waiting = λ k. none; next_wait = 0 }

abbrev starts : Event
starts = request 1000 "ann" 1 (start 3 none none true)

-- The requests, the exits and the spawns of one run from its start to its end.
abbrev night : List Event
night =
    starts
    ∷ spawned 1001 0 (child (some 41))
    ∷ exited 2000 1 0 (some 2) 1 true
    ∷ spawned 2001 1 (child (some 42))
    ∷ exited 3000 1 1 (some 0) 1 true
    ∷ []

abbrev statuses : Option Run → Option (RunStatus × List StepStatus)
statuses none = none
statuses (some r) = some (r.status, map (λ s. s.status) r.steps)

night_ends :
    statuses ((play night (idle_system fresh)).db.runs 1)
    ≡ some (RunStatus.completed_with_errors, StepStatus.failed ∷ StepStatus.completed ∷ [])
unfolding play handle post resume on_exit spawn_step plan_next on_pipeline_finished
night_ends = refl

-- An advance that waits while its run is cancelled writes over the cancelled row when it goes on.
abbrev raced : List Event
raced =
    starts
    ∷ spawned 1001 0 (child (some 41))
    ∷ request 2000 "ann" 1 (advance 1 none none)
    ∷ request 2001 "bob" 1 (cancel 1)
    ∷ spawned 2002 1 (child (some 42))
    ∷ []

raced_ends :
    statuses ((play raced (idle_system fresh)).db.runs 1)
    ≡ some (RunStatus.cancelled, StepStatus.completed ∷ StepStatus.running ∷ [])
unfolding play handle post resume spawn_step plan_next kill_steps
raced_ends = refl

none_waits : (n : ℕ) → Idle n (λ k. none)
none_waits n k w e = absurd (cc e)

-- Only the run's own operation waits at any time, and it goes on before the next one begins.
night-Undisturbed : Undisturbed 1 night (idle_system fresh)
unfolding concerns play handle post resume on_exit spawn_step plan_next on_pipeline_finished
night-Undisturbed = (
  λ c. none_waits 1,
  (
    λ c. absurd (cc c),
    (
      λ c k w e. absurd (ground arith),
      (λ c. absurd (cc c), (λ c k w e. absurd (ground arith), tt)),
    ),
  ),
)

play-SoundAt_example : SoundAt 1 (play night (idle_system fresh)).db
play-SoundAt_example =
    play-SoundAt 1 night (idle_system fresh) (λ a e. absurd (cc e)) (none_waits 1) night-Undisturbed

abbrev cancelled_run : Run
cancelled_run = record (new_run 1 1 3 [] none none true "ann") { status = RunStatus.cancelled }

abbrev holding : Run → Db
holding r = record fresh { runs = (λ n. if n == 1 then some r else none); next_run = 2 }

play-ended_example :
    (play night (idle_system (holding cancelled_run))).db.runs 1 ≡ some cancelled_run
play-ended_example =
    play-ended 1 cancelled_run night (idle_system (holding cancelled_run)) refl refl (omega arith)
      (none_waits 1)

abbrev first_step : RunStep
first_step = record {
  step_index = 0;
  template_id = 5;
  template_name = "build";
  on_failure = some OnFailure.continue;
  status = StepStatus.running;
  spawn_id = none;
  started_at = some 1;
  completed_at = none;
  error = none;
  pid = none;
  log_path = none;
}

abbrev going : Run
going = new_run 1 1 3 (first_step ∷ []) none none true "ann"

abbrev later : List Event
later =
    request 6000 "ann" 1 (advance 1 none none)
    ∷ exited 7000 1 0 (some 0) 1 true
    ∷ starts
    ∷ spawned 8000 0 (child none)
    ∷ []

none_cancels : All (λ e. cancels 1 e ≡ false) later
unfolding cancels
none_cancels = (refl, (refl, (refl, (refl, tt))))

spawn_step-IsStuck_example :
    let db' = (spawn_step 5000 1 1 0 true (threw "ENOENT") (first_step ∷ []) (holding going)).0 in
    (stuck : Run) × (db'.runs 1 ≡ some stuck)
    × IsStuck stuck
    × ((play later (record { db = db'; waiting = λ k. none; next_wait = 0 })).db.runs 1
        ≡ some stuck)
spawn_step-IsStuck_example =
    spawn_step-IsStuck 5000 1 1 "ENOENT" going first_step (holding going) (λ k. none) 0 later refl
      refl (inl refl, tt) refl refl refl (omega arith) (none_waits 1) none_cancels
