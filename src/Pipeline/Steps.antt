-- ===== src/Pipeline/Steps.antt =====
-- What a run does to its array of steps.
use conductor_dashboard.Common.{
  ℕ, zero, suc, Bool, true, false, ◌&&◌, not, Option, none, some, List, [], ◌∷◌, leb, if◌then◌else◌,
  length, modify, any, get_or_else, text_truthy,
}
use conductor_dashboard.Pipeline.{
  StepStatus, OnFailure, stop, continue, StepError, reported, RunStep, RunStatus,
}

abbrev pub is_running : StepStatus → Bool
is_running StepStatus.running = true
is_running _ = false

abbrev pub is_failed : StepStatus → Bool
is_failed StepStatus.failed = true
is_failed _ = false

abbrev pub is_stop : OnFailure → Bool
is_stop stop = true
is_stop continue = false

-- `step.on_failure || 'stop'`, compared to 'stop'
abbrev pub stops : RunStep → Bool
stops s = is_stop (get_or_else stop s.on_failure)

abbrev pub skip : RunStep → RunStep
skip s = record s { status = StepStatus.skipped }

-- for (let i = from; i < steps.length; i++) steps[i].status = 'skipped'
unfoldable pub skip_from : ℕ → List RunStep → List RunStep
skip_from from [] = []
skip_from zero (s ∷ ss) = skip s ∷ skip_from zero ss
skip_from (suc n) (s ∷ ss) = s ∷ skip_from n ss

-- An error text that is truthy: the texts that the route makes itself are never empty.
abbrev pub truthy_error : Option StepError → Option StepError
truthy_error (some (reported s)) = if text_truthy s then some (reported s) else none
truthy_error e = e

abbrev pub or_error : Option StepError → Option StepError → Option StepError
or_error none old = old
or_error (some e) old = some e

abbrev pub close_step : Bool → Option StepError → ℕ → RunStep → RunStep
close_step success error now s = record s {
  status = (if success then StepStatus.completed else StepStatus.failed);
  completed_at = some now;
  error = or_error (truthy_error error) s.error;
}

abbrev pub open_step : ℕ → RunStep → RunStep
open_step now s = record s { status = StepStatus.running; started_at = some now }

abbrev pub final_status : List RunStep → RunStatus
final_status ss =
    if any (λ s. is_failed s.status) ss
    then RunStatus.completed_with_errors
    else RunStatus.completed

-- The step that has just ended decides how the run goes on.
pub data Next : Type 0 where
  fails : List RunStep → Next
  finishes : RunStatus → List RunStep → Next
  continues : List RunStep → Next

-- `closed` is the array with step `i` closed, and `s` that step.
abbrev pub next_of : Bool → ℕ → ℕ → List RunStep → RunStep → Next
next_of success now i closed s =
    if not success && stops s
    then fails (skip_from (suc i) closed)
    else (if leb (length closed) (suc i)
        then finishes (final_status closed) closed
        else continues (modify closed (suc i) (open_step now)))

-- The part that the exit handler and the advance request share, `s` being step `i` of `steps`.
unfoldable pub plan_next : Bool → Option StepError → ℕ → ℕ → List RunStep → RunStep → Next
plan_next success error now i steps s =
    next_of success now i (modify steps i (close_step success error now))
      (close_step success error now s)
