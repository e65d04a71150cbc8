-- ===== src/Pipeline/History/Inert.antt =====
-- The first part of an operation on a run that no advance and no exit moves any more.
use conductor_dashboard.Common.{
  ℕ, ◌≡◌, ◌<◌, ◌⊎◌, refl, inl, inr, Bool, true, false, Option, none, some, arith, Bool-cases,
  select, select_row, ◌==◌, get_or_else, get_elem?,
}
use conductor_dashboard.Pipeline.{StepError, RunStep, RunStatus, Run, Db}
use conductor_dashboard.Pipeline.Steps.{is_running}
use conductor_dashboard.Pipeline.Spawn.{seconds, in_workspace, remove_live}
use conductor_dashboard.Pipeline.Ops.{
  is_running_run, is_cancellable, exit_step, exit_row, handle_step_exit, step_exited, on_exit,
  on_error, advance_step, advance_row, begin_advance,
}
use conductor_dashboard.Pipeline.Control.{
  cancel_row, cancel_run, start, advance, cancel, other, post,
}
use conductor_dashboard.Pipeline.History.{Event, request, exited, errored, spawned}
use conductor_dashboard.Pipeline.History.Kept.{Kept, Kept-refl, Apart}
use conductor_dashboard.Pipeline.History.Invariant.{concerns}
use conductor_dashboard.Pipeline.History.Sound.{first_part}

-- A status that is neither pending nor running.
abbrev pub IsEnded : RunStatus → Type 0
IsEnded status = is_cancellable status ≡ false

-- A run without the status `running`, or without a running step.
abbrev pub Inert : Run → Type 0
Inert r =
    (is_running_run r.status ≡ false)
    ⊎ ((i : ℕ) (s : RunStep) → get_elem? r.steps i ≡ some s → is_running s.status ≡ false)

-- A request to cancel the run `n`.
unfoldable pub cancels : ℕ → Event → Bool
cancels n (request ms by ws (start pipeline context task auto)) = false
cancels n (request ms by ws (advance run success error)) = false
cancels n (request ms by ws (cancel run)) = n == run
cancels n (request ms by ws other) = false
cancels n (exited ms run i code ws auto) = false
cancels n (errored ms run i message ws auto) = false
cancels n (spawned ms k sp) = false

module _ (n now id ws : ℕ) (db : Db) where
  advance_row-Inert :
      (success : Bool) (error : Option StepError) (o : Option Run)
      → ((row : Run) → o ≡ some row → Inert row)
      → Apart n db (advance_row now id ws success error o db)
  unfolding advance_row advance_step
  advance_row-Inert success error none inert = (Kept-refl n db, tt)
  advance_row-Inert success error (some row) inert = elim (inert row refl) [
    | inl off ↦ rw off (Kept-refl n db, tt)
    | inr still ↦ elim (Bool-cases (is_running_run row.status)) [
      | inl going ↦ rw going (steps_cases still (get_elem? row.steps row.current_step) refl)
      | inr ended ↦ rw ended (Kept-refl n db, tt)
    ]
  ]
    where
      steps_cases :
          ((i : ℕ) (s : RunStep) → get_elem? row.steps i ≡ some s → is_running s.status ≡ false)
          → (o : Option RunStep) → get_elem? row.steps row.current_step ≡ o
          → Apart n db (advance_step now id ws success error row o db)
      steps_cases still none e = (Kept-refl n db, tt)
      steps_cases still (some s) e = rw (still row.current_step s e) (Kept-refl n db, tt)

  exit_row-Inert :
      (i : ℕ) (success : Bool) (error : Option StepError) (o : Option Run)
      → ((row : Run) → o ≡ some row → Inert row)
      → Apart n db (exit_row now id ws i success error o db)
  unfolding exit_row exit_step
  exit_row-Inert i success error none inert = (Kept-refl n db, tt)
  exit_row-Inert i success error (some row) inert = elim (inert row refl) [
    | inl off ↦ rw off (Kept-refl n db, tt)
    | inr still ↦ elim (Bool-cases (is_running_run row.status)) [
      | inl going ↦ rw going (steps_cases still (get_elem? row.steps i) refl)
      | inr ended ↦ rw ended (Kept-refl n db, tt)
    ]
  ]
    where
      steps_cases :
          ((i : ℕ) (s : RunStep) → get_elem? row.steps i ≡ some s → is_running s.status ≡ false)
          → (o : Option RunStep) → get_elem? row.steps i ≡ o
          → Apart n db (exit_step now id ws i success error row o db)
      steps_cases still none e = (Kept-refl n db, tt)
      steps_cases still (some s) e = rw (still i s e) (Kept-refl n db, tt)

  cancel_row-ended :
      (o : Option Run)
      → ((row : Run) → o ≡ some row → IsEnded row.status)
      → Kept n db (cancel_row now id ws o db).0
  unfolding cancel_row
  cancel_row-ended none over = Kept-refl n db
  cancel_row-ended (some row) over = rw (over row refl) (Kept-refl n db)

-- The run `r`, under the id `n`.
module _ (n : ℕ) (r : Run) (db : Db) (there : db.runs n ≡ some r) where
  selected :
      (P : Run → Type 0) (id ws : ℕ)
      → n ≡ id
      → P r
      → (row : Run) → select db.runs id (in_workspace ws) ≡ some row
      → P row
  selected P id ws same h row e =
      let found = (select_row db.runs id (in_workspace ws) e).0 in
      let q : r ≡ row = let here = rw (← same) at found in cc in rw q at h

  step_exited-Inert :
      (ms id i : ℕ) (success : Bool) (error : Option StepError) (ws : ℕ) (auto : Bool)
      → Inert r
      → n ≡ id
      → Apart n db (step_exited ms id i success error ws auto db)
  unfolding step_exited handle_step_exit
  step_exited-Inert ms id i success error ws false inert same = (Kept-refl n db, tt)
  step_exited-Inert ms id i success error ws true inert same =
      exit_row-Inert n (seconds ms) id ws (record db { live = remove_live id i db.live }) i success
        error (select db.runs id (in_workspace ws)) (selected Inert id ws same inert)

  begin_advance-Inert :
      (ms id : ℕ) (success : Bool) (error : Option StepError) (ws : ℕ)
      → Inert r
      → n ≡ id
      → Apart n db (begin_advance ms id success error ws db)
  unfolding begin_advance
  begin_advance-Inert ms id success error ws inert same = elim (Bool-cases (id == 0)) [
    | inl missing ↦ rw missing (Kept-refl n db, tt)
    | inr given ↦ rw given (
        advance_row-Inert n (seconds ms) id ws db success error
          (select db.runs id (in_workspace ws)) (selected Inert id ws same inert))
  ]

  cancel_run-ended :
      (ms id ws : ℕ) → IsEnded r.status → n ≡ id → Kept n db (cancel_run ms id ws db).0
  unfolding cancel_run
  cancel_run-ended ms id ws over same = elim (Bool-cases (id == 0)) [
    | inl missing ↦ rw missing (Kept-refl n db)
    | inr given ↦ rw given (
        cancel_row-ended n (seconds ms) id ws db (select db.runs id (in_workspace ws))
          (selected (λ row. IsEnded row.status) id ws same over))
  ]

  -- An event that does not cancel an inert run, which could be cancelled, does nothing to it.
  pub near-Apart :
      (e : Event)
      → Inert r
      → n < db.next_run
      → (cancels n e ≡ true → IsEnded r.status)
      → concerns n e db ≡ true
      → Apart n db (first_part e db)
  unfolding first_part concerns cancels post on_exit on_error
  near-Apart (request ms by ws (start pipeline context task auto)) inert old safe c =
      absurd (ground arith)
  near-Apart (request ms by ws (advance run success error)) inert old safe c =
      begin_advance-Inert ms run (get_or_else true success) error ws inert (ground arith)
  near-Apart (request ms by ws (cancel run)) inert old safe c =
      (cancel_run-ended ms run ws (safe c) (ground arith), tt)
  near-Apart (request ms by ws other) inert old safe c = (Kept-refl n db, tt)
  near-Apart (exited ms run i code ws auto) inert old safe c =
      step_exited-Inert ms run i _ _ ws auto inert (ground arith)
  near-Apart (errored ms run i message ws auto) inert old safe c =
      step_exited-Inert ms run i _ _ ws auto inert (ground arith)
  near-Apart (spawned ms k sp) inert old safe c = (Kept-refl n db, tt)
