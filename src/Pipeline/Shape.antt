-- ===== src/Pipeline/Shape.antt =====
-- The shape of a run's steps in each status of the run, and how the array operations keep it.
use conductor_dashboard.Common.{
  ℕ, zero, suc, ◌≤◌, ◌<◌, ◌≡◌, refl, sym, ◌∙◌, ◌⊎◌, inl, inr, true, false, some, List, [], ◌∷◌,
  arith, length, get_elem?, modify, any, All,
}
use conductor_dashboard.Pipeline.{StepStatus, continue, RunStep, RunStatus, Run}
use conductor_dashboard.Pipeline.Steps.{is_failed, skip_from}

-- A step that the run has left behind: completed, or failed under `on_failure: continue`.
abbrev pub IsDone : RunStep → Type 0
IsDone s =
    (s.status ≡ StepStatus.completed)
    ⊎ ((s.status ≡ StepStatus.failed) × (s.on_failure ≡ some continue))

-- The current step of a running run: running, or failed to spawn.
abbrev pub IsOpen : RunStep → Type 0
IsOpen s = (s.status ≡ StepStatus.running) ⊎ (s.status ≡ StepStatus.failed)

abbrev pub IsPending : RunStep → Type 0
IsPending s = s.status ≡ StepStatus.pending

abbrev pub IsSkipped : RunStep → Type 0
IsSkipped s = s.status ≡ StepStatus.skipped

abbrev pub IsComplete : RunStep → Type 0
IsComplete s = s.status ≡ StepStatus.completed

-- Step `i` is current: those before it are done, those after it pending.
abbrev pub InFlight : ℕ → List RunStep → Type 0
InFlight i [] = ⊥
InFlight zero (s ∷ ss) = IsOpen s × All IsPending ss
InFlight (suc i) (s ∷ ss) = IsDone s × InFlight i ss

-- A step has failed, those before it are done, and those after it were skipped.
abbrev pub Fell : List RunStep → Type 0
Fell [] = ⊥
Fell (s ∷ ss) = (IsDone s × Fell ss) ⊎ ((s.status ≡ StepStatus.failed) × All IsSkipped ss)

-- Neither running nor pending.
abbrev pub IsSettled : RunStep → Type 0
IsSettled s =
    (s.status ≡ StepStatus.completed)
    ⊎ (s.status ≡ StepStatus.failed)
    ⊎ (s.status ≡ StepStatus.skipped)

abbrev pub Fits : RunStatus → ℕ → List RunStep → Type 0
Fits RunStatus.pending i ss = Unit
Fits RunStatus.running i ss = InFlight i ss
Fits RunStatus.completed i ss = All IsComplete ss
Fits RunStatus.completed_with_errors i ss =
    All IsDone ss × (any (λ s. is_failed s.status) ss ≡ true)
Fits RunStatus.failed i ss = Fell ss
Fits RunStatus.cancelled i ss = All IsSettled ss

abbrev pub IsSound : Run → Type 0
IsSound r = Fits r.status r.current_step r.steps

skip-All-IsSkipped : (ss : List RunStep) → All IsSkipped (skip_from zero ss)
unfolding skip_from
skip-All-IsSkipped [] = tt
skip-All-IsSkipped (s ∷ ss) = (refl, skip-All-IsSkipped ss)

-- Failing the current step and skipping the rest.
pub InFlight-Fell :
    (i : ℕ) (ss : List RunStep) (f : RunStep → RunStep)
    → InFlight i ss
    → ((s : RunStep) → (f s).status ≡ StepStatus.failed)
    → Fell (skip_from (suc i) (modify ss i f))
unfolding skip_from
InFlight-Fell i [] f h failed = absurd h
InFlight-Fell zero (s ∷ ss) f h failed = inr (failed s, skip-All-IsSkipped ss)
InFlight-Fell (suc i) (s ∷ ss) f (d, h) failed = inl (d, InFlight-Fell i ss f h failed)

-- Closing the last step.
pub InFlight-All-IsDone :
    (i : ℕ) (ss : List RunStep) (f : RunStep → RunStep) {s : RunStep}
    → InFlight i ss
    → get_elem? ss i ≡ some s
    → IsDone (f s)
    → length ss ≤ suc i
    → All IsDone (modify ss i f)
InFlight-All-IsDone i [] f h e d l = absurd h
InFlight-All-IsDone zero (x ∷ []) f {s} h e d l = let q : s ≡ x = cc in (rw q at d, tt)
InFlight-All-IsDone zero (x ∷ y ∷ ss) f h e d l = absurd (omega arith)
InFlight-All-IsDone (suc i) (x ∷ ss) f (p, h) e d l =
    (p, InFlight-All-IsDone i ss f h e d (omega arith))

-- Opening the next step.
pub InFlight-next :
    (i : ℕ) (ss : List RunStep) (f g : RunStep → RunStep) {s : RunStep}
    → InFlight i ss
    → get_elem? ss i ≡ some s
    → IsDone (f s)
    → suc i < length ss
    → ((t : RunStep) → IsOpen (g t))
    → InFlight (suc i) (modify (modify ss i f) (suc i) g)
InFlight-next i [] f g h e d l o = absurd h
InFlight-next zero (x ∷ []) f g h e d l o = absurd (omega arith)
InFlight-next zero (x ∷ y ∷ ss) f g {s} h e d l o = let q : s ≡ x = cc in (rw q at d, (o y, h.1.1))
InFlight-next (suc i) (x ∷ ss) f g (p, h) e d l o =
    (p, InFlight-next i ss f g h e d (omega arith) o)

-- Changing the current step while it stays open.
pub InFlight-modify :
    (i : ℕ) (ss : List RunStep) (f : RunStep → RunStep)
    → InFlight i ss
    → ((s : RunStep) → IsOpen s → IsOpen (f s))
    → InFlight i (modify ss i f)
InFlight-modify i [] f h keep = absurd h
InFlight-modify zero (s ∷ ss) f (o, h) keep = (keep s o, h)
InFlight-modify (suc i) (s ∷ ss) f (d, h) keep = (d, InFlight-modify i ss f h keep)

All-IsPending-not_running :
    (ss : List RunStep) (j : ℕ) {s : RunStep}
    → All IsPending ss
    → get_elem? ss j ≡ some s
    → s.status ≡ StepStatus.running
    → ⊥
All-IsPending-not_running [] j h e r = absurd (cc)
All-IsPending-not_running (x ∷ ss) zero {s} (p, h) e r =
    let q : s ≡ x = cc in let k : x.status ≡ StepStatus.running = cc in cc (sym p ∙ k)
All-IsPending-not_running (x ∷ ss) (suc j) (p, h) e r = All-IsPending-not_running ss j h e r

-- Only the current step can be running.
pub InFlight-running :
    (i j : ℕ) (ss : List RunStep) {s : RunStep}
    → InFlight i ss
    → get_elem? ss j ≡ some s
    → s.status ≡ StepStatus.running
    → i ≡ j
InFlight-running i j [] h e r = absurd h
InFlight-running zero zero (x ∷ ss) h e r = refl
InFlight-running zero (suc j) (x ∷ ss) (o, h) e r = absurd (All-IsPending-not_running ss j h e r)
InFlight-running (suc i) zero (x ∷ ss) h e r = ground arith
InFlight-running (suc i) (suc j) (x ∷ ss) (d, h) e r = omega (arith, InFlight-running i j ss h e r)

-- Where no step failed, all done is all complete.
pub All-IsComplete :
    (ss : List RunStep)
    → All IsDone ss
    → any (λ s. is_failed s.status) ss ≡ false
    → All IsComplete ss
All-IsComplete [] h n = tt
All-IsComplete (s ∷ ss) h n = ground (arith, All-IsComplete ss h.1)
