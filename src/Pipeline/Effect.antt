-- ===== src/Pipeline/Effect.antt =====
-- What `plan_next` and `spawnStep` do to a well-shaped run.
use conductor_dashboard.Common.{
  ℕ, String, suc, ◌≡◌, refl, ◌⊎◌, inl, inr, Bool, true, false, not, ◌&&◌, Option, none, some, List,
  arith, length, get_elem?, modify, any, All, length-modify, Bool-cases, leb, update, update-update,
  if◌then◌else◌,
}
use conductor_dashboard.Pipeline.{StepError, RunStep, RunStatus, Run, Db}
use conductor_dashboard.Pipeline.Steps.{
  is_failed, skip_from, stops, final_status, close_step, open_step, Next, fails, finishes,
  continues, plan_next,
}
use conductor_dashboard.Pipeline.Spawn.{
  seconds, Spawned, threw, child, in_workspace, mark_spawn_failed, write_steps, apply_policy,
  spawn_failure, spawn_step,
}
use conductor_dashboard.Pipeline.Shape.{
  IsDone, InFlight, Fell, Fits, InFlight-Fell, InFlight-All-IsDone, InFlight-next, InFlight-modify,
  All-IsComplete,
}

-- How the run stands after its step `i` was closed.
abbrev pub Follows : ℕ → Next → Type 0
Follows i (fails ss) = Fell ss
Follows i (finishes status ss) =
    Fits status i ss × ((status ≡ RunStatus.completed) ⊎ (status ≡ RunStatus.completed_with_errors))
Follows i (continues ss) = InFlight (suc i) ss

final_status-Follows :
    (i : ℕ) (ss : List RunStep) → All IsDone ss → Follows i (finishes (final_status ss) ss)
final_status-Follows i ss h = elim (Bool-cases (any (λ s. is_failed s.status) ss)) [
  | inl e ↦ rw e ((h, e), inr refl)
  | inr e ↦ rw e (All-IsComplete ss h e, inl refl)
]

module _ (success : Bool) (error : Option StepError) (now i : ℕ) (ss : List RunStep)
    (s : RunStep) where
  close : RunStep → RunStep
  close = close_step success error now

  close-IsDone : (not success && stops s) ≡ false → IsDone (close s)
  unfolding close
  close-IsDone h = ground arith

  done-Follows :
      InFlight i ss
      → get_elem? ss i ≡ some s
      → IsDone (close s)
      → Follows i (
          if leb (length (modify ss i close)) (suc i)
          then finishes (final_status (modify ss i close)) (modify ss i close)
          else continues (modify (modify ss i close) (suc i) (open_step now)))
  done-Follows h e d = elim (Bool-cases (leb (length (modify ss i close)) (suc i))) [
    | inl last ↦ rw last (
        final_status-Follows i (modify ss i close)
          (InFlight-All-IsDone i ss close h e d (ground (arith, length-modify ss i close))))
    | inr more ↦ rw more (
        InFlight-next i ss close (open_step now) h e d (ground (arith, length-modify ss i close))
          (λ t. inl refl))
  ]

  -- Closing the current step of a run in flight leaves it fallen, finished or in flight at the next.
  pub plan_next-Follows :
      InFlight i ss → get_elem? ss i ≡ some s → Follows i (plan_next success error now i ss s)
  unfolding plan_next close
  plan_next-Follows h e = elim (Bool-cases (not success && stops s)) [
    | inl fell ↦
        let failing : success ≡ false = ground arith in
        rw fell (InFlight-Fell i ss close h (λ t. rw failing refl))
    | inr go ↦ rw go (done-Follows h e (close-IsDone go))
  ]

-- The row of a run after a spawn: with new steps, and failed where the policy gave the run up.
abbrev pub row_after : Bool → ℕ → List RunStep → Run → Run
row_after false now ss r = record r { steps = ss }
row_after true now ss r = record r {
  status = RunStatus.failed;
  steps = ss;
  completed_at = some now;
}

abbrev pub Landed : Bool → ℕ → List RunStep → Type 0
Landed false i ss = InFlight i ss
Landed true i ss = Fell ss

-- A spawn writes one row, once as it seems from outside: in flight still, or fallen.
abbrev pub SpawnEffect : ℕ → ℕ → ℕ → ℕ → Db → Db × List RunStep → Type 0
SpawnEffect now run ws i db (db', ss) =
    (b : Bool) × (db'.runs ≡ update db.runs run (in_workspace ws) (row_after b now ss))
    × Landed b i ss

module _ (now run ws i : ℕ) (message : String) (ss : List RunStep) (db : Db)
    (h : InFlight i ss) where
  given_up : List RunStep
  given_up = modify ss i (mark_spawn_failed message now)

  given_up-InFlight : InFlight i given_up
  unfolding given_up
  given_up-InFlight = InFlight-modify i ss (mark_spawn_failed message now) h (λ s o. inr refl)

  given_up-Fell : Fell (skip_from (suc i) given_up)
  unfolding given_up
  given_up-Fell = InFlight-Fell i ss (mark_spawn_failed message now) h (λ s. refl)

  policy-SpawnEffect :
      (o : Option RunStep)
      → SpawnEffect now run ws i db
          (apply_policy run ws i now o given_up (write_steps run ws given_up db))
  policy-SpawnEffect none = (false, refl, given_up-InFlight)
  policy-SpawnEffect (some s) = elim (Bool-cases (stops s)) [
    | inl e ↦ rw e (
      true,
      update-update db.runs run (in_workspace ws) (λ r. record r { steps = given_up })
          (row_after true now (skip_from (suc i) given_up)) (λ a. refl),
      given_up-Fell,
    )
    | inr e ↦ rw e (false, refl, given_up-InFlight)
  ]

  failure-SpawnEffect :
      (auto : Bool) → SpawnEffect now run ws i db (spawn_failure run ws i now auto message ss db)
  unfolding given_up
  failure-SpawnEffect false = (false, refl, given_up-InFlight)
  failure-SpawnEffect true =
      policy-SpawnEffect (get_elem? (modify ss i (mark_spawn_failed message now)) i)

-- What holds of the tables after a spawn, whatever the spawn does.
pub spawn_step-SpawnEffect :
    (ms run ws i : ℕ) (auto : Bool) (sp : Spawned) (ss : List RunStep) (db : Db)
    → InFlight i ss
    → SpawnEffect
        (seconds ms)
        run
        ws
        i
        db
        ((spawn_step ms run ws i auto sp ss db).0, (spawn_step ms run ws i auto sp ss db).1)
unfolding spawn_step
spawn_step-SpawnEffect ms run ws i auto (child pid) ss db h =
    (false, refl, InFlight-modify i ss _ h (λ s o. o))
spawn_step-SpawnEffect ms run ws i auto (threw message) ss db h =
    failure-SpawnEffect (seconds ms) run ws i message ss db h auto
