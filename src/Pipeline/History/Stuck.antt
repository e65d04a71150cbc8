-- ===== src/Pipeline/History/Stuck.antt =====
-- A run whose current step failed to spawn under `on_failure: continue`.
use conductor_dashboard.Common.{
  ℕ, zero, suc, [], ◌∷◌, String, ◌≡◌, refl, ◌∙◌, ap, inl, inr, List, modify, ==_refl, true, false,
  Option, none, some, arith, Rows, All, ◌<◌, Bool-cases, get_elem?,
}
use conductor_dashboard.Pipeline.{StepStatus, RunStep, RunStatus, Run, Db, continue}
use conductor_dashboard.Pipeline.Steps.{is_running, stops}
use conductor_dashboard.Pipeline.Spawn.{
  seconds, in_workspace, mark_spawn_failed, spawn_step, threw, write_steps, apply_policy,
}
use conductor_dashboard.Pipeline.Ops.{Wait}
use conductor_dashboard.Pipeline.History.{Event, play, Idle}
use conductor_dashboard.Pipeline.History.Inert.{Inert, cancels}
use conductor_dashboard.Pipeline.History.Final.{play-Inert}
use conductor_dashboard.Pipeline.Shape.{InFlight, IsSound, InFlight-running, InFlight-modify}

-- Running, with the current step failed.
abbrev pub IsStuck : Run → Type 0
IsStuck r =
    (r.status ≡ RunStatus.running)
    × ((s : RunStep) → get_elem? r.steps r.current_step ≡ some s → s.status ≡ StepStatus.failed)

-- A stuck run has no running step.
stuck-Inert : (r : Run) → IsSound r → IsStuck r → Inert r
stuck-Inert r sound (status, failed) = inr λ i s e. elim (Bool-cases (is_running s.status)) [
  | inl going ↦
      let flight : InFlight r.current_step r.steps = rw status at sound in
      let going' : s.status ≡ StepStatus.running = ground arith in
      let same = InFlight-running r.current_step i r.steps flight e going' in
      let fell = failed s (rw same e) in absurd (cc fell)
  | inr still ↦ still
]

-- A spawn that throws at a current step whose policy is to continue.
failed_row : ℕ → String → Run → Run
failed_row now message r = record r {
  steps = modify r.steps r.current_step (mark_spawn_failed message now);
}

get_elem?-modify :
    (ss : List RunStep) (i : ℕ) (f : RunStep → RunStep) {s : RunStep}
    → get_elem? ss i ≡ some s
    → get_elem? (modify ss i f) i ≡ some (f s)
get_elem?-modify [] i f e = absurd (cc e)
get_elem?-modify (x ∷ ss) zero f e = ground arith
get_elem?-modify (x ∷ ss) (suc i) f e = get_elem?-modify ss i f e

policy_continues :
    (id ws i now : ℕ) (o : Option RunStep) (ss : List RunStep) (db : Db) {t : RunStep}
    → o ≡ some t
    → stops t ≡ false
    → apply_policy id ws i now o ss db ≡ (db, ss)
policy_continues id ws i now none ss db e h = absurd (cc e)
policy_continues id ws i now (some u) ss db {t} e h = let q : u ≡ t = ground arith in rw (q, h) refl

module _ (ms id ws : ℕ) (message : String) (r : Run) (s : RunStep) (db : Db)
    (there : db.runs id ≡ some r) (mine : in_workspace ws r ≡ true) (sound : IsSound r)
    (running : r.status ≡ RunStatus.running) (current : get_elem? r.steps r.current_step ≡ some s)
    (policy : s.on_failure ≡ some continue) where
  spawn_failed_db : Db
  spawn_failed_db = (spawn_step ms id ws r.current_step true (threw message) r.steps db).0

  r' : Run
  r' = failed_row (seconds ms) message r

  r'-current : get_elem? r'.steps r'.current_step ≡ some (mark_spawn_failed message (seconds ms) s)
  unfolding r' failed_row
  r'-current = get_elem?-modify r.steps r.current_step _ current

  r'-IsStuck : IsStuck r'
  unfolding r' failed_row
  r'-IsStuck = (running, λ t e. ground (arith, r'-current))

  r'-IsSound : IsSound r'
  unfolding r' failed_row
  r'-IsSound =
      let flight : InFlight r.current_step r.steps = rw running at sound in
      rw running (
        InFlight-modify r.current_step r.steps (mark_spawn_failed message (seconds ms)) flight
          (λ t o. inr refl))

  r'-there : spawn_failed_db.runs id ≡ some r'
  unfolding spawn_failed_db spawn_step r' failed_row
  r'-there =
      let ss = modify r.steps r.current_step (mark_spawn_failed message (seconds ms)) in
      let db' = write_steps id ws ss db in
      ap (λ (p : Db × List RunStep). p.0.runs id)
        (policy_continues id ws r.current_step (seconds ms) (get_elem? ss r.current_step) ss db'
          r'-current (rw policy refl))
      ∙ ground (arith, ==_refl id)

  r'-old : spawn_failed_db.next_run ≡ db.next_run
  unfolding spawn_failed_db spawn_step
  r'-old =
      let ss = modify r.steps r.current_step (mark_spawn_failed message (seconds ms)) in
      let db' = write_steps id ws ss db in
      ap (λ (p : Db × List RunStep). p.0.next_run)
        (policy_continues id ws r.current_step (seconds ms) (get_elem? ss r.current_step) ss db'
          (get_elem?-modify r.steps r.current_step _ current) (rw policy refl))

-- A spawn that throws at a current step with `on_failure: continue` leaves its run stuck, although
-- the run advances by itself: the row is `running` with a failed current step, and, if no operation
-- on the run waits for a spawn, the row stays as it is through any requests, exits and spawns, as long
-- as nobody asks to cancel the run. (Its id was handed out: it is below the next.)
pub spawn_step-IsStuck :
    (ms id ws : ℕ) (message : String) (r : Run) (s : RunStep) (db : Db) (waiting : Rows Wait)
    (next : ℕ) (es : List Event)
    → db.runs id ≡ some r
    → in_workspace ws r ≡ true
    → IsSound r
    → r.status ≡ RunStatus.running
    → get_elem? r.steps r.current_step ≡ some s
    → s.on_failure ≡ some continue
    → id < db.next_run
    → Idle id waiting
    → All (λ e. cancels id e ≡ false) es
    → let db' = (spawn_step ms id ws r.current_step true (threw message) r.steps db).0 in
      (stuck : Run) × (db'.runs id ≡ some stuck)
      × IsStuck stuck
      × ((play es (record { db = db'; waiting = waiting; next_wait = next })).db.runs id
          ≡ some stuck)
unfolding r' spawn_failed_db
spawn_step-IsStuck ms id ws message r s db waiting next es there mine sound running current policy
      old idle spared =
    let row = r' ms id ws message r s db there mine sound running current policy in
    let found = r'-there ms id ws message r s db there mine sound running current policy in
    let stuck = r'-IsStuck ms id ws message r s db there mine sound running current policy in
    let sound' = r'-IsSound ms id ws message r s db there mine sound running current policy in
    let grown = r'-old ms id ws message r s db there mine sound running current policy in
    let db' = spawn_failed_db ms id ws message r s db there mine sound running current policy in
    (
      row,
      found,
      stuck,
      play-Inert id row es (record { db = db'; waiting = waiting; next_wait = next }) found
          (stuck-Inert row sound' stuck) (omega arith) idle (inr spared),
    )
