-- ===== src/Pipeline/History/Kept.antt =====
-- An operation touches no run but its own, and takes no run's number away.
use conductor_dashboard.Common.{
  ℕ, String, ◌≤◌, ◌≡◌, ◌≢◌, refl, ◌∙◌, inl, inr, Bool, true, false, Option, none, some, List, [],
  ◌∷◌, arith, Bool-cases, Option-cases, select, update, get_elem?, modify, ◌==◌,
}
use conductor_dashboard.Pipeline.{StepError, RunStep, RunStatus, Run, PipelineStep, Db}
use conductor_dashboard.Pipeline.Steps.{is_running, Next, fails, finishes, continues, plan_next}
use conductor_dashboard.Pipeline.Spawn.{
  seconds, Spawned, threw, child, truthy_number, in_workspace, mark_spawn_failed, write_steps,
  apply_policy, spawn_step, remove_live, on_pipeline_finished,
}
use conductor_dashboard.Pipeline.Ops.{
  Pending, Wait, advancing, exiting, starting, Begun, responds, returns, awaits, pending_of,
  is_running_run, end_run, move_run, run_pending, exit_next, exit_step, exit_row, handle_step_exit,
  step_exited, resume_advance, advance_next, advance_step, advance_row, begin_advance,
}
use conductor_dashboard.Pipeline.Invariant.{link_task-rows, link_started-rows}
use conductor_dashboard.Pipeline.Control.{
  cancel_row, cancel_run, new_run, insert_run, start_steps, start_row, start_pipeline, resume_start,
  resume, snapshot,
}

module _ (n : ℕ) where
  abbrev pub Kept : Db → Db → Type 0
  Kept db db' = (db'.runs n ≡ db.runs n) × (db.next_run ≤ db'.next_run)

  -- The operation waits for no spawn on the run `n`.
  abbrev pub Elsewhere : Begun → Type 0
  Elsewhere (responds r) = Unit
  Elsewhere returns = Unit
  Elsewhere (awaits w) = n ≢ (pending_of w).run

  abbrev pub Apart : Db → Db × Begun → Type 0
  Apart db (db', b) = Kept db db' × Elsewhere b

  pub Kept-refl : (db : Db) → Kept db db
  Kept-refl db = (refl, omega arith)

  Kept-trans : (a b c : Db) → Kept a b → Kept b c → Kept a c
  Kept-trans a b c (e, l) (f, m) = (f ∙ e, omega arith)

  update-Kept :
      (id : ℕ) (p : Run → Bool) (f : Run → Run) (db : Db)
      → n ≢ id
      → Kept db (record db { runs = update db.runs id p f })
  update-Kept id p f db h = (ground arith, omega arith)

  finished-Kept :
      (id : ℕ) (row : Run) (status : RunStatus) (now ws i : ℕ) (ss : List RunStep) (db : Db)
      → n ≢ id
      → Kept db (on_pipeline_finished id row status now ws (end_run id ws status i ss now db))
  unfolding on_pipeline_finished
  finished-Kept id row status now ws i ss db h =
      let ended = end_run id ws status i ss now db in
      let (e, f) = link_task-rows (truthy_number row.task_id) status now ws ended in
      rw (e, f) (update-Kept id (in_workspace ws) _ db h)

  policy-Kept :
      (id ws i now : ℕ) (o : Option RunStep) (ss : List RunStep) (db : Db)
      → n ≢ id
      → Kept db (apply_policy id ws i now o ss db).0
  policy-Kept id ws i now none ss db h = Kept-refl db
  policy-Kept id ws i now (some s) ss db h = (ground arith, ground arith)

  spawn_step-Kept :
      (ms id ws i : ℕ) (auto : Bool) (sp : Spawned) (ss : List RunStep) (db : Db)
      → n ≢ id
      → Kept db (spawn_step ms id ws i auto sp ss db).0
  unfolding spawn_step
  spawn_step-Kept ms id ws i auto (child pid) ss db h = (ground arith, omega arith)
  spawn_step-Kept ms id ws i false (threw message) ss db h = (ground arith, omega arith)
  spawn_step-Kept ms id ws i true (threw message) ss db h =
      let failed = modify ss i (mark_spawn_failed message (seconds ms)) in
      let db1 = write_steps id ws failed db in
      let (db2, ss') = apply_policy id ws i (seconds ms) (get_elem? failed i) failed db1 in
      Kept-trans db db1 db2
        (update-Kept id (in_workspace ws) (λ r. record r { steps = failed }) db h)
        (policy-Kept id ws i (seconds ms) (get_elem? failed i) failed db1 h)

  run_pending-Kept :
      (ms : ℕ) (sp : Spawned) (p : Pending) (db : Db)
      → n ≢ p.run
      → Kept db (run_pending ms sp p db).0
  run_pending-Kept ms sp p db h = elim (Bool-cases p.spawns) [
    | inl e ↦ rw e (spawn_step-Kept ms p.run p.ws p.step p.auto sp p.steps db h)
    | inr e ↦ rw e (Kept-refl db)
  ]

  -- An operation that goes on after its spawn.
  pub resume-Kept :
      (ms : ℕ) (sp : Spawned) (w : Wait) (db : Db)
      → n ≢ (pending_of w).run
      → Kept db (resume ms sp w db).0
  unfolding resume resume_advance resume_start
  resume-Kept ms sp (advancing p) db h =
      let (db', steps, result) = run_pending ms sp p db in
      Kept-trans db db' (move_run p.run p.ws p.step steps db') (run_pending-Kept ms sp p db h)
        (update-Kept p.run (in_workspace p.ws) _ db' h)
  resume-Kept ms sp (exiting p) db h = run_pending-Kept ms sp p db h
  resume-Kept ms sp (starting pipeline task p) db h = run_pending-Kept ms sp p db h

  module _ (now id ws : ℕ) (h : n ≢ id) where
    exit_next-Apart :
        (i : ℕ) (row : Run) (next : Next) (db : Db) → Apart db (exit_next now id ws i row next db)
    unfolding exit_next
    exit_next-Apart i row (fails ss) db =
        (finished-Kept id row RunStatus.failed now ws i ss db h, tt)
    exit_next-Apart i row (finishes status ss) db =
        (finished-Kept id row status now ws i ss db h, tt)
    exit_next-Apart i row (continues ss) db = (update-Kept id (in_workspace ws) _ db h, h)

    advance_next-Apart :
        (i : ℕ) (row : Run) (next : Next) (db : Db)
        → Apart db (advance_next now id ws i row next db)
    unfolding advance_next
    advance_next-Apart i row (fails ss) db =
        (finished-Kept id row RunStatus.failed now ws i ss db h, tt)
    advance_next-Apart i row (finishes status ss) db =
        (finished-Kept id row status now ws i ss db h, tt)
    advance_next-Apart i row (continues ss) db = (Kept-refl db, h)

    exit_row-Apart :
        (i : ℕ) (success : Bool) (error : Option StepError) (o : Option Run) (db : Db)
        → Apart db (exit_row now id ws i success error o db)
    unfolding exit_row exit_step
    exit_row-Apart i success error none db = (Kept-refl db, tt)
    exit_row-Apart i success error (some row) db = elim (Bool-cases (is_running_run row.status)) [
      | inl going ↦ rw going (steps_cases (get_elem? row.steps i))
      | inr ended ↦ rw ended (Kept-refl db, tt)
    ]
      where
        steps_cases : (o : Option RunStep) → Apart db (exit_step now id ws i success error row o db)
        steps_cases none = (Kept-refl db, tt)
        steps_cases (some s) = elim (Bool-cases (is_running s.status)) [
          | inl going ↦
              rw going (exit_next-Apart i row (plan_next success error now i row.steps s) db)
          | inr passed ↦ rw passed (Kept-refl db, tt)
        ]

    advance_row-Apart :
        (success : Bool) (error : Option StepError) (o : Option Run) (db : Db)
        → Apart db (advance_row now id ws success error o db)
    unfolding advance_row advance_step
    advance_row-Apart success error none db = (Kept-refl db, tt)
    advance_row-Apart success error (some row) db = elim (Bool-cases (is_running_run row.status)) [
      | inl going ↦ rw going (steps_cases (get_elem? row.steps row.current_step))
      | inr ended ↦ rw ended (Kept-refl db, tt)
    ]
      where
        steps_cases :
            (o : Option RunStep) → Apart db (advance_step now id ws success error row o db)
        steps_cases none = (Kept-refl db, tt)
        steps_cases (some s) = elim (Bool-cases (is_running s.status)) [
          | inl going ↦ rw going (
              advance_next-Apart row.current_step row
                (plan_next success error now row.current_step row.steps s) db)
          | inr passed ↦ rw passed (Kept-refl db, tt)
        ]

    cancel_row-Kept : (o : Option Run) (db : Db) → Kept db (cancel_row now id ws o db).0
    unfolding cancel_row
    cancel_row-Kept none db = Kept-refl db
    cancel_row-Kept (some row) db = (ground arith, ground arith)

  module _ (ms id ws : ℕ) (db : Db) (h : n ≢ id) where
    pub step_exited-Apart :
        (i : ℕ) (success : Bool) (error : Option StepError) (auto : Bool)
        → Apart db (step_exited ms id i success error ws auto db)
    unfolding step_exited handle_step_exit
    step_exited-Apart i success error false = (Kept-refl db, tt)
    step_exited-Apart i success error true =
        let gone = record db { live = remove_live id i db.live } in
        exit_row-Apart (seconds ms) id ws h i success error (select db.runs id (in_workspace ws))
          gone

    pub begin_advance-Apart :
        (success : Bool) (error : Option StepError)
        → Apart db (begin_advance ms id success error ws db)
    unfolding begin_advance
    begin_advance-Apart success error = elim (Bool-cases (id == 0)) [
      | inl missing ↦ rw missing (Kept-refl db, tt)
      | inr given ↦ rw given (
          advance_row-Apart (seconds ms) id ws h success error (select db.runs id (in_workspace ws))
            db)
    ]

    pub cancel_run-Kept : Kept db (cancel_run ms id ws db).0
    unfolding cancel_run
    cancel_run-Kept = elim (Bool-cases (id == 0)) [
      | inl missing ↦ rw missing (Kept-refl db)
      | inr given ↦
          rw given (cancel_row-Kept (seconds ms) id ws h (select db.runs id (in_workspace ws)) db)
    ]

  -- A start writes one new row.
  start_steps-Apart :
      (now pipeline : ℕ) (by : String) (ws : ℕ) (context : Option String) (task : Option ℕ)
      (auto : Bool) (steps : List PipelineStep) (db : Db)
      → n ≢ db.next_run
      → Apart db (start_steps now pipeline by ws context task auto steps db)
  start_steps-Apart now pipeline by ws context task auto [] db h = (Kept-refl db, tt)
  start_steps-Apart now pipeline by ws context task auto (s ∷ ss) db h =
      let row = new_run now ws pipeline (snapshot now 0 db (s ∷ ss)) context task auto by in
      let (e, f) = link_started-rows now db.next_run ws (truthy_number task) (insert_run row db) in
      ((rw e (ground arith), rw f (omega arith)), h)

  pub start_pipeline-Apart :
      (ms pipeline : ℕ) (by : String) (ws : ℕ) (context : Option String) (task : Option ℕ)
      (auto : Bool) (db : Db)
      → n ≢ db.next_run
      → Apart db (start_pipeline ms pipeline by ws context task auto db)
  unfolding start_pipeline start_row
  start_pipeline-Apart ms pipeline by ws context task auto db h =
      elim (Option-cases (select db.pipelines pipeline (λ p. p.workspace_id == ws))) [
        | inl missing ↦ rw missing (Kept-refl db, tt)
        | inr (row, found) ↦
            rw found
              (start_steps-Apart (seconds ms) pipeline by ws context task auto row.steps db h)
      ]
