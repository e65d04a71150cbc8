-- ===== src/Pipeline/History/Sound.antt =====
-- A run keeps its shape through every history that does not disturb it while an operation waits.
use conductor_dashboard.Common.{
  ℕ, ◌≡◌, refl, sym, subst, inl, inr, true, false, some, List, [], ◌∷◌, arith, Bool-cases,
  get_or_else,
}
use conductor_dashboard.Pipeline.{reported, Db}
use conductor_dashboard.Pipeline.Ops.{
  Begun, returns, begin_advance, step_exited, on_exit, on_error, exit_of,
}
use conductor_dashboard.Pipeline.Control.{
  start, advance, cancel, other, post, cancel_run, start_pipeline,
}
use conductor_dashboard.Pipeline.Invariant.{SoundAt, Good}
use conductor_dashboard.Pipeline.Invariant.Advance.{begin_advance-Good}
use conductor_dashboard.Pipeline.Invariant.Exit.{step_exited-Good}
use conductor_dashboard.Pipeline.Invariant.Control.{cancel_run-SoundAt, start_pipeline-Good}
use conductor_dashboard.Pipeline.History.{
  System, Event, request, exited, errored, spawned, handle, play, Idle,
}
use conductor_dashboard.Pipeline.History.Kept.{
  Kept-refl, Apart, step_exited-Apart, begin_advance-Apart, cancel_run-Kept, start_pipeline-Apart,
}
use conductor_dashboard.Pipeline.History.Invariant.{
  concerns, Undisturbed, Inv, Idle-Inv, begun-Apart-Inv, begun-Good-Inv, go_on-Inv,
}

-- What an event does before anything waits.
unfoldable pub first_part : Event → Db → Db × Begun
first_part (request ms by ws action) db = post ms by ws action db
first_part (exited ms run i code ws auto) db = on_exit ms run i code ws auto db
first_part (errored ms run i message ws auto) db = on_error ms run i message ws auto db
first_part (spawned ms k sp) db = (db, returns)

module _ (n : ℕ) where
  pub first_part-Apart :
      (e : Event) (db : Db) → concerns n e db ≡ false → Apart n db (first_part e db)
  unfolding first_part concerns post on_exit on_error
  first_part-Apart (request ms by ws (start pipeline context task auto)) db c =
      start_pipeline-Apart n ms pipeline by ws context task auto db (ground arith)
  first_part-Apart (request ms by ws (advance run success error)) db c =
      begin_advance-Apart n ms run ws db (ground arith) (get_or_else true success) error
  first_part-Apart (request ms by ws (cancel run)) db c =
      (cancel_run-Kept n ms run ws db (ground arith), tt)
  first_part-Apart (request ms by ws other) db c = (Kept-refl n db, tt)
  first_part-Apart (exited ms run i code ws auto) db c =
      step_exited-Apart n ms run ws db (ground arith) i _ _ auto
  first_part-Apart (errored ms run i message ws auto) db c =
      step_exited-Apart n ms run ws db (ground arith) i _ _ auto
  first_part-Apart (spawned ms k sp) db c = (Kept-refl n db, tt)

  first_part-Good :
      (e : Event) (db : Db) → concerns n e db ≡ true → SoundAt n db → Good n (first_part e db)
  unfolding first_part concerns post on_exit on_error
  first_part-Good (request ms by ws (start pipeline context task auto)) db c h =
      let q : n ≡ db.next_run = ground arith in
      subst (λ m. SoundAt m db → Good m (start_pipeline ms pipeline by ws context task auto db))
        (sym q) (start_pipeline-Good ms pipeline by ws context task auto db) h
  first_part-Good (request ms by ws (advance run success error)) db c h =
      let q : n ≡ run = ground arith in
      let b = get_or_else true success in
      subst (λ m. SoundAt m db → Good m (begin_advance ms run b error ws db)) (sym q)
        (begin_advance-Good ms run ws b error db) h
  first_part-Good (request ms by ws (cancel run)) db c h =
      let q : n ≡ run = ground arith in
      subst (λ m. SoundAt m db → SoundAt m (cancel_run ms run ws db).0 × Unit) (sym q)
        (λ k. (cancel_run-SoundAt ms run ws db k, tt)) h
  first_part-Good (request ms by ws other) db c h = (h, tt)
  first_part-Good (exited ms run i code ws auto) db c h =
      let q : n ≡ run = ground arith in
      subst
        (λ m.
          SoundAt m db → Good m (step_exited ms run i (exit_of code).0 (exit_of code).1 ws auto db))
        (sym q) (step_exited-Good ms run i (exit_of code).0 (exit_of code).1 ws auto db) h
  first_part-Good (errored ms run i message ws auto) db c h =
      let q : n ≡ run = ground arith in
      subst
        (λ m.
          SoundAt m db → Good m (step_exited ms run i false (some (reported message)) ws auto db))
        (sym q) (step_exited-Good ms run i false (some (reported message)) ws auto db) h
  first_part-Good (spawned ms k sp) db c h = (h, tt)

  pub handle-Apart-Inv :
      (e : Event) (s : System)
      → Apart n s.db (first_part e s.db)
      → Inv n s.db s.waiting
      → Inv n (handle e s).db (handle e s).waiting
  unfolding handle first_part
  handle-Apart-Inv (request ms by ws action) s far v =
      begun-Apart-Inv n ms s.waiting s.next_wait (post ms by ws action s.db) s.db far v
  handle-Apart-Inv (exited ms run i code ws auto) s far v =
      begun-Apart-Inv n ms s.waiting s.next_wait (on_exit ms run i code ws auto s.db) s.db far v
  handle-Apart-Inv (errored ms run i message ws auto) s far v =
      begun-Apart-Inv n ms s.waiting s.next_wait (on_error ms run i message ws auto s.db) s.db far v
  handle-Apart-Inv (spawned ms k sp) s far v = go_on-Inv n ms k sp s (s.waiting k) refl v

  handle-Good-Inv :
      (e : Event) (s : System)
      → Good n (first_part e s.db)
      → Idle n s.waiting
      → Inv n (handle e s).db (handle e s).waiting
  unfolding handle first_part
  handle-Good-Inv (request ms by ws action) s good idle =
      begun-Good-Inv n ms s.waiting s.next_wait (post ms by ws action s.db) good idle
  handle-Good-Inv (exited ms run i code ws auto) s good idle =
      begun-Good-Inv n ms s.waiting s.next_wait (on_exit ms run i code ws auto s.db) good idle
  handle-Good-Inv (errored ms run i message ws auto) s good idle =
      begun-Good-Inv n ms s.waiting s.next_wait (on_error ms run i message ws auto s.db) good idle
  handle-Good-Inv (spawned ms k sp) s good idle =
      go_on-Inv n ms k sp s (s.waiting k) refl (Idle-Inv n s.db s.waiting good.0 idle)

  play-Inv :
      (es : List Event) (s : System)
      → Inv n s.db s.waiting
      → Undisturbed n es s
      → SoundAt n (play es s).db
  unfolding play
  play-Inv [] s v u = v.0
  play-Inv (e ∷ es) s v (alone, u) = elim (Bool-cases (concerns n e s.db)) [
    | inl near ↦
        play-Inv es (handle e s)
          (handle-Good-Inv e s (first_part-Good e s.db near v.0) (alone near)) u
    | inr far ↦ play-Inv es (handle e s) (handle-Apart-Inv e s (first_part-Apart e s.db far) v) u
  ]

-- A run has the steps that its status asks for after any history of requests, exits and spawns, if
-- it has them at the start, when no operation on it waits, and no operation on it begins while
-- another one on it waits for its spawn. Operations on the other runs may come at any time, wait and
-- go on in any order. A running run has one current step, running or failed to spawn, with all steps
-- before it done and all after it pending; a completed run has only completed steps; one completed
-- with errors has only done steps and some failed one; a failed run has a failed step, done steps
-- before it and skipped ones after it; a cancelled run has no running and no pending step.
pub play-SoundAt :
    (n : ℕ) (es : List Event) (s : System)
    → SoundAt n s.db
    → Idle n s.waiting
    → Undisturbed n es s
    → SoundAt n (play es s).db
play-SoundAt n es s h idle u = play-Inv n es s (Idle-Inv n s.db s.waiting h idle) u
