-- ===== src/Scheduler/Exclusive.antt =====
-- Ticks that fire while others wait.
use conductor_dashboard.Common.{
  ℕ, suc, ◌≡◌, refl, subst, fun_ext, inl, inr, Bool, true, false, Option, none, some, List, [], ◌∷◌,
  arith, ◌==◌, Bool-cases, Option-cases,
}
use conductor_dashboard.Scheduler.{TaskId, Tasks, task_ids, Settings}
use conductor_dashboard.Scheduler.Tick.{
  Tick, set_task, end_task, scan, Scheduler, Event, fires, ends, replace, wait, resume, handle,
  play,
}
use conductor_dashboard.Scheduler.Locks.{Locks, Finds, scan-Finds, free-Locks, wait-Locks}

abbrev pub Locked : Scheduler → Type 0
Locked s = Locks s.tasks s.ticks s.next_tick

resume-Locked :
    (o : Option Tick) (i : ℕ) (ok : Bool) (settings : Settings) (s : Scheduler)
    → s.ticks i ≡ o
    → Locked s
    → Locked (resume o i ok settings s)
unfolding resume
resume-Locked none i ok settings s here locks = locks
resume-Locked (some t) i ok settings s here locks =
    let freed = set_task t.id (end_task t.now ok) s.tasks in
    let out = scan t.now settings t.rest freed in
    let own : (i == i) ≡ true = ground arith in
    let locks' =
      wait-Locks freed (replace i none s.ticks) s.next_tick s.next_tick i out
        (free-Locks s.tasks s.ticks s.next_tick i t.now ok t locks here) (rw own refl)
        (locks.0 i t here).0 (omega arith) (scan-Finds t.now settings t.rest freed) in
    again out locks'
  where
    again :
        (out : Tasks × Option Tick)
        → Locks
            (wait i out (replace i none s.ticks) s.next_tick).tasks
            (wait i out (replace i none s.ticks) s.next_tick).ticks
            s.next_tick
        → Locked (wait i out s.ticks s.next_tick)
    again (ts, o) l =
        subst (λ x. Locks ts x s.next_tick)
          (fun_ext (λ n. elim (Bool-cases (n == i)) [ inl e ↦ rw e refl | inr e ↦ rw e refl ])) l

fires-Locked :
    (now : ℕ) (settings : Settings) (s : Scheduler)
    → Locked s
    → Locked (handle (fires now settings) s)
unfolding handle
fires-Locked now settings s locks =
    again (scan now settings task_ids s.tasks) (scan-Finds now settings task_ids s.tasks)
  where
    free : s.ticks s.next_tick ≡ none
    free = elim (Option-cases (s.ticks s.next_tick)) [
      | inl e ↦ e
      | inr (t, e) ↦ absurd (let q = (locks.0 s.next_tick t e).0 in omega (arith, q))
    ]

    again :
        (out : Tasks × Option Tick)
        → Finds s.tasks out
        → Locked (wait s.next_tick out s.ticks (suc s.next_tick))
    again (ts, o) finds =
        wait-Locks s.tasks s.ticks s.next_tick (suc s.next_tick) s.next_tick (ts, o) locks free
          (omega arith) (omega arith) finds

handle-Locked : (e : Event) (s : Scheduler) → Locked s → Locked (handle e s)
unfolding handle
handle-Locked (fires now settings) s locks = fires-Locked now settings s locks
handle-Locked (ends i ok settings) s locks = resume-Locked (s.ticks i) i ok settings s refl locks

play-Locked : (es : List Event) (s : Scheduler) → Locked s → Locked (play es s)
unfolding play
play-Locked [] s locks = locks
play-Locked (e ∷ es) s locks = play-Locked es (handle e s) (handle-Locked e s locks)

-- Where no task runs and no tick waits at first, then whatever ticks fire and whatever runs end, in any
-- order and with any settings: two ticks never wait for the run of one task, and a task that is marked as
-- running has a tick that waits for its run, so that no task stays locked.
pub play-exclusive :
    (es : List Event) (s : Scheduler)
    → ((n : ℕ) → s.ticks n ≡ none)
    → ((id : TaskId) → (s.tasks id).running ≡ false)
    → ((i k : ℕ) (t u : Tick)
        → (play es s).ticks i ≡ some t
        → (play es s).ticks k ≡ some u
        → t.id ≡ u.id
        → i ≡ k)
      × ((id : TaskId)
          → ((play es s).tasks id).running ≡ true
          → (i : ℕ) × (t : Tick) × ((play es s).ticks i ≡ some t) × (t.id ≡ id))
play-exclusive es s quiet idle =
    let locks = play-Locked es s (
      λ i t h. absurd (let q = quiet i in cc),
      λ i k t u h h' same. absurd (let q = quiet i in cc),
      λ id runs. absurd (let q = idle id in cc),
    ) in
    (locks.1, locks.2)
