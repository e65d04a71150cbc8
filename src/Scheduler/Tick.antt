-- ===== src/Scheduler/Tick.antt =====
-- `tick`: it stops where it awaits a task's run, and other ticks may start meanwhile.
use conductor_dashboard.Common.{
  ℕ, suc, ◌+◌, Bool, true, false, not, ◌&&◌, Option, none, some, List, [], ◌∷◌, Rows, leb, ◌==◌,
  if◌then◌else◌,
}
use conductor_dashboard.Scheduler.{
  TaskId, ScheduledTask, Tasks, task_ids, id_code, Settings, setting_key, default_enabled,
  is_setting_enabled,
}

abbrev pub set_task : TaskId → (ScheduledTask → ScheduledTask) → Tasks → Tasks
set_task id f ts k = if id_code k == id_code id then f (ts k) else ts k

-- A tick that waits for the run of a task, and the tasks it has not come to.
pub record Tick : Type 0 where
  pub now : ℕ
  pub id : TaskId
  pub rest : List TaskId

unfoldable pub is_due : ℕ → Settings → TaskId → ScheduledTask → Bool
unfolding is_setting_enabled
is_due now settings id t =
    not t.running
    && leb t.next_run now
    && is_setting_enabled settings (setting_key id) (default_enabled id)

abbrev pub start_task : ScheduledTask → ScheduledTask
start_task t = record t { running = true }

-- The `finally` block, and the result.
abbrev pub end_task : ℕ → Bool → ScheduledTask → ScheduledTask
end_task now ok t = record t {
  last_result = some (record { ok = ok; timestamp = now });
  running = false;
  last_run = some now;
  next_run = now + t.interval_ms;
}

-- The loop, up to the next wait.
unfoldable pub scan : ℕ → Settings → List TaskId → Tasks → Tasks × Option Tick
unfolding is_due
scan now settings [] ts = (ts, none)
scan now settings (id ∷ rest) ts =
    let skipped = scan now settings rest ts in
    if is_due now settings id (ts id)
    then (set_task id start_task ts, some (record { now = now; id = id; rest = rest }))
    else skipped

pub record Scheduler : Type 0 where
  pub tasks : Tasks
  pub ticks : Rows Tick
  pub next_tick : ℕ

-- The timer fires, with the settings as they are; or the run that a tick awaits has come to its end, well or not.
pub data Event : Type 0 where
  fires : ℕ → Settings → Event
  ends : ℕ → Bool → Settings → Event

abbrev pub replace : ℕ → Option Tick → Rows Tick → Rows Tick
replace i t ticks n = if n == i then t else ticks n

abbrev pub wait : ℕ → Tasks × Option Tick → Rows Tick → ℕ → Scheduler
wait i (ts, t) ticks next = record { tasks = ts; ticks = replace i t ticks; next_tick = next }

unfoldable pub resume : Option Tick → ℕ → Bool → Settings → Scheduler → Scheduler
unfolding scan
resume none i ok settings s = s
resume (some t) i ok settings s =
    wait i (scan t.now settings t.rest (set_task t.id (end_task t.now ok) s.tasks)) s.ticks
      s.next_tick

unfoldable pub handle : Event → Scheduler → Scheduler
unfolding resume scan
handle (fires now settings) s =
    wait s.next_tick (scan now settings task_ids s.tasks) s.ticks (suc s.next_tick)
handle (ends i ok settings) s = resume (s.ticks i) i ok settings s

unfoldable pub play : List Event → Scheduler → Scheduler
unfolding handle
play [] s = s
play (e ∷ es) s = play es (handle e s)
