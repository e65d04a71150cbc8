-- ===== src/Scheduler.antt =====
-- lib/scheduler.ts: the tasks that ticks run. What a run does is an outcome that comes back, but for the
-- check of the agents and the choice of old backups. The names of tasks and their `enabled`, which nothing
-- reads, are left out.
pub mod Tick
pub mod Locks
pub mod Exclusive
pub mod Check
pub mod Healthy
mod Tests
use conductor_dashboard.Common.{
  ℕ, ◌+◌, ◌-◌, ◌*◌, ◌/◌, String, Bool, true, false, not, ◌&&◌, Option, none, some, List, [], ◌∷◌,
  Rows, leb, ◌==◌, str_eq, if◌then◌else◌,
}

pub data TaskId : Type 0 where
  auto_backup auto_cleanup agent_heartbeat webhook_retry claude_session_scan conductor_sync : TaskId

pub record RunResult : Type 0 where
  pub ok : Bool
  pub timestamp : ℕ

pub record ScheduledTask : Type 0 where
  pub interval_ms : ℕ
  pub last_run : Option ℕ
  pub next_run : ℕ
  pub running : Bool
  pub last_result : Option RunResult

-- Map.get, for the ids that initScheduler sets.
abbrev pub Tasks : Type 0
Tasks = TaskId → ScheduledTask

abbrev pub task_ids : List TaskId
task_ids =
    auto_backup ∷ auto_cleanup ∷ agent_heartbeat ∷ webhook_retry ∷ claude_session_scan
    ∷ conductor_sync ∷ []

abbrev pub id_code : TaskId → ℕ
id_code auto_backup = 0
id_code auto_cleanup = 1
id_code agent_heartbeat = 2
id_code webhook_retry = 3
id_code claude_session_scan = 4
id_code conductor_sync = 5

abbrev pub setting_key : TaskId → String
setting_key auto_backup = "general.auto_backup"
setting_key auto_cleanup = "general.auto_cleanup"
setting_key webhook_retry = "webhooks.retry_enabled"
setting_key claude_session_scan = "general.claude_session_scan"
setting_key conductor_sync = "general.conductor_sync"
setting_key agent_heartbeat = "general.agent_heartbeat"

abbrev pub default_enabled : TaskId → Bool
default_enabled auto_backup = false
default_enabled auto_cleanup = false
default_enabled agent_heartbeat = true
default_enabled webhook_retry = true
default_enabled claude_session_scan = true
default_enabled conductor_sync = true

-- The settings table; a table that cannot be read has no rows.
abbrev pub Settings : Type 0
Settings = String → Option String

abbrev pub value_or : Option String → Bool → Bool
value_or none default = default
value_or (some v) default = str_eq v "true"

unfoldable pub is_setting_enabled : Settings → String → Bool → Bool
is_setting_enabled settings key default = value_or (settings key) default

abbrev pub daily_ms : ℕ
daily_ms = 86400000

-- getNextDailyMs: `now` in milliseconds since the epoch, in UTC.
unfoldable pub get_next_daily_ms : ℕ → ℕ → ℕ
get_next_daily_ms now hour =
    let day = now / daily_ms in
    let next = day * daily_ms + hour * 3600000 in
    if leb next now then (next + daily_ms) - now else next - now

abbrev pub idle_task : ℕ → ℕ → ScheduledTask
idle_task interval next = record {
  interval_ms = interval;
  last_run = none;
  next_run = next;
  running = false;
  last_result = none;
}

-- The tasks that initScheduler registers.
unfoldable pub initial_tasks : ℕ → Tasks
unfolding get_next_daily_ms
initial_tasks now auto_backup = idle_task daily_ms (now + get_next_daily_ms now 3)
initial_tasks now auto_cleanup = idle_task daily_ms (now + get_next_daily_ms now 4)
initial_tasks now agent_heartbeat = idle_task 300000 (now + 300000)
initial_tasks now webhook_retry = idle_task 60000 (now + 60000)
initial_tasks now claude_session_scan = idle_task 60000 (now + 5000)
initial_tasks now conductor_sync = idle_task 30000 (now + 10000)
