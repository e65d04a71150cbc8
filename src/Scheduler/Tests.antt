-- ===== src/Scheduler/Tests.antt =====
-- Two ticks while a run takes long, and a check of two agents.
use conductor_dashboard.Common.{ℕ, ◌≡◌, refl, true, false, none, some, List, [], ◌∷◌, map}
use conductor_dashboard.Scheduler.{TaskId, Settings, initial_tasks}
use conductor_dashboard.Scheduler.Tick.{Tick, Scheduler, Event, fires, ends, play}
use conductor_dashboard.Scheduler.Exclusive.{play-exclusive}
use conductor_dashboard.Scheduler.Check.{idle, Health, run_heartbeat_check}
use conductor_dashboard.Scheduler.Healthy.{refresh, run_heartbeat_check-refresh}

abbrev no_settings : Settings
no_settings key = none

abbrev fresh : Scheduler
fresh = record { tasks = initial_tasks 1000; ticks = (λ n. none); next_tick = 0 }

-- The second tick fires while the first still waits.
abbrev events : List Event
events = fires 16000 no_settings ∷ fires 31000 no_settings ∷ ends 0 true no_settings ∷ []

initial-idle : (id : TaskId) → (fresh.tasks id).running ≡ false
unfolding initial_tasks
initial-idle TaskId.auto_backup = refl
initial-idle TaskId.auto_cleanup = refl
initial-idle TaskId.agent_heartbeat = refl
initial-idle TaskId.webhook_retry = refl
initial-idle TaskId.claude_session_scan = refl
initial-idle TaskId.conductor_sync = refl

play-exclusive_example :
    ((i k : ℕ) (t u : Tick)
      → (play events fresh).ticks i ≡ some t
      → (play events fresh).ticks k ≡ some u
      → t.id ≡ u.id
      → i ≡ k)
    × ((id : TaskId)
        → ((play events fresh).tasks id).running ≡ true
        → (i : ℕ) × (t : Tick) × ((play events fresh).ticks i ≡ some t) × (t.id ≡ id))
play-exclusive_example = play-exclusive events fresh (λ n. refl) initial-idle

abbrev two_agents : Health
two_agents = record {
  agents =
      record { id = 1; name = "ann"; status = idle; last_seen = some 100; updated_at = 0 }
      ∷ record { id = 2; name = "bob"; status = idle; last_seen = some 5000; updated_at = 0 }
      ∷ [];
  activities = [];
  notifications = [];
  audits = [];
}

run_heartbeat_check-refresh_example :
    (run_heartbeat_check 5400 10 two_agents).agents ≡ map (refresh 5400 4800) two_agents.agents
run_heartbeat_check-refresh_example =
    run_heartbeat_check-refresh 5400 10 two_agents (refl, (refl, tt))
