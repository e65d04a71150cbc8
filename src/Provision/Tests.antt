-- ===== src/Provision/Tests.antt =====
-- A live job that one person asks for, another approves and a third runs, up to its end and after it.
use conductor_dashboard.Common.{
  ℕ, ◌≡◌, ◌≢◌, ◌⊎◌, refl, inr, arith, true, false, none, some, List, [], ◌∷◌, insert_row, ◌==◌,
}
use conductor_dashboard.Provision.{
  running, completed, failed, cancelled, active, update, Step, Tenant, Job, JobRequest,
}
use conductor_dashboard.Provision.Jobs.{approve, cancel}
use conductor_dashboard.Provision.Run.{Exec, finished, threw}
use conductor_dashboard.Provision.System.{
  System, Input, queue, change, execute, result, handle, play,
}
use conductor_dashboard.Provision.Rule.{play-IsValid, play-two_persons}
use conductor_dashboard.Provision.Rule.Started.{approver_of}
use conductor_dashboard.Provision.Rule.Waits.{IsValid}
use conductor_dashboard.Provision.Lifecycle.{play-Follows, play-final}
use conductor_dashboard.Provision.Lifecycle.Course.{Follows}
use conductor_dashboard.Provision.Finish.{outcomes_of, play-ends, result-ends}
use conductor_dashboard.Provision.Restart.{play-lost}

abbrev acme : Tenant
acme = record {
  id = 1;
  slug = "acme";
  display_name = "Acme";
  linux_user = "oc-acme";
  plan_tier = "standard";
  status = active;
  openclaw_home = "/home/oc-acme/.openclaw";
  workspace_root = "/home/oc-acme/workspace";
  gateway_port = some 20001;
  dashboard_port = none;
  created_by = "ann";
  owner_gateway = "primary";
  updated_at = 0;
}

abbrev empty_system : System
empty_system = record {
  db = record {
    tenants = acme ∷ [];
    jobs = λ n. none;
    next_tenant = 2;
    next_job = 1;
    events = [];
    audit = [];
    files = [];
  };
  execs = λ n. none;
  next_exec = 0;
  allow = true;
  is_daemon = true;
}

abbrev stop_step : Step
stop_step = record {
  key = "stop";
  title = "Stop";
  command = "systemctl" ∷ "stop" ∷ "gateway" ∷ [];
  requires_root = true;
  timeout_ms = none;
}

abbrev start_step : Step
start_step = record {
  key = "start";
  title = "Start";
  command = "systemctl" ∷ "start" ∷ "gateway" ∷ [];
  requires_root = true;
  timeout_ms = some 30000;
}

abbrev live_request : JobRequest
live_request = record { dry_run = some false; slug = none; gateway_port = none }

abbrev asked : List Input
asked =
    queue 1 "ann" 1 update (some false) live_request (stop_step ∷ start_step ∷ [])
    ∷ change 2 "bob" 1 approve
    ∷ execute 3 "cy" 1
    ∷ []

abbrev first_wait : Exec
first_wait = record {
  run = record {
    job = 1;
    tenant = 1;
    actor = "cy";
    dry = false;
    kind = update;
    previous = active;
    allow = true;
    results = [];
  };
  step = stop_step;
  rest = start_step ∷ [];
}

abbrev running_job : Job
running_job = record {
  tenant_id = 1;
  job_type = update;
  status = running;
  dry_run = false;
  requested_by = "ann";
  approved_by = some "bob";
  request = live_request;
  plan = stop_step ∷ start_step ∷ [];
  results = none;
  error_text = none;
  started_at = some 3;
  completed_at = none;
  updated_at = 3;
}

abbrev outcomes : List Input
outcomes =
    result 4 0 (finished 0 false) ∷ change 5 "bob" 1 cancel ∷ result 6 0 (finished 1 false) ∷ []

empty_system-IsValid : IsValid empty_system
empty_system-IsValid = (λ i e h. absurd (cc), λ i k e e' h h' same. absurd (cc), λ n h. refl)

waiting-IsValid : IsValid (play asked empty_system)
waiting-IsValid = play-IsValid asked empty_system empty_system-IsValid

play-IsValid_example : IsValid (play asked empty_system)
play-IsValid_example = play-IsValid asked empty_system empty_system-IsValid

play-two_persons_example :
    ((j : Job) × ((play asked empty_system).db.jobs 1 ≡ some j)
      × (j.status ≡ running)
      × (approver_of j ≢ j.requested_by)
      × (approver_of j ≢ "cy"))
    × ((k : ℕ) (e' : Exec) → (play asked empty_system).execs k ≡ some e' → e'.run.job ≡ 1 → k ≡ 0)
unfolding play
play-two_persons_example =
    play-two_persons asked empty_system 0 first_wait (λ n. refl) (λ n h. refl) refl refl

play-Follows_example :
    (j' : Job) × ((play outcomes (play asked empty_system)).db.jobs 1 ≡ some j')
    × Follows running_job j'
unfolding play
play-Follows_example =
    play-Follows outcomes (play asked empty_system) 1 running_job waiting-IsValid refl

play-ends_example : (play outcomes (play asked empty_system)).execs 0 ≡ none
unfolding play outcomes_of
play-ends_example =
    play-ends outcomes 0 first_wait (play asked empty_system) (omega arith) refl (omega arith)

result-ends_example :
    (j : Job) × ((handle (result 4 0 (threw "no daemon")) (play asked empty_system)).db.jobs 1
      ≡ some j)
    × ((j.status ≡ completed) ⊎ (j.status ≡ failed))
unfolding handle play
result-ends_example =
    result-ends 4 0 (threw "no daemon") first_wait (play asked empty_system) waiting-IsValid refl
      refl

-- The server has restarted while the job ran.
abbrev restarted : System
restarted = record empty_system {
  db = record empty_system.db { jobs = insert_row (λ n. none) 1 running_job; next_job = 2 };
}

restarted-IsValid : IsValid restarted
restarted-IsValid = (
  λ i e h. absurd (cc),
  λ i k e e' h h' same. absurd (cc),
  λ n h. let other : (n == 1) ≡ false = ground (arith, h) in rw other refl,
)

play-lost_example :
    (play (change 9 "bob" 1 cancel ∷ execute 10 "cy" 1 ∷ []) restarted).db.jobs 1 ≡ some running_job
play-lost_example =
    play-lost (change 9 "bob" 1 cancel ∷ execute 10 "cy" 1 ∷ []) restarted 1 running_job
      restarted-IsValid refl refl (λ i e h. absurd (cc))

abbrev closed : System
closed = record empty_system {
  db = record empty_system.db {
    jobs = insert_row (λ n. none) 1 (record running_job { status = cancelled });
    next_job = 2;
  };
}

closed-IsValid : IsValid closed
closed-IsValid = (
  λ i e h. absurd (cc),
  λ i k e e' h h' same. absurd (cc),
  λ n h. let other : (n == 1) ≡ false = ground (arith, h) in rw other refl,
)

play-final_example :
    (play (change 9 "bob" 1 approve ∷ execute 10 "cy" 1 ∷ []) closed).db.jobs 1
    ≡ some (record running_job { status = cancelled })
play-final_example =
    play-final (change 9 "bob" 1 approve ∷ execute 10 "cy" 1 ∷ []) closed 1
      (record running_job { status = cancelled }) closed-IsValid refl (inr refl)
