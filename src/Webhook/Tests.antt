-- ===== src/Webhook/Tests.antt =====
-- Deliveries of one webhook on small inputs, and the theorems at such inputs.
use Prim.Native.Char.{code}
use conductor_dashboard.Common.{
  ℕ, List, String, ◌≡◌, refl, true, false, none, some, [], ◌∷◌, arith, map,
}
use conductor_dashboard.Webhook.{Webhook, Store, next_retry_delay}
use conductor_dashboard.Webhook.Deliver.{
  Opts, Env, answered, settle, settle_if, keep_first, deliver_webhook,
}
use conductor_dashboard.Webhook.Retry.{process_webhook_retries}
use conductor_dashboard.Webhook.Events.{verify_webhook_signature, on_server_event, fire_targets}
use conductor_dashboard.Webhook.Budget.{
  WithinBudget, deliver_webhook-WithinBudget, process_webhook_retries-WithinBudget,
}
use conductor_dashboard.Webhook.Breaker.{
  Settled, hook_row, RetriesBy, deliver_webhook-Settled, deliver_webhook-RetriesBy,
}

abbrev hook : Webhook
hook = record {
  id = 7;
  name = "ci";
  url = "https://example.org/hook";
  secret = some "s3cret";
  events = some ("activity.task_created" ∷ []);
  enabled = true;
  workspace_id = 1;
  consecutive_failures = 4;
  last_fired_at = none;
  last_status = none;
  updated_at = 0;
}

abbrev empty : Store
empty = record { webhooks = hook ∷ []; deliveries = []; next_id = 1 }

abbrev first_try : Opts
first_try = record { attempt = 0; parent = none; allow_retry = true }

abbrev last_try : Opts
last_try = record { attempt = 4; parent = none; allow_retry = true }

abbrev broken : Env
broken = record { now = 1000; duration = 20; random = 0; fetched = answered 500 none }

abbrev working : Env
working = record { now = 2000; duration = 20; random = 0; fetched = answered 204 none }

abbrev after_first : Store
after_first = (deliver_webhook 5 hook "task.x" "{}" first_try broken empty).0

-- The first failure is retried 24 seconds later at the earliest.
first_retry : map (λ d. d.next_retry_at) after_first.deliveries ≡ some 1024 ∷ []
unfolding deliver_webhook settle_if settle keep_first next_retry_delay
first_retry = refl

retry_works : (process_webhook_retries 5 1500 (λ n. working) after_first).1 ≡ (1, 0)
unfolding process_webhook_retries deliver_webhook settle_if settle keep_first next_retry_delay
retry_works = refl

agent_error :
    on_server_event "agent.status_changed"
      (record { type = none; action = none; status = some "error"; workspace = some 3 })
    ≡ ("agent.status_change", 3) ∷ ("agent.error", 3) ∷ []
unfolding on_server_event
agent_error = refl

targets :
    map
      (λ w. w.id)
      (fire_targets "activity.task_created" 1 (hook ∷ record hook { enabled = false } ∷ []))
    ≡ 7 ∷ []
unfolding fire_targets
targets = refl

process_webhook_retries-WithinBudget_example :
    WithinBudget 5 (process_webhook_retries 5 1500 (λ n. broken) after_first).0
process_webhook_retries-WithinBudget_example =
    process_webhook_retries-WithinBudget 5 1500 (λ n. broken) after_first
      (deliver_webhook-WithinBudget 5 hook "task.x" "{}" first_try broken empty (omega arith) tt)

deliver_webhook-Settled_example :
    Settled 5 last_try broken hook
      (hook_row hook (deliver_webhook 5 hook "e" "{}" last_try broken empty).0)
deliver_webhook-Settled_example =
    deliver_webhook-Settled 5 hook hook "e" "{}" last_try broken empty refl refl

deliver_webhook-RetriesBy_example :
    RetriesBy 9640 (deliver_webhook 5 hook "e" "{}" first_try broken empty).0
deliver_webhook-RetriesBy_example =
    deliver_webhook-RetriesBy 9640 hook "e" "{}" first_try broken empty (omega arith) (omega arith)
      tt

-- An HMAC of a toy kind.
abbrev toy : String → String → String
toy secret body = secret

-- The bytes of an ASCII text.
abbrev bytes : String → List ℕ
bytes String.[] = []
bytes (String.◌∷◌ c s) = code c ∷ bytes s

signed : verify_webhook_signature toy bytes "k" "{}" (some "sha256=k") ≡ some true
unfolding verify_webhook_signature
signed = refl

shorter : verify_webhook_signature toy bytes "k" "{}" (some "sha256=") ≡ some false
unfolding verify_webhook_signature
shorter = refl
