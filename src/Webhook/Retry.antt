-- ===== src/Webhook/Retry.antt =====
-- `processWebhookRetries`. Every delivery of a batch has its own clock, answer and random number.
use conductor_dashboard.Common.{
  ℕ, suc, ◌+◌, Bool, true, false, ◌&&◌, Option, none, some, List, [], ◌∷◌, find, update_where, leb,
  ◌==◌, if◌then◌else◌, take,
}
use conductor_dashboard.Webhook.{Webhook, Delivery, Store}
use conductor_dashboard.Webhook.Deliver.{Opts, Env, is_hook, deliver_webhook}

-- A row of the join: the delivery, and its webhook, with the delivery's workspace.
pub record Row : Type 0 where
  pub delivery : Delivery
  pub webhook : Webhook

abbrev pub is_due : ℕ → Option ℕ → Bool
is_due now none = false
is_due now (some at) = leb at now

-- JOIN webhooks w ON w.id = wd.webhook_id AND w.workspace_id = wd.workspace_id AND w.enabled = 1
abbrev pub is_enabled_hook : ℕ → ℕ → Webhook → Bool
is_enabled_hook id ws w = is_hook id ws w && w.enabled

abbrev pub join_row : ℕ → Delivery → Option Webhook → List Row → List Row
join_row now d none rest = rest
join_row now d (some w) rest =
    if is_due now d.next_retry_at then record { delivery = d; webhook = w } ∷ rest else rest

-- The rows that are due, in some order; LIMIT 50 names none.
unfoldable pub due_rows : ℕ → List Webhook → List Delivery → List Row
due_rows now ws [] = []
due_rows now ws (d ∷ ds) =
    join_row now d (find (is_enabled_hook d.webhook_id d.workspace_id) ws) (due_rows now ws ds)

abbrev pub is_delivery : ℕ → ℕ → Delivery → Bool
is_delivery id ws d = d.id == id && d.workspace_id == ws

abbrev pub clear_retry : Delivery → Delivery
clear_retry d = record d { next_retry_at = none }

-- Clear `next_retry_at` of every row that was picked.
unfoldable pub clear_rows : List Row → List Delivery → List Delivery
clear_rows [] ds = ds
clear_rows (r ∷ rs) ds =
    clear_rows rs (update_where (is_delivery r.delivery.id r.delivery.workspace_id) clear_retry ds)

-- The webhook that a row carries: the joined one in the delivery's workspace.
abbrev pub row_hook : Row → Webhook
row_hook r = record r.webhook { workspace_id = r.delivery.workspace_id }

abbrev pub retry_opts : Row → Opts
retry_opts r = record {
  attempt = r.delivery.attempt + 1;
  parent = some r.delivery.id;
  allow_retry = true;
}

abbrev pub tally : Bool → ℕ × ℕ → ℕ × ℕ
tally true (ok, bad) = (suc ok, bad)
tally false (ok, bad) = (ok, suc bad)

-- The deliveries of a batch, and how many of them succeeded and failed.
unfoldable pub redeliver : ℕ → List Row → (ℕ → Env) → ℕ → Store → Store × (ℕ × ℕ)
redeliver max [] envs i s = (s, (0, 0))
redeliver max (r ∷ rs) envs i s =
    let (s', ok) =
      deliver_webhook max (row_hook r) r.delivery.event_type r.delivery.body.payload (retry_opts r)
        (envs i) s in
    let (s'', counts) = redeliver max rs envs (suc i) s' in (s'', tally ok counts)

-- `rows` is the batch that the SELECT returned.
unfoldable pub process_batch : ℕ → List Row → (ℕ → Env) → Store → Store × (ℕ × ℕ)
unfolding clear_rows redeliver
process_batch max rows envs s =
    redeliver max rows envs 0 (record s { deliveries = clear_rows rows s.deliveries })

-- `processWebhookRetries`: at most 50 rows, here the first of the table.
unfoldable pub process_webhook_retries : ℕ → ℕ → (ℕ → Env) → Store → Store × (ℕ × ℕ)
unfolding process_batch due_rows
process_webhook_retries max now envs s =
    process_batch max (take 50 (due_rows now s.webhooks s.deliveries)) envs s
