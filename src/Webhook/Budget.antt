-- ===== src/Webhook/Budget.antt =====
-- How often the queue of due retries attempts a delivery.
use conductor_dashboard.Common.{
  ℕ, zero, suc, ◌+◌, ◌<◌, ◌≡◌, refl, String, Bool, true, false, Option, inl, inr, none, some, List,
  [], ◌∷◌, arith, All, All-update_where, ◌==◌, ltb, Bool-cases, Option-cases, find, take,
}
use conductor_dashboard.Webhook.{Webhook, Body, Delivery, Store}
use conductor_dashboard.Webhook.Deliver.{
  Opts, Env, status_of, is_success, new_delivery, schedule_retry, settle, record_delivery,
  deliver_webhook, change_hook, count_failure, settle_if, note_fired, insert_delivery,
}
use conductor_dashboard.Webhook.Retry.{
  Row, clear_rows, redeliver, is_delivery, clear_retry, retry_opts, row_hook, is_due, join_row,
  due_rows, process_webhook_retries, is_enabled_hook,
}
use conductor_dashboard.Webhook.Bounds.{InBudget, All-keep_first, trip_breaker-deliveries}

abbrev pub Kept : ℕ → ℕ → Delivery → Type 0
Kept max next d = InBudget max d × (d.id < next)

-- Every delivery is within the budget `max`, and has an id that was handed out.
abbrev pub WithinBudget : ℕ → Store → Type 0
WithinBudget max s = All (Kept max s.next_id) s.deliveries

abbrev Fresh : ℕ → ℕ → ℕ → Delivery → Type 0
Fresh max id attempt d = Kept max (suc id) d × (d.id ≡ id → d.attempt ≡ attempt)

Fresh-Kept :
    (max id attempt : ℕ) (ds : List Delivery)
    → All (Fresh max id attempt) ds
    → All (Kept max (suc id)) ds
Fresh-Kept max id attempt [] h = tt
Fresh-Kept max id attempt (d ∷ ds) (q, h) = (q.0, Fresh-Kept max id attempt ds h)

Kept-Fresh :
    (max id attempt : ℕ) (ds : List Delivery) → All (Kept max id) ds → All (Fresh max id attempt) ds
Kept-Fresh max id attempt [] h = tt
Kept-Fresh max id attempt (d ∷ ds) (q, h) =
    (((q.0, omega arith), λ e. absurd (omega arith)), Kept-Fresh max id attempt ds h)

schedule-Kept :
    (max id attempt at : ℕ) (s : Store)
    → attempt + 1 < max
    → All (Fresh max id attempt) s.deliveries
    → All (Kept max (suc id)) (schedule_retry id at s).deliveries
schedule-Kept max id attempt at s room h =
    Fresh-Kept max id attempt (schedule_retry id at s).deliveries (
      All-update_where (Fresh max id attempt) (λ d. d.id == id)
        (λ d. record d { next_retry_at = some at }) s.deliveries (λ d e q. ground arith) h)

settle-Kept :
    (max id : ℕ) (w : Webhook) (o : Opts) (env : Env) (s : Store)
    → All (Fresh max id o.attempt) s.deliveries
    → All (Kept max (suc id)) (settle max id w o env s).deliveries
unfolding settle
settle-Kept max id w o env s h = elim (Bool-cases (is_success (status_of env.fetched))) [
  | inl ok ↦ rw ok (Fresh-Kept max id o.attempt s.deliveries h)
  | inr bad ↦ elim (Bool-cases (ltb (o.attempt + 1) max)) [
    | inl room ↦ rw (bad, room) (schedule-Kept max id o.attempt _ s (ground arith) h)
    | inr last ↦
        rw (bad, last, trip_breaker-deliveries max env.now w (change_hook w count_failure s))
          (Fresh-Kept max id o.attempt s.deliveries h)
  ]
]

settle_if-Kept :
    (b : Bool) (max id : ℕ) (w : Webhook) (o : Opts) (env : Env) (s : Store)
    → All (Fresh max id o.attempt) s.deliveries
    → All (Kept max (suc id)) (settle_if b max id w o env s).deliveries
unfolding settle_if
settle_if-Kept true max id w o env s h = settle-Kept max id w o env s h
settle_if-Kept false max id w o env s h = Fresh-Kept max id o.attempt s.deliveries h

record_delivery-Kept :
    (max : ℕ) (w : Webhook) (event : String) (body : Body) (o : Opts) (env : Env) (s : Store)
    → o.attempt < max
    → WithinBudget max s
    → All (Kept max (suc s.next_id)) (record_delivery max w event body o env s).deliveries
record_delivery-Kept max w event body o env s room h =
    settle_if-Kept o.allow_retry max s.next_id w o env _ (
      (((room, λ at e. absurd (cc e)), omega arith), λ e. refl),
      Kept-Fresh max s.next_id o.attempt s.deliveries h,
    )

settle-next_id :
    (max id : ℕ) (w : Webhook) (o : Opts) (env : Env) (s : Store)
    → (settle max id w o env s).next_id ≡ s.next_id
unfolding settle
settle-next_id max id w o env s = ground arith

record_delivery-next_id :
    (max : ℕ) (w : Webhook) (event : String) (body : Body) (o : Opts) (env : Env) (s : Store)
    → (record_delivery max w event body o env s).next_id ≡ suc s.next_id
unfolding settle_if
record_delivery-next_id max w event body o env s = settled o.allow_retry
  where
    fired : Store
    fired =
        change_hook w (note_fired env.now (status_of env.fetched))
          (insert_delivery (new_delivery s.next_id w event body o env) s)

    settled : (b : Bool) → (settle_if b max s.next_id w o env fired).next_id ≡ suc s.next_id
    settled true = settle-next_id max s.next_id w o env fired
    settled false = refl

-- One delivery whose attempt is within the budget.
pub deliver_webhook-WithinBudget :
    (max : ℕ) (w : Webhook) (event payload : String) (o : Opts) (env : Env) (s : Store)
    → o.attempt < max
    → WithinBudget max s
    → WithinBudget max (deliver_webhook max w event payload o env s).0
unfolding deliver_webhook
deliver_webhook-WithinBudget max w event payload o env s room h =
    let body : Body = record { event = event; timestamp = env.now; payload = payload } in
    rw (record_delivery-next_id max w event body o env s) (
      All-keep_first (Kept max (suc s.next_id)) 200 _
        (record_delivery max w event body o env s).deliveries
        (record_delivery-Kept max w event body o env s room h))

-- The rows of a batch have one attempt left at least.
abbrev HasRoom : ℕ → Row → Type 0
HasRoom max r = r.delivery.attempt + 1 < max

join_row-HasRoom :
    (max next now : ℕ) (d : Delivery) (o : Option Webhook) (rest : List Row)
    → Kept max next d
    → All (HasRoom max) rest
    → All (HasRoom max) (join_row now d o rest)
join_row-HasRoom max next now d none rest k h = h
join_row-HasRoom max next now d (some w) rest k h = elim (Bool-cases (is_due now d.next_retry_at)) [
  | inl due ↦ elim (Option-cases d.next_retry_at) [
    | inl nothing ↦ absurd (let q = rw nothing at due in cc q)
    | inr (at, e) ↦ rw due (k.0.1 at e, h)
  ]
  | inr later ↦ rw later h
]

due_rows-HasRoom :
    (max next now : ℕ) (ws : List Webhook) (ds : List Delivery)
    → All (Kept max next) ds
    → All (HasRoom max) (due_rows now ws ds)
unfolding due_rows
due_rows-HasRoom max next now ws [] h = tt
due_rows-HasRoom max next now ws (d ∷ ds) (k, h) =
    join_row-HasRoom max next now d (find (is_enabled_hook d.webhook_id d.workspace_id) ws)
      (due_rows now ws ds) k (due_rows-HasRoom max next now ws ds h)

All-take : (P : Row → Type 0) (n : ℕ) (rs : List Row) → All P rs → All P (take n rs)
All-take P zero rs h = tt
All-take P (suc n) [] h = tt
All-take P (suc n) (r ∷ rs) (q, h) = (q, All-take P n rs h)

clear_rows-Kept :
    (max next : ℕ) (rs : List Row) (ds : List Delivery)
    → All (Kept max next) ds
    → All (Kept max next) (clear_rows rs ds)
unfolding clear_rows
clear_rows-Kept max next [] ds h = h
clear_rows-Kept max next (r ∷ rs) ds h = clear_rows-Kept max next rs _ (
    All-update_where (Kept max next) (is_delivery r.delivery.id r.delivery.workspace_id) clear_retry
      ds (λ d e q. ((q.0.0, λ at c. absurd (cc c)), q.1)) h)

redeliver-WithinBudget :
    (max : ℕ) (rs : List Row) (envs : ℕ → Env) (i : ℕ) (s : Store)
    → All (HasRoom max) rs
    → WithinBudget max s
    → WithinBudget max (redeliver max rs envs i s).0
unfolding redeliver
redeliver-WithinBudget max [] envs i s rooms h = h
redeliver-WithinBudget max (r ∷ rs) envs i s (room, rooms) h =
    redeliver-WithinBudget max rs envs (suc i) _ rooms (
      deliver_webhook-WithinBudget max (row_hook r) r.delivery.event_type r.delivery.body.payload
        (retry_opts r) (envs i) s room h)

-- Processing retries never goes past the retry budget: if every delivery so far is within it, so is
-- every one afterwards, its attempt below `max`, and one that awaits a retry has an attempt left.
pub process_webhook_retries-WithinBudget :
    (max now : ℕ) (envs : ℕ → Env) (s : Store)
    → WithinBudget max s
    → WithinBudget max (process_webhook_retries max now envs s).0
unfolding process_webhook_retries
process_webhook_retries-WithinBudget max now envs s h =
    redeliver-WithinBudget max (take 50 (due_rows now s.webhooks s.deliveries)) envs 0 _
      (All-take (HasRoom max) 50 _ (due_rows-HasRoom max s.next_id now s.webhooks s.deliveries h))
      (clear_rows-Kept max s.next_id (take 50 (due_rows now s.webhooks s.deliveries)) s.deliveries
        h)
