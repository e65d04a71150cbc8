-- ===== src/Webhook/Deliver.antt =====
-- `deliverWebhook`. What `fetch` did, the clock and the random number are arguments; a failure of the
-- database itself is not modelled.
use conductor_dashboard.Common.{
  ℕ, zero, suc, ◌+◌, String, Bool, true, false, ◌&&◌, Option, none, some, List, [], ◌∷◌, find,
  update_where, ltb, leb, ◌==◌, if◌then◌else◌,
}
use conductor_dashboard.Webhook.{Webhook, Body, Delivery, Store, next_retry_delay}

-- An answer with its status and, if it could be read, its text; or an error's message. Both texts are
-- as they are stored: an answer over 1000 characters is cut, an abort reads `Timeout (10s)`.
pub data Fetched : Type 0 where
  answered : ℕ → Option String → Fetched
  failed : String → Fetched

pub record Opts : Type 0 where
  pub attempt : ℕ
  pub parent : Option ℕ
  pub allow_retry : Bool

-- What lies outside, for one call.
pub record Env : Type 0 where
  pub now : ℕ  -- seconds
  pub duration : ℕ
  pub random : ℕ
  pub fetched : Fetched

abbrev pub status_of : Fetched → Option ℕ
status_of (answered code text) = some code
status_of (failed message) = none

abbrev pub text_of : Fetched → Option String
text_of (answered code text) = text
text_of (failed message) = none

abbrev pub error_of : Fetched → Option String
error_of (answered code text) = none
error_of (failed message) = some message

abbrev pub is_success : Option ℕ → Bool
is_success none = false
is_success (some code) = leb 200 code && ltb code 300

-- WHERE id = ? AND workspace_id = ?
abbrev pub is_hook : ℕ → ℕ → Webhook → Bool
is_hook id ws w = w.id == id && w.workspace_id == ws

abbrev pub is_of_hook : ℕ → ℕ → Delivery → Bool
is_of_hook id ws d = d.webhook_id == id && d.workspace_id == ws

abbrev pub new_delivery : ℕ → Webhook → String → Body → Opts → Env → Delivery
new_delivery id w event body o env = record {
  id = id;
  webhook_id = w.id;
  event_type = event;
  body = body;
  status_code = status_of env.fetched;
  response_body = text_of env.fetched;
  error = error_of env.fetched;
  duration_ms = env.duration;
  attempt = o.attempt;
  is_retry = ltb 0 o.attempt;
  parent = o.parent;
  workspace_id = w.workspace_id;
  next_retry_at = none;
}

abbrev pub insert_delivery : Delivery → Store → Store
insert_delivery d s = record s { deliveries = d ∷ s.deliveries; next_id = suc s.next_id }

abbrev pub change_hook : Webhook → (Webhook → Webhook) → Store → Store
change_hook w f s = record s { webhooks = update_where (is_hook w.id w.workspace_id) f s.webhooks }

abbrev pub note_fired : ℕ → Option ℕ → Webhook → Webhook
note_fired now status w = record w {
  last_fired_at = some now;
  last_status = status;
  updated_at = now;
}

abbrev pub reset_failures : Webhook → Webhook
reset_failures w = record w { consecutive_failures = 0 }

abbrev pub count_failure : Webhook → Webhook
count_failure w = record w { consecutive_failures = w.consecutive_failures + 1 }

abbrev pub disable : ℕ → Webhook → Webhook
disable now w = record w { enabled = false; updated_at = now }

abbrev pub schedule_retry : ℕ → ℕ → Store → Store
schedule_retry id at s = record s {
  deliveries =
      update_where (λ d. d.id == id) (λ d. record d { next_retry_at = some at }) s.deliveries;
}

abbrev pub trips : ℕ → Option Webhook → Bool
trips max none = false
trips max (some w) = leb max w.consecutive_failures

unfoldable pub trip_breaker : ℕ → ℕ → Webhook → Store → Store
trip_breaker max now w s =
    if trips max (find (is_hook w.id w.workspace_id) s.webhooks)
    then change_hook w (disable now) s
    else s

-- The circuit breaker and the retry, `max` being MAX_RETRIES. `attempt < MAX_RETRIES - 1`.
unfoldable pub settle : ℕ → ℕ → Webhook → Opts → Env → Store → Store
unfolding trip_breaker
settle max id w o env s =
    if is_success (status_of env.fetched)
    then change_hook w reset_failures s
    else (let counted = change_hook w count_failure s in
        if ltb (o.attempt + 1) max
        then schedule_retry id (env.now + next_retry_delay o.attempt env.random) counted
        else trip_breaker max env.now w counted)

-- The first `n` of the rows that the test accepts, and every other row.
unfoldable pub keep_first : ℕ → (Delivery → Bool) → List Delivery → List Delivery
keep_first n p [] = []
keep_first zero p (d ∷ ds) = let rest = keep_first zero p ds in if p d then rest else d ∷ rest
keep_first (suc n) p (d ∷ ds) =
    let kept = d ∷ keep_first n p ds in
    let rest = d ∷ keep_first (suc n) p ds in if p d then kept else rest

-- DELETE … id NOT IN (SELECT … ORDER BY created_at DESC LIMIT 200)
abbrev pub prune : Webhook → Store → Store
prune w s = record s { deliveries = keep_first 200 (is_of_hook w.id w.workspace_id) s.deliveries }

-- Test deliveries skip the breaker and the retry.
unfoldable pub settle_if : Bool → ℕ → ℕ → Webhook → Opts → Env → Store → Store
settle_if true max id w o env s = settle max id w o env s
settle_if false max id w o env s = s

abbrev pub record_delivery : ℕ → Webhook → String → Body → Opts → Env → Store → Store
record_delivery max w event body o env s =
    let logged = insert_delivery (new_delivery s.next_id w event body o env) s in
    let fired = change_hook w (note_fired env.now (status_of env.fetched)) logged in
    settle_if o.allow_retry max s.next_id w o env fired

-- Returns the store and whether the delivery succeeded.
unfoldable pub deliver_webhook : ℕ → Webhook → String → String → Opts → Env → Store → Store × Bool
deliver_webhook max w event payload o env s =
    let body : Body = record { event = event; timestamp = env.now; payload = payload } in
    (prune w (record_delivery max w event body o env s), is_success (status_of env.fetched))
