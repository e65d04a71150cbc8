-- ===== src/Webhook/Breaker.antt =====
-- The circuit breaker, and how far ahead a retry can be.
use mathlib.Core.Option
use conductor_dashboard.Common.{
  ℕ, zero, suc, ◌+◌, ◌≤◌, ◌<◌, ◌^◌, ◌≡◌, refl, ap, ◌∙◌, String, Bool, true, false, ◌&&◌, not,
  Option, inl, inr, some, arith, All, All-update_where, find, find-update_where, ◌==◌, ltb, leb,
  if◌then◌else◌, Bool-cases,
}
use conductor_dashboard.Webhook.{Webhook, Body, Store, next_retry_delay}
use conductor_dashboard.Webhook.Deliver.{
  Opts, Env, status_of, is_success, is_hook, new_delivery, insert_delivery, change_hook, note_fired,
  reset_failures, count_failure, disable, trip_breaker, settle, settle_if, deliver_webhook,
}
use conductor_dashboard.Webhook.Bounds.{
  next_retry_delay_bounds, All-keep_first, trip_breaker-deliveries,
}

-- The row of a delivery's webhook, as the next SELECT sees it.
abbrev pub hook_row : Webhook → Store → Option Webhook
hook_row w s = find (is_hook w.id w.workspace_id) s.webhooks

hook_row-change_hook :
    (w : Webhook) (f : Webhook → Webhook) (s : Store) {v : Webhook}
    → ((x : Webhook) → is_hook w.id w.workspace_id (f x) ≡ is_hook w.id w.workspace_id x)
    → hook_row w s ≡ some v
    → hook_row w (change_hook w f s) ≡ some (f v)
hook_row-change_hook w f s keep e =
    find-update_where (is_hook w.id w.workspace_id) f s.webhooks keep ∙ ap (Option.map f) e

-- Whether a failure at this attempt trips the breaker of a webhook that had `failures` before.
abbrev pub is_tripped : ℕ → ℕ → Bool → ℕ → Bool
is_tripped max attempt success failures =
    not success && not (ltb (attempt + 1) max) && leb max (failures + 1)

abbrev pub Settled : ℕ → Opts → Env → Webhook → Option Webhook → Type 0
Settled max o env v row =
    let success = is_success (status_of env.fetched) in
    (v' : Webhook) × (row ≡ some v')
    × (v'.consecutive_failures ≡ (if success then 0 else v.consecutive_failures + 1))
    × (v'.enabled ≡ (v.enabled && not (is_tripped max o.attempt success v.consecutive_failures)))

trip_breaker-row :
    (max now : ℕ) (w : Webhook) (s : Store) {v : Webhook}
    → hook_row w s ≡ some v
    → hook_row w (trip_breaker max now w s)
      ≡ some (if leb max v.consecutive_failures then disable now v else v)
unfolding trip_breaker
trip_breaker-row max now w s {v} e = elim (Bool-cases (leb max v.consecutive_failures)) [
  | inl over ↦ rw (e, over) (hook_row-change_hook w (disable now) s (λ x. refl) e)
  | inr under ↦ rw (e, under) e
]

settle-Settled :
    (max id : ℕ) (w v : Webhook) (o : Opts) (env : Env) (s : Store)
    → hook_row w s ≡ some v
    → Settled max o env v (hook_row w (settle max id w o env s))
unfolding settle
settle-Settled max id w v o env s e = elim (Bool-cases (is_success (status_of env.fetched))) [
  | inl ok ↦
      rw ok (
        reset_failures v,
        hook_row-change_hook w reset_failures s (λ x. refl) e,
        refl,
        ground arith,
      )
  | inr bad ↦
      let counted = hook_row-change_hook w count_failure s (λ x. refl) e in
      elim (Bool-cases (ltb (o.attempt + 1) max)) [
        | inl room ↦ rw (bad, room) (count_failure v, counted, refl, ground arith)
        | inr last ↦ elim (Bool-cases (leb max (v.consecutive_failures + 1))) [
          | inl over ↦
              let row = trip_breaker-row max env.now w (change_hook w count_failure s) counted in
              rw (bad, last, over)
                (disable env.now (count_failure v), rw over at row, refl, ground arith)
          | inr under ↦
              let row = trip_breaker-row max env.now w (change_hook w count_failure s) counted in
              rw (bad, last, under) (count_failure v, rw under at row, refl, ground arith)
        ]
      ]
]

settle_if-Settled :
    (b : Bool) (max id : ℕ) (w v : Webhook) (o : Opts) (env : Env) (s : Store)
    → b ≡ true
    → hook_row w s ≡ some v
    → Settled max o env v (hook_row w (settle_if b max id w o env s))
unfolding settle_if
settle_if-Settled true max id w v o env s h e = settle-Settled max id w v o env s e
settle_if-Settled false max id w v o env s h e = absurd (cc h)

-- A delivery that may retry settles its webhook's row: a success resets the count of failures, a
-- failure adds one, and the webhook is disabled exactly when the failure was at the last attempt and
-- the count has reached `max`; in every other case it stays enabled or disabled as it was.
pub deliver_webhook-Settled :
    (max : ℕ) (w v : Webhook) (event payload : String) (o : Opts) (env : Env) (s : Store)
    → o.allow_retry ≡ true
    → hook_row w s ≡ some v
    → Settled max o env v (hook_row w (deliver_webhook max w event payload o env s).0)
unfolding deliver_webhook
deliver_webhook-Settled max w v event payload o env s allowed e =
    let body : Body = record { event = event; timestamp = env.now; payload = payload } in
    let status = status_of env.fetched in
    let logged = insert_delivery (new_delivery s.next_id w event body o env) s in
    let fired = change_hook w (note_fired env.now status) logged in
    settle_if-Settled o.allow_retry max s.next_id w (note_fired env.now status v) o env fired
      allowed (hook_row-change_hook w (note_fired env.now status) logged (λ x. refl) e)

-- Any retry is set for `by` at the latest.
abbrev pub RetriesBy : ℕ → Store → Type 0
RetriesBy by s = All (λ d. (at : ℕ) → d.next_retry_at ≡ some at → at ≤ by) s.deliveries

soon :
    (attempt random : ℕ)
    → attempt + 1 < 5
    → random < 2 ^ 53
    → next_retry_delay attempt random ≤ 8640
soon zero random h r = omega (arith, next_retry_delay_bounds 0 random r)
soon (suc zero) random h r = omega (arith, next_retry_delay_bounds 1 random r)
soon (suc (suc zero)) random h r = omega (arith, next_retry_delay_bounds 2 random r)
soon (suc (suc (suc zero))) random h r = omega (arith, next_retry_delay_bounds 3 random r)
soon (suc (suc (suc (suc n)))) random h r = absurd (omega arith)

settle-RetriesBy :
    (by id : ℕ) (w : Webhook) (o : Opts) (env : Env) (s : Store)
    → env.now + 8640 ≤ by
    → env.random < 2 ^ 53
    → RetriesBy by s
    → RetriesBy by (settle 5 id w o env s)
unfolding settle
settle-RetriesBy by id w o env s near r h = elim (Bool-cases (is_success (status_of env.fetched))) [
  | inl ok ↦ rw ok h
  | inr bad ↦ elim (Bool-cases (ltb (o.attempt + 1) 5)) [
    | inl room ↦
        let bound = soon o.attempt env.random (ground arith) r in
        rw (bad, room)
          (All-update_where (λ d. (at : ℕ) → d.next_retry_at ≡ some at → at ≤ by) (λ d. d.id == id)
            (λ d. record d {
              next_retry_at = some (env.now + next_retry_delay o.attempt env.random);
            })
            s.deliveries (λ d e q at c. ground arith) h)
    | inr last ↦
        rw (bad, last, trip_breaker-deliveries 5 env.now w (change_hook w count_failure s)) h
  ]
]

settle_if-RetriesBy :
    (b : Bool) (by id : ℕ) (w : Webhook) (o : Opts) (env : Env) (s : Store)
    → env.now + 8640 ≤ by
    → env.random < 2 ^ 53
    → RetriesBy by s
    → RetriesBy by (settle_if b 5 id w o env s)
unfolding settle_if
settle_if-RetriesBy true by id w o env s near r h = settle-RetriesBy by id w o env s near r h
settle_if-RetriesBy false by id w o env s near r h = h

-- With the default of five attempts no retry is ever set more than 8640 seconds ahead, two hours and a
-- fifth: the last delay of the schedule, eight hours, is never used.
pub deliver_webhook-RetriesBy :
    (by : ℕ) (w : Webhook) (event payload : String) (o : Opts) (env : Env) (s : Store)
    → env.now + 8640 ≤ by
    → env.random < 2 ^ 53
    → RetriesBy by s
    → RetriesBy by (deliver_webhook 5 w event payload o env s).0
unfolding deliver_webhook
deliver_webhook-RetriesBy by w event payload o env s near r h =
    All-keep_first (λ d. (at : ℕ) → d.next_retry_at ≡ some at → at ≤ by) 200 _ _
      (settle_if-RetriesBy o.allow_retry by s.next_id w o env _ near r ((λ at e. absurd (cc e)), h))
