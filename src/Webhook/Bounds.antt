-- ===== src/Webhook/Bounds.antt =====
-- How far ahead retries are scheduled, how often, and how many deliveries are kept.
use conductor_dashboard.Common.{
  ℕ, zero, suc, ◌+◌, ◌*◌, ◌/◌, ◌^◌, ◌≤◌, ◌<◌, min, ◌≡◌, String, Bool, inl, inr, some, List, [], ◌∷◌,
  arith, length, filter, All, Bool-cases,
}
use conductor_dashboard.Webhook.{Webhook, Delivery, Store, backoff_seconds, next_retry_delay}
use conductor_dashboard.Webhook.Deliver.{
  Opts, Env, is_of_hook, keep_first, trip_breaker, deliver_webhook,
}

-- The rounding, for each base.
jitter_bounds :
    (i random : ℕ)
    → random < 2 ^ 53
    → let base = backoff_seconds i in
      let delay = (2 * base * (8 * 2 ^ 53 + 4 * random) + 10 * 2 ^ 53) / (20 * 2 ^ 53) in
      (4 * base ≤ 5 * delay) × (5 * delay ≤ 6 * base)
jitter_bounds zero random h = omega arith
jitter_bounds (suc zero) random h = omega arith
jitter_bounds (suc (suc zero)) random h = omega arith
jitter_bounds (suc (suc (suc zero))) random h = omega arith
jitter_bounds (suc (suc (suc (suc i)))) random h = omega arith

-- The delay is within a fifth of the attempt's base, in whole seconds, however the jitter falls.
pub next_retry_delay_bounds :
    (attempt random : ℕ)
    → random < 2 ^ 53
    → let base = backoff_seconds (min attempt 4) in
      (4 * base ≤ 5 * next_retry_delay attempt random)
      × (5 * next_retry_delay attempt random ≤ 6 * base)
unfolding next_retry_delay
next_retry_delay_bounds attempt random h = jitter_bounds (min attempt 4) random h

pub length-keep_first :
    (n : ℕ) (p : Delivery → Bool) (ds : List Delivery) → length (filter p (keep_first n p ds)) ≤ n
unfolding keep_first
length-keep_first n p [] = omega arith
length-keep_first zero p (d ∷ ds) = ground (arith, length-keep_first zero p ds)
length-keep_first (suc n) p (d ∷ ds) =
    ground (arith, length-keep_first n p ds, length-keep_first (suc n) p ds)

-- After a delivery at most 200 deliveries of its webhook are left.
pub deliver_webhook-le_200 :
    (max : ℕ) (w : Webhook) (event payload : String) (o : Opts) (env : Env) (s : Store)
    → length (
        filter
          (is_of_hook w.id w.workspace_id)
          (deliver_webhook max w event payload o env s).0.deliveries)
      ≤ 200
unfolding deliver_webhook
deliver_webhook-le_200 max w event payload o env s = length-keep_first 200 _ _

-- A delivery within the retry budget `max`: its attempt is, and it awaits a retry only if one more is.
abbrev pub InBudget : ℕ → Delivery → Type 0
InBudget max d = (d.attempt < max) × ((at : ℕ) → d.next_retry_at ≡ some at → d.attempt + 1 < max)

pub All-keep_first :
    (P : Delivery → Type 0) (n : ℕ) (p : Delivery → Bool) (ds : List Delivery)
    → All P ds
    → All P (keep_first n p ds)
unfolding keep_first
All-keep_first P n p [] h = tt
All-keep_first P zero p (d ∷ ds) (q, h) = elim (Bool-cases (p d)) [
  | inl e ↦ rw e (All-keep_first P zero p ds h)
  | inr e ↦ rw e (q, All-keep_first P zero p ds h)
]
All-keep_first P (suc n) p (d ∷ ds) (q, h) = elim (Bool-cases (p d)) [
  | inl e ↦ rw e (q, All-keep_first P n p ds h)
  | inr e ↦ rw e (q, All-keep_first P (suc n) p ds h)
]

pub trip_breaker-deliveries :
    (max now : ℕ) (w : Webhook) (s : Store) → (trip_breaker max now w s).deliveries ≡ s.deliveries
unfolding trip_breaker
trip_breaker-deliveries max now w s = ground arith
