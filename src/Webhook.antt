-- ===== src/Webhook.antt =====
-- lib/webhooks.ts: the webhooks, their deliveries, and the delay before a retry. A JSON column is the
-- value that it encodes. The table of deliveries stands newest first, as `created_at DESC` reads it.
pub mod Deliver
pub mod Retry
pub mod Events
pub mod Bounds
pub mod Budget
pub mod Breaker
mod Tests
use conductor_dashboard.Common.{
  ℕ, zero, suc, ◌+◌, ◌*◌, ◌/◌, ◌^◌, min, String, Bool, Option, List, [], ◌∷◌,
}

-- `events` is null where the column does not parse as a list of texts.
pub record Webhook : Type 0 where
  pub id : ℕ
  pub name : String
  pub url : String
  pub secret : Option String
  pub events : Option (List String)
  pub enabled : Bool
  pub workspace_id : ℕ
  pub consecutive_failures : ℕ
  pub last_fired_at : Option ℕ
  pub last_status : Option ℕ  -- null for the code's -1, no answer
  pub updated_at : ℕ

-- The JSON body that is sent and stored; `payload` is its `data`.
pub record Body : Type 0 where
  pub event : String
  pub timestamp : ℕ
  pub payload : String

pub record Delivery : Type 0 where
  pub id : ℕ
  pub webhook_id : ℕ
  pub event_type : String
  pub body : Body
  pub status_code : Option ℕ
  pub response_body : Option String
  pub error : Option String
  pub duration_ms : ℕ
  pub attempt : ℕ
  pub is_retry : Bool
  pub parent : Option ℕ
  pub workspace_id : ℕ
  pub next_retry_at : Option ℕ

pub record Store : Type 0 where
  pub webhooks : List Webhook
  pub deliveries : List Delivery
  pub next_id : ℕ

-- BACKOFF_SECONDS[i], for i up to 4
abbrev pub backoff_seconds : ℕ → ℕ
backoff_seconds zero = 30
backoff_seconds (suc zero) = 300
backoff_seconds (suc (suc zero)) = 1800
backoff_seconds (suc (suc (suc zero))) = 7200
backoff_seconds (suc (suc (suc (suc n)))) = 28800

-- `Math.random()` is `random` / 2 ^ 53, and base + jitter is base * (8 + 4 * random / 2 ^ 53) / 10,
-- rounded half up. In exact arithmetic: floating point may be off at a half.
unfoldable pub next_retry_delay : ℕ → ℕ → ℕ
next_retry_delay attempt random =
    let base = backoff_seconds (min attempt 4) in
    (2 * base * (8 * 2 ^ 53 + 4 * random) + 10 * 2 ^ 53) / (20 * 2 ^ 53)
