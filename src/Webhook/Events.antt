-- ===== src/Webhook/Events.antt =====
-- `initWebhookListener`, `fireWebhooksAsync` and `verifyWebhookSignature`.
use conductor_dashboard.Common.{
  ℕ, String, Bool, true, false, not, length, ◌&&◌, ◌||◌, Option, none, some, List, [], ◌∷◌, any,
  filter, str_eq, ◌==◌, if◌then◌else◌, text_truthy, get_or_else,
}
use Prim.Native.String
use conductor_dashboard.Webhook.{Webhook}

-- The fields of an event's data that the listener reads; `workspace` is null where it is no number.
pub record Payload : Type 0 where
  pub type : Option String
  pub action : Option String
  pub status : Option String
  pub workspace : Option ℕ

-- EVENT_MAP
unfoldable pub event_map : String → Option String
event_map t =
    if str_eq t "activity.created"
    then some "activity"
    else (if str_eq t "notification.created"
        then some "notification"
        else (if str_eq t "agent.status_changed"
            then some "agent.status_change"
            else (if str_eq t "audit.security"
                then some "security"
                else (if str_eq t "task.created"
                    then some "activity.task_created"
                    else (if str_eq t "task.updated"
                        then some "activity.task_updated"
                        else (if str_eq t "task.deleted"
                            then some "activity.task_deleted"
                            else (if str_eq t "task.status_changed"
                                then some "activity.task_status_changed"
                                else none)))))))

-- `${prefix}${name}` where the name is truthy, and the mapping otherwise
abbrev pub specific : String → String → Option String → String
specific mapping prefix none = mapping
specific mapping prefix (some name) = if text_truthy name then String.◌++◌ prefix name else mapping

-- The webhook event of a mapped bus event.
unfoldable pub webhook_event : String → Payload → String
webhook_event mapping p =
    if str_eq mapping "activity"
    then specific mapping "activity." p.type
    else (if str_eq mapping "notification"
        then specific mapping "notification." p.type
        else (if str_eq mapping "security" then specific mapping "security." p.action else mapping))

abbrev pub is_text : String → Option String → Bool
is_text t none = false
is_text t (some s) = str_eq s t

-- What the listener fires, in order: event types with a workspace.
abbrev pub fired_for : String → Option String → Payload → List (String × ℕ)
fired_for type none p = []
fired_for type (some mapping) p =
    let ws = get_or_else 1 p.workspace in
    let first : String × ℕ = (webhook_event mapping p, ws) in
    if str_eq type "agent.status_changed" && is_text "error" p.status
    then first ∷ ("agent.error", ws) ∷ []
    else first ∷ []

unfoldable pub on_server_event : String → Payload → List (String × ℕ)
unfolding event_map webhook_event
on_server_event type p = fired_for type (event_map type) p

-- events.includes('*') || events.includes(eventType)
abbrev pub subscribes : String → Option (List String) → Bool
subscribes type none = false
subscribes type (some events) = any (λ e. str_eq e "*") events || any (λ e. str_eq e type) events

-- The webhooks that an event is delivered to.
unfoldable pub fire_targets : String → ℕ → List Webhook → List Webhook
fire_targets type ws hooks =
    filter (λ w. subscribes type w.events) (filter (λ w. w.enabled && w.workspace_id == ws) hooks)

abbrev bytes_equal : List ℕ → List ℕ → Bool
bytes_equal [] [] = true
bytes_equal [] (y ∷ ys) = false
bytes_equal (x ∷ xs) [] = false
bytes_equal (x ∷ xs) (y ∷ ys) = x == y && bytes_equal xs ys

-- timingSafeEqual throws on buffers of two lengths.
abbrev timing_safe_equal : List ℕ → List ℕ → Option Bool
timing_safe_equal xs ys = if length xs == length ys then some (bytes_equal xs ys) else none

-- `hmac` is createHmac('sha256', secret).update(body).digest('hex'), and `bytes` is Buffer.from.
module _ (hmac : String → String → String) (bytes : String → List ℕ) where
  -- The header that `deliverWebhook` sends.
  unfoldable pub sign : String → String → String
  sign secret body = String.◌++◌ "sha256=" (hmac secret body)

  -- The comparison with a dummy of the same length takes time and gives nothing.
  unfoldable pub compare_signature : List ℕ → List ℕ → Option Bool
  compare_signature sig expected =
      if not (length sig == length expected) then some false else timing_safe_equal sig expected

  -- None where the code throws.
  unfoldable pub verify_webhook_signature : String → String → Option String → Option Bool
  unfolding sign compare_signature
  verify_webhook_signature secret body none = some false
  verify_webhook_signature secret body (some header) =
      if not (text_truthy header) || not (text_truthy secret)
      then some false
      else compare_signature (bytes header) (bytes (sign secret body))
