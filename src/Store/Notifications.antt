-- ===== src/Store/Notifications.antt =====
-- The notifications of the client and the counter of the unread ones. `now` is
-- Math.floor(Date.now() / 1000).
use conductor_dashboard.Common.{
  ℕ, ◌+◌, ◌-◌, String, Bool, true, Option, none, some, List, ◌∷◌, map, length, filter, update_where,
  ◌==◌, if◌then◌else◌,
}

pub record Notification : Type 0 where
  pub id : ℕ
  pub recipient : String
  pub title : String
  pub message : String
  pub read_at : Option ℕ
  pub created_at : ℕ

pub record Inbox : Type 0 where
  pub notifications : List Notification
  pub unread_count : ℕ

-- `!read_at`, which holds of 0 too
abbrev pub falsy : Option ℕ → Bool
falsy none = true
falsy (some t) = t == 0

abbrev pub is_unread : Notification → Bool
is_unread n = falsy n.read_at

unfoldable pub set_notifications : List Notification → Inbox
set_notifications ns = record { notifications = ns; unread_count = length (filter is_unread ns) }

unfoldable pub add_notification : Notification → Inbox → Inbox
add_notification n s = record {
  notifications = n ∷ s.notifications;
  unread_count = s.unread_count + 1;
}

abbrev pub read_now : ℕ → Notification → Notification
read_now now n = record n { read_at = some now }

abbrev pub has_id : ℕ → Notification → Bool
has_id id n = n.id == id

-- Subtraction stops at 0, as Math.max(0, … - 1) does.
unfoldable pub mark_notification_read : ℕ → ℕ → Inbox → Inbox
mark_notification_read now id s = record {
  notifications = update_where (has_id id) (read_now now) s.notifications;
  unread_count = s.unread_count - 1;
}

unfoldable pub mark_all_notifications_read : ℕ → Inbox → Inbox
mark_all_notifications_read now s = record {
  notifications = map (λ n. if is_unread n then read_now now n else n) s.notifications;
  unread_count = 0;
}
