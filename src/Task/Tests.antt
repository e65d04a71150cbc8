-- ===== src/Task/Tests.antt =====
-- The theorems on statuses at concrete inputs.
use conductor_dashboard.Common.{◌≡◌, some, refl}
use conductor_dashboard.Task.{inbox, has_assignee, normalize_task_create_status}

-- White space is no assignee.
blank : normalize_task_create_status (some inbox) (some "  ") ≡ inbox
unfolding normalize_task_create_status has_assignee
blank = refl
