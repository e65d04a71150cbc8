-- ===== src/Task.antt =====
-- lib/db.ts, the statuses of a task, and lib/task-status.ts, which keeps status and assignee
-- coherent when a task is created or updated.
pub mod Laws
mod Tests
use conductor_dashboard.Common.{
  String, Bool, true, false, ◌&&◌, not, Option, none, some, if◌then◌else◌, get_or_else, text_truthy,
  has_visible,
}

pub data TaskStatus : Type 0 where
  inbox assigned in_progress review quality_review done : TaskStatus

abbrev pub is_inbox : TaskStatus → Bool
is_inbox inbox = true
is_inbox _ = false

abbrev pub is_assigned : TaskStatus → Bool
is_assigned assigned = true
is_assigned _ = false

-- `null` and `undefined` are both `none` here.
unfoldable pub has_assignee : Option String → Bool
has_assignee none = false
has_assignee (some s) = text_truthy s && has_visible s

unfoldable pub normalize_task_create_status : Option TaskStatus → Option String → TaskStatus
normalize_task_create_status requested assigned_to =
    let status = get_or_else inbox requested in
    if is_inbox status && has_assignee assigned_to then assigned else status

adjust_status : TaskStatus → Option String → Option TaskStatus
adjust_status current assigned_to =
    if has_assignee assigned_to && is_inbox current
    then some assigned
    else (if not (has_assignee assigned_to) && is_assigned current then some inbox else none)

-- `provided` is the request's `assigned_to !== undefined`.
unfoldable pub normalize_task_update_status :
    TaskStatus → Option TaskStatus → Option String → Bool → Option TaskStatus
unfolding adjust_status
normalize_task_update_status current (some requested) assigned_to provided = some requested
normalize_task_update_status current none assigned_to false = none
normalize_task_update_status current none assigned_to true = adjust_status current assigned_to
