-- ===== src/Task/Laws.antt =====
-- Coherence of status and assignee.
use conductor_dashboard.Common.{String, ◌≡◌, ◌≢◌, true, false, Option, none, arith, get_or_else}
use conductor_dashboard.Task.{
  TaskStatus, inbox, assigned, has_assignee, normalize_task_update_status,
}

-- An unassigned task is not called assigned, and an assigned one is not left in the inbox.
abbrev pub IsCoherent : TaskStatus → Option String → Type 0
IsCoherent status assigned_to =
    (has_assignee assigned_to ≡ true → status ≢ inbox)
    × (has_assignee assigned_to ≡ false → status ≢ assigned)

-- An update that gives an assignee and asks for no status leaves a task coherent: its new status, or
-- the old one where none is set, agrees with the new assignee.
pub normalize_task_update_status-IsCoherent :
    (current : TaskStatus) (assigned_to : Option String)
    → IsCoherent
        (get_or_else current (normalize_task_update_status current none assigned_to true))
        assigned_to
unfolding normalize_task_update_status
normalize_task_update_status-IsCoherent current assigned_to = grind arith
