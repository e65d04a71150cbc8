-- ===== src/Project/Changes.antt =====
-- The body of PUT /api/tasks/[id], what it changes of a task, and who is told.
use conductor_dashboard.Common.{
  ℕ, String, Bool, true, false, not, ◌&&◌, Option, none, some, List, [], ◌∷◌, ◌++◌, filter, any,
  get_or_else, ◌==◌, str_eq, if◌then◌else◌, text_truthy,
}
use conductor_dashboard.Task.{TaskStatus}
use conductor_dashboard.Review.Ops.{status_code}
use conductor_dashboard.Project.{
  TaskPriority, critical, high, medium, low, TaskOutcome, success, failed, partial, abandoned,
  WorkTask, Change, status_moved, reassigned, title_updated, priority_set, project_moved,
  outcome_set, assignment, status_change, task_updated, Db, Caller,
}
use conductor_dashboard.Project.Allocate.{
  ensure_task_subscription, create_notification, log_activity, tell_all,
}

-- The body: none where a field is missing. `sets_others` is whether it has a column that is left out.
pub record UpdateBody : Type 0 where
  pub title : Option String
  pub description : Option String
  pub status : Option TaskStatus
  pub priority : Option TaskPriority
  pub project_id : Option ℕ
  pub assigned_to : Option String
  pub due_date : Option ℕ
  pub outcome : Option TaskOutcome
  pub completed_at : Option ℕ
  pub sets_others : Bool

abbrev pub same_id : Option ℕ → ℕ → Bool
same_id none b = false
same_id (some a) b = a == b

abbrev pub priority_code : TaskPriority → ℕ
priority_code critical = 0
priority_code high = 1
priority_code medium = 2
priority_code low = 3

abbrev pub outcome_code : Option TaskOutcome → ℕ
outcome_code none = 0
outcome_code (some success) = 1
outcome_code (some failed) = 2
outcome_code (some partial) = 3
outcome_code (some abandoned) = 4

abbrev pub when : Bool → Change → List Change
when true c = c ∷ []
when false c = []

abbrev pub same_name : Option String → String → Bool
same_name none b = false
same_name (some a) b = str_eq a b

-- Whether the request gives a value that differs.
abbrev pub changes_status : WorkTask → Option TaskStatus → List Change
changes_status t none = []
changes_status t (some s) =
    when (not (status_code s == status_code t.status)) (status_moved t.status s)

abbrev pub moves_to : WorkTask → Option String → Bool
moves_to t none = false
moves_to t (some a) = not (same_name t.assigned_to a)

abbrev pub changes_title : WorkTask → Option String → Bool
changes_title t none = false
changes_title t (some s) = text_truthy s && not (str_eq s t.title)

abbrev pub changes_priority : WorkTask → Option TaskPriority → Bool
changes_priority t none = false
changes_priority t (some p) = not (priority_code p == priority_code t.priority)

abbrev pub changes_project : WorkTask → Option ℕ → Bool
changes_project t none = false
changes_project t (some p) = not (same_id t.project_id p)

abbrev pub changes_outcome : WorkTask → Option TaskOutcome → Bool
changes_outcome t none = false
changes_outcome t (some o) = not (outcome_code (some o) == outcome_code t.outcome)

unfoldable pub changes_of : WorkTask → Option TaskStatus → UpdateBody → List Change
changes_of t status body =
    changes_status t status
    ++ when (moves_to t body.assigned_to) reassigned
    ++ when (changes_title t body.title) title_updated
    ++ when (changes_priority t body.priority) priority_set
    ++ when (changes_project t body.project_id) project_moved
    ++ when (changes_outcome t body.outcome) outcome_set

abbrev pub tell_status : ℕ → WorkTask → List Change → Db → Db
tell_status id t [] db = db
tell_status id t (c ∷ cs) db =
    if text_truthy (get_or_else "" t.assigned_to)
    then create_notification (get_or_else "" t.assigned_to) status_change id db
    else db

abbrev pub tell_assignee : ℕ → ℕ → WorkTask → Option String → Db → Db
tell_assignee ws id t none db = db
tell_assignee ws id t (some a) db =
    if not (same_name t.assigned_to a) && text_truthy a
    then create_notification a assignment id (ensure_task_subscription ws id a db)
    else db

-- Those who are mentioned now and were not before.
abbrev pub newly : List String → List String → List String
newly old rs = filter (λ r. not (any (λ o. str_eq o r) old)) rs

abbrev pub log_changes : Caller → ℕ → List Change → Db → Db
log_changes c id [] db = db
log_changes c id (x ∷ xs) db = log_activity (task_updated id c.username (x ∷ xs)) db

-- What follows the UPDATE; `recipients` is [] where there is no new description.
unfoldable pub announce_updated :
    Caller → ℕ → WorkTask → Option TaskStatus → UpdateBody → List String → List String → Db → Db
unfolding tell_all ensure_task_subscription changes_of
announce_updated c id t status body before recipients db =
    log_changes c id (changes_of t status body) (
      tell_all c.workspace_id id c.username (newly before recipients) (
        tell_assignee c.workspace_id id t body.assigned_to
          (tell_status id t (changes_status t status) db)))
