-- ===== src/Project/Edit.antt =====
-- PUT and DELETE of /api/tasks/[id], with an id that is a number and a body that is valid.
use conductor_dashboard.Common.{
  remove_row, ℕ, String, Bool, true, false, not, ◌&&◌, ◌||◌, Option, none, some, List, filter,
  is_some, get_or_else, ◌==◌, if◌then◌else◌, select, update,
}
use conductor_dashboard.Task.{TaskStatus, normalize_task_update_status}
use conductor_dashboard.Mentions.Resolve.{resolve_mention_recipients}
use conductor_dashboard.Review.{has_aegis_approval}
use conductor_dashboard.Review.Ops.{is_done}
use conductor_dashboard.Project.{WorkTask, Project, task_deleted, Db, Caller}
use conductor_dashboard.Project.Allocate.{in_workspace, is_open, allocate, log_activity}
use conductor_dashboard.Project.Create.{is_nil}
use conductor_dashboard.Project.Changes.{UpdateBody, announce_updated, same_id}

pub data Reply : Type 0 where
  task_not_found : Reply
  unknown_mentions : List String → Reply
  approval_required : Reply
  project_not_found : Reply
  not_allocated : Reply
  no_fields : Reply
  updated : Reply
  deleted : Reply

abbrev pub asks_done : Option TaskStatus → Bool
asks_done none = false
asks_done (some s) = is_done s

abbrev pub keep_or {ℓ} : {A : Type ℓ} → Option A → Option A → Option A
keep_or none old = old
keep_or (some a) old = some a

-- The status that is written, if any.
abbrev pub next_status : WorkTask → UpdateBody → Option TaskStatus
next_status t body =
    normalize_task_update_status t.status body.status body.assigned_to (is_some body.assigned_to)

-- The refusals before the project, in order.
unfoldable pub check_update : ℕ → ℕ → Option TaskStatus → List String → Db → Option Reply
unfolding has_aegis_approval
check_update ws id status unresolved db =
    if not (is_nil unresolved)
    then some (unknown_mentions unresolved)
    else (if asks_done status && not (has_aegis_approval id ws db.reviews)
        then some approval_required
        else none)

-- The project of the body must be active; a task that moves gets a number of its new project.
pub data Placed : Type 0 where
  refused : Reply → Placed
  placed : Option ℕ → Placed

abbrev pub number_or_fail : Db × Option ℕ → Db × Placed
number_or_fail (db, none) = (db, refused not_allocated)
number_or_fail (db, some n) = (db, placed (some n))

abbrev pub place_in : ℕ → ℕ → WorkTask → ℕ → Option Project → Db → Db × Placed
place_in ws now t id none db = (db, refused project_not_found)
place_in ws now t id (some p) db =
    if same_id t.project_id id then (db, placed none) else number_or_fail (allocate ws id now db)

unfoldable pub place : ℕ → ℕ → WorkTask → Option ℕ → Db → Db × Placed
unfolding allocate
place ws now t none db = (db, placed none)
place ws now t (some id) db = place_in ws now t id (select db.projects id (is_open ws)) db

abbrev pub is_unset : Option ℕ → Bool
is_unset none = true
is_unset (some n) = n == 0

abbrev pub completion_of : ℕ → Option TaskStatus → Option ℕ → Option ℕ → Option ℕ
completion_of now status (some at) old = some at
completion_of now status none old = if asks_done status && is_unset old then some now else old

-- UPDATE tasks SET …
abbrev pub write_fields : ℕ → Option TaskStatus → Option ℕ → UpdateBody → WorkTask → WorkTask
write_fields now status number body t = record t {
  title = get_or_else t.title body.title;
  description = keep_or body.description t.description;
  status = get_or_else t.status status;
  priority = get_or_else t.priority body.priority;
  project_id = keep_or body.project_id t.project_id;
  project_ticket_no = keep_or number t.project_ticket_no;
  assigned_to = keep_or body.assigned_to t.assigned_to;
  due_date = keep_or body.due_date t.due_date;
  outcome = keep_or body.outcome t.outcome;
  completed_at = completion_of now status body.completed_at t.completed_at;
  updated_at = now;
}

abbrev pub has_fields : Option TaskStatus → UpdateBody → Bool
has_fields status body =
    is_some body.title
    || is_some body.description
    || is_some status
    || is_some body.priority
    || is_some body.project_id
    || is_some body.assigned_to
    || is_some body.due_date
    || is_some body.outcome
    || is_some body.completed_at
    || body.sets_others

abbrev pub write_task : Caller → ℕ → ℕ → Option TaskStatus → Option ℕ → UpdateBody → Db → Db
write_task c id now status number body db = record db {
  tasks = update db.tasks id (in_workspace c.workspace_id) (write_fields now status number body);
}

abbrev pub finish :
    Caller
    → ℕ
    → ℕ
    → WorkTask
    → Option TaskStatus
    → UpdateBody
    → List String
    → List String
    → Db × Placed
    → Db × Reply
finish c id now t status body before recipients (db, refused why) = (db, why)
finish c id now t status body before recipients (db, placed number) =
    if has_fields status body
    then (
      announce_updated c id t status body before recipients
          (write_task c id now status number body db),
      updated,
    )
    else (db, no_fields)

unfoldable pub update_unless :
    Option Reply
    → Caller
    → ℕ
    → ℕ
    → WorkTask
    → Option TaskStatus
    → UpdateBody
    → List String
    → List String
    → Db
    → Db × Reply
unfolding place announce_updated
update_unless (some why) c id now t status body before recipients db = (db, why)
update_unless none c id now t status body before recipients db =
    finish c id now t status body before recipients (place c.workspace_id now t body.project_id db)

unfoldable pub update_found : Option WorkTask → Caller → ℕ → UpdateBody → ℕ → Db → Db × Reply
unfolding update_unless check_update normalize_task_update_status resolve_mention_recipients
update_found none c id body now db = (db, task_not_found)
update_found (some t) c id body now db =
    let status = next_status t body in
    let mentions =
      resolve_mention_recipients c.lower (get_or_else "" body.description) c.users c.agents in
    let before =
      resolve_mention_recipients c.lower (get_or_else "" t.description) c.users c.agents in
    update_unless (check_update c.workspace_id id status mentions.unresolved db) c id now t status
      body before.recipients mentions.recipients db

-- PUT /api/tasks/[id]
unfoldable pub put_task : Caller → ℕ → UpdateBody → ℕ → Db → Db × Reply
unfolding update_found
put_task c id body now db =
    update_found (select db.tasks id (in_workspace c.workspace_id)) c id body now db

unfoldable pub delete_found : Option WorkTask → Caller → ℕ → Db → Db × Reply
delete_found none c id db = (db, task_not_found)
delete_found (some t) c id db = (
  log_activity (task_deleted id c.username) (record db {
    tasks = remove_row db.tasks id;
    subscriptions = filter (λ s. not (s.task_id == id)) db.subscriptions;
  }),
  deleted,
)

-- DELETE /api/tasks/[id]; the subscriptions go with the task.
unfoldable pub delete_task : Caller → ℕ → Db → Db × Reply
unfolding delete_found
delete_task c id db = delete_found (select db.tasks id (in_workspace c.workspace_id)) c id db
