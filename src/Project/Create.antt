-- ===== src/Project/Create.antt =====
-- POST /api/tasks, and createTask of the Nimbus integration.
use conductor_dashboard.Common.{
  first_id, row_has, ℕ, suc, String, Bool, true, false, ◌&&◌, Option, none, some, List, [], ◌∷◌,
  insert_row, is_some, get_or_else, ◌==◌, str_eq, if◌then◌else◌, text_truthy,
}
use conductor_dashboard.Task.{TaskStatus, inbox, normalize_task_create_status}
use conductor_dashboard.Mentions.Resolve.{resolve_mention_recipients}
use conductor_dashboard.Review.Ops.{is_done}
use conductor_dashboard.Project.{
  TaskPriority, TaskOutcome, WorkTask, assignment, task_created, Db, Caller,
}
use conductor_dashboard.Project.Allocate.{
  resolve_project_id, allocate, ensure_task_subscription, create_notification, log_activity,
  tell_all,
}

-- The body, once the schema has filled in what is missing.
pub record CreateBody : Type 0 where
  pub title : String
  pub description : Option String
  pub status : TaskStatus
  pub priority : TaskPriority
  pub project_id : Option ℕ
  pub assigned_to : Option String
  pub due_date : Option ℕ
  pub outcome : Option TaskOutcome
  pub completed_at : Option ℕ

pub data Reply : Type 0 where
  title_taken : Reply
  unknown_mentions : List String → Reply
  not_created : Reply  -- an error that ends the transaction
  created : ℕ → Reply

abbrev pub is_nil {ℓ} : {A : Type ℓ} → List A → Bool
is_nil [] = true
is_nil (x ∷ xs) = false

abbrev pub has_title : ℕ → String → WorkTask → Bool
has_title ws title t = str_eq t.title title && t.workspace_id == ws

abbrev pub check_create : Caller → CreateBody → List String → Db → Option Reply
check_create c body unresolved db =
    if is_some
      (first_id (λ i. row_has (has_title c.workspace_id body.title) (db.tasks i)) db.next_task)
    then some title_taken
    else (if is_nil unresolved then none else some (unknown_mentions unresolved))

abbrev pub completion : Option ℕ → TaskStatus → ℕ → Option ℕ
completion (some at) status now = some at
completion none status now = if is_done status then some now else none

abbrev pub new_task : Caller → CreateBody → ℕ → ℕ → ℕ → WorkTask
new_task c body project number now =
    let status = normalize_task_create_status (some body.status) body.assigned_to in
    record {
      workspace_id = c.workspace_id;
      title = body.title;
      description = body.description;
      status = status;
      priority = body.priority;
      project_id = some project;
      project_ticket_no = some number;
      assigned_to = body.assigned_to;
      created_by = c.actor;
      due_date = body.due_date;
      outcome = body.outcome;
      completed_at = completion body.completed_at status now;
      updated_at = now;
    }

abbrev pub insert_task : WorkTask → Db → Db
insert_task t db = record db {
  tasks = insert_row db.tasks db.next_task t;
  next_task = suc db.next_task;
}

abbrev pub tell_assigned : ℕ → ℕ → Option String → Db → Db
tell_assigned ws id none db = db
tell_assigned ws id (some a) db =
    if text_truthy a
    then create_notification a assignment id (ensure_task_subscription ws id a db)
    else db

-- What follows the transaction.
unfoldable pub announce_created : Caller → ℕ → Option String → List String → Db → Db
unfolding tell_all ensure_task_subscription
announce_created c id assigned_to recipients db = tell_assigned c.workspace_id id assigned_to (
    tell_all c.workspace_id id c.actor recipients (
      ensure_task_subscription c.workspace_id id c.actor
        (log_activity (task_created id c.actor) db)))

-- A transaction that throws leaves the state from before it.
abbrev pub create_numbered :
    Caller → CreateBody → List String → ℕ → ℕ → Db → Db × Option ℕ → Db × Reply
create_numbered c body recipients project now before (db, none) = (before, not_created)
create_numbered c body recipients project now before (db, some number) = (
  announce_created c db.next_task body.assigned_to recipients
      (insert_task (new_task c body project number now) db),
  created db.next_task,
)

abbrev pub create_resolved : Caller → CreateBody → List String → ℕ → Option ℕ → Db → Db × Reply
create_resolved c body recipients now none db = (db, not_created)
create_resolved c body recipients now (some project) db =
    create_numbered c body recipients project now db (allocate c.workspace_id project now db)

unfoldable pub create_unless :
    Option Reply → Caller → CreateBody → List String → ℕ → Db → Db × Reply
unfolding announce_created allocate resolve_project_id normalize_task_create_status
create_unless (some why) c body recipients now db = (db, why)
create_unless none c body recipients now db =
    create_resolved c body recipients now (resolve_project_id c.workspace_id body.project_id db) db

-- POST /api/tasks
unfoldable pub post_task : Caller → CreateBody → ℕ → Db → Db × Reply
unfolding create_unless resolve_mention_recipients
post_task c body now db =
    let mentions =
      resolve_mention_recipients c.lower (get_or_else "" body.description) c.users c.agents in
    create_unless (check_create c body mentions.unresolved db) c body mentions.recipients now db

abbrev pub nimbus_task : Caller → String → String → TaskPriority → ℕ → ℕ → ℕ → WorkTask
nimbus_task c title description priority project number now = record {
  workspace_id = c.workspace_id;
  title = title;
  description = some description;
  status = inbox;
  priority = priority;
  project_id = some project;
  project_ticket_no = some number;
  assigned_to = none;
  created_by = c.actor;
  due_date = none;
  outcome = none;
  completed_at = none;
  updated_at = now;
}

-- No transaction here.
abbrev pub nimbus_numbered :
    Caller → String → String → TaskPriority → ℕ → ℕ → Db × Option ℕ → Db × Reply
nimbus_numbered c title description priority project now (db, none) = (db, not_created)
nimbus_numbered c title description priority project now (db, some number) = (
  log_activity (task_created db.next_task c.actor)
      (insert_task (nimbus_task c title description priority project number now) db),
  created db.next_task,
)

abbrev pub nimbus_resolved :
    Caller → String → String → TaskPriority → ℕ → Option ℕ → Db → Db × Reply
nimbus_resolved c title description priority now none db = (db, not_created)
nimbus_resolved c title description priority now (some project) db =
    nimbus_numbered c title description priority project now
      (allocate c.workspace_id project now db)

-- createTask of the Nimbus integration; `priority` is 'medium' where none is given.
unfoldable pub create_task :
    Caller → String → String → TaskPriority → Option ℕ → ℕ → Db → Db × Reply
unfolding allocate resolve_project_id
create_task c title description priority project now db =
    nimbus_resolved c title description priority now (resolve_project_id c.workspace_id project db)
      db
