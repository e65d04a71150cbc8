-- ===== src/Project.antt =====
-- POST of app/api/tasks/route.ts, PUT and DELETE of app/api/tasks/[id]/route.ts, createTask of
-- app/api/integrations/nimbus/route.ts and the routes of app/api/projects: tasks with the ticket numbers of
-- their projects. A task's hours, texts on its resolution, feedback, tags and metadata are left out, which the
-- routes only copy, and so are the texts of activities and notifications.
pub mod Allocate
pub mod Create
pub mod Changes
pub mod Edit
pub mod Slug
pub mod Manage
pub mod History
pub mod Numbers
pub mod Gate
pub mod Refusal
mod Tests
use conductor_dashboard.Common.{ℕ, String, Bool, true, false, Option, List, Rows}
use conductor_dashboard.Task.{TaskStatus}
use conductor_dashboard.Review.{QualityReview}
use conductor_dashboard.Mentions.Resolve.{UserRow, AgentRow}

pub data ProjectStatus : Type 0 where
  active archived : ProjectStatus

pub data TaskPriority : Type 0 where
  critical high medium low : TaskPriority

pub data TaskOutcome : Type 0 where
  success failed partial abandoned : TaskOutcome

pub record Project : Type 0 where
  pub workspace_id : ℕ
  pub name : String
  pub slug : String
  pub description : Option String
  pub ticket_prefix : String
  pub ticket_counter : ℕ
  pub status : ProjectStatus
  pub updated_at : ℕ

pub record WorkTask : Type 0 where
  pub workspace_id : ℕ
  pub title : String
  pub description : Option String
  pub status : TaskStatus
  pub priority : TaskPriority
  pub project_id : Option ℕ
  pub project_ticket_no : Option ℕ
  pub assigned_to : Option String
  pub created_by : String
  pub due_date : Option ℕ
  pub outcome : Option TaskOutcome
  pub completed_at : Option ℕ
  pub updated_at : ℕ

pub record Subscription : Type 0 where
  pub task_id : ℕ
  pub agent_name : String

pub data NoticeType : Type 0 where
  status_change assignment mention : NoticeType

pub record Notice : Type 0 where
  pub recipient : String
  pub kind : NoticeType
  pub task_id : ℕ

-- The entries of `changes`.
pub data Change : Type 0 where
  status_moved : TaskStatus → TaskStatus → Change
  reassigned title_updated priority_set project_moved outcome_set : Change

pub data TaskActivity : Type 0 where
  task_created : ℕ → String → TaskActivity
  task_updated : ℕ → String → List Change → TaskActivity
  task_deleted : ℕ → String → TaskActivity

-- Reviews stand newest first; subscriptions, notices and activities oldest first.
pub record Db : Type 0 where
  pub tasks : Rows WorkTask
  pub next_task : ℕ
  pub projects : Rows Project
  pub next_project : ℕ
  pub reviews : List QualityReview
  pub subscriptions : List Subscription
  pub notices : List Notice
  pub activities : List TaskActivity

-- Who calls: the workspace with its users and agents, the user's name, `display_name || username ||
-- 'system'`, and toLowerCase.
pub record Caller : Type 0 where
  pub workspace_id : ℕ
  pub username : String
  pub actor : String
  pub users : List UserRow
  pub agents : List AgentRow
  pub lower : String → String
