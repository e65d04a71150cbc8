-- ===== src/Review.antt =====
-- The quality gate: POST of app/api/quality-review/route.ts, and PUT and hasAegisApproval of
-- app/api/tasks/route.ts. Of a task, the columns that they read or set.
pub mod Ops
pub mod Gate
pub mod Revoke
mod Tests
use conductor_dashboard.Common.{
  ℕ, String, Bool, true, false, ◌&&◌, Option, none, some, List, find, ◌==◌, str_eq, Rows,
}
use conductor_dashboard.Task.{TaskStatus}

pub record GateTask : Type 0 where
  pub workspace_id : ℕ
  pub title : String
  pub status : TaskStatus
  pub updated_at : ℕ
  pub completed_at : Option ℕ

pub data ReviewStatus : Type 0 where
  approved rejected : ReviewStatus

pub record QualityReview : Type 0 where
  pub task_id : ℕ
  pub reviewer : String
  pub status : ReviewStatus
  pub notes : String
  pub workspace_id : ℕ
  pub created_at : ℕ

-- An activity of the log, and an event of the bus.
pub data Activity : Type 0 where
  reviewed : ℕ → String → ReviewStatus → Activity
  moved : ℕ → String → TaskStatus → TaskStatus → Activity

pub record StatusChanged : Type 0 where
  pub id : ℕ
  pub status : TaskStatus
  pub updated_at : ℕ

-- Reviews stand as `ORDER BY created_at DESC` reads them: the later second first, and of one second the
-- earlier insert first. Activities and events stand oldest first.
pub record Db : Type 0 where
  pub tasks : Rows GateTask
  pub reviews : List QualityReview
  pub activities : List Activity
  pub events : List StatusChanged

abbrev pub is_aegis_review : ℕ → ℕ → QualityReview → Bool
is_aegis_review id ws r = r.task_id == id && (str_eq r.reviewer "aegis" && r.workspace_id == ws)

abbrev pub is_approved : ReviewStatus → Bool
is_approved approved = true
is_approved rejected = false

abbrev pub review_approves : Option QualityReview → Bool
review_approves none = false
review_approves (some r) = is_approved r.status

-- The first review of Aegis that the query returns decides.
unfoldable pub has_aegis_approval : ℕ → ℕ → List QualityReview → Bool
has_aegis_approval id ws reviews = review_approves (find (is_aegis_review id ws) reviews)
