-- ===== src/Review/Ops.antt =====
-- The two handlers, once the request's body is valid. `ws` is the caller's workspace.
use conductor_dashboard.Common.{
  ℕ, String, Bool, true, false, not, ◌&&◌, Option, none, some, List, [], ◌∷◌, ◌++◌, map, length,
  ltb, ◌==◌, str_eq, select, update, get_or_else, if◌then◌else◌,
}
use conductor_dashboard.Task.{
  TaskStatus, inbox, assigned, in_progress, review, quality_review, done,
}
use conductor_dashboard.Review.{
  GateTask, QualityReview, Activity, reviewed, moved, StatusChanged, Db, is_approved,
  has_aegis_approval,
}

pub data Answer : Type 0 where
  task_not_found : Answer
  created : Answer
  approval_required : Answer
  updated : ℕ → Answer

abbrev pub in_workspace : ℕ → GateTask → Bool
in_workspace ws t = t.workspace_id == ws

abbrev pub is_done : TaskStatus → Bool
is_done done = true
is_done _ = false

abbrev pub status_code : TaskStatus → ℕ
status_code inbox = 0
status_code assigned = 1
status_code in_progress = 2
status_code review = 3
status_code quality_review = 4
status_code done = 5

-- UPDATE tasks SET status = 'done', updated_at = unixepoch()
abbrev pub approve : ℕ → GateTask → GateTask
approve now t = record t { status = done; updated_at = now }

unfoldable pub advance_task : Bool → ℕ → ℕ → ℕ → Db → Db
advance_task false now id ws db = db
advance_task true now id ws db = record db {
  tasks = update db.tasks id (in_workspace ws) (approve now);
  events = db.events ++ record { id = id; status = done; updated_at = now } ∷ [];
}

-- Where the query returns a new row.
unfoldable pub place_review : QualityReview → List QualityReview → List QualityReview
place_review r [] = r ∷ []
place_review r (x ∷ xs) =
    let rest = place_review r xs in if ltb x.created_at r.created_at then r ∷ x ∷ xs else x ∷ rest

-- `created_at` is `unixepoch()`, in whole seconds.
abbrev pub insert_review : ℕ → QualityReview → Db → Db
insert_review now r db = record db {
  reviews = place_review (record r { created_at = now }) db.reviews;
  activities = db.activities ++ reviewed r.task_id r.reviewer r.status ∷ [];
}

unfoldable pub review_found : Option GateTask → ℕ → QualityReview → Db → Db × Answer
unfolding advance_task place_review
review_found none now r db = (db, task_not_found)
review_found (some t) now r db = (
  advance_task (is_approved r.status && str_eq r.reviewer "aegis") now r.task_id r.workspace_id
      (insert_review now r db),
  created,
)

-- POST /api/quality-review; the review has the caller's workspace, and its time is set on insertion.
unfoldable pub post_review : ℕ → QualityReview → Db → Db × Answer
unfolding review_found
post_review now r db =
    review_found (select db.tasks r.task_id (in_workspace r.workspace_id)) now r db

-- One entry of the body of PUT /api/tasks.
pub record Move : Type 0 where
  pub id : ℕ
  pub status : TaskStatus

-- COALESCE(completed_at, ?) where the task is done.
abbrev pub move_to : ℕ → TaskStatus → GateTask → GateTask
move_to now s t = record t {
  status = s;
  updated_at = now;
  completed_at = (if is_done s then some (get_or_else now t.completed_at) else t.completed_at);
}

abbrev pub log_move : String → Move → GateTask → List Activity
log_move actor m old =
    if status_code old.status == status_code m.status
    then []
    else moved m.id actor old.status m.status ∷ []

abbrev pub write_move : ℕ → ℕ → String → Move → GateTask → Db → Db
write_move ws now actor m old db = record db {
  tasks = update db.tasks m.id (in_workspace ws) (move_to now m.status);
  activities = db.activities ++ log_move actor m old;
}

-- One round of the transaction; none where it throws.
unfoldable pub move_found : Option GateTask → ℕ → ℕ → String → Move → Db → Option Db
unfolding has_aegis_approval
move_found none ws now actor m db = some db
move_found (some old) ws now actor m db =
    if is_done m.status && not (has_aegis_approval m.id ws db.reviews)
    then none
    else some (write_move ws now actor m old db)

unfoldable pub move_task : ℕ → ℕ → String → Move → Db → Option Db
unfolding move_found
move_task ws now actor m db = move_found (select db.tasks m.id (in_workspace ws)) ws now actor m db

abbrev pub and_then : Option Db → (Db → Option Db) → Option Db
and_then none rest = none
and_then (some db) rest = rest db

-- The rounds in order, up to the first that throws.
unfoldable pub move_tasks : ℕ → ℕ → String → List Move → Db → Option Db
unfolding move_task
move_tasks ws now actor [] db = some db
move_tasks ws now actor (m ∷ ms) db =
    and_then (move_task ws now actor m db) (λ u. move_tasks ws now actor ms u)

abbrev pub announce : ℕ → Move → StatusChanged
announce now m = record { id = m.id; status = m.status; updated_at = now }

-- A transaction that throws changes nothing.
unfoldable pub commit : ℕ → List Move → Db → Option Db → Db × Answer
commit now ms db none = (db, approval_required)
commit now ms db (some db') =
    (record db' { events = db'.events ++ map (announce now) ms }, updated (length ms))

-- PUT /api/tasks
unfoldable pub put_tasks : ℕ → ℕ → String → List Move → Db → Db × Answer
unfolding move_tasks commit
put_tasks ws now actor ms db = commit now ms db (move_tasks ws now actor ms db)
