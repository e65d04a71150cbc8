-- ===== src/Project/Allocate.antt =====
-- The project of a task, and the next of its ticket numbers; and what creating and updating a task
-- tells others.
use conductor_dashboard.Common.{
  first_id, row_has, ℕ, suc, String, Bool, true, false, not, ◌&&◌, Option, none, some, List, [],
  ◌∷◌, ◌++◌, any, is_some, ◌==◌, str_eq, if◌then◌else◌, select, update, text_truthy,
}
use conductor_dashboard.Project.{
  ProjectStatus, active, archived, Project, WorkTask, NoticeType, mention, TaskActivity,
  Subscription, Db,
}

abbrev pub is_active : ProjectStatus → Bool
is_active active = true
is_active archived = false

abbrev pub in_workspace : ℕ → WorkTask → Bool
in_workspace ws t = t.workspace_id == ws

abbrev pub project_in : ℕ → Project → Bool
project_in ws p = p.workspace_id == ws

abbrev pub is_open : ℕ → Project → Bool
is_open ws p = p.workspace_id == ws && is_active p.status

abbrev pub is_general : Project → Bool
is_general p = str_eq p.slug "general"

-- Whether there is a row that passes the test.
-- ORDER BY CASE WHEN slug = 'general' THEN 0 ELSE 1 END, id ASC LIMIT 1
abbrev pub first_of : Option ℕ → Option ℕ → Option ℕ
first_of none b = b
first_of (some a) b = some a

unfoldable pub fallback_project : ℕ → Db → Option ℕ
fallback_project ws db =
    first_of
      (first_id (λ i. row_has (λ p. is_open ws p && is_general p) (db.projects i)) db.next_project)
      (first_id (λ i. row_has (is_open ws) (db.projects i)) db.next_project)

-- none where it throws
unfoldable pub resolve_project_id : ℕ → Option ℕ → Db → Option ℕ
unfolding fallback_project
resolve_project_id ws none db = fallback_project ws db
resolve_project_id ws (some id) db =
    if is_some (select db.projects id (is_open ws)) then some id else fallback_project ws db

abbrev pub count_up : ℕ → Project → Project
count_up now p = record p { ticket_counter = suc p.ticket_counter; updated_at = now }

abbrev pub number_of : Option Project → Option ℕ
number_of none = none
number_of (some p) = if p.ticket_counter == 0 then none else some p.ticket_counter

abbrev pub counted : ℕ → ℕ → ℕ → Db → Db
counted ws id now db = record db { projects = update db.projects id (project_in ws) (count_up now) }

-- UPDATE projects, and the SELECT after it; none where the route fails.
unfoldable pub allocate : ℕ → ℕ → ℕ → Db → Db × Option ℕ
allocate ws id now db =
    (counted ws id now db, number_of (select (counted ws id now db).projects id (project_in ws)))

abbrev pub is_subscribed : ℕ → String → Subscription → Bool
is_subscribed id name s = s.task_id == id && str_eq s.agent_name name

-- INSERT OR IGNORE, for a task of the workspace.
unfoldable pub ensure_task_subscription : ℕ → ℕ → String → Db → Db
ensure_task_subscription ws id name db =
    if text_truthy name
      && is_some (select db.tasks id (in_workspace ws))
      && not (any (is_subscribed id name) db.subscriptions)
    then record db {
      subscriptions = db.subscriptions ++ record { task_id = id; agent_name = name } ∷ [];
    }
    else db

abbrev pub create_notification : String → NoticeType → ℕ → Db → Db
create_notification recipient kind id db = record db {
  notices = db.notices ++ record { recipient = recipient; kind = kind; task_id = id } ∷ [];
}

abbrev pub log_activity : TaskActivity → Db → Db
log_activity a db = record db { activities = db.activities ++ a ∷ [] }

-- One recipient of a mention: `self` is not told.
abbrev pub tell_mentioned : ℕ → ℕ → String → String → Db → Db
tell_mentioned ws id self recipient db =
    let subscribed = ensure_task_subscription ws id recipient db in
    if str_eq recipient self
    then subscribed
    else create_notification recipient mention id subscribed

unfoldable pub tell_all : ℕ → ℕ → String → List String → Db → Db
unfolding ensure_task_subscription
tell_all ws id self [] db = db
tell_all ws id self (r ∷ rs) db = tell_all ws id self rs (tell_mentioned ws id self r db)
