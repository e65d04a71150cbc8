-- ===== src/Project/Numbers/Tables.antt =====
-- What subscriptions, notifications and activities leave: the tables of tasks and projects.
use conductor_dashboard.Common.{
  ℕ, ◌≡◌, refl, ◌∙◌, inl, inr, String, not, ◌&&◌, Option, none, some, List, [], ◌∷◌, any, is_some,
  str_eq, select, text_truthy, get_or_else, Bool-cases,
}
use conductor_dashboard.Task.{TaskStatus}
use conductor_dashboard.Project.{WorkTask, Change, task_created, Db, Caller}
use conductor_dashboard.Project.Allocate.{
  in_workspace, is_subscribed, ensure_task_subscription, tell_mentioned, tell_all, log_activity,
}
use conductor_dashboard.Project.Create.{tell_assigned, announce_created}
use conductor_dashboard.Project.Changes.{
  UpdateBody, changes_status, changes_of, tell_status, tell_assignee, newly, log_changes,
  announce_updated, same_name,
}

abbrev pub Same : Db → Db → Type 0
Same db db' =
    (db'.tasks ≡ db.tasks)
    × (db'.projects ≡ db.projects)
    × (db'.next_project ≡ db.next_project)
    × (db'.reviews ≡ db.reviews)

Same-refl : (db : Db) → Same db db
Same-refl db = (refl, refl, refl, refl)

Same-trans : (a b c : Db) → Same a b → Same b c → Same a c
Same-trans a b c (t, p, n, r) (t', p', n', r') = (t' ∙ t, p' ∙ p, n' ∙ n, r' ∙ r)

subscribe-Same :
    (ws id : ℕ) (name : String) (db : Db) → Same db (ensure_task_subscription ws id name db)
unfolding ensure_task_subscription
subscribe-Same ws id name db =
    elim (Bool-cases (
      text_truthy name
      && is_some (select db.tasks id (in_workspace ws))
      && not (any (is_subscribed id name) db.subscriptions))) [
        | inl e ↦ rw e (refl, refl, refl, refl)
        | inr e ↦ rw e (refl, refl, refl, refl)
      ]

tell_mentioned-Same :
    (ws id : ℕ) (self r : String) (db : Db) → Same db (tell_mentioned ws id self r db)
tell_mentioned-Same ws id self r db = elim (Bool-cases (str_eq r self)) [
  | inl e ↦ rw e (subscribe-Same ws id r db)
  | inr e ↦ rw e (subscribe-Same ws id r db)
]

tell_all-Same :
    (ws id : ℕ) (self : String) (rs : List String) (db : Db) → Same db (tell_all ws id self rs db)
unfolding tell_all
tell_all-Same ws id self [] db = Same-refl db
tell_all-Same ws id self (r ∷ rs) db =
    Same-trans db (tell_mentioned ws id self r db)
      (tell_all ws id self rs (tell_mentioned ws id self r db))
      (tell_mentioned-Same ws id self r db)
      (tell_all-Same ws id self rs (tell_mentioned ws id self r db))

tell_assigned-Same : (ws id : ℕ) (a : Option String) (db : Db) → Same db (tell_assigned ws id a db)
tell_assigned-Same ws id none db = Same-refl db
tell_assigned-Same ws id (some a) db = elim (Bool-cases (text_truthy a)) [
  | inl e ↦ rw e (subscribe-Same ws id a db)
  | inr e ↦ rw e (Same-refl db)
]

pub announce_created-Same :
    (c : Caller) (id : ℕ) (a : Option String) (rs : List String) (db : Db)
    → Same db (announce_created c id a rs db)
unfolding announce_created
announce_created-Same c id a rs db =
    let logged = log_activity (task_created id c.actor) db in
    let own = ensure_task_subscription c.workspace_id id c.actor logged in
    let told = tell_all c.workspace_id id c.actor rs own in
    Same-trans db own (tell_assigned c.workspace_id id a told)
      (subscribe-Same c.workspace_id id c.actor logged)
      (Same-trans own told (tell_assigned c.workspace_id id a told)
        (tell_all-Same c.workspace_id id c.actor rs own)
        (tell_assigned-Same c.workspace_id id a told))

tell_status-Same :
    (id : ℕ) (t : WorkTask) (cs : List Change) (db : Db) → Same db (tell_status id t cs db)
tell_status-Same id t [] db = Same-refl db
tell_status-Same id t (c ∷ cs) db = elim (Bool-cases (text_truthy (get_or_else "" t.assigned_to))) [
  | inl e ↦ rw e (refl, refl, refl, refl)
  | inr e ↦ rw e (Same-refl db)
]

tell_assignee-Same :
    (ws id : ℕ) (t : WorkTask) (a : Option String) (db : Db) → Same db (tell_assignee ws id t a db)
tell_assignee-Same ws id t none db = Same-refl db
tell_assignee-Same ws id t (some a) db =
    elim (Bool-cases (not (same_name t.assigned_to a) && text_truthy a)) [
      | inl e ↦ rw e (subscribe-Same ws id a db)
      | inr e ↦ rw e (Same-refl db)
    ]

log_changes-Same :
    (c : Caller) (id : ℕ) (cs : List Change) (db : Db) → Same db (log_changes c id cs db)
log_changes-Same c id [] db = Same-refl db
log_changes-Same c id (x ∷ xs) db = (refl, refl, refl, refl)

pub announce_updated-Same :
    (c : Caller) (id : ℕ) (t : WorkTask) (status : Option TaskStatus) (body : UpdateBody)
    (before rs : List String) (db : Db)
    → Same db (announce_updated c id t status body before rs db)
unfolding announce_updated
announce_updated-Same c id t status body before rs db =
    let one = tell_status id t (changes_status t status) db in
    let two = tell_assignee c.workspace_id id t body.assigned_to one in
    let three = tell_all c.workspace_id id c.username (newly before rs) two in
    let four = log_changes c id (changes_of t status body) three in
    Same-trans db one four (tell_status-Same id t (changes_status t status) db) (
      Same-trans one two four (tell_assignee-Same c.workspace_id id t body.assigned_to one) (
        Same-trans two three four (tell_all-Same c.workspace_id id c.username (newly before rs) two)
          (log_changes-Same c id (changes_of t status body) three)))
