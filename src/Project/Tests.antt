-- ===== src/Project/Tests.antt =====
-- A workspace with two projects and two tasks.
use conductor_dashboard.Common.{
  ℕ, ◌≡◌, ◌≢◌, ◌⊎◌, refl, inl, inr, sym, ap, ◌∙◌, arith, true, false, none, some, List, [], ◌∷◌,
  insert_row, ◌==◌, Bool-cases, ==_iff,
}
use conductor_dashboard.Task.{TaskStatus, inbox, in_progress, review, done}
use conductor_dashboard.Review.{approved, has_aegis_approval}
use conductor_dashboard.Project.{Project, active, WorkTask, medium, high, Db, Caller}
use conductor_dashboard.Project.Create.{CreateBody}
use conductor_dashboard.Project.Edit.{put_task}
use conductor_dashboard.Project.Changes.{UpdateBody}
use conductor_dashboard.Project.History.{Request, post, put, play}
use conductor_dashboard.Project.Numbers.{play-apart}
use conductor_dashboard.Project.Numbers.Requests.{IsNumbered}
use conductor_dashboard.Project.Gate.{put_task-earned}
use conductor_dashboard.Project.Refusal.{put_task-refused}

abbrev general : Project
general = record {
  workspace_id = 1;
  name = "General";
  slug = "general";
  description = none;
  ticket_prefix = "TASK";
  ticket_counter = 1;
  status = active;
  updated_at = 0;
}

abbrev website : Project
website = record {
  workspace_id = 1;
  name = "Website";
  slug = "website";
  description = none;
  ticket_prefix = "WEB";
  ticket_counter = 0;
  status = active;
  updated_at = 0;
}

abbrev first_task : WorkTask
first_task = record {
  workspace_id = 1;
  title = "Write";
  description = none;
  status = review;
  priority = medium;
  project_id = some 1;
  project_ticket_no = some 1;
  assigned_to = some "ann";
  created_by = "bob";
  due_date = none;
  outcome = none;
  completed_at = none;
  updated_at = 0;
}

abbrev small_db : Db
small_db = record {
  tasks = insert_row (λ n. none) 1 first_task;
  next_task = 2;
  projects = insert_row (insert_row (λ n. none) 2 website) 1 general;
  next_project = 3;
  reviews =
      record {
        task_id = 1;
        reviewer = "aegis";
        status = approved;
        notes = "fine";
        workspace_id = 1;
        created_at = 5;
      }
      ∷ [];
  subscriptions = [];
  notices = [];
  activities = [];
}

abbrev bob : Caller
bob = record {
  workspace_id = 1;
  username = "bob";
  actor = "bob";
  users = [];
  agents = [];
  lower = (λ s. s);
}

abbrev new_body : CreateBody
new_body = record {
  title = "Read";
  description = none;
  status = inbox;
  priority = high;
  project_id = none;
  assigned_to = none;
  due_date = none;
  outcome = none;
  completed_at = none;
}

abbrev empty_body : UpdateBody
empty_body = record {
  title = none;
  description = none;
  status = none;
  priority = none;
  project_id = none;
  assigned_to = none;
  due_date = none;
  outcome = none;
  completed_at = none;
  sets_others = false;
}

-- A task is created in the default project, both go to the website.
abbrev requests : List (ℕ × Request)
requests =
    (10, post bob new_body)
    ∷ (11, put bob 1 (record empty_body { project_id = some 2 }))
    ∷ (12, put bob 2 (record empty_body { project_id = some 2 }))
    ∷ []

only_row : (n : ℕ) (t : WorkTask) → small_db.tasks n ≡ some t → (n ≡ 1) × (first_task ≡ t)
only_row n t h = elim (Bool-cases (n == 1)) [
  | inl e ↦ ((==_iff n 1).0 e, ground (arith, (rw e at h)))
  | inr e ↦ absurd (let q = rw e at h in cc q)
]

small_db-IsNumbered : IsNumbered small_db
small_db-IsNumbered = (
  (
    λ n p k t h hp hk.
        let (here, is) = only_row n t h in
        let one : some 1 ≡ some p = ap (λ x. x.project_id) is ∙ hp in
        let number : some 1 ≡ some k = ap (λ x. x.project_ticket_no) is ∙ hk in
        let p1 : 1 ≡ p = ground (arith, one) in
        let k1 : 1 ≡ k = ground (arith, number) in
        (general, ap small_db.projects (sym p1), omega (arith, k1)),
    λ n m p k t u h h' hp hp' hk hk'. (only_row n t h).0 ∙ sym (only_row m u h').0,
  ),
  λ n h.
      let one : (n == 1) ≡ false = ground (arith, h) in
      let two : (n == 2) ≡ false = ground (arith, h) in rw (one, two) refl,
)

-- The two tasks as they stand after the requests.
abbrev moved_first : WorkTask
moved_first = record first_task { project_id = some 2; project_ticket_no = some 1; updated_at = 11 }

abbrev moved_second : WorkTask
moved_second = record {
  workspace_id = 1;
  title = "Read";
  description = none;
  status = inbox;
  priority = high;
  project_id = some 2;
  project_ticket_no = some 2;
  assigned_to = none;
  created_by = "bob";
  due_date = none;
  outcome = none;
  completed_at = none;
  updated_at = 12;
}

play-apart_example : moved_second.project_ticket_no ≢ some 1
unfolding play conductor_dashboard.Task.has_assignee
play-apart_example =
    play-apart requests small_db 1 2 2 1 moved_first moved_second (refl, (refl, (refl, tt)))
      small_db-IsNumbered refl refl (λ h. omega (arith, h)) refl refl refl

put_task-earned_example : (review ≡ done) ⊎ (has_aegis_approval 1 1 small_db.reviews ≡ true)
unfolding put_task
put_task-earned_example =
    put_task-earned bob 1 (record empty_body { status = some done }) 20 small_db 1 first_task
      (record first_task { status = done; completed_at = some 20; updated_at = 20 }) refl refl refl

put_task-refused_example :
    (put_task bob 1 (record empty_body { project_id = some 7 }) 20 small_db).0 ≡ small_db
unfolding put_task
put_task-refused_example =
    put_task-refused bob 1 (record empty_body { project_id = some 7 }) 20 small_db (λ h. cc h)
