-- ===== src/Project/Numbers/Projects.antt =====
-- Ticket numbers, where a task is removed and where projects are changed.
use conductor_dashboard.Common.{
  remove_row, ℕ, ◌≡◌, refl, inl, inr, String, Bool, false, Option, none, some, arith, Rows, select,
  insert_row, ◌==◌, Bool-cases,
}
use conductor_dashboard.Project.{Project, WorkTask, Db, Caller}
use conductor_dashboard.Project.Allocate.{in_workspace, project_in, is_general}
use conductor_dashboard.Project.Edit.{delete_found, delete_task}
use conductor_dashboard.Project.Manage.{
  Reply, ProjectBody, PatchBody, insert_project, create_unless, post_project, patch_fields,
  patch_unless, patch_found, patch_project, archive, remove_found, delete_project,
}
use conductor_dashboard.Project.Slug.{Cases}
use conductor_dashboard.Project.Numbers.Slots.{Counts-Fits, Keeps, Keeps-Fits, insert-Counts}
use conductor_dashboard.Project.Numbers.Requests.{IsNumbered, update-IsNumbered}

remove-Keeps : (tasks : Rows WorkTask) (id : ℕ) → Keeps tasks (remove_row tasks id)
remove-Keeps tasks id n t' h = elim (Bool-cases (n == id)) [
  | inl e ↦ absurd (let q = rw e at h in cc q)
  | inr e ↦ (t', rw e at h, refl, refl)
]

delete_found-IsNumbered :
    (o : Option WorkTask) (c : Caller) (id : ℕ) (db : Db)
    → IsNumbered db
    → IsNumbered (delete_found o c id db).0
unfolding delete_found
delete_found-IsNumbered none c id db numbered = numbered
delete_found-IsNumbered (some t) c id db (fits, fresh) = (
  Keeps-Fits db.tasks (remove_row db.tasks id) db.projects (remove-Keeps db.tasks id) fits,
  fresh,
)

pub delete_task-IsNumbered :
    (c : Caller) (id : ℕ) (db : Db) → IsNumbered db → IsNumbered (delete_task c id db).0
unfolding delete_task
delete_task-IsNumbered c id db numbered =
    delete_found-IsNumbered (select db.tasks id (in_workspace c.workspace_id)) c id db numbered

insert_project-IsNumbered :
    (p : Project) (db : Db) → IsNumbered db → IsNumbered (insert_project p db)
insert_project-IsNumbered p db (fits, fresh) = (
  Counts-Fits db.tasks db.projects (insert_row db.projects db.next_project p)
      (insert-Counts db.projects db.next_project p (fresh db.next_project (omega arith))) fits,
  λ n h.
      let other : (n == db.next_project) ≡ false = ground (arith, h) in
      rw other (fresh n (omega (arith, h))),
)

create_unless-IsNumbered :
    (why : Option Reply) (ws : ℕ) (name slug prefix description : String) (now : ℕ) (db : Db)
    → IsNumbered db
    → IsNumbered (create_unless why ws name slug prefix description now db).0
create_unless-IsNumbered (some why) ws name slug prefix description now db numbered = numbered
create_unless-IsNumbered none ws name slug prefix description now db numbered =
    insert_project-IsNumbered _ db numbered

pub post_project-IsNumbered :
    (k : Cases) (ws : ℕ) (body : ProjectBody) (now : ℕ) (db : Db)
    → IsNumbered db
    → IsNumbered (post_project k ws body now db).0
unfolding post_project
post_project-IsNumbered k ws body now db numbered =
    create_unless-IsNumbered _ ws _ _ _ _ now db numbered

patch_unless-IsNumbered :
    (why : Option Reply) (k : Cases) (ws id : ℕ) (b : PatchBody) (now : ℕ) (db : Db)
    → IsNumbered db
    → IsNumbered (patch_unless why k ws id b now db).0
unfolding patch_fields
patch_unless-IsNumbered (some why) k ws id b now db numbered = numbered
patch_unless-IsNumbered none k ws id b now db numbered =
    update-IsNumbered id (project_in ws) (patch_fields k b now) db (λ q. omega arith) numbered

patch_found-IsNumbered :
    (o : Option Project) (rereads : Bool) (k : Cases) (ws id : ℕ) (b : PatchBody) (now : ℕ)
    (db : Db)
    → IsNumbered db
    → IsNumbered (patch_found o rereads k ws id b now db).0
unfolding patch_found
patch_found-IsNumbered none rereads k ws id b now db numbered = numbered
patch_found-IsNumbered (some p) rereads k ws id b now db numbered =
    patch_unless-IsNumbered _ k ws id b now db numbered

pub patch_project-IsNumbered :
    (rereads : Bool) (k : Cases) (ws id : ℕ) (b : PatchBody) (now : ℕ) (db : Db)
    → IsNumbered db
    → IsNumbered (patch_project rereads k ws id b now db).0
unfolding patch_project
patch_project-IsNumbered rereads k ws id b now db numbered =
    patch_found-IsNumbered (select db.projects id (project_in ws)) rereads k ws id b now db numbered

remove_found-IsNumbered :
    (o : Option Project) (ws id now : ℕ) (db : Db)
    → IsNumbered db
    → IsNumbered (remove_found o false ws id now db).0
unfolding remove_found
remove_found-IsNumbered none ws id now db numbered = numbered
remove_found-IsNumbered (some p) ws id now db numbered = elim (Bool-cases (is_general p)) [
  | inl e ↦ rw e numbered
  | inr e ↦ rw e (update-IsNumbered id (project_in ws) (archive now) db (λ q. omega arith) numbered)
]

pub archive-IsNumbered :
    (ws id now : ℕ) (db : Db) → IsNumbered db → IsNumbered (delete_project false ws id now db).0
unfolding delete_project
archive-IsNumbered ws id now db numbered =
    remove_found-IsNumbered (select db.projects id (project_in ws)) ws id now db numbered
