-- ===== src/Project/Numbers/Requests.antt =====
-- Ticket numbers, where a task is created.
use conductor_dashboard.Common.{
  ℕ, ◌≤◌, ◌≡◌, refl, sym, ap, subst, ◌∙◌, inl, inr, String, Bool, Option, none, some, List, arith,
  Rows, update, select, insert_row, ◌==◌, ==_iff, Bool-cases,
}
use conductor_dashboard.Project.{TaskPriority, Project, WorkTask, Db, Caller}
use conductor_dashboard.Project.Allocate.{
  project_in, count_up, counted, number_of, allocate, resolve_project_id,
}
use conductor_dashboard.Project.Create as Create
use conductor_dashboard.Project.Create.{
  CreateBody, check_create, new_task, insert_task, announce_created, create_numbered,
  create_resolved, post_task, nimbus_task, nimbus_numbered, nimbus_resolved, create_task,
}
use conductor_dashboard.Project.Numbers.Slots.{
  Fits, Counts-Fits, Places, Places-Fits, update-Counts, allocate-number,
}
use conductor_dashboard.Project.Numbers.Tables.{Same, announce_created-Same}

-- The numbers fit the counters, and no project has an id that is still to come.
abbrev pub IsNumbered : Db → Type 0
IsNumbered db = Fits db.tasks db.projects × ((n : ℕ) → db.next_project ≤ n → db.projects n ≡ none)

pub Same-IsNumbered : (db db' : Db) → Same db db' → IsNumbered db → IsNumbered db'
Same-IsNumbered db db' (t, p, next, r) (fits, fresh) = (
  subst (λ ts. Fits ts db'.projects) (sym t) (subst (λ ps. Fits db.tasks ps) (sym p) fits),
  λ n h. ap (λ ps. ps n) p ∙ fresh n (omega (arith, h, next)),
)

pub update-none :
    (ps : Rows Project) (id n : ℕ) (test : Project → Bool) (f : Project → Project)
    → ps n ≡ none
    → update ps id test f n ≡ none
update-none ps id n test f h = elim (Bool-cases (n == id)) [
  | inl e ↦ rw (e, h) refl
  | inr e ↦ rw e h
]

-- A change of one project that does not lower its counter.
pub update-IsNumbered :
    (id : ℕ) (test : Project → Bool) (f : Project → Project) (db : Db)
    → ((q : Project) → q.ticket_counter ≤ (f q).ticket_counter)
    → IsNumbered db
    → IsNumbered (record db { projects = update db.projects id test f })
update-IsNumbered id test f db more (fits, fresh) = (
  Counts-Fits db.tasks db.projects (update db.projects id test f)
      (update-Counts db.projects id test f more) fits,
  λ n h. update-none db.projects id n test f (fresh n h),
)

pub placed-Fits :
    (ws p now k id : ℕ) (db : Db) (new : Rows WorkTask)
    → IsNumbered db
    → number_of (select (counted ws p now db).projects p (project_in ws)) ≡ some k
    → Places id p k db.tasks new
    → Fits new (counted ws p now db).projects
placed-Fits ws p now k id db new (fits, fresh) given places =
    let (q, row, row', is) = allocate-number ws p now k db given in
    Places-Fits id p k q (count_up now q) db.tasks new db.projects (counted ws p now db).projects
      places (update-Counts db.projects p (project_in ws) (count_up now) (λ r. omega arith)) row
      (omega (arith, is)) row' (omega (arith, is)) fits

pub counted-IsNumbered : (ws p now : ℕ) (db : Db) → IsNumbered db → IsNumbered (counted ws p now db)
counted-IsNumbered ws p now db =
    update-IsNumbered p (project_in ws) (count_up now) db (λ r. omega arith)

insert-Places :
    (id p k : ℕ) (t : WorkTask) (old : Rows WorkTask)
    → t.project_id ≡ some p
    → t.project_ticket_no ≡ some k
    → Places id p k old (insert_row old id t)
insert-Places id p k t old hp hk n t' h = elim (Bool-cases (n == id)) [
  | inl e ↦
      let same : t ≡ t' = ground (arith, (rw e at h)) in
      inl (
        (==_iff n id).0 e,
        ap (λ x. x.project_id) (sym same) ∙ hp,
        ap (λ x. x.project_ticket_no) (sym same) ∙ hk,
      )
  | inr e ↦ inr (λ same. let q = (==_iff n id).1 same in cc, rw e at h)
]

insert-IsNumbered :
    (ws p now k : ℕ) (t : WorkTask) (db : Db)
    → IsNumbered db
    → number_of (select (counted ws p now db).projects p (project_in ws)) ≡ some k
    → t.project_id ≡ some p
    → t.project_ticket_no ≡ some k
    → IsNumbered (insert_task t (counted ws p now db))
insert-IsNumbered ws p now k t db numbered given hp hk = (
  placed-Fits ws p now k db.next_task db (insert_row db.tasks db.next_task t) numbered given
      (insert-Places db.next_task p k t db.tasks hp hk),
  (counted-IsNumbered ws p now db numbered).1,
)

create_numbered-IsNumbered :
    (c : Caller) (body : CreateBody) (rs : List String) (p now : ℕ) (db : Db) (o : Option ℕ)
    → IsNumbered db
    → number_of (select (counted c.workspace_id p now db).projects p (project_in c.workspace_id))
      ≡ o
    → IsNumbered (create_numbered c body rs p now db (counted c.workspace_id p now db, o)).0
create_numbered-IsNumbered c body rs p now db none numbered given = numbered
create_numbered-IsNumbered c body rs p now db (some k) numbered given =
    let inserted = insert_task (new_task c body p k now) (counted c.workspace_id p now db) in
    Same-IsNumbered inserted (announce_created c db.next_task body.assigned_to rs inserted)
      (announce_created-Same c db.next_task body.assigned_to rs inserted)
      (insert-IsNumbered c.workspace_id p now k (new_task c body p k now) db numbered given refl
        refl)

create_resolved-IsNumbered :
    (c : Caller) (body : CreateBody) (rs : List String) (now : ℕ) (p : Option ℕ) (db : Db)
    → IsNumbered db
    → IsNumbered (create_resolved c body rs now p db).0
unfolding allocate
create_resolved-IsNumbered c body rs now none db numbered = numbered
create_resolved-IsNumbered c body rs now (some p) db numbered =
    create_numbered-IsNumbered c body rs p now db _ numbered refl

create_unless-IsNumbered :
    (why : Option Create.Reply) (c : Caller) (body : CreateBody) (rs : List String) (now : ℕ)
    (db : Db)
    → IsNumbered db
    → IsNumbered (Create.create_unless why c body rs now db).0
unfolding Create.create_unless
create_unless-IsNumbered (some why) c body rs now db numbered = numbered
create_unless-IsNumbered none c body rs now db numbered =
    create_resolved-IsNumbered c body rs now (resolve_project_id c.workspace_id body.project_id db)
      db numbered

pub post_task-IsNumbered :
    (c : Caller) (body : CreateBody) (now : ℕ) (db : Db)
    → IsNumbered db
    → IsNumbered (post_task c body now db).0
unfolding post_task
post_task-IsNumbered c body now db numbered = create_unless-IsNumbered _ c body _ now db numbered

nimbus_numbered-IsNumbered :
    (c : Caller) (title description : String) (priority : TaskPriority) (p now : ℕ) (db : Db)
    (o : Option ℕ)
    → IsNumbered db
    → number_of (select (counted c.workspace_id p now db).projects p (project_in c.workspace_id))
      ≡ o
    → IsNumbered
        (nimbus_numbered c title description priority p now (counted c.workspace_id p now db, o)).0
nimbus_numbered-IsNumbered c title description priority p now db none numbered given =
    counted-IsNumbered c.workspace_id p now db numbered
nimbus_numbered-IsNumbered c title description priority p now db (some k) numbered given =
    insert-IsNumbered c.workspace_id p now k (nimbus_task c title description priority p k now) db
      numbered given refl refl

nimbus_resolved-IsNumbered :
    (c : Caller) (title description : String) (priority : TaskPriority) (now : ℕ) (p : Option ℕ)
    (db : Db)
    → IsNumbered db
    → IsNumbered (nimbus_resolved c title description priority now p db).0
unfolding allocate
nimbus_resolved-IsNumbered c title description priority now none db numbered = numbered
nimbus_resolved-IsNumbered c title description priority now (some p) db numbered =
    nimbus_numbered-IsNumbered c title description priority p now db _ numbered refl

pub create_task-IsNumbered :
    (c : Caller) (title description : String) (priority : TaskPriority) (p : Option ℕ) (now : ℕ)
    (db : Db)
    → IsNumbered db
    → IsNumbered (create_task c title description priority p now db).0
unfolding create_task
create_task-IsNumbered c title description priority p now db numbered =
    nimbus_resolved-IsNumbered c title description priority now
      (resolve_project_id c.workspace_id p db) db numbered
