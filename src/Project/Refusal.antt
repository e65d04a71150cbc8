-- ===== src/Project/Refusal.antt =====
-- What a refused PUT of a task leaves; PUT is no transaction.
use conductor_dashboard.Common.{
  ℕ, suc, ◌≡◌, ◌≢◌, refl, inl, inr, String, Bool, true, false, ◌&&◌, ◌||◌, Option, none, some, List,
  arith, select, is_some, ◌==◌, Bool-cases, select_row,
}
use conductor_dashboard.Task.{TaskStatus}
use conductor_dashboard.Project.{Project, WorkTask, Db, Caller}
use conductor_dashboard.Project.Allocate.{
  in_workspace, is_open, is_active, project_in, counted, number_of, allocate,
}
use conductor_dashboard.Project.Edit as Edit
use conductor_dashboard.Project.Edit.{
  updated, refused, placed, number_or_fail, place, place_in, has_fields, finish, update_unless,
  update_found, put_task, next_status,
}
use conductor_dashboard.Project.Changes.{UpdateBody, same_id}

-- An open project of the workspace has a next number.
allocate-some :
    (ws p now : ℕ) (q : Project) (db : Db)
    → select db.projects p (is_open ws) ≡ some q
    → number_of (select (counted ws p now db).projects p (project_in ws))
      ≡ some (suc q.ticket_counter)
allocate-some ws p now q db h =
    let (row, open_q) = select_row db.projects p (is_open ws) h in
    let own : (p == p) ≡ true = ground arith in
    let member : project_in ws q ≡ true = both (project_in ws q) (is_active q.status) open_q in
    let positive : (suc q.ticket_counter == 0) ≡ false = ground arith in
    rw (own, row, member, member, positive) refl
  where
    both : (a b : Bool) → (a && b) ≡ true → a ≡ true
    both true b h = refl
    both false b h = absurd (cc)

asked-has_fields :
    (status : Option TaskStatus) (body : UpdateBody) (p : ℕ)
    → body.project_id ≡ some p
    → has_fields status body ≡ true
asked-has_fields status body p h = rw h (
    asked
      (is_some body.title || is_some body.description || is_some status || is_some body.priority)
      (is_some body.assigned_to) (is_some body.due_date) (is_some body.outcome)
      (is_some body.completed_at) body.sets_others)
  where
    asked : (a r1 r2 r3 r4 r5 : Bool) → (a || true || r1 || r2 || r3 || r4 || r5) ≡ true
    asked true r1 r2 r3 r4 r5 = refl
    asked false r1 r2 r3 r4 r5 = refl

-- How a reply that is no success leaves the state.
abbrev Leaves : Db → Db × Edit.Reply → Type 0
Leaves db out = out.1 ≢ updated → out.0 ≡ db

placed-Leaves :
    (c : Caller) (id now : ℕ) (t : WorkTask) (status : Option TaskStatus) (body : UpdateBody)
    (before rs : List String) (db : Db)
    → Leaves db (finish c id now t status body before rs (db, placed none))
placed-Leaves c id now t status body before rs db = elim (Bool-cases (has_fields status body)) [
  | inl e ↦ rw e (λ other. absurd (other refl))
  | inr e ↦ rw e (λ other. refl)
]

numbered-Leaves :
    (c : Caller) (id now p : ℕ) (t : WorkTask) (status : Option TaskStatus) (body : UpdateBody)
    (before rs : List String) (k : ℕ) (db counted_db : Db)
    → body.project_id ≡ some p
    → Leaves db (finish c id now t status body before rs (counted_db, placed (some k)))
numbered-Leaves c id now p t status body before rs k db counted_db asked =
    rw (asked-has_fields status body p asked) (λ other. absurd (other refl))

place_in-Leaves :
    (c : Caller) (id now p : ℕ) (t : WorkTask) (status : Option TaskStatus) (body : UpdateBody)
    (before rs : List String) (o : Option Project) (db : Db)
    → select db.projects p (is_open c.workspace_id) ≡ o
    → body.project_id ≡ some p
    → Leaves db (finish c id now t status body before rs (place_in c.workspace_id now t p o db))
unfolding allocate
place_in-Leaves c id now p t status body before rs none db row asked = λ other. refl
place_in-Leaves c id now p t status body before rs (some q) db row asked =
    elim (Bool-cases (same_id t.project_id p)) [
      | inl e ↦ rw e (placed-Leaves c id now t status body before rs db)
      | inr e ↦
          rw (e, allocate-some c.workspace_id p now q db row)
            (numbered-Leaves c id now p t status body before rs (suc q.ticket_counter) db
              (counted c.workspace_id p now db) asked)
    ]

place-Leaves :
    (c : Caller) (id now : ℕ) (t : WorkTask) (status : Option TaskStatus) (body : UpdateBody)
    (before rs : List String) (asked : Option ℕ) (db : Db)
    → body.project_id ≡ asked
    → Leaves db (finish c id now t status body before rs (place c.workspace_id now t asked db))
unfolding place
place-Leaves c id now t status body before rs none db is =
    placed-Leaves c id now t status body before rs db
place-Leaves c id now t status body before rs (some p) db is =
    place_in-Leaves c id now p t status body before rs
      (select db.projects p (is_open c.workspace_id)) db refl is

update_unless-Leaves :
    (why : Option Edit.Reply) (c : Caller) (id now : ℕ) (t : WorkTask) (status : Option TaskStatus)
    (body : UpdateBody) (before rs : List String) (db : Db)
    → Leaves db (update_unless why c id now t status body before rs db)
unfolding update_unless
update_unless-Leaves (some why) c id now t status body before rs db = λ other. refl
update_unless-Leaves none c id now t status body before rs db =
    place-Leaves c id now t status body before rs body.project_id db refl

update_found-Leaves :
    (o : Option WorkTask) (c : Caller) (id : ℕ) (body : UpdateBody) (now : ℕ) (db : Db)
    → Leaves db (update_found o c id body now db)
unfolding update_found
update_found-Leaves none c id body now db = λ other. refl
update_found-Leaves (some t) c id body now db =
    update_unless-Leaves _ c id now t (next_status t body) body _ _ db

-- A PUT of a task that is not answered with the updated task leaves the whole state as it was: no ticket
-- number is used up, nobody is told and nothing is logged.
pub put_task-refused :
    (c : Caller) (id : ℕ) (body : UpdateBody) (now : ℕ) (db : Db)
    → (put_task c id body now db).1 ≢ updated
    → (put_task c id body now db).0 ≡ db
unfolding put_task
put_task-refused c id body now db =
    update_found-Leaves (select db.tasks id (in_workspace c.workspace_id)) c id body now db
