-- ===== src/Project/Numbers/Edits.antt =====
-- Ticket numbers, where a task is edited.
use conductor_dashboard.Common.{
  ℕ, ◌≡◌, ◌≢◌, ◌⊎◌, refl, sym, ap, ◌∙◌, inl, inr, String, true, Option, none, some, List, arith,
  Rows, update, select, ◌==◌, ==_iff, Bool-cases, select_row,
}
use conductor_dashboard.Task.{TaskStatus}
use conductor_dashboard.Project.{Project, WorkTask, Db, Caller}
use conductor_dashboard.Project.Allocate.{
  in_workspace, is_open, project_in, counted, number_of, allocate,
}
use conductor_dashboard.Project.Edit as Edit
use conductor_dashboard.Project.Edit.{
  keep_or, refused, placed, number_or_fail, place, place_in, write_fields, write_task, has_fields,
  finish, update_unless, update_found, put_task, delete_found, delete_task,
}
use conductor_dashboard.Project.Changes.{UpdateBody, same_id, announce_updated}
use conductor_dashboard.Project.Numbers.Slots.{Keeps-Fits}
use conductor_dashboard.Project.Numbers.Tables.{announce_updated-Same}
use conductor_dashboard.Project.Numbers.Requests.{
  IsNumbered, Same-IsNumbered, placed-Fits, counted-IsNumbered,
}

-- The row that an UPDATE of the selected task leaves, and all others.
written-cases :
    (ws id : ℕ) (f : WorkTask → WorkTask) (t : WorkTask) (old : Rows WorkTask)
    → select old id (in_workspace ws) ≡ some t
    → (n : ℕ) (t' : WorkTask) → update old id (in_workspace ws) f n ≡ some t'
    → ((n ≡ id) × (old n ≡ some t) × (t' ≡ f t)) ⊎ ((n ≢ id) × (old n ≡ some t'))
written-cases ws id f t old chosen n t' h =
    let (row, test) = select_row old id (in_workspace ws) chosen in
    elim (Bool-cases (n == id)) [
      | inl e ↦
          let here = (==_iff n id).0 e in
          let there : old n ≡ some t = ap old here ∙ row in
          let it : some (f t) ≡ some t' = rw (e, there, test) at h in
          inl (here, there, sym (ground (arith, it)))
      | inr e ↦ inr (λ same. let q = (==_iff n id).1 same in cc, rw e at h)
    ]

-- An edit that gives no new number.
kept-IsNumbered :
    (c : Caller) (id now : ℕ) (status : Option TaskStatus) (body : UpdateBody) (t : WorkTask)
    (db : Db)
    → select db.tasks id (in_workspace c.workspace_id) ≡ some t
    → keep_or body.project_id t.project_id ≡ t.project_id
    → IsNumbered db
    → IsNumbered (write_task c id now status none body db)
kept-IsNumbered c id now status body t db chosen same (fits, fresh) = (
  Keeps-Fits db.tasks
      (update db.tasks id (in_workspace c.workspace_id) (write_fields now status none body))
      db.projects
      (λ n t' h.
        elim (written-cases c.workspace_id id (write_fields now status none body) t db.tasks chosen
          n t' h) [
            | inl (here, row, is) ↦
                (t, row, ap (λ x. x.project_id) is ∙ same, ap (λ x. x.project_ticket_no) is)
            | inr (there, row) ↦ (t', row, refl, refl)
          ])
      fits,
  fresh,
)

-- An edit that moves the task to another project.
moved-IsNumbered :
    (c : Caller) (id now p k : ℕ) (status : Option TaskStatus) (body : UpdateBody) (t : WorkTask)
    (db : Db)
    → select db.tasks id (in_workspace c.workspace_id) ≡ some t
    → body.project_id ≡ some p
    → number_of (select (counted c.workspace_id p now db).projects p (project_in c.workspace_id))
      ≡ some k
    → IsNumbered db
    → IsNumbered (write_task c id now status (some k) body (counted c.workspace_id p now db))
moved-IsNumbered c id now p k status body t db chosen asked given numbered = (
  placed-Fits c.workspace_id p now k id db
      (update db.tasks id (in_workspace c.workspace_id) (write_fields now status (some k) body))
      numbered given
      (λ n t' h.
        elim (written-cases c.workspace_id id (write_fields now status (some k) body) t db.tasks
          chosen n t' h) [
            | inl (here, row, is) ↦
                let to : keep_or body.project_id t.project_id ≡ some p = rw asked refl in
                inl (here, ap (λ x. x.project_id) is ∙ to, ap (λ x. x.project_ticket_no) is)
            | inr there ↦ inr there
          ]),
  (counted-IsNumbered c.workspace_id p now db numbered).1,
)

-- What the announcements leave.
finish-IsNumbered :
    (c : Caller) (id now : ℕ) (t : WorkTask) (status : Option TaskStatus) (body : UpdateBody)
    (before rs : List String) (number : Option ℕ) (db : Db)
    → IsNumbered db
    → IsNumbered (write_task c id now status number body db)
    → IsNumbered (finish c id now t status body before rs (db, placed number)).0
finish-IsNumbered c id now t status body before rs number db numbered written =
    elim (Bool-cases (has_fields status body)) [
      | inl e ↦
          let out = write_task c id now status number body db in
          rw e (
            Same-IsNumbered out (announce_updated c id t status body before rs out)
              (announce_updated-Same c id t status body before rs out) written)
      | inr e ↦ rw e numbered
    ]

finish-number_or_fail :
    (c : Caller) (id now p : ℕ) (t : WorkTask) (status : Option TaskStatus) (body : UpdateBody)
    (before rs : List String) (o : Option ℕ) (db : Db)
    → select db.tasks id (in_workspace c.workspace_id) ≡ some t
    → body.project_id ≡ some p
    → number_of (select (counted c.workspace_id p now db).projects p (project_in c.workspace_id))
      ≡ o
    → IsNumbered db
    → IsNumbered
        (finish c id now t status body before rs
          (number_or_fail (counted c.workspace_id p now db, o))).0
finish-number_or_fail c id now p t status body before rs none db chosen asked given numbered =
    counted-IsNumbered c.workspace_id p now db numbered
finish-number_or_fail c id now p t status body before rs (some k) db chosen asked given numbered =
    finish-IsNumbered c id now t status body before rs (some k) (counted c.workspace_id p now db)
      (counted-IsNumbered c.workspace_id p now db numbered)
      (moved-IsNumbered c id now p k status body t db chosen asked given numbered)

same_id-some : (o : Option ℕ) (p : ℕ) → same_id o p ≡ true → o ≡ some p
same_id-some none p h = absurd (cc)
same_id-some (some a) p h = ap some ((==_iff a p).0 h)

place_in-IsNumbered :
    (c : Caller) (id now p : ℕ) (t : WorkTask) (status : Option TaskStatus) (body : UpdateBody)
    (before rs : List String) (o : Option Project) (db : Db)
    → select db.tasks id (in_workspace c.workspace_id) ≡ some t
    → body.project_id ≡ some p
    → IsNumbered db
    → IsNumbered (finish c id now t status body before rs (place_in c.workspace_id now t p o db)).0
unfolding allocate
place_in-IsNumbered c id now p t status body before rs none db chosen asked numbered = numbered
place_in-IsNumbered c id now p t status body before rs (some q) db chosen asked numbered =
    elim (Bool-cases (same_id t.project_id p)) [
      | inl e ↦
          let stays : keep_or body.project_id t.project_id ≡ t.project_id =
            rw asked (sym (same_id-some t.project_id p e)) in
          rw e (
            finish-IsNumbered c id now t status body before rs none db numbered
              (kept-IsNumbered c id now status body t db chosen stays numbered))
      | inr e ↦
          rw e (
            finish-number_or_fail c id now p t status body before rs _ db chosen asked refl
              numbered)
    ]

place-IsNumbered :
    (c : Caller) (id now : ℕ) (t : WorkTask) (status : Option TaskStatus) (body : UpdateBody)
    (before rs : List String) (asked : Option ℕ) (db : Db)
    → select db.tasks id (in_workspace c.workspace_id) ≡ some t
    → body.project_id ≡ asked
    → IsNumbered db
    → IsNumbered (finish c id now t status body before rs (place c.workspace_id now t asked db)).0
unfolding place
place-IsNumbered c id now t status body before rs none db chosen is numbered =
    finish-IsNumbered c id now t status body before rs none db numbered
      (kept-IsNumbered c id now status body t db chosen (rw is refl) numbered)
place-IsNumbered c id now t status body before rs (some p) db chosen is numbered =
    place_in-IsNumbered c id now p t status body before rs
      (select db.projects p (is_open c.workspace_id)) db chosen is numbered

update_unless-IsNumbered :
    (why : Option Edit.Reply) (c : Caller) (id now : ℕ) (t : WorkTask) (status : Option TaskStatus)
    (body : UpdateBody) (before rs : List String) (db : Db)
    → select db.tasks id (in_workspace c.workspace_id) ≡ some t
    → IsNumbered db
    → IsNumbered (update_unless why c id now t status body before rs db).0
unfolding update_unless
update_unless-IsNumbered (some why) c id now t status body before rs db chosen numbered = numbered
update_unless-IsNumbered none c id now t status body before rs db chosen numbered =
    place-IsNumbered c id now t status body before rs body.project_id db chosen refl numbered

update_found-IsNumbered :
    (o : Option WorkTask) (c : Caller) (id : ℕ) (body : UpdateBody) (now : ℕ) (db : Db)
    → select db.tasks id (in_workspace c.workspace_id) ≡ o
    → IsNumbered db
    → IsNumbered (update_found o c id body now db).0
unfolding update_found
update_found-IsNumbered none c id body now db chosen numbered = numbered
update_found-IsNumbered (some t) c id body now db chosen numbered =
    update_unless-IsNumbered _ c id now t (Edit.next_status t body) body _ _ db chosen numbered

pub put_task-IsNumbered :
    (c : Caller) (id : ℕ) (body : UpdateBody) (now : ℕ) (db : Db)
    → IsNumbered db
    → IsNumbered (put_task c id body now db).0
unfolding put_task
put_task-IsNumbered c id body now db numbered =
    update_found-IsNumbered _ c id body now db refl numbered
