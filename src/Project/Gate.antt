-- ===== src/Project/Gate.antt =====
-- The gate of PUT for a single task.
use conductor_dashboard.Common.{
  ℕ, ◌≡◌, ◌⊎◌, refl, sym, ap, subst, ◌∙◌, inl, inr, String, true, Option, none, some, List, arith,
  Rows, update, select, ◌==◌, ==_iff, get_or_else, Bool-cases,
}
use conductor_dashboard.Task.{TaskStatus, done}
use conductor_dashboard.Review.{has_aegis_approval}
use conductor_dashboard.Project.{Project, WorkTask, Db, Caller}
use conductor_dashboard.Project.Allocate.{in_workspace, is_open, counted, allocate}
use conductor_dashboard.Project.Create.{is_nil}
use conductor_dashboard.Project.Edit.{
  Reply, asks_done, check_update, placed, number_or_fail, place, place_in, write_fields, write_task,
  has_fields, finish, update_unless, update_found, put_task, next_status,
}
use conductor_dashboard.Project.Changes.{UpdateBody, same_id}
use conductor_dashboard.Project.Numbers.Tables.{announce_updated-Same}

-- A task that is done was done before, or the request asked for it.
abbrev pub Asked : ℕ → Option TaskStatus → Rows WorkTask → Rows WorkTask → Type 0
Asked id status old new =
    (n : ℕ) (t t' : WorkTask)
    → old n ≡ some t
    → new n ≡ some t'
    → t'.status ≡ done
    → (t.status ≡ done) ⊎ ((n ≡ id) × (asks_done status ≡ true))

Asked-refl : (id : ℕ) (status : Option TaskStatus) (ts : Rows WorkTask) → Asked id status ts ts
Asked-refl id status ts n t t' h h' d =
    let two : some t ≡ some t' = sym h ∙ h' in
    let same : t ≡ t' = ground (arith, two) in inl (ap (λ x. x.status) same ∙ d)

status-Asked :
    (status : Option TaskStatus) (s : TaskStatus)
    → get_or_else s status ≡ done
    → (s ≡ done) ⊎ (asks_done status ≡ true)
status-Asked none s h = inl h
status-Asked (some r) s h = inr (rw h refl)

write-Asked :
    (ws id now : ℕ) (status : Option TaskStatus) (number : Option ℕ) (body : UpdateBody)
    (ts : Rows WorkTask)
    → Asked id status ts (update ts id (in_workspace ws) (write_fields now status number body))
write-Asked ws id now status number body ts n t t' h h' d = elim (Bool-cases (n == id)) [
  | inr e ↦ Asked-refl id status ts n t t' h (rw e at h') d
  | inl e ↦ elim (Bool-cases (in_workspace ws t)) [
    | inr out ↦
        let it : some t ≡ some t' = rw (e, h, out) at h' in
        let same : t ≡ t' = ground (arith, it) in inl (ap (λ x. x.status) same ∙ d)
    | inl member ↦
        let it : some (write_fields now status number body t) ≡ some t' = rw (e, h, member) at h' in
        let same : write_fields now status number body t ≡ t' = ground (arith, it) in
        elim (status-Asked status t.status (ap (λ x. x.status) same ∙ d)) [
          | inl was ↦ inl was
          | inr asks ↦ inr ((==_iff n id).0 e, asks)
        ]
  ]
]

finish-Asked :
    (c : Caller) (id now : ℕ) (t : WorkTask) (status : Option TaskStatus) (body : UpdateBody)
    (before rs : List String) (number : Option ℕ) (db : Db)
    → Asked id status db.tasks (finish c id now t status body before rs (db, placed number)).0.tasks
finish-Asked c id now t status body before rs number db =
    elim (Bool-cases (has_fields status body)) [
      | inr e ↦ rw e (Asked-refl id status db.tasks)
      | inl e ↦
          let out = write_task c id now status number body db in
          let (same, projects, next, reviews) =
            (announce_updated-Same c id t status body before rs out) in
          rw e (
            subst (λ x. Asked id status db.tasks x) (sym same)
              (write-Asked c.workspace_id id now status number body db.tasks))
    ]

numbered-Asked :
    (c : Caller) (id now p : ℕ) (t : WorkTask) (status : Option TaskStatus) (body : UpdateBody)
    (before rs : List String) (o : Option ℕ) (db : Db)
    → Asked id status db.tasks
        (finish c id now t status body before rs
          (number_or_fail (counted c.workspace_id p now db, o))).0.tasks
numbered-Asked c id now p t status body before rs none db = Asked-refl id status db.tasks
numbered-Asked c id now p t status body before rs (some k) db =
    finish-Asked c id now t status body before rs (some k) (counted c.workspace_id p now db)

place_in-Asked :
    (c : Caller) (id now p : ℕ) (t : WorkTask) (status : Option TaskStatus) (body : UpdateBody)
    (before rs : List String) (o : Option Project) (db : Db)
    → Asked id status db.tasks
        (finish c id now t status body before rs (place_in c.workspace_id now t p o db)).0.tasks
unfolding allocate
place_in-Asked c id now p t status body before rs none db = Asked-refl id status db.tasks
place_in-Asked c id now p t status body before rs (some q) db =
    elim (Bool-cases (same_id t.project_id p)) [
      | inl e ↦ rw e (finish-Asked c id now t status body before rs none db)
      | inr e ↦ rw e (numbered-Asked c id now p t status body before rs _ db)
    ]

place-Asked :
    (c : Caller) (id now : ℕ) (t : WorkTask) (status : Option TaskStatus) (body : UpdateBody)
    (before rs : List String) (asked : Option ℕ) (db : Db)
    → Asked id status db.tasks
        (finish c id now t status body before rs (place c.workspace_id now t asked db)).0.tasks
unfolding place
place-Asked c id now t status body before rs none db =
    finish-Asked c id now t status body before rs none db
place-Asked c id now t status body before rs (some p) db =
    place_in-Asked c id now p t status body before rs
      (select db.projects p (is_open c.workspace_id)) db

-- A task is done by the request only with an approval.
abbrev pub Earned : ℕ → ℕ → Db → Rows WorkTask → Type 0
Earned ws id db new =
    (n : ℕ) (t t' : WorkTask)
    → db.tasks n ≡ some t
    → new n ≡ some t'
    → t'.status ≡ done
    → (t.status ≡ done) ⊎ (has_aegis_approval n ws db.reviews ≡ true)

Earned-refl : (ws id : ℕ) (db : Db) → Earned ws id db db.tasks
Earned-refl ws id db n t t' h h' d = elim (Asked-refl id none db.tasks n t t' h h' d) [
  | inl was ↦ inl was
  | inr (here, asks) ↦ absurd (cc asks)
]

-- What passes the checks has the approval that it asks for.
check_update-approved :
    (ws id : ℕ) (status : Option TaskStatus) (unresolved : List String) (db : Db)
    → check_update ws id status unresolved db ≡ none
    → asks_done status ≡ true
    → has_aegis_approval id ws db.reviews ≡ true
unfolding check_update
check_update-approved ws id status unresolved db h asks = elim (Bool-cases (is_nil unresolved)) [
  | inr e ↦ absurd (let q = rw e at h in cc q)
  | inl e ↦ elim (Bool-cases (has_aegis_approval id ws db.reviews)) [
    | inl ok ↦ ok
    | inr no_approval ↦ absurd (let q = rw (e, asks, no_approval) at h in cc q)
  ]
]

update_unless-Earned :
    (why : Option Reply) (c : Caller) (id now : ℕ) (t : WorkTask) (status : Option TaskStatus)
    (body : UpdateBody) (before rs unresolved : List String) (db : Db)
    → check_update c.workspace_id id status unresolved db ≡ why
    → Earned c.workspace_id id db (update_unless why c id now t status body before rs db).0.tasks
unfolding update_unless
update_unless-Earned (some why) c id now t status body before rs unresolved db h =
    Earned-refl c.workspace_id id db
update_unless-Earned none c id now t status body before rs unresolved db h = λ n u u' row row' d.
    elim (place-Asked c id now t status body before rs body.project_id db n u u' row row' d) [
      | inl was ↦ inl was
      | inr (here, asks) ↦ inr (
          ap (λ x. has_aegis_approval x c.workspace_id db.reviews) here
          ∙ check_update-approved c.workspace_id id status unresolved db h asks)
    ]

update_found-Earned :
    (o : Option WorkTask) (c : Caller) (id : ℕ) (body : UpdateBody) (now : ℕ) (db : Db)
    → Earned c.workspace_id id db (update_found o c id body now db).0.tasks
unfolding update_found
update_found-Earned none c id body now db = Earned-refl c.workspace_id id db
update_found-Earned (some t) c id body now db =
    update_unless-Earned _ c id now t (next_status t body) body _ _ _ db refl

-- A task that is done after a PUT, whatever its body, was done before, or the newest review of Aegis
-- approves it.
pub put_task-earned :
    (c : Caller) (id : ℕ) (body : UpdateBody) (now : ℕ) (db : Db) (n : ℕ) (t t' : WorkTask)
    → db.tasks n ≡ some t
    → (put_task c id body now db).0.tasks n ≡ some t'
    → t'.status ≡ done
    → (t.status ≡ done) ⊎ (has_aegis_approval n c.workspace_id db.reviews ≡ true)
unfolding put_task
put_task-earned c id body now db =
    update_found-Earned (select db.tasks id (in_workspace c.workspace_id)) c id body now db
