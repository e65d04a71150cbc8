-- ===== src/Review/Revoke.antt =====
-- What a review does to the moves after it, and to the time of completion.
use mathlib.Core.Option
use conductor_dashboard.Common.{
  ℕ, ◌≡◌, refl, sym, subst, inl, inr, String, Bool, true, false, not, ◌&&◌, Option, none, some,
  List, [], ◌∷◌, arith, Rows, select, update, str_eq, ◌==◌, ==_refl, is_some, Bool-cases,
  Option-cases, any, All, find, ltb, ◌<◌,
}
use conductor_dashboard.Task.{TaskStatus}
use conductor_dashboard.Review.{
  GateTask, rejected, QualityReview, Db, is_aegis_review, is_approved, has_aegis_approval,
}
use conductor_dashboard.Review.Ops.{
  approval_required, Move, in_workspace, is_done, move_to, write_move, move_found, move_task,
  move_tasks, commit, put_tasks, approve, advance_task, place_review, insert_review, review_found,
  post_review,
}

-- Whether one of the moves asks for `id` to be done.
abbrev pub asks_done : ℕ → Move → Bool
asks_done id m = m.id == id && is_done m.status

-- The task is there, in the workspace.
abbrev pub IsThere : ℕ → ℕ → Db → Type 0
IsThere ws id db = is_some (select db.tasks id (in_workspace ws)) ≡ true

move_to-IsThere :
    (ws now id k : ℕ) (s : TaskStatus) (t : Rows GateTask)
    → is_some (select t id (in_workspace ws)) ≡ true
    → is_some (select (update t k (in_workspace ws) (move_to now s)) id (in_workspace ws)) ≡ true
move_to-IsThere ws now id k s t h = elim (Bool-cases (id == k)) [
  | inl same ↦ elim (Option-cases (t id)) [
    | inl missing ↦ absurd (let q = rw missing at h in cc q)
    | inr (b, found) ↦ elim (Bool-cases (in_workspace ws b)) [
      | inl hit ↦ rw (same, found, hit, hit) refl
      | inr miss ↦ absurd (let q = rw (found, miss) at h in cc q)
    ]
  ]
  | inr other ↦ rw other h
]

-- A move that does not throw leaves the task there and the reviews as they are.
move_found-keeps :
    (o : Option GateTask) (ws now id : ℕ) (actor : String) (m : Move) (db db' : Db)
    → move_found o ws now actor m db ≡ some db'
    → IsThere ws id db
    → IsThere ws id db' × (db'.reviews ≡ db.reviews)
unfolding move_found
move_found-keeps none ws now id actor m db db' h k =
    let same : db ≡ db' = ground (arith, h) in
    subst (λ x. IsThere ws id x × (x.reviews ≡ db.reviews)) same (k, refl)
move_found-keeps (some row) ws now id actor m db db' h k =
    elim (Bool-cases (is_done m.status && not (has_aegis_approval m.id ws db.reviews))) [
      | inl throws ↦ absurd (let q = rw throws at h in cc q)
      | inr passes ↦
          let same : write_move ws now actor m row db ≡ db' =
            let q = rw passes at h in ground (arith, q) in
          subst (λ x. IsThere ws id x × (x.reviews ≡ db.reviews)) same
            (move_to-IsThere ws now id m.id m.status db.tasks k, refl)
    ]

asks_done_iff :
    (id : ℕ) (m : Move) → asks_done id m ≡ true → (m.id ≡ id) × (is_done m.status ≡ true)
asks_done_iff id m h = ground arith

asked_throws :
    (o : Option GateTask) (ws now : ℕ) (actor : String) (m : Move) (db : Db)
    → is_some o ≡ true
    → is_done m.status ≡ true
    → has_aegis_approval m.id ws db.reviews ≡ false
    → move_found o ws now actor m db ≡ none
unfolding move_found
asked_throws none ws now actor m db k d h = absurd (cc)
asked_throws (some row) ws now actor m db k d h = rw (d, h) refl

-- Without approval, a list of moves that asks for the task to be done throws.
move_tasks-throws :
    (ws now id : ℕ) (actor : String) (ms : List Move) (db : Db)
    → IsThere ws id db
    → has_aegis_approval id ws db.reviews ≡ false
    → any (asks_done id) ms ≡ true
    → move_tasks ws now actor ms db ≡ none
unfolding move_tasks move_task
move_tasks-throws ws now id actor [] db k h e = absurd (cc)
move_tasks-throws ws now id actor (m ∷ ms) db k h e =
    elim (Option-cases (move_task ws now actor m db)) [
      | inl throws ↦ rw throws refl
      | inr (next, ok) ↦ elim (Bool-cases (asks_done id m)) [
        | inl asks ↦
            let (hit, asked) = asks_done_iff id m asks in
            let barred : has_aegis_approval m.id ws db.reviews ≡ false = rw hit h in
            let there : IsThere ws m.id db = rw hit k in
            let throws : move_task ws now actor m db ≡ none =
              asked_throws (select db.tasks m.id (in_workspace ws)) ws now actor m db there asked
                barred in
            rw throws refl
        | inr later ↦
            let kept =
              move_found-keeps (select db.tasks m.id (in_workspace ws)) ws now id actor m db next ok
                k in
            let still : has_aegis_approval id ws next.reviews ≡ false = rw kept.1 h in
            rw ok (move_tasks-throws ws now id actor ms next kept.0 still (rw later at e))
      ]
    ]

-- Every review of the task by Aegis was made in an earlier second.
abbrev pub AllEarlier : ℕ → ℕ → ℕ → List QualityReview → Type 0
AllEarlier now id ws rs = All (λ x. is_aegis_review id ws x ≡ true → x.created_at < now) rs

-- The new review is the first one of Aegis that the query returns.
find-place_review :
    (id ws : ℕ) (r : QualityReview) (rs : List QualityReview)
    → is_aegis_review id ws r ≡ true
    → AllEarlier r.created_at id ws rs
    → find (is_aegis_review id ws) (place_review r rs) ≡ some r
unfolding place_review
find-place_review id ws r [] mine h = rw mine refl
find-place_review id ws r (x ∷ xs) mine (earlier, h) =
    elim (Bool-cases (ltb x.created_at r.created_at)) [
      | inl before ↦ rw (before, mine) refl
      | inr after ↦ elim (Bool-cases (is_aegis_review id ws x)) [
        | inl aegis ↦ let less = earlier aegis in absurd (ground arith)
        | inr other ↦ rw (after, other) (find-place_review id ws r xs mine h)
      ]
    ]

rejection-bars :
    (now : ℕ) (r : QualityReview) (rs : List QualityReview)
    → r.reviewer ≡ "aegis"
    → r.status ≡ rejected
    → AllEarlier now r.task_id r.workspace_id rs
    → has_aegis_approval r.task_id r.workspace_id (place_review (record r { created_at = now }) rs)
      ≡ false
unfolding has_aegis_approval
rejection-bars now r rs who what earlier =
    let mine : is_aegis_review r.task_id r.workspace_id (record r { created_at = now }) ≡ true =
      rw (==_refl r.task_id, who, ==_refl r.workspace_id) refl in
    rw (find-place_review r.task_id r.workspace_id (record r { created_at = now }) rs mine earlier)
      (rw what refl)

review_found-rejected :
    (o : Option GateTask) (now : ℕ) (r : QualityReview) (db : Db)
    → is_some o ≡ true
    → r.status ≡ rejected
    → (review_found o now r db).0 ≡ insert_review now r db
unfolding review_found advance_task
review_found-rejected none now r db k h = absurd (cc)
review_found-rejected (some t) now r db k h = rw h refl

-- After Aegis rejects a task of its workspace, a PUT that asks for the task to be done, among whatever
-- other moves, is refused and changes nothing, whatever reviews came before, if those of the task by
-- Aegis were made in earlier seconds.
pub put_tasks-refused :
    (now later : ℕ) (actor : String) (r : QualityReview) (ms : List Move) (db : Db)
    → r.reviewer ≡ "aegis"
    → r.status ≡ rejected
    → AllEarlier now r.task_id r.workspace_id db.reviews
    → IsThere r.workspace_id r.task_id db
    → any (asks_done r.task_id) ms ≡ true
    → put_tasks r.workspace_id later actor ms (post_review now r db).0
      ≡ ((post_review now r db).0, approval_required)
unfolding put_tasks post_review commit
put_tasks-refused now later actor r ms db who what earlier there asked =
    let after : (post_review now r db).0 ≡ insert_review now r db =
      review_found-rejected (select db.tasks r.task_id (in_workspace r.workspace_id)) now r db there
        what in
    let throws : move_tasks r.workspace_id later actor ms (insert_review now r db) ≡ none =
      move_tasks-throws r.workspace_id later r.task_id actor ms (insert_review now r db) there
        (rejection-bars now r db.reviews who what earlier) asked in
    subst (λ x. put_tasks r.workspace_id later actor ms x ≡ (x, approval_required)) (sym after)
      (rw throws refl)

completed_in : Rows GateTask → ℕ → Option (Option ℕ)
completed_in t n = Option.map (λ x. x.completed_at) (t n)

approve-completed :
    (now ws k n : ℕ) (t : Rows GateTask)
    → completed_in (update t k (in_workspace ws) (approve now)) n ≡ completed_in t n
unfolding completed_in
approve-completed now ws k n t = elim (Bool-cases (n == k)) [
  | inl same ↦ elim (Option-cases (t n)) [
    | inl missing ↦ rw (same, missing) refl
    | inr (b, found) ↦ elim (Bool-cases (in_workspace ws b)) [
      | inl hit ↦ rw (same, found, hit) refl
      | inr miss ↦ rw (same, found, miss) refl
    ]
  ]
  | inr other ↦ rw other refl
]

advance_task-completed :
    (b : Bool) (now id ws n : ℕ) (db : Db)
    → completed_in (advance_task b now id ws db).tasks n ≡ completed_in db.tasks n
unfolding advance_task
advance_task-completed false now id ws n db = refl
advance_task-completed true now id ws n db = approve-completed now ws id n db.tasks

review_found-completed :
    (o : Option GateTask) (now n : ℕ) (r : QualityReview) (db : Db)
    → completed_in (review_found o now r db).0.tasks n ≡ completed_in db.tasks n
unfolding review_found
review_found-completed none now n r db = refl
review_found-completed (some t) now n r db =
    advance_task-completed (is_approved r.status && str_eq r.reviewer "aegis") now r.task_id
      r.workspace_id n (insert_review now r db)

-- A review never changes a task's time of completion, also where it makes the task done.
pub post_review-completed :
    (now n : ℕ) (r : QualityReview) (db : Db)
    → Option.map (λ t. t.completed_at) ((post_review now r db).0.tasks n)
      ≡ Option.map (λ t. t.completed_at) (db.tasks n)
unfolding post_review completed_in
post_review-completed now n r db =
    review_found-completed (select db.tasks r.task_id (in_workspace r.workspace_id)) now n r db
