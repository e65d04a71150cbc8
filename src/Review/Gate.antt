-- ===== src/Review/Gate.antt =====
-- What PUT /api/tasks asks of a task before it makes it done.
use conductor_dashboard.Common.{
  ℕ, ◌≡◌, ◌⊎◌, refl, sym, subst, inl, inr, String, Bool, true, false, not, ◌&&◌, Option, none, some,
  List, [], ◌∷◌, arith, select, ◌==◌, ==_iff, is_some, Bool-cases, Option-cases,
}
use conductor_dashboard.Task.{TaskStatus}
use conductor_dashboard.Review.{GateTask, Db, has_aegis_approval}
use conductor_dashboard.Review.Ops.{
  Move, in_workspace, is_done, move_to, write_move, move_found, move_task, move_tasks, commit,
  put_tasks,
}

abbrev pub was_done : Option GateTask → Bool
was_done none = false
was_done (some t) = is_done t.status

-- What lets a task be done: it was done in `old`, or Aegis approves it and its time of completion is set.
abbrev pub Earned : ℕ → Db → ℕ → GateTask → Type 0
Earned ws old n t =
    (was_done (old.tasks n) ≡ true)
    ⊎ ((has_aegis_approval n ws old.reviews ≡ true) × (is_some t.completed_at ≡ true))

-- Every done task of `db` has earned it.
abbrev pub AllEarned : ℕ → Db → Db → Type 0
AllEarned ws old db =
    (n : ℕ) (t : GateTask) → db.tasks n ≡ some t → is_done t.status ≡ true → Earned ws old n t

-- The reviews stay, and every done task has earned it.
abbrev pub IsGated : ℕ → Db → Db → Type 0
IsGated ws old db = (db.reviews ≡ old.reviews) × AllEarned ws old db

move_to-completed :
    (now : ℕ) (s : TaskStatus) (t : GateTask)
    → is_done s ≡ true
    → is_some (move_to now s t).completed_at ≡ true
move_to-completed now s t h = rw h refl

write_move-AllEarned :
    (ws now : ℕ) (actor : String) (m : Move) (row : GateTask) (old db : Db)
    → (is_done m.status ≡ true → has_aegis_approval m.id ws old.reviews ≡ true)
    → AllEarned ws old db
    → AllEarned ws old (write_move ws now actor m row db)
write_move-AllEarned ws now actor m row old db may h n t e d = elim (Bool-cases (n == m.id)) [
  | inl same ↦ elim (Option-cases (db.tasks n)) [
    | inl missing ↦ absurd (let q = rw (same, missing) at e in cc q)
    | inr (b, found) ↦ elim (Bool-cases (in_workspace ws b)) [
      | inl hit ↦
          let moved : move_to now m.status b ≡ t =
            let q = rw (same, found, hit) at e in ground (arith, q) in
          let is_it : n ≡ m.id = (==_iff n m.id).0 same in
          let asked : is_done m.status ≡ true = rw (sym moved) at d in
          inr (
            rw is_it (may asked),
            subst (λ x. is_some x.completed_at ≡ true) moved
                (move_to-completed now m.status b asked),
          )
      | inr miss ↦
          let kept : b ≡ t = let q = rw (same, found, miss) at e in ground (arith, q) in
          h n t (rw kept at found) d
    ]
  ]
  | inr other ↦ h n t (rw other at e) d
]

approved_if : (a b : Bool) → (a && not b) ≡ false → a ≡ true → b ≡ true
approved_if a b h k = ground arith

move_found-IsGated :
    (o : Option GateTask) (ws now : ℕ) (actor : String) (m : Move) (old db db' : Db)
    → IsGated ws old db
    → move_found o ws now actor m db ≡ some db'
    → IsGated ws old db'
unfolding move_found
move_found-IsGated none ws now actor m old db db' g h =
    let same : db ≡ db' = ground (arith, h) in subst (IsGated ws old) same g
move_found-IsGated (some row) ws now actor m old db db' (kept, g) h =
    elim (Bool-cases (is_done m.status && not (has_aegis_approval m.id ws db.reviews))) [
      | inl throws ↦ absurd (let q = rw throws at h in cc q)
      | inr passes ↦
          let may : is_done m.status ≡ true → has_aegis_approval m.id ws old.reviews ≡ true =
            λ asked. rw kept at (
              approved_if (is_done m.status) (has_aegis_approval m.id ws db.reviews) passes
                asked) in
          let same : write_move ws now actor m row db ≡ db' =
            let q = rw passes at h in ground (arith, q) in
          let fits : IsGated ws old (write_move ws now actor m row db) =
            (kept, write_move-AllEarned ws now actor m row old db may g) in
          subst (IsGated ws old) same fits
    ]

move_tasks-IsGated :
    (ws now : ℕ) (actor : String) (ms : List Move) (old db db' : Db)
    → IsGated ws old db
    → move_tasks ws now actor ms db ≡ some db'
    → IsGated ws old db'
unfolding move_tasks move_task
move_tasks-IsGated ws now actor [] old db db' g h =
    let same : db ≡ db' = ground (arith, h) in subst (IsGated ws old) same g
move_tasks-IsGated ws now actor (m ∷ ms) old db db' g h =
    elim (Option-cases (move_task ws now actor m db)) [
      | inl throws ↦ absurd (let q = rw throws at h in cc q)
      | inr (next, e) ↦
          move_tasks-IsGated ws now actor ms old next db'
            (move_found-IsGated (select db.tasks m.id (in_workspace ws)) ws now actor m old db next
              g e)
            (rw e at h)
    ]

AllEarned-refl : (ws : ℕ) (db : Db) → AllEarned ws db db
AllEarned-refl ws db n t e d = inl (rw e d)

commit-AllEarned :
    (ws now : ℕ) (ms : List Move) (old : Db) (o : Option Db)
    → ((db : Db) → o ≡ some db → IsGated ws old db)
    → AllEarned ws old (commit now ms old o).0
unfolding commit
commit-AllEarned ws now ms old none h = AllEarned-refl ws old
commit-AllEarned ws now ms old (some db) h = (h db refl).1

-- After any PUT of moves, a task that is done was done before, or its latest review by Aegis in the
-- caller's workspace approves it and its time of completion is set.
pub put_tasks-AllEarned :
    (ws now : ℕ) (actor : String) (ms : List Move) (db : Db)
    → AllEarned ws db (put_tasks ws now actor ms db).0
unfolding put_tasks
put_tasks-AllEarned ws now actor ms db =
    commit-AllEarned ws now ms db (move_tasks ws now actor ms db)
      (λ db' e. move_tasks-IsGated ws now actor ms db db db' (refl, AllEarned-refl ws db) e)
