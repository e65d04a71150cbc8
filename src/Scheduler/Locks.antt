-- ===== src/Scheduler/Locks.antt =====
-- What the ticks that wait have to do with the tasks that run.
use conductor_dashboard.Common.{
  ℕ, ◌<◌, ◌≤◌, ◌≡◌, ◌≢◌, refl, sym, ap, ◌∙◌, subst, inl, inr, Bool, true, false, Option, none, some,
  List, [], ◌∷◌, Rows, arith, ◌==◌, ==_iff, if◌then◌else◌, Bool-cases,
}
use conductor_dashboard.Scheduler.{
  TaskId, auto_backup, auto_cleanup, agent_heartbeat, webhook_retry, claude_session_scan,
  conductor_sync, ScheduledTask, Tasks, id_code, Settings,
}
use conductor_dashboard.Scheduler.Tick.{
  Tick, set_task, is_due, start_task, end_task, scan, replace, wait,
}

-- The task of a code.
abbrev task_of : ℕ → TaskId
task_of n =
    if n == 0
    then auto_backup
    else (if n == 1
        then auto_cleanup
        else (if n == 2
            then agent_heartbeat
            else (if n == 3
                then webhook_retry
                else (if n == 4 then claude_session_scan else conductor_sync))))

task_of-id_code : (a : TaskId) → task_of (id_code a) ≡ a
task_of-id_code auto_backup = refl
task_of-id_code auto_cleanup = refl
task_of-id_code agent_heartbeat = refl
task_of-id_code webhook_retry = refl
task_of-id_code claude_session_scan = refl
task_of-id_code conductor_sync = refl

same_code : (a b : TaskId) → (id_code a == id_code b) ≡ true → a ≡ b
same_code a b h =
    sym (task_of-id_code a) ∙ ap task_of ((==_iff (id_code a) (id_code b)).0 h) ∙ task_of-id_code b

other_code : (a b : TaskId) → (id_code a == id_code b) ≡ false → a ≢ b
other_code a b h same =
    let q : (id_code a == id_code a) ≡ true = ground arith in
    let g : (id_code a == id_code a) ≡ false =
      subst (λ x. (id_code a == id_code x) ≡ false) (sym same) h in
    cc

-- A tick that waits has its task running, no two wait for one task, and a task that runs has a tick that
-- waits for it.
abbrev pub Locks : Tasks → Rows Tick → ℕ → Type 0
Locks ts ticks next =
    ((i : ℕ) (t : Tick) → ticks i ≡ some t → (i < next) × ((ts t.id).running ≡ true))
    × ((i k : ℕ) (t u : Tick) → ticks i ≡ some t → ticks k ≡ some u → t.id ≡ u.id → i ≡ k)
    × ((id : TaskId)
        → (ts id).running ≡ true
        → (i : ℕ) × (t : Tick) × (ticks i ≡ some t) × (t.id ≡ id))

-- What a loop has found: nothing, or a task that was free and is locked now.
abbrev pub Finds : Tasks → Tasks × Option Tick → Type 0
Finds ts (ts', none) = ts' ≡ ts
Finds ts (ts', some t) = (ts' ≡ set_task t.id start_task ts) × ((ts t.id).running ≡ false)

due-free :
    (now : ℕ) (settings : Settings) (id : TaskId) (t : ScheduledTask)
    → is_due now settings id t ≡ true
    → t.running ≡ false
unfolding is_due
due-free now settings id t h = elim (Bool-cases t.running) [
  | inl e ↦ absurd (let q = rw e at h in cc q)
  | inr e ↦ e
]

pub scan-Finds :
    (now : ℕ) (settings : Settings) (ids : List TaskId) (ts : Tasks)
    → Finds ts (scan now settings ids ts)
unfolding scan
scan-Finds now settings [] ts = refl
scan-Finds now settings (id ∷ ids) ts = elim (Bool-cases (is_due now settings id (ts id))) [
  | inl e ↦ rw e (refl, due-free now settings id (ts id) e)
  | inr e ↦ rw e (scan-Finds now settings ids ts)
]

-- The end of a wait frees the task.
pub free-Locks :
    (ts : Tasks) (ticks : Rows Tick) (next i now : ℕ) (ok : Bool) (t : Tick)
    → Locks ts ticks next
    → ticks i ≡ some t
    → Locks (set_task t.id (end_task now ok) ts) (replace i none ticks) next
free-Locks ts ticks next i now ok t (locked, single, tended) here = (
  λ n u h. elim (Bool-cases (n == i)) [
    | inl e ↦ absurd (let q = rw e at h in cc q)
    | inr e ↦
        let there : ticks n ≡ some u = rw e at h in
        let (below, runs) = locked n u there in
        elim (Bool-cases (id_code u.id == id_code t.id)) [
          | inl same ↦ absurd (
              let q : n ≡ i = single n i u t there here (same_code u.id t.id same) in
              let g : (n == i) ≡ true = (==_iff n i).1 q in cc)
          | inr other ↦ (below, rw other runs)
        ]
  ],
  λ n m u v h h' same. elim (Bool-cases (n == i)) [
    | inl e ↦ absurd (let q = rw e at h in cc q)
    | inr e ↦ elim (Bool-cases (m == i)) [
      | inl f ↦ absurd (let q = rw f at h' in cc q)
      | inr f ↦ single n m u v (rw e at h) (rw f at h') same
    ]
  ],
  λ id runs. elim (Bool-cases (id_code id == id_code t.id)) [
    | inl same ↦ absurd (let q = rw same at runs in cc q)
    | inr other ↦
        let (n, u, there, is) = tended id (rw other at runs) in
        elim (Bool-cases (n == i)) [
          | inl e ↦ absurd (
              let two : some u ≡ some t = sym there ∙ ap ticks ((==_iff n i).0 e) ∙ here in
              let it : u ≡ t = ground (arith, two) in
              other_code id t.id other (sym is ∙ ap (λ x. x.id) it))
          | inr e ↦ (n, u, rw e there, is)
        ]
  ],
)

-- A loop that waits locks its task.
pub wait-Locks :
    (ts : Tasks) (ticks : Rows Tick) (next next' i : ℕ) (out : Tasks × Option Tick)
    → Locks ts ticks next
    → ticks i ≡ none
    → i < next'
    → next ≤ next'
    → Finds ts out
    → Locks (wait i out ticks next').tasks (wait i out ticks next').ticks next'
wait-Locks ts ticks next next' i (ts', none) (locked, single, tended) empty below more same = (
  λ n u h. elim (Bool-cases (n == i)) [
    | inl e ↦ absurd (let q = rw e at h in cc q)
    | inr e ↦
        let (low, runs) = locked n u (rw e at h) in
        (omega (arith, low, more), ap (λ x. (x u.id).running) same ∙ runs)
  ],
  λ n m u v h h' is. elim (Bool-cases (n == i)) [
    | inl e ↦ absurd (let q = rw e at h in cc q)
    | inr e ↦ elim (Bool-cases (m == i)) [
      | inl f ↦ absurd (let q = rw f at h' in cc q)
      | inr f ↦ single n m u v (rw e at h) (rw f at h') is
    ]
  ],
  λ id runs.
      let (n, u, there, is) = tended id (sym (ap (λ x. (x id).running) same) ∙ runs) in
      elim (Bool-cases (n == i)) [
        | inl e ↦
            absurd (let q : ticks i ≡ some u = ap ticks (sym ((==_iff n i).0 e)) ∙ there in cc)
        | inr e ↦ (n, u, rw e there, is)
      ],
)
wait-Locks ts ticks next next' i (ts', some t) (locked, single, tended) empty below more
      (made, free) =
    let other : (n : ℕ) (u : Tick) → ticks n ≡ some u → u.id ≢ t.id =
      λ n u h same. let q = (locked n u h).1 in let g = ap (λ x. (ts x).running) same in cc in
    (
      λ n u h. elim (Bool-cases (n == i)) [
        | inl e ↦
            let it : t ≡ u = ground (arith, (rw e at h)) in
            let own : (id_code t.id == id_code t.id) ≡ true = ground arith in
            let runs : (ts' t.id).running ≡ true = ap (λ x. (x t.id).running) made ∙ rw own refl in
            (
              omega (arith, below, ((==_iff n i).0 e)),
              subst (λ x. (ts' x.id).running ≡ true) it runs,
            )
        | inr e ↦
            let (low, runs) = locked n u (rw e at h) in
            (omega (arith, low, more), ap (λ x. (x u.id).running) made ∙ kept u.id runs)
      ],
      λ n m u v h h' is. elim (Bool-cases (n == i)) [
        | inl e ↦ elim (Bool-cases (m == i)) [
          | inl f ↦ (==_iff n i).0 e ∙ sym ((==_iff m i).0 f)
          | inr f ↦
              let it : t ≡ u = ground (arith, (rw e at h)) in
              absurd (other m v (rw f at h') (sym is ∙ ap (λ x. x.id) (sym it)))
        ]
        | inr e ↦ elim (Bool-cases (m == i)) [
          | inl f ↦
              let it : t ≡ v = ground (arith, (rw f at h')) in
              absurd (other n u (rw e at h) (is ∙ ap (λ x. x.id) (sym it)))
          | inr f ↦ single n m u v (rw e at h) (rw f at h') is
        ]
      ],
      λ id runs. elim (Bool-cases (id_code id == id_code t.id)) [
        | inl same ↦
            let own : (i == i) ≡ true = ground arith in
            (i, t, rw own refl, sym (same_code id t.id same))
        | inr differs ↦
            let was : (ts id).running ≡ true =
              rw differs at (sym (ap (λ x. (x id).running) made) ∙ runs) in
            let (n, u, there, is) = tended id was in
            elim (Bool-cases (n == i)) [
              | inl e ↦
                  absurd
                    (let q : ticks i ≡ some u = ap ticks (sym ((==_iff n i).0 e)) ∙ there in cc)
              | inr e ↦ (n, u, rw e there, is)
            ]
      ],
    )
  where
    kept : (id : TaskId) → (ts id).running ≡ true → (set_task t.id start_task ts id).running ≡ true
    kept id runs = elim (Bool-cases (id_code id == id_code t.id)) [
      | inl e ↦ rw e refl
      | inr e ↦ rw e runs
    ]
