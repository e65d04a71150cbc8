-- ===== src/Project/Numbers/Slots.antt =====
-- When the ticket numbers of a table of tasks fit the counters of a table of projects.
use conductor_dashboard.Common.{
  ℕ, suc, ◌≤◌, ◌<◌, ◌≡◌, ◌≢◌, ◌⊎◌, refl, sym, ap, ◌∙◌, inl, inr, Bool, true, false, none, some,
  arith, Rows, update, select, insert_row, ◌==◌, ==_iff, Bool-cases, Option-cases,
}
use conductor_dashboard.Project.{Project, WorkTask, Db}
use conductor_dashboard.Project.Allocate.{project_in, count_up, counted, number_of}

-- No number is above its project's counter, and no two tasks of a project have one number.
abbrev pub Fits : Rows WorkTask → Rows Project → Type 0
Fits tasks projects =
    ((n p k : ℕ) (t : WorkTask)
      → tasks n ≡ some t
      → t.project_id ≡ some p
      → t.project_ticket_no ≡ some k
      → (q : Project) × (projects p ≡ some q) × (k ≤ q.ticket_counter))
    × ((n m p k : ℕ) (t u : WorkTask)
        → tasks n ≡ some t
        → tasks m ≡ some u
        → t.project_id ≡ some p
        → u.project_id ≡ some p
        → t.project_ticket_no ≡ some k
        → u.project_ticket_no ≡ some k
        → n ≡ m)

-- No project is lost, and no counter falls.
abbrev pub Counts : Rows Project → Rows Project → Type 0
Counts projects projects' =
    (p : ℕ) (q : Project)
    → projects p ≡ some q
    → (q' : Project) × (projects' p ≡ some q') × (q.ticket_counter ≤ q'.ticket_counter)

pub Counts-Fits :
    (tasks : Rows WorkTask) (ps qs : Rows Project) → Counts ps qs → Fits tasks ps → Fits tasks qs
Counts-Fits tasks ps qs counts (low, single) = (
  λ n p k t h hp hk.
      let (q, row, le) = low n p k t h hp hk in
      let (q', row', more) = counts p q row in (q', row', omega (arith, le, more)),
  single,
)

-- Each task was there before, with its project and its number.
abbrev pub Keeps : Rows WorkTask → Rows WorkTask → Type 0
Keeps old new =
    (n : ℕ) (t' : WorkTask)
    → new n ≡ some t'
    → (t : WorkTask) × (old n ≡ some t)
      × (t'.project_id ≡ t.project_id)
      × (t'.project_ticket_no ≡ t.project_ticket_no)

pub Keeps-Fits :
    (old new : Rows WorkTask) (ps : Rows Project) → Keeps old new → Fits old ps → Fits new ps
Keeps-Fits old new ps keeps (low, single) = (
  λ n p k t' h hp hk.
      let (t, row, a, b) = keeps n t' h in low n p k t row (sym a ∙ hp) (sym b ∙ hk),
  λ n m p k t' u' h h' hp hp' hk hk'.
      let (t, row, a, b) = keeps n t' h in
      let (u, row', a', b') = keeps m u' h' in
      single n m p k t u row row' (sym a ∙ hp) (sym a' ∙ hp') (sym b ∙ hk) (sym b' ∙ hk'),
)

-- One task has a new number of a project, above all the numbers there were, and all others are as before.
abbrev pub Places : ℕ → ℕ → ℕ → Rows WorkTask → Rows WorkTask → Type 0
Places id p k old new =
    (n : ℕ) (t' : WorkTask)
    → new n ≡ some t'
    → ((n ≡ id) × (t'.project_id ≡ some p) × (t'.project_ticket_no ≡ some k))
      ⊎ ((n ≢ id) × (old n ≡ some t'))

pub Places-Fits :
    (id p k : ℕ) (q q' : Project) (old new : Rows WorkTask) (ps qs : Rows Project)
    → Places id p k old new
    → Counts ps qs
    → ps p ≡ some q
    → q.ticket_counter < k
    → qs p ≡ some q'
    → k ≤ q'.ticket_counter
    → Fits old ps
    → Fits new qs
Places-Fits id p k q q' old new ps qs places counts row above row' below fits =
    let (low, single) = Counts-Fits old ps qs counts fits in
    let fresh : (n p' : ℕ) (t : WorkTask)
        → old n ≡ some t
        → t.project_id ≡ some p
        → t.project_ticket_no ≢ some k =
      λ n p' t h hp hk.
        let (r, there, le) = fits.0 n p k t h hp hk in
        let same : r ≡ q = ground (arith, (sym there ∙ row)) in
        let le' : k ≤ q.ticket_counter = rw same at le in omega (arith, le', above) in
    (
      λ n p' k' t h hp hk. elim (places n t h) [
        | inl (here, tp, tk) ↦
            let sp : p ≡ p' = ground (arith, (sym tp ∙ hp)) in
            let sk : k ≡ k' = ground (arith, (sym tk ∙ hk)) in
            (q', ap qs (sym sp) ∙ row', omega (arith, sk, below))
        | inr (there, h') ↦ low n p' k' t h' hp hk
      ],
      λ n m p' k' t u h h' hp hp' hk hk'. elim (places n t h) [
        | inl (here, tp, tk) ↦ elim (places m u h') [
          | inl (here', up, uk) ↦ here ∙ sym here'
          | inr (there', g') ↦ absurd (fresh m p' u g' (hp' ∙ sym hp ∙ tp) (hk' ∙ sym hk ∙ tk))
        ]
        | inr (there, g) ↦ elim (places m u h') [
          | inl (here', up, uk) ↦ absurd (fresh n p' t g (hp ∙ sym hp' ∙ up) (hk ∙ sym hk' ∙ uk))
          | inr (there', g') ↦ single n m p' k' t u g g' hp hp' hk hk'
        ]
      ],
    )

-- A change of one project that does not lower its counter.
pub update-Counts :
    (ps : Rows Project) (id : ℕ) (test : Project → Bool) (f : Project → Project)
    → ((q : Project) → q.ticket_counter ≤ (f q).ticket_counter)
    → Counts ps (update ps id test f)
update-Counts ps id test f more p q row = elim (Bool-cases (p == id)) [
  | inr other ↦ (q, rw other row, omega arith)
  | inl same ↦ elim (Bool-cases (test q)) [
    | inl e ↦ (f q, rw (same, row, e) refl, more q)
    | inr e ↦ (q, rw (same, row, e) refl, omega arith)
  ]
]

pub insert-Counts :
    (ps : Rows Project) (id : ℕ) (new : Project) → ps id ≡ none → Counts ps (insert_row ps id new)
insert-Counts ps id new missing p q row = elim (Bool-cases (p == id)) [
  | inr other ↦ (q, rw other row, omega arith)
  | inl same ↦ absurd (let here = (==_iff p id).0 same in let q = ap ps here in cc)
]

-- The number that is allocated, and the counter it comes from.
pub allocate-number :
    (ws id now k : ℕ) (db : Db)
    → number_of (select (counted ws id now db).projects id (project_in ws)) ≡ some k
    → (q : Project) × (db.projects id ≡ some q)
      × ((counted ws id now db).projects id ≡ some (count_up now q))
      × (k ≡ suc q.ticket_counter)
allocate-number ws id now k db h =
    let own : (id == id) ≡ true = ground arith in
    elim (Option-cases (db.projects id)) [
      | inl missing ↦ absurd (let g = rw (own, missing) at h in cc g)
      | inr (q, row) ↦ elim (Bool-cases (project_in ws q)) [
        | inl e ↦
            let positive : (suc q.ticket_counter == 0) ≡ false = ground arith in
            let g : some (suc q.ticket_counter) ≡ some k = rw (own, row, e, e, positive) at h in
            let same : suc q.ticket_counter ≡ k = ground (arith, g) in
            (q, row, rw (own, row, e) refl, sym same)
        | inr e ↦ absurd (let g = rw (own, row, e, e) at h in cc g)
      ]
    ]
