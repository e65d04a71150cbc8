-- ===== src/Pipeline/History/Invariant.antt =====
-- A run that nothing disturbs while an operation on it waits.
use conductor_dashboard.Common.{
  ℕ, ◌≡◌, ◌≢◌, sym, subst, ◌∙◌, ◌⊎◌, inl, inr, Bool, true, false, Option, none, some, List, [], ◌∷◌,
  arith, Bool-cases, Rows, insert_row, remove_row, ◌==◌,
}
use conductor_dashboard.Pipeline.{Db}
use conductor_dashboard.Pipeline.Spawn.{Spawned, child}
use conductor_dashboard.Pipeline.Ops.{Wait, Begun, responds, returns, awaits, pending_of}
use conductor_dashboard.Pipeline.Control.{start, advance, cancel, other, resume}
use conductor_dashboard.Pipeline.Invariant.{SoundAt, Ready, Good, resume-SoundAt}
use conductor_dashboard.Pipeline.History.{
  System, Event, request, exited, errored, spawned, launch, begun, go_on, handle, Idle,
}
use conductor_dashboard.Pipeline.History.Kept.{Kept, Apart, resume-Kept}

-- Whether an event begins an operation on the run `n`.
unfoldable pub concerns : ℕ → Event → Db → Bool
concerns n (request ms by ws (start pipeline context task auto)) db = n == db.next_run
concerns n (request ms by ws (advance run success error)) db = n == run
concerns n (request ms by ws (cancel run)) db = n == run
concerns n (request ms by ws other) db = false
concerns n (exited ms run i code ws auto) db = n == run
concerns n (errored ms run i message ws auto) db = n == run
concerns n (spawned ms k sp) db = false

-- No operation on the run `n` begins while another one on it waits for its spawn.
abbrev pub Undisturbed : ℕ → List Event → System → Type 0
Undisturbed n [] s = Unit
Undisturbed n (e ∷ es) s =
    (concerns n e s.db ≡ true → Idle n s.waiting) × Undisturbed n es (handle e s)

pub insert_cases :
    (t : Rows Wait) (id k : ℕ) (a b : Wait)
    → insert_row t id a k ≡ some b
    → ((k ≡ id) × (a ≡ b)) ⊎ (t k ≡ some b)
insert_cases t id k a b e = ground arith

pub remove_cases :
    (t : Rows Wait) (id k : ℕ) (b : Wait) → remove_row t id k ≡ some b → (k ≢ id) × (t k ≡ some b)
remove_cases t id k b e = (ground arith, ground arith)

module _ (n : ℕ) where
  -- The run is sound, at most one operation on it waits, and the run is as that one left it.
  abbrev pub Inv : Db → Rows Wait → Type 0
  Inv db waiting =
      SoundAt n db
      × ((k : ℕ) (w : Wait) → waiting k ≡ some w → n ≡ (pending_of w).run → Ready n w db)
      × ((k k' : ℕ) (w w' : Wait)
          → waiting k ≡ some w
          → waiting k' ≡ some w'
          → n ≡ (pending_of w).run
          → n ≡ (pending_of w').run
          → k ≡ k')

  pub Idle-Inv : (db : Db) (waiting : Rows Wait) → SoundAt n db → Idle n waiting → Inv db waiting
  Idle-Inv db waiting h idle =
      (h, λ k w e q. absurd (idle k w e q), λ k k' w w' e e' q q'. absurd (idle k w e q))

  Kept-Inv : (db db' : Db) (waiting : Rows Wait) → Kept n db db' → Inv db waiting → Inv db' waiting
  Kept-Inv db db' waiting (same, grows) (h, ready, single) = (
    λ a e. h a (sym same ∙ e),
    λ k w e q. let (fits, runs) = ready k w e q in (fits, λ a f. runs a (sym same ∙ f)),
    single,
  )

  -- One more operation waits, on another run.
  insert-Inv :
      (db : Db) (waiting : Rows Wait) (next : ℕ) (w : Wait)
      → n ≢ (pending_of w).run
      → Inv db waiting
      → Inv db (insert_row waiting next w)
  insert-Inv db waiting next w far (h, ready, single) = (
    h,
    λ k v e q. elim (insert_cases waiting next k w v e) [
      | inl (here, same) ↦ absurd (far (subst (λ x. n ≡ (pending_of x).run) (sym same) q))
      | inr old ↦ ready k v old q
    ],
    λ k k' v v' e e' q q'. elim (insert_cases waiting next k w v e) [
      | inl (here, same) ↦ absurd (far (subst (λ x. n ≡ (pending_of x).run) (sym same) q))
      | inr old ↦ elim (insert_cases waiting next k' w v' e') [
        | inl (here, same) ↦ absurd (far (subst (λ x. n ≡ (pending_of x).run) (sym same) q'))
        | inr old' ↦ single k k' v v' old old' q q'
      ]
    ],
  )

  -- The one operation that waits on the run.
  insert-first-Inv :
      (db : Db) (waiting : Rows Wait) (next : ℕ) (w : Wait)
      → SoundAt n db
      → Ready n w db
      → Idle n waiting
      → Inv db (insert_row waiting next w)
  insert-first-Inv db waiting next w h ready idle =
      let here : (k : ℕ) (v : Wait)
          → insert_row waiting next w k ≡ some v
          → n ≡ (pending_of v).run
          → (k ≡ next) × (w ≡ v) =
        λ k v e q. elim (insert_cases waiting next k w v e) [
          | inl at ↦ at
          | inr old ↦ absurd (idle k v old q)
        ] in
      (
        h,
        λ k v e q. subst (λ x. Ready n x db) (here k v e q).1 ready,
        λ k k' v v' e e' q q'. (here k v e q).0 ∙ sym (here k' v' e' q').0,
      )

  resume-at-SoundAt :
      (ms : ℕ) (sp : Spawned) (w : Wait) (db : Db)
      → n ≡ (pending_of w).run
      → SoundAt n db
      → Ready n w db
      → SoundAt n (resume ms sp w db).0
  resume-at-SoundAt ms sp w db q =
      subst (λ m. SoundAt m db → Ready m w db → SoundAt m (resume ms sp w db).0) (sym q)
        (resume-SoundAt ms sp w db)

  abbrev InvOf : System → Type 0
  InvOf s = Inv s.db s.waiting

  pub begun-Apart-Inv :
      (ms : ℕ) (waiting : Rows Wait) (next : ℕ) (r : Db × Begun) (db : Db)
      → Apart n db r
      → Inv db waiting
      → InvOf (begun ms waiting next r)
  unfolding begun launch
  begun-Apart-Inv ms waiting next (db', responds a) db (kept, far) v =
      Kept-Inv db db' waiting kept v
  begun-Apart-Inv ms waiting next (db', returns) db (kept, far) v = Kept-Inv db db' waiting kept v
  begun-Apart-Inv ms waiting next (db', awaits w) db (kept, far) v =
      let v' = Kept-Inv db db' waiting kept v in
      elim (Bool-cases (pending_of w).spawns) [
        | inl e ↦ rw e (insert-Inv db' waiting next w far v')
        | inr e ↦ rw e (
            Kept-Inv db' (resume ms (child none) w db').0 waiting
              (resume-Kept n ms (child none) w db' far) v')
      ]

  pub begun-Good-Inv :
      (ms : ℕ) (waiting : Rows Wait) (next : ℕ) (r : Db × Begun)
      → Good n r
      → Idle n waiting
      → InvOf (begun ms waiting next r)
  unfolding begun launch
  begun-Good-Inv ms waiting next (db', responds a) (h, ready) idle = Idle-Inv db' waiting h idle
  begun-Good-Inv ms waiting next (db', returns) (h, ready) idle = Idle-Inv db' waiting h idle
  begun-Good-Inv ms waiting next (db', awaits w) (h, (here, ready)) idle =
      elim (Bool-cases (pending_of w).spawns) [
        | inl e ↦ rw e (insert-first-Inv db' waiting next w h ready idle)
        | inr e ↦ rw e (
            Idle-Inv (resume ms (child none) w db').0 waiting
              (resume-at-SoundAt ms (child none) w db' here h ready) idle)
      ]

  -- An operation goes on.
  pub go_on-Inv :
      (ms k : ℕ) (sp : Spawned) (s : System) (o : Option Wait)
      → s.waiting k ≡ o
      → InvOf s
      → InvOf (go_on ms k sp o s)
  go_on-Inv ms k sp s none e v = v
  go_on-Inv ms k sp s (some w) e (h, ready, single) = elim (Bool-cases (n == (pending_of w).run)) [
    | inl here ↦
        let q : n ≡ (pending_of w).run = ground arith in
        Idle-Inv (resume ms sp w s.db).0 (remove_row s.waiting k)
          (resume-at-SoundAt ms sp w s.db q h (ready k w e q))
          (λ k' w' e' q'.
            let (apart, old) = remove_cases s.waiting k k' w' e' in
            apart (single k' k w' w old e q' q))
    | inr there ↦
        let far : n ≢ (pending_of w).run = ground arith in
        Kept-Inv s.db (resume ms sp w s.db).0 (remove_row s.waiting k)
          (resume-Kept n ms sp w s.db far)
          (
            h,
            λ k' w' e' q. ready k' w' (remove_cases s.waiting k k' w' e').1 q,
            λ k1 k2 w1 w2 e1 e2.
                single k1 k2 w1 w2 (remove_cases s.waiting k k1 w1 e1).1
                  (remove_cases s.waiting k k2 w2 e2).1,
          )
  ]
