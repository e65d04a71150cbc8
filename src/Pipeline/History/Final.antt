-- ===== src/Pipeline/History/Final.antt =====
-- A run that has ended, and for which nothing waits, is not touched again.
use conductor_dashboard.Common.{
  ℕ, ◌≡◌, ◌≢◌, ◌<◌, ◌⊎◌, refl, ◌∙◌, inl, inr, false, Option, none, some, List, [], ◌∷◌, All, arith,
  subst, sym, Bool-cases, Rows, insert_row,
}
use conductor_dashboard.Pipeline.{Run, Db}
use conductor_dashboard.Pipeline.Spawn.{Spawned, child}
use conductor_dashboard.Pipeline.Ops.{
  Wait, Begun, responds, returns, awaits, pending_of, on_exit, on_error,
}
use conductor_dashboard.Pipeline.Control.{post}
use conductor_dashboard.Pipeline.History.{
  System, Event, request, exited, errored, spawned, launch, begun, go_on, handle, play, Idle,
}
use conductor_dashboard.Pipeline.History.Kept.{Kept, Kept-refl, Apart, resume-Kept}
use conductor_dashboard.Pipeline.History.Invariant.{concerns, insert_cases, remove_cases}
use conductor_dashboard.Pipeline.History.Sound.{first_part, first_part-Apart}
use conductor_dashboard.Pipeline.History.Inert.{IsEnded, Inert, cancels, near-Apart}

module _ (n : ℕ) where
  abbrev Untouched : Db → System → Type 0
  Untouched db s = Kept n db s.db × Idle n s.waiting

  insert-Idle :
      (waiting : Rows Wait) (next : ℕ) (w : Wait)
      → n ≢ (pending_of w).run
      → Idle n waiting
      → Idle n (insert_row waiting next w)
  insert-Idle waiting next w far idle k v e q = elim (insert_cases waiting next k w v e) [
    | inl (here, same) ↦ far (subst (λ x. n ≡ (pending_of x).run) (sym same) q)
    | inr old ↦ idle k v old q
  ]

  begun-Untouched :
      (ms : ℕ) (waiting : Rows Wait) (next : ℕ) (r : Db × Begun) (db : Db)
      → Apart n db r
      → Idle n waiting
      → Untouched db (begun ms waiting next r)
  unfolding begun launch
  begun-Untouched ms waiting next (db', responds a) db (kept, far) idle = (kept, idle)
  begun-Untouched ms waiting next (db', returns) db (kept, far) idle = (kept, idle)
  begun-Untouched ms waiting next (db', awaits w) db (kept, far) idle =
      elim (Bool-cases (pending_of w).spawns) [
        | inl e ↦ rw e (kept, insert-Idle waiting next w far idle)
        | inr e ↦
            let more = resume-Kept n ms (child none) w db' far in
            rw e ((more.0 ∙ kept.0, omega (arith, more.1, kept.1)), idle)
      ]

  go_on-Untouched :
      (ms k : ℕ) (sp : Spawned) (s : System) (o : Option Wait)
      → s.waiting k ≡ o
      → Idle n s.waiting
      → Untouched s.db (go_on ms k sp o s)
  go_on-Untouched ms k sp s none e idle = (Kept-refl n s.db, idle)
  go_on-Untouched ms k sp s (some w) e idle = (
    resume-Kept n ms sp w s.db (idle k w e),
    λ k' w' e'. idle k' w' (remove_cases s.waiting k k' w' e').1,
  )

  handle-Untouched :
      (e : Event) (s : System)
      → Apart n s.db (first_part e s.db)
      → Idle n s.waiting
      → Untouched s.db (handle e s)
  unfolding handle first_part
  handle-Untouched (request ms by ws action) s far idle =
      begun-Untouched ms s.waiting s.next_wait (post ms by ws action s.db) s.db far idle
  handle-Untouched (exited ms run i code ws auto) s far idle =
      begun-Untouched ms s.waiting s.next_wait (on_exit ms run i code ws auto s.db) s.db far idle
  handle-Untouched (errored ms run i message ws auto) s far idle =
      begun-Untouched ms s.waiting s.next_wait (on_error ms run i message ws auto s.db) s.db far
        idle
  handle-Untouched (spawned ms k sp) s far idle = go_on-Untouched ms k sp s (s.waiting k) refl idle

  pub play-Inert :
      (r : Run) (es : List Event) (s : System)
      → s.db.runs n ≡ some r
      → Inert r
      → n < s.db.next_run
      → Idle n s.waiting
      → IsEnded r.status ⊎ All (λ e. cancels n e ≡ false) es
      → (play es s).db.runs n ≡ some r
  unfolding play
  play-Inert r [] s there inert old idle safe = there
  play-Inert r (e ∷ es) s there inert old idle safe =
      let far : Apart n s.db (first_part e s.db) = elim (Bool-cases (concerns n e s.db)) [
        | inl near ↦
            near-Apart n r s.db there e inert old
              (λ c. elim safe [ inl over ↦ over | inr spared ↦ absurd (cc (spared.0)) ]) near
        | inr away ↦ first_part-Apart n e s.db away
      ] in
      let ((same, grows), idle') = handle-Untouched e s far idle in
      play-Inert r es (handle e s) (same ∙ there) inert (omega arith) idle'
        (elim safe [ inl over ↦ inl over | inr spared ↦ inr (spared.1) ])

-- A run that is completed, failed or cancelled, and for which no operation waits for a spawn, is
-- never changed again: whatever requests, exits, failed and made spawns follow, in any order and in
-- any workspace, no field of its row changes. (Its id was handed out: it is below the next.)
pub play-ended :
    (n : ℕ) (r : Run) (es : List Event) (s : System)
    → s.db.runs n ≡ some r
    → IsEnded r.status
    → n < s.db.next_run
    → Idle n s.waiting
    → (play es s).db.runs n ≡ some r
play-ended n r es s there over old idle =
    play-Inert n r es s there (inl (ground arith)) old idle (inl over)
