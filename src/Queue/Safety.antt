-- ===== src/Queue/Safety.antt =====
-- What a poll never changes, and the answer that it never gives.
use conductor_dashboard.Common.{
  ℕ, zero, suc, ◌≤◌, ◌≡◌, refl, sym, ap, ◌∙◌, inl, inr, String, Bool, true, false, ◌&&◌, Option,
  none, some, List, [], ◌∷◌, arith, find, filter, length, leb, ◌==◌, Bool-cases, Option-cases, All,
}
use conductor_dashboard.Queue.{TaskRow, first_by, fresher}
use conductor_dashboard.Queue.Order.{first_by-none}
use conductor_dashboard.Queue.Poll.{
  Answer, is_current, is_claimable, is_claimed_row, update_claim, candidate, finish_round, pick,
  pick_up, poll_free, poll,
}

abbrev pub by_id : ℕ → TaskRow → Bool
by_id id t = t.id == id

abbrev pub row : ℕ → List TaskRow → Option TaskRow
row id ts = find (by_id id) ts

-- Ids are unique.
abbrev pub Unique : List TaskRow → Type 0
Unique ts = All (λ t. row t.id ts ≡ some t) ts

and_false : (a b : Bool) → b ≡ false → (a && b) ≡ false
and_false true b h = h
and_false false b h = refl

-- The UPDATE of a claim leaves a row that the agent may not claim.
find-update_claim :
    (k id ws now : ℕ) (agent : String) (t : TaskRow) (ts : List TaskRow)
    → is_claimable ws agent t ≡ false
    → row id ts ≡ some t
    → row id (update_claim k ws agent now ts).0 ≡ some t
unfolding update_claim
find-update_claim k id ws now agent t [] barred h = h
find-update_claim k id ws now agent t (u ∷ us) barred h = elim (Bool-cases (by_id id u)) [
  | inl e ↦
      let same : u ≡ t = let q = rw e at h in ground (arith, q) in
      let missed : is_claimed_row k ws agent u ≡ false =
        rw same (and_false (by_id k t) (is_claimable ws agent t) barred) in
      rw (missed, e) (ap some same)
  | inr e ↦
      let rest = find-update_claim k id ws now agent t us barred (rw e at h) in
      elim (Bool-cases (is_claimed_row k ws agent u)) [
        | inl hit ↦ rw (hit, e) rest
        | inr miss ↦ rw (miss, e) rest
      ]
]

finish_round-keeps :
    (id k ws : ℕ) (t : TaskRow) (tried : List TaskRow × Bool) (rest : List TaskRow × Answer)
    → row id tried.0 ≡ some t
    → row id rest.0 ≡ some t
    → row id (finish_round k ws tried rest).0 ≡ some t
finish_round-keeps id k ws t (ts, true) rest h r = h
finish_round-keeps id k ws t (ts, false) rest h r = r

pick-keeps :
    (id ws now : ℕ) (agent : String) (t : TaskRow) (seen ts : List TaskRow)
    (again : List TaskRow → List TaskRow × Answer) (c : Option TaskRow)
    → is_claimable ws agent t ≡ false
    → row id seen ≡ some t
    → row id ts ≡ some t
    → ((us : List TaskRow) → row id us ≡ some t → row id (again us).0 ≡ some t)
    → row id (pick ws agent now seen ts again c).0 ≡ some t
unfolding pick
pick-keeps id ws now agent t seen ts again none barred s h k = s
pick-keeps id ws now agent t seen ts again (some c) barred s h k =
    let kept = find-update_claim c.id id ws now agent t ts barred h in
    finish_round-keeps id c.id ws t (update_claim c.id ws agent now ts)
      (again (update_claim c.id ws agent now ts).0) kept
      (k (update_claim c.id ws agent now ts).0 kept)

pick_up-keeps :
    (n i id ws now : ℕ) (agent : String) (t : TaskRow) (others : ℕ → List TaskRow → List TaskRow)
    (ts : List TaskRow)
    → is_claimable ws agent t ≡ false
    → ((i : ℕ) (us : List TaskRow) → row id us ≡ some t → row id (others i us) ≡ some t)
    → row id ts ≡ some t
    → row id (pick_up n i ws agent now others ts).0 ≡ some t
unfolding pick_up pick
pick_up-keeps zero i id ws now agent t others ts barred quiet h = h
pick_up-keeps (suc n) i id ws now agent t others ts barred quiet h =
    pick-keeps id ws now agent t ts (others i ts) (λ u. pick_up n (suc i) ws agent now others u)
      (candidate ws agent ts) barred h (quiet i ts h)
      (λ us k. pick_up-keeps n (suc i) id ws now agent t others us barred quiet k)

-- A poll never changes a task that the agent may not claim: one of another workspace, assigned to
-- another agent, or neither in the inbox nor assigned. This holds in every interleaving with processes
-- that leave the task alone themselves.
pub poll-keeps :
    (max ws now id : ℕ) (agent : String) (t : TaskRow) (others : ℕ → List TaskRow → List TaskRow)
    (ts : List TaskRow)
    → is_claimable ws agent t ≡ false
    → ((i : ℕ) (us : List TaskRow) → row id us ≡ some t → row id (others i us) ≡ some t)
    → row id ts ≡ some t
    → row id (poll max ws agent now others ts).0 ≡ some t
unfolding poll poll_free
poll-keeps max ws now id agent t others ts barred quiet h =
    elim (Option-cases (first_by fresher (filter (is_current ws agent) ts))) [
      | inl e ↦ rw e (elim (Bool-cases (leb max (length (filter (is_current ws agent) ts)))) [
        | inl full ↦ rw full h
        | inr room ↦ rw room (pick_up-keeps 5 0 id ws now agent t others ts barred quiet h)
      ])
      | inr (c, e) ↦ rw e h
    ]

poll_free_room :
    (m ws now : ℕ) (agent : String) (others : ℕ → List TaskRow → List TaskRow) (ts : List TaskRow)
    → filter (is_current ws agent) ts ≡ []
    → 1 ≤ m
    → poll_free m ws agent now others ts ≡ pick_up 5 0 ws agent now others ts
unfolding poll_free pick_up
poll_free_room m ws now agent others ts empty h =
    let low : leb m 0 ≡ false = ground arith in rw (empty, low) refl

-- The capacity has no effect: whatever valid capacity an agent asks for, the poll does and answers the
-- same, since an agent with a task in progress gets that task whatever its capacity.
pub poll_capacity :
    (m n ws now : ℕ) (agent : String) (others : ℕ → List TaskRow → List TaskRow) (ts : List TaskRow)
    → 1 ≤ m
    → 1 ≤ n
    → poll m ws agent now others ts ≡ poll n ws agent now others ts
unfolding poll poll_free
poll_capacity m n ws now agent others ts hm hn =
    elim (Option-cases (first_by fresher (filter (is_current ws agent) ts))) [
      | inl e ↦
          let empty = first_by-none fresher (filter (is_current ws agent) ts) e in
          rw e (
            poll_free_room m ws now agent others ts empty hm
            ∙ sym (poll_free_room n ws now agent others ts empty hn))
      | inr (c, e) ↦ rw e refl
    ]
