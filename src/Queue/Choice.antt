-- ===== src/Queue/Choice.antt =====
-- Which task a poll claims.
use conductor_dashboard.Common.{
  ℕ, suc, ◌≤◌, ◌≡◌, ◌⊎◌, refl, ap, inl, inr, String, Bool, true, false, Option, some, List, [], ◌∷◌,
  arith, find, filter, filter-All, All-filter, leb, ◌==◌, ==_refl, Bool-cases, Option-cases, All,
}
use conductor_dashboard.Queue.{
  TaskRow, Priority, critical, high, medium, low, urgent, other, priority_rank, then_by, before,
}
use conductor_dashboard.Queue.Order.{
  All-weaken, first_by-none, first_by_passes, first_by-All, before-IsWeakOrder,
}
use conductor_dashboard.Queue.Poll.{
  Answer, is_current, is_claimable, is_row, claim, update_claim, candidate, finish_round, pick,
  pick_up, poll_free, poll, no_tasks_available, claimed,
}
use conductor_dashboard.Queue.Safety.{by_id, row, Unique}

-- The row that is claimed: one of the table that the agent may claim, and no such row sorts before it.
abbrev pub IsNext : ℕ → String → List TaskRow → TaskRow → Type 0
IsNext ws agent ts c =
    (row c.id ts ≡ some c)
    × (is_claimable ws agent c ≡ true)
    × All (λ t. before t c ≡ false) (filter (is_claimable ws agent) ts)

candidate-IsNext :
    (ws : ℕ) (agent : String) (ts : List TaskRow) (c : TaskRow)
    → Unique ts
    → candidate ws agent ts ≡ some c
    → IsNext ws agent ts c
unfolding candidate
candidate-IsNext ws agent ts c once h = (
  first_by_passes before (λ t. row t.id ts ≡ some t) (filter (is_claimable ws agent) ts) c
      (All-filter (λ t. row t.id ts ≡ some t) (is_claimable ws agent) ts once) h,
  first_by_passes before (λ t. is_claimable ws agent t ≡ true) (filter (is_claimable ws agent) ts) c
      (filter-All (is_claimable ws agent) ts) h,
  first_by-All before (filter (is_claimable ws agent) ts) c before-IsWeakOrder h,
)

claimed-workspace :
    (ws : ℕ) (agent : String) (c : TaskRow)
    → is_claimable ws agent c ≡ true
    → (c.workspace_id == ws) ≡ true
unfolding is_claimable
claimed-workspace ws agent c h = ground arith

-- The UPDATE hits the candidate, and the row that is read back is it, claimed.
update_claim-candidate :
    (ws now : ℕ) (agent : String) (c : TaskRow) (ts : List TaskRow)
    → row c.id ts ≡ some c
    → is_claimable ws agent c ≡ true
    → ((update_claim c.id ws agent now ts).1 ≡ true)
      × (find (is_row c.id ws) (update_claim c.id ws agent now ts).0 ≡ some (claim agent now c))
unfolding update_claim
update_claim-candidate ws now agent c [] h k = absurd (cc)
update_claim-candidate ws now agent c (t ∷ ts) h k = elim (Bool-cases (by_id c.id t)) [
  | inl e ↦
      let same : t ≡ c = let q = rw e at h in ground (arith, q) in
      let there = claimed-workspace ws agent c k in
      rw (same, ==_refl c.id, k, there) (refl, rw (==_refl c.id) refl)
  | inr e ↦
      let rest = update_claim-candidate ws now agent c ts (rw e at h) k in
      let missed : is_row c.id ws t ≡ false = rw e refl in rw e (rest.0, rw missed rest.1)
]

-- The outcome of a poll: nothing to claim, or the next task claimed.
abbrev pub IsOutcome : ℕ → ℕ → String → List TaskRow → Answer → Type 0
IsOutcome ws now agent ts a =
    ((a ≡ no_tasks_available) × (filter (is_claimable ws agent) ts ≡ []))
    ⊎ ((c : TaskRow) × (a ≡ claimed (some (claim agent now c))) × IsNext ws agent ts c)

finish_round_hit :
    (k ws : ℕ) (tried : List TaskRow × Bool) (rest : List TaskRow × Answer) (o : Option TaskRow)
    → tried.1 ≡ true
    → find (is_row k ws) tried.0 ≡ o
    → (finish_round k ws tried rest).1 ≡ claimed o
finish_round_hit k ws (ts, true) rest o h found = ap claimed found
finish_round_hit k ws (ts, false) rest o h found = absurd (cc)

pick_up-IsOutcome :
    (n ws now : ℕ) (agent : String) (ts : List TaskRow)
    → Unique ts
    → IsOutcome ws now agent ts (pick_up (suc n) 0 ws agent now (λ i us. us) ts).1
unfolding pick_up pick candidate
pick_up-IsOutcome n ws now agent ts once = elim (Option-cases (candidate ws agent ts)) [
  | inl e ↦ rw e (inl (refl, first_by-none before (filter (is_claimable ws agent) ts) e))
  | inr (c, e) ↦
      let next = candidate-IsNext ws agent ts c once e in
      let (hit, found) = update_claim-candidate ws now agent c ts next.0 next.1 in
      rw e (
        inr (
          c,
          finish_round_hit c.id ws (update_claim c.id ws agent now ts)
              (pick_up n 1 ws agent now (λ i us. us) (update_claim c.id ws agent now ts).0)
              (some (claim agent now c)) hit found,
          next,
        ))
]

-- With no task in progress and no other process at work, an agent that polls a table of unique ids gets
-- the next task, claimed for it, and gets none only if there is none that it may claim. The next task
-- is one that no claimable task sorts before.
pub poll-IsOutcome :
    (max ws now : ℕ) (agent : String) (ts : List TaskRow)
    → 1 ≤ max
    → Unique ts
    → filter (is_current ws agent) ts ≡ []
    → IsOutcome ws now agent ts (poll max ws agent now (λ i us. us) ts).1
unfolding poll poll_free
poll-IsOutcome max ws now agent ts room once idle =
    let low : leb max 0 ≡ false = ground arith in
    rw (idle, low) (pick_up-IsOutcome 4 ws now agent ts once)

rank_le_four : (p : Priority) → priority_rank p ≤ 4
unfolding priority_rank
rank_le_four critical = omega arith
rank_le_four high = omega arith
rank_le_four medium = omega arith
rank_le_four low = omega arith
rank_le_four urgent = omega arith
rank_le_four other = omega arith

then_by-false : (a b : ℕ) (rest : Bool) → then_by a b rest ≡ false → b ≤ a
then_by-false a b rest h = ground (arith, h)

rank_four :
    (t c : TaskRow) → c.priority ≡ urgent → before t c ≡ false → priority_rank t.priority ≡ 4
unfolding before
rank_four t c u h =
    let low : priority_rank c.priority ≤ priority_rank t.priority =
      then_by-false (priority_rank t.priority) (priority_rank c.priority) _ h in
    let four : priority_rank c.priority ≡ 4 = rw u refl in
    let high = rank_le_four t.priority in omega (arith, low, four, high)

-- An urgent task waits for every other: it is chosen only where every task that the agent may claim is
-- urgent or of no known priority.
pub urgent-is-last :
    (ws : ℕ) (agent : String) (ts : List TaskRow) (c : TaskRow)
    → c.priority ≡ urgent
    → IsNext ws agent ts c
    → All (λ t. priority_rank t.priority ≡ 4) (filter (is_claimable ws agent) ts)
unfolding priority_rank
urgent-is-last ws agent ts c u (found, may, best) =
    All-weaken (λ t. before t c ≡ false) (λ t. priority_rank t.priority ≡ 4)
      (filter (is_claimable ws agent) ts) (λ t h. rank_four t c u h) best
