-- ===== src/Queue/Poll.antt =====
-- The handler GET. Between the SELECT of a candidate and its UPDATE another process may change the
-- table: `others` is what it does in each round.
use conductor_dashboard.Common.{
  ℕ, zero, suc, String, Bool, true, false, ◌&&◌, Option, none, some, List, any, filter, find,
  length, update_where, leb, ◌==◌, str_eq, if◌then◌else◌, text_truthy,
}
use conductor_dashboard.Task.{
  TaskStatus, inbox, assigned, in_progress, review, quality_review, done,
}
use conductor_dashboard.Queue.{TaskRow, before, fresher, first_by, agent_name, max_capacity}

pub data Answer : Type 0 where
  bad_request : Answer
  continue_current : TaskRow → Answer
  claimed : Option TaskRow → Answer  -- reason `assigned`; the row that is read back
  at_capacity : Answer
  no_tasks_available : Answer

abbrev pub is_in_progress : TaskStatus → Bool
is_in_progress in_progress = true
is_in_progress _ = false

-- status IN ('assigned', 'inbox')
abbrev pub is_open : TaskStatus → Bool
is_open inbox = true
is_open assigned = true
is_open in_progress = false
is_open review = false
is_open quality_review = false
is_open done = false

abbrev pub is_assignee : String → Option String → Bool
is_assignee agent none = false
is_assignee agent (some a) = str_eq a agent

-- assigned_to IS NULL OR assigned_to = ?
abbrev pub is_free_for : String → Option String → Bool
is_free_for agent none = true
is_free_for agent (some a) = str_eq a agent

unfoldable pub is_current : ℕ → String → TaskRow → Bool
is_current ws agent t =
    t.workspace_id == ws && (is_assignee agent t.assigned_to && is_in_progress t.status)

unfoldable pub is_claimable : ℕ → String → TaskRow → Bool
is_claimable ws agent t =
    t.workspace_id == ws && (is_open t.status && is_free_for agent t.assigned_to)

abbrev pub claim : String → ℕ → TaskRow → TaskRow
claim agent now t = record t { status = in_progress; assigned_to = some agent; updated_at = now }

-- WHERE id = ? AND workspace_id = ?
abbrev pub is_row : ℕ → ℕ → TaskRow → Bool
is_row id ws t = t.id == id && t.workspace_id == ws

abbrev pub is_claimed_row : ℕ → ℕ → String → TaskRow → Bool
is_claimed_row id ws agent t = t.id == id && is_claimable ws agent t

-- UPDATE … and `changes > 0`
unfoldable pub update_claim : ℕ → ℕ → String → ℕ → List TaskRow → List TaskRow × Bool
unfolding is_claimable
update_claim id ws agent now ts = (
  update_where (is_claimed_row id ws agent) (claim agent now) ts,
  any (is_claimed_row id ws agent) ts,
)

unfoldable pub candidate : ℕ → String → List TaskRow → Option TaskRow
unfolding is_claimable before
candidate ws agent ts = first_by before (filter (is_claimable ws agent) ts)

-- What is left of a round once the UPDATE is done: read the row back, or go on.
abbrev pub finish_round :
    ℕ → ℕ → List TaskRow × Bool → List TaskRow × Answer → List TaskRow × Answer
finish_round id ws (ts, true) rest = (ts, claimed (find (is_row id ws) ts))
finish_round id ws (ts, false) rest = rest

-- A round with a candidate or without one; `ts` is the table when the UPDATE runs, and `again` the rest
-- of the loop.
unfoldable pub pick :
    ℕ
    → String
    → ℕ
    → List TaskRow
    → List TaskRow
    → (List TaskRow → List TaskRow × Answer)
    → Option TaskRow
    → List TaskRow × Answer
unfolding update_claim
pick ws agent now seen ts again none = (seen, no_tasks_available)
pick ws agent now seen ts again (some c) =
    let tried = update_claim c.id ws agent now ts in finish_round c.id ws tried (again tried.0)

-- The pickup loop, with `n` rounds left; `i` is `attempt`.
unfoldable pub pick_up :
    ℕ
    → ℕ
    → ℕ
    → String
    → ℕ
    → (ℕ → List TaskRow → List TaskRow)
    → List TaskRow
    → List TaskRow × Answer
unfolding candidate pick
pick_up zero i ws agent now others ts = (ts, no_tasks_available)
pick_up (suc n) i ws agent now others ts =
    pick ws agent now ts (others i ts) (λ u. pick_up n (suc i) ws agent now others u)
      (candidate ws agent ts)

unfoldable pub poll_free :
    ℕ → ℕ → String → ℕ → (ℕ → List TaskRow → List TaskRow) → List TaskRow → List TaskRow × Answer
unfolding is_current pick_up
poll_free max ws agent now others ts =
    if leb max (length (filter (is_current ws agent) ts))
    then (ts, at_capacity)
    else pick_up 5 0 ws agent now others ts

abbrev pub continue_or :
    Option TaskRow → List TaskRow → List TaskRow × Answer → List TaskRow × Answer
continue_or none ts rest = rest
continue_or (some t) ts rest = (ts, continue_current t)

-- The poll of an agent with a valid capacity.
unfoldable pub poll :
    ℕ → ℕ → String → ℕ → (ℕ → List TaskRow → List TaskRow) → List TaskRow → List TaskRow × Answer
unfolding fresher is_current poll_free
poll max ws agent now others ts =
    continue_or (first_by fresher (filter (is_current ws agent) ts)) ts
      (poll_free max ws agent now others ts)

unfoldable pub poll_checked :
    Option ℕ
    → ℕ
    → String
    → ℕ
    → (ℕ → List TaskRow → List TaskRow)
    → List TaskRow
    → List TaskRow × Answer
unfolding poll
poll_checked none ws agent now others ts = (ts, bad_request)
poll_checked (some max) ws agent now others ts = poll max ws agent now others ts

-- GET, for a caller of workspace `ws`.
unfoldable pub get :
    Option String
    → Option String
    → Option String
    → ℕ
    → ℕ
    → (ℕ → List TaskRow → List TaskRow)
    → List TaskRow
    → List TaskRow × Answer
unfolding agent_name max_capacity poll_checked
get param header capacity ws now others ts =
    let agent = agent_name param header in
    if text_truthy agent
    then poll_checked (max_capacity capacity) ws agent now others ts
    else (ts, bad_request)
