-- ===== src/Queue/Tests.antt =====
-- Polls of a small table, and the theorems at it.
use conductor_dashboard.Common.{ℕ, ◌≡◌, refl, none, some, List, [], ◌∷◌, arith}
use conductor_dashboard.Task.{inbox, assigned, in_progress}
use conductor_dashboard.Queue.{TaskRow, low, high, urgent, max_capacity}
use conductor_dashboard.Queue.Poll.{claimed, is_claimable, is_current, poll, get, claim}
use conductor_dashboard.Queue.Safety.{row, poll-keeps}
use conductor_dashboard.Queue.Choice.{IsOutcome, poll-IsOutcome}

abbrev free : TaskRow
free = record {
  id = 1;
  workspace_id = 1;
  status = inbox;
  priority = low;
  assigned_to = none;
  due_date = none;
  created_at = 5;
  updated_at = 5;
}

abbrev important : TaskRow
important = record free { id = 2; priority = high; status = assigned; assigned_to = some "bob" }

abbrev taken : TaskRow
taken = record free { id = 3; status = in_progress; assigned_to = some "ann" }

abbrev table : List TaskRow
table = free ∷ important ∷ taken ∷ []

abbrev quiet : ℕ → List TaskRow → List TaskRow
quiet i ts = ts

bob_gets :
    (get (some " bob ") none none 1 9 quiet table).1 ≡ claimed (some (claim "bob" 9 important))
unfolding get
bob_gets = refl

capacity_21 : max_capacity (some "21") ≡ none
unfolding max_capacity
capacity_21 = refl

poll-keeps_example : row 3 (poll 1 1 "bob" 9 quiet table).0 ≡ some taken
unfolding is_claimable
poll-keeps_example = poll-keeps 1 1 9 3 "bob" taken quiet table refl (λ i us h. h) refl

poll-IsOutcome_example : IsOutcome 1 9 "bob" table (poll 1 1 "bob" 9 quiet table).1
unfolding is_current
poll-IsOutcome_example =
    poll-IsOutcome 1 1 9 "bob" table (omega arith) (refl, (refl, (refl, tt))) refl

abbrev pressing : TaskRow
pressing = record free { id = 4; priority = urgent }
