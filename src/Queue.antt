-- ===== src/Queue.antt =====
-- app/api/tasks/queue/route.ts: an agent polls for its next task. The table of tasks is a list in the
-- order of its scan; columns that the route only returns are left out.
pub mod Poll
pub mod Order
pub mod Safety
pub mod Choice
mod Tests
use Prim.Native.Char.{code}
use Prim.Native.String
use conductor_dashboard.Common.{
  ℕ, zero, suc, ◌+◌, ◌-◌, ◌*◌, String, Bool, true, false, not, ◌&&◌, ◌||◌, Option, none, some, List,
  [], ◌∷◌, ltb, leb, ◌==◌, str_eq, if◌then◌else◌, trim, text_truthy,
}
use conductor_dashboard.Task.{TaskStatus, inbox, assigned, in_progress}

-- The column is a text; `other` is any text that the others are not.
pub data Priority : Type 0 where
  critical high medium low urgent other : Priority

pub record TaskRow : Type 0 where
  pub id : ℕ
  pub workspace_id : ℕ
  pub status : TaskStatus
  pub priority : Priority
  pub assigned_to : Option String
  pub due_date : Option ℕ
  pub created_at : ℕ
  pub updated_at : ℕ

-- priorityRankSql
unfoldable pub priority_rank : Priority → ℕ
priority_rank critical = 0
priority_rank high = 1
priority_rank medium = 2
priority_rank low = 3
priority_rank urgent = 4
priority_rank other = 4

-- A sort by one column, and by `rest` among equals.
abbrev pub then_by : ℕ → ℕ → Bool → Bool
then_by a b rest = ltb a b || (a == b && rest)

-- NULLS LAST
abbrev pub null_rank : Option ℕ → ℕ
null_rank none = 1
null_rank (some t) = 0

abbrev pub due_value : Option ℕ → ℕ
due_value none = 0
due_value (some t) = t

-- ORDER BY rank ASC, due_date ASC NULLS LAST, created_at ASC
unfoldable pub before : TaskRow → TaskRow → Bool
unfolding priority_rank
before x y = then_by (priority_rank x.priority) (priority_rank y.priority) (
    then_by (null_rank x.due_date) (null_rank y.due_date)
      (then_by (due_value x.due_date) (due_value y.due_date) (ltb x.created_at y.created_at)))

-- ORDER BY updated_at DESC
unfoldable pub fresher : TaskRow → TaskRow → Bool
fresher x y = ltb y.updated_at x.updated_at

-- ORDER BY … LIMIT 1; of rows that sort alike, the last of the scan.
abbrev pub better : (TaskRow → TaskRow → Bool) → TaskRow → Option TaskRow → TaskRow
better lt x none = x
better lt x (some y) = if lt x y then x else y

abbrev pub first_by : (TaskRow → TaskRow → Bool) → List TaskRow → Option TaskRow
first_by lt [] = none
first_by lt (x ∷ xs) = some (better lt x (first_by lt xs))

abbrev pub trimmed : Option String → String
trimmed none = String.[]
trimmed (some s) = trim s

-- The agent of ?agent=, or else of the header x-agent-name.
unfoldable pub agent_name : Option String → Option String → String
agent_name param header = if text_truthy (trimmed param) then trimmed param else trimmed header

-- /^\d+$/ and Number, the value so far being `n`
abbrev pub digits : String → ℕ → Option ℕ
digits String.[] n = some n
digits (String.◌∷◌ c s) n =
    let rest = digits s (10 * n + (code c - 48)) in
    if leb 48 (code c) && leb (code c) 57 then rest else none

abbrev pub in_range : Option ℕ → Option ℕ
in_range none = none
in_range (some n) = if leb 1 n && leb n 20 then some n else none

-- max_capacity, 1 where it is missing or empty; none for a 400.
unfoldable pub max_capacity : Option String → Option ℕ
max_capacity none = some 1
max_capacity (some s) = if text_truthy s then in_range (digits s 0) else some 1
