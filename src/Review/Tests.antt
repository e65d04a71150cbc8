-- ===== src/Review/Tests.antt =====
-- A task, its reviews and its moves, and the theorems at them.
use mathlib.Core.Option
use conductor_dashboard.Common.{
  arith, ◌≡◌, refl, none, some, List, [], ◌∷◌, Rows, if◌then◌else◌, ◌==◌,
}
use conductor_dashboard.Task.{review, in_progress, done}
use conductor_dashboard.Review.{GateTask, QualityReview, approved, rejected, Db}
use conductor_dashboard.Review.Ops.{
  approval_required, updated, Move, place_review, post_review, put_tasks, move_tasks,
}
use conductor_dashboard.Review.Gate.{AllEarned, put_tasks-AllEarned}
use conductor_dashboard.Review.Revoke.{AllEarlier, IsThere, put_tasks-refused}

abbrev task : GateTask
task = record {
  workspace_id = 1;
  title = "Ship";
  status = review;
  updated_at = 3;
  completed_at = none;
}

abbrev rows : Rows GateTask
rows n = if n == 4 then some task else none

abbrev start : Db
start = record { tasks = rows; reviews = []; activities = []; events = [] }

abbrev refusal : QualityReview
refusal = record {
  task_id = 4;
  reviewer = "aegis";
  status = rejected;
  notes = "no tests";
  workspace_id = 1;
  created_at = 0;
}

abbrev finish : List Move
finish = record { id = 4; status = in_progress } ∷ record { id = 4; status = done } ∷ []

refused : (put_tasks 1 9 "ann" finish start).1 ≡ approval_required
unfolding put_tasks move_tasks
refused = refl

abbrev consent : QualityReview
consent = record refusal { status = approved }

abbrev reviewed_db : Db
reviewed_db = (post_review 8 consent (post_review 7 refusal start).0).0

accepted :
    Option.map (λ t. t.completed_at) ((put_tasks 1 9 "ann" finish reviewed_db).0.tasks 4)
    ≡ some (some 9)
unfolding put_tasks move_tasks post_review
accepted = refl

-- Of two reviews in one second, the earlier one decides.
same_second :
    (put_tasks 1 9 "ann" finish (post_review 7 refusal (post_review 7 consent start).0).0).1
    ≡ updated 2
unfolding put_tasks move_tasks post_review
same_second = refl

abbrev approved_db : Db
approved_db = (post_review 6 consent start).0

approved-AllEarlier : AllEarlier 7 4 1 approved_db.reviews
unfolding post_review place_review
approved-AllEarlier = (λ e. omega arith, tt)

approved-IsThere : IsThere 1 4 approved_db
unfolding post_review
approved-IsThere = refl

put_tasks-AllEarned_example : AllEarned 1 reviewed_db (put_tasks 1 9 "ann" finish reviewed_db).0
put_tasks-AllEarned_example = put_tasks-AllEarned 1 9 "ann" finish reviewed_db

put_tasks-refused_example :
    put_tasks 1 9 "ann" finish (post_review 7 refusal approved_db).0
    ≡ ((post_review 7 refusal approved_db).0, approval_required)
put_tasks-refused_example =
    put_tasks-refused 7 9 "ann" refusal finish approved_db refl refl approved-AllEarlier
      approved-IsThere refl
