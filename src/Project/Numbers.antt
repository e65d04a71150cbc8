-- ===== src/Project/Numbers.antt =====
-- The ticket numbers of tasks, over all requests.
pub mod Slots
pub mod Tables
pub mod Requests
pub mod Edits
pub mod Projects
use conductor_dashboard.Common.{
  ℕ, ◌≡◌, ◌≢◌, Bool, true, false, not, Option, some, List, [], ◌∷◌, All,
}
use conductor_dashboard.Project.{Project, WorkTask, Db}
use conductor_dashboard.Project.History.{
  Request, post, nimbus, put, delete, found_project, patch, remove, handle, play,
}
use conductor_dashboard.Project.Numbers.Requests.{
  IsNumbered, post_task-IsNumbered, create_task-IsNumbered,
}
use conductor_dashboard.Project.Numbers.Edits.{put_task-IsNumbered}
use conductor_dashboard.Project.Numbers.Projects.{
  delete_task-IsNumbered, post_project-IsNumbered, patch_project-IsNumbered, archive-IsNumbered,
}

-- All requests but DELETE of a project with mode=delete.
abbrev pub keeps_projects : ℕ × Request → Bool
keeps_projects (now, post c body) = true
keeps_projects (now, nimbus c title description priority project) = true
keeps_projects (now, put c id body) = true
keeps_projects (now, delete c id) = true
keeps_projects (now, found_project k ws body) = true
keeps_projects (now, patch rereads k ws id body) = true
keeps_projects (now, remove deletes ws id) = not deletes

handle-IsNumbered :
    (now : ℕ) (r : Request) (db : Db)
    → keeps_projects (now, r) ≡ true
    → IsNumbered db
    → IsNumbered (handle r now db)
unfolding handle
handle-IsNumbered now (post c body) db k numbered = post_task-IsNumbered c body now db numbered
handle-IsNumbered now (nimbus c title description priority project) db k numbered =
    create_task-IsNumbered c title description priority project now db numbered
handle-IsNumbered now (put c id body) db k numbered = put_task-IsNumbered c id body now db numbered
handle-IsNumbered now (delete c id) db k numbered = delete_task-IsNumbered c id db numbered
handle-IsNumbered now (found_project k ws body) db h numbered =
    post_project-IsNumbered k ws body now db numbered
handle-IsNumbered now (patch rereads k ws id body) db h numbered =
    patch_project-IsNumbered rereads k ws id body now db numbered
handle-IsNumbered now (remove false ws id) db k numbered = archive-IsNumbered ws id now db numbered
handle-IsNumbered now (remove true ws id) db k numbered = absurd (cc)

-- From a state in which the numbers of a project's tasks are at most its counter and apart, and no project
-- has an id that is still to come, any sequence of requests that create, edit, move and delete tasks, and
-- that create, edit and archive projects, leads to such a state. The removal of projects is excluded.
pub play-IsNumbered :
    (rs : List (ℕ × Request)) (db : Db)
    → All (λ r. keeps_projects r ≡ true) rs
    → IsNumbered db
    → IsNumbered (play rs db)
unfolding play
play-IsNumbered [] db k numbered = numbered
play-IsNumbered ((now, r) ∷ rs) db (k, ks) numbered =
    play-IsNumbered rs (handle r now db) ks (handle-IsNumbered now r db k numbered)

-- Where the numbers of a project's tasks are at most its counter and apart, and no project has an id that is
-- still to come, two tasks that one project has after any sequence of requests that removes no project
-- have different ticket numbers.
pub play-apart :
    (rs : List (ℕ × Request)) (db : Db) (n m p k : ℕ) (t u : WorkTask)
    → All (λ r. keeps_projects r ≡ true) rs
    → IsNumbered db
    → (play rs db).tasks n ≡ some t
    → (play rs db).tasks m ≡ some u
    → n ≢ m
    → t.project_id ≡ some p
    → u.project_id ≡ some p
    → t.project_ticket_no ≡ some k
    → u.project_ticket_no ≢ some k
play-apart rs db n m p k t u keeps numbered row row' different hp hp' hk hk' =
    different ((play-IsNumbered rs db keeps numbered).0.1 n m p k t u row row' hp hp' hk hk')
