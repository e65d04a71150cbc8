-- ===== src/Project/History.antt =====
-- The requests of all callers, one after the other.
use conductor_dashboard.Common.{ℕ, String, Bool, Option, List, [], ◌∷◌}
use conductor_dashboard.Project.{TaskPriority, Db, Caller}
use conductor_dashboard.Project.Create.{CreateBody, post_task, create_task}
use conductor_dashboard.Project.Edit.{put_task, delete_task}
use conductor_dashboard.Project.Changes.{UpdateBody}
use conductor_dashboard.Project.Manage.{
  ProjectBody, PatchBody, post_project, patch_project, delete_project,
}
use conductor_dashboard.Project.Slug.{Cases}

pub data Request : Type 0 where
  post : Caller → CreateBody → Request
  nimbus : Caller → String → String → TaskPriority → Option ℕ → Request
  put : Caller → ℕ → UpdateBody → Request
  delete : Caller → ℕ → Request
  found_project : Cases → ℕ → ProjectBody → Request
  patch : Bool → Cases → ℕ → ℕ → PatchBody → Request
  remove : Bool → ℕ → ℕ → Request

-- One request, at a time.
unfoldable pub handle : Request → ℕ → Db → Db
unfolding post_task create_task put_task delete_task post_project patch_project delete_project
handle (post c body) now db = (post_task c body now db).0
handle (nimbus c title description priority project) now db =
    (create_task c title description priority project now db).0
handle (put c id body) now db = (put_task c id body now db).0
handle (delete c id) now db = (delete_task c id db).0
handle (found_project k ws body) now db = (post_project k ws body now db).0
handle (patch rereads k ws id body) now db = (patch_project rereads k ws id body now db).0
handle (remove deletes ws id) now db = (delete_project deletes ws id now db).0

-- Requests with their times.
unfoldable pub play : List (ℕ × Request) → Db → Db
unfolding handle
play [] db = db
play ((now, r) ∷ rs) db = play rs (handle r now db)
