-- ===== src/Project/Manage.antt =====
-- POST /api/projects, PATCH and DELETE of /api/projects/[id], with an id that is a number. A case mapping is
-- an argument, as is whether a request's body can be read a second time, which PATCH tries for the default
-- project.
use conductor_dashboard.Common.{
  first_id, row_has, remove_row, ℕ, suc, String, Bool, false, not, ◌&&◌, ◌||◌, Option, none, some,
  insert_row, is_some, ◌==◌, str_eq, if◌then◌else◌, select, update, text_truthy, trim,
}
use conductor_dashboard.Project.{ProjectStatus, active, archived, Project, WorkTask, Db}
use conductor_dashboard.Project.Allocate.{project_in, is_general}
use conductor_dashboard.Project.Changes.{same_id}
use conductor_dashboard.Project.Slug.{Cases, normalize_prefix, slice, slugify}

-- The body with '' for what is missing; `prefix` is `ticket_prefix || ticketPrefix`.
pub record ProjectBody : Type 0 where
  pub name : String
  pub description : String
  pub prefix : String
  pub slug : String

pub data Reply : Type 0 where
  name_required invalid_slug invalid_prefix already_exists : Reply
  not_found cannot_archive name_empty prefix_in_use no_fields failed : Reply
  cannot_delete no_default : Reply
  created : ℕ → Reply
  changed archived_only removed : Reply

abbrev pub text_or_null : String → Option String
text_or_null s = if text_truthy s then some s else none

abbrev pub clashes : ℕ → String → String → Project → Bool
clashes ws slug prefix p =
    p.workspace_id == ws && (str_eq p.slug slug || str_eq p.ticket_prefix prefix)

abbrev pub check_project : ℕ → String → String → String → Db → Option Reply
check_project ws name slug prefix db =
    if not (text_truthy name)
    then some name_required
    else (if not (text_truthy slug)
        then some invalid_slug
        else (if not (text_truthy prefix)
            then some invalid_prefix
            else (if is_some
                  (first_id (λ i. row_has (clashes ws slug prefix) (db.projects i)) db.next_project)
                then some already_exists
                else none)))

abbrev pub insert_project : Project → Db → Db
insert_project p db = record db {
  projects = insert_row db.projects db.next_project p;
  next_project = suc db.next_project;
}

abbrev pub create_unless :
    Option Reply → ℕ → String → String → String → String → ℕ → Db → Db × Reply
create_unless (some why) ws name slug prefix description now db = (db, why)
create_unless none ws name slug prefix description now db = (
  insert_project
      (record {
        workspace_id = ws;
        name = name;
        slug = slug;
        description = text_or_null description;
        ticket_prefix = prefix;
        ticket_counter = 0;
        status = active;
        updated_at = now;
      })
      db,
  created db.next_project,
)

-- POST /api/projects
unfoldable pub post_project : Cases → ℕ → ProjectBody → ℕ → Db → Db × Reply
unfolding normalize_prefix slugify
post_project k ws body now db =
    let name = trim body.name in
    let slug_input = trim body.slug in
    let prefix_input = trim body.prefix in
    let slug = slugify k (if text_truthy slug_input then slug_input else name) in
    let prefix =
      normalize_prefix k (if text_truthy prefix_input then prefix_input else slice 5 name) in
    create_unless (check_project ws name slug prefix db) ws name slug prefix (trim body.description)
      now db

-- PATCH: none where a field is missing or no text.
pub record PatchBody : Type 0 where
  pub name : Option String
  pub description : Option String
  pub prefix : Option String
  pub status : Option String

abbrev pub is_archiving : Option String → Bool
is_archiving none = false
is_archiving (some s) = str_eq s "archived"

abbrev pub status_named : String → ProjectStatus
status_named s = if str_eq s "archived" then archived else active

-- Another project of the workspace with the prefix.
abbrev pub other_has_prefix : ℕ → String → ℕ → Db → ℕ → Bool
other_has_prefix ws prefix id db i =
    row_has (λ p. p.workspace_id == ws && str_eq p.ticket_prefix prefix) (db.projects i)
    && not (i == id)

abbrev pub check_prefix : Cases → ℕ → ℕ → Option String → Db → Option Reply
check_prefix k ws id none db = none
check_prefix k ws id (some raw) db =
    if not (text_truthy (normalize_prefix k raw))
    then some invalid_prefix
    else (if is_some (first_id (other_has_prefix ws (normalize_prefix k raw) id db) db.next_project)
        then some prefix_in_use
        else none)

abbrev pub empty_name : Option String → Bool
empty_name none = false
empty_name (some s) = not (text_truthy (trim s))

abbrev pub has_fields : PatchBody → Bool
has_fields b = is_some b.name || is_some b.description || is_some b.prefix || is_some b.status

abbrev pub or_check : Option Reply → Option Reply → Option Reply
or_check none b = b
or_check (some r) b = some r

-- The checks once the body is read, in order.
unfoldable pub check_patch : Cases → ℕ → ℕ → PatchBody → Db → Option Reply
unfolding normalize_prefix
check_patch k ws id b db =
    or_check (if empty_name b.name then some name_empty else none)
      (or_check (check_prefix k ws id b.prefix db) (if has_fields b then none else some no_fields))

-- The default project's body is read twice.
abbrev pub check_default : Bool → Project → PatchBody → Option Reply
check_default rereads p b =
    if is_general p
    then (if is_archiving b.status
        then some cannot_archive
        else (if rereads then none else some failed))
    else none

abbrev pub described : Option String → Option String → Option String
described old none = old
described old (some s) = text_or_null (trim s)

abbrev pub prefixed : Cases → String → Option String → String
prefixed k old none = old
prefixed k old (some raw) = normalize_prefix k raw

abbrev pub named : String → Option String → String
named old none = old
named old (some s) = trim s

abbrev pub restatus : ProjectStatus → Option String → ProjectStatus
restatus old none = old
restatus old (some s) = status_named s

unfoldable pub patch_fields : Cases → PatchBody → ℕ → Project → Project
unfolding normalize_prefix
patch_fields k b now p = record p {
  name = named p.name b.name;
  description = described p.description b.description;
  ticket_prefix = prefixed k p.ticket_prefix b.prefix;
  status = restatus p.status b.status;
  updated_at = now;
}

abbrev pub patch_unless : Option Reply → Cases → ℕ → ℕ → PatchBody → ℕ → Db → Db × Reply
patch_unless (some why) k ws id b now db = (db, why)
patch_unless none k ws id b now db =
    (record db { projects = update db.projects id (project_in ws) (patch_fields k b now) }, changed)

unfoldable pub patch_found : Option Project → Bool → Cases → ℕ → ℕ → PatchBody → ℕ → Db → Db × Reply
unfolding check_patch patch_fields
patch_found none rereads k ws id b now db = (db, not_found)
patch_found (some p) rereads k ws id b now db =
    patch_unless (or_check (check_default rereads p b) (check_patch k ws id b db)) k ws id b now db

-- PATCH /api/projects/[id]
unfoldable pub patch_project : Bool → Cases → ℕ → ℕ → PatchBody → ℕ → Db → Db × Reply
unfolding patch_found
patch_project rereads k ws id b now db =
    patch_found (select db.projects id (project_in ws)) rereads k ws id b now db

abbrev pub archive : ℕ → Project → Project
archive now p = record p { status = archived; updated_at = now }

-- UPDATE tasks SET project_id = ? WHERE workspace_id = ? AND project_id = ?
abbrev pub moved_task : ℕ → ℕ → ℕ → Option WorkTask → Option WorkTask
moved_task ws from to none = none
moved_task ws from to (some t) =
    if t.workspace_id == ws && same_id t.project_id from
    then some (record t { project_id = some to })
    else some t

abbrev pub remove_into : ℕ → ℕ → Option ℕ → Db → Db × Reply
remove_into ws id none db = (db, no_default)
remove_into ws id (some to) db = (
  record db {
    tasks = (λ n. moved_task ws id to (db.tasks n));
    projects = remove_row db.projects id;
  },
  removed,
)

-- `deletes` is `mode === 'delete'`.
unfoldable pub remove_found : Option Project → Bool → ℕ → ℕ → ℕ → Db → Db × Reply
remove_found none deletes ws id now db = (db, not_found)
remove_found (some p) deletes ws id now db =
    if is_general p
    then (db, cannot_delete)
    else (if deletes
        then remove_into ws id
            (first_id (λ i. row_has (λ q. q.workspace_id == ws && is_general q) (db.projects i))
              db.next_project)
            db
        else (
          record db { projects = update db.projects id (project_in ws) (archive now) },
          archived_only,
        ))

-- DELETE /api/projects/[id]
unfoldable pub delete_project : Bool → ℕ → ℕ → ℕ → Db → Db × Reply
unfolding remove_found
delete_project deletes ws id now db =
    remove_found (select db.projects id (project_in ws)) deletes ws id now db
