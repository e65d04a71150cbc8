-- ===== src/Auth/Users.antt =====
-- app/api/auth/users and PATCH of app/api/auth/me. An id is a number, or missing.
use conductor_dashboard.Common.{
  ℕ, String, Bool, ◌||◌, ◌&&◌, not, Option, none, some, ltb, ◌==◌, str_eq, if◌then◌else◌,
  text_truthy, get_or_else, is_some, utf16_length, select,
}
use conductor_dashboard.Auth.{
  User, Provider, Db, Platform, Config, user_create, user_update, user_delete, log_audit_event,
  or_null,
}
use conductor_dashboard.Auth.Sessions.{
  UserUpdates, Created, short_password, name_taken, created, create_user, update_user, delete_user,
}
use conductor_dashboard.Auth.Headers.{Headers}
use conductor_dashboard.Auth.Principal.{
  Principal, Identity, crashed, nobody, known, get_user_from_request,
}

pub data Reply : Type 0 where
  failed not_authenticated admin_required too_many invalid conflict not_found : Reply
  id_required invalid_role own_role own_account : Reply
  key_user current_required too_short wrong_password empty_name no_updates : Reply
  made : ℕ → Reply
  done : Reply

-- `!currentUser || currentUser.role !== 'admin'`, and the rest of the handler for an administrator.
abbrev pub for_admin : Identity → Db → (Principal → Db × Reply) → Db × Reply
for_admin crashed db rest = (db, failed)
for_admin nobody db rest = (db, admin_required)
for_admin (known p) db rest = if str_eq p.role "admin" then rest p else (db, admin_required)

abbrev pub unless_refused : Option Reply → Db → Db × Reply → Db × Reply
unless_refused (some why) db rest = (db, why)
unless_refused none db rest = rest

abbrev pub for_given : Option ℕ → Db → (ℕ → Db × Reply) → Db × Reply
for_given none db rest = (db, id_required)
for_given (some id) db rest = if id == 0 then (db, id_required) else rest id

abbrev pub is_role : String → Bool
is_role r = str_eq r "admin" || str_eq r "operator" || str_eq r "viewer"

pub record CreateUserBody : Type 0 where
  pub username : String
  pub password : String
  pub display_name : Option String
  pub role : Option String
  pub provider : Provider
  pub email : Option String

-- createUserSchema
abbrev pub is_valid_body : CreateUserBody → Bool
is_valid_body b =
    text_truthy b.username
    && not (ltb (utf16_length b.password) 12)
    && is_role (get_or_else "operator" b.role)

abbrev pub text_or : Option String → String → String
text_or none d = d
text_or (some s) d = if text_truthy s then s else d

abbrev pub made_user : Principal → Db → Created → Db × Reply
made_user p db short_password = (db, failed)
made_user p db name_taken = (db, conflict)
made_user p db (created db' id) = (log_audit_event (user_create p.username p.id id) db', made id)

unfoldable pub create_as : Platform → String → Principal → CreateUserBody → ℕ → Db → Db × Reply
unfolding create_user
create_as w salt p b now db =
    if is_valid_body b
    then made_user p db (
        create_user w salt b.username b.password (text_or b.display_name b.username)
          (get_or_else "operator" b.role)
          (record {
            provider = b.provider;
            provider_user_id = none;
            email = b.email;
            avatar_url = none;
            workspace_id = some p.workspace_id;
          })
          now db)
    else (db, invalid)

-- POST; `admitted` is what mutationLimiter says.
unfoldable pub post_users :
    Platform → Config → Headers → Bool → String → CreateUserBody → ℕ → Db → Db × Reply
unfolding get_user_from_request create_as
post_users w c h admitted salt b now db =
    let (db', who) = get_user_from_request w c h now db in
    for_admin who db' (λ p. if admitted then create_as w salt p b now db' else (db', too_many))

pub record PutBody : Type 0 where
  pub id : Option ℕ
  pub updates : UserUpdates

abbrev pub in_workspace : ℕ → User → Bool
in_workspace ws u = u.workspace_id == ws

abbrev pub with_password : Option String → UserUpdates → UserUpdates
with_password pw c = record c { password = pw }

-- The checks of the role, in order.
abbrev pub check_new_role : Principal → ℕ → Option String → Option Reply
check_new_role p id none = none
check_new_role p id (some r) =
    if text_truthy r && not (is_role r)
    then some invalid_role
    else (if id == p.id && text_truthy r && not (str_eq r p.role) then some own_role else none)

unfoldable pub update_as : Platform → String → Principal → ℕ → UserUpdates → ℕ → Db → Db × Reply
unfolding update_user
update_as w salt p id c now db = unless_refused (check_new_role p id c.role) db (
    if is_some (select db.users id (in_workspace p.workspace_id))
    then (
      log_audit_event (user_update p.username p.id id)
          (update_user w salt id (with_password (or_null c.password) c) now db),
      done,
    )
    else (db, not_found))

-- PUT
unfoldable pub put_users : Platform → Config → Headers → String → PutBody → ℕ → Db → Db × Reply
unfolding get_user_from_request update_as
put_users w c h salt b now db =
    let (db', who) = get_user_from_request w c h now db in
    for_admin who db' (λ p. for_given b.id db' (λ id. update_as w salt p id b.updates now db'))

unfoldable pub delete_as : Principal → ℕ → Db → Db × Reply
unfolding delete_user
delete_as p id db =
    if id == p.id
    then (db, own_account)
    else (if is_some (select db.users id (in_workspace p.workspace_id))
        then (log_audit_event (user_delete p.username p.id id) (delete_user id db).0, done)
        else (db, not_found))

-- DELETE
unfoldable pub delete_users : Platform → Config → Headers → Option ℕ → ℕ → Db → Db × Reply
unfolding get_user_from_request delete_as
delete_users w c h id now db =
    let (db', who) = get_user_from_request w c h now db in
    for_admin who db' (λ p. for_given id db' (λ i. delete_as p i db'))
