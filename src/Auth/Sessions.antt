-- ===== src/Auth/Sessions.antt =====
-- Sessions and accounts of lib/auth.ts.
use conductor_dashboard.Common.{
  update, insert_row, remove_row, row_has, first_id, ℕ, suc, ◌+◌, String, Bool, true, false, not,
  ◌&&◌, ◌||◌, Option, none, some, List, [], ◌∷◌, ◌++◌, filter, any, ltb, ◌==◌, str_eq,
  if◌then◌else◌, text_truthy, is_some, utf16_length, get_or_else,
}
use conductor_dashboard.Auth.{
  Provider, local, google, User, UserSession, Db, Platform, has_token, or_null, id_or,
  get_default_workspace_id, join_first,
}
use conductor_dashboard.Auth.Password.{hash_password, verify_password}

abbrev pub session_duration : ℕ
session_duration = 604800

abbrev pub set_sessions : List UserSession → Db → Db
set_sessions ss db = record db { sessions = ss }

abbrev pub touch_login : ℕ → User → User
touch_login now u = record u { last_login_at = some now; updated_at = now }

-- expires_at < now
abbrev pub is_over : ℕ → UserSession → Bool
is_over now s = ltb s.expires_at now

abbrev pub new_session : ℕ → String → ℕ → ℕ → Option String → Option String → ℕ → UserSession
new_session id token user_id ws ip agent now = record {
  id = id;
  token = token;
  user_id = user_id;
  workspace_id = ws;
  expires_at = now + session_duration;
  ip_address = or_null ip;
  user_agent = or_null agent;
}

abbrev pub with_session : String → ℕ → ℕ → Option String → Option String → ℕ → Db → Db
with_session token user_id ws ip agent now db = record db {
  users = update db.users user_id (λ u. true) (touch_login now);
  next_session = suc db.next_session;
  sessions =
      filter (λ s. not (is_over now s))
        (db.sessions ++ (new_session db.next_session token user_id ws ip agent now ∷ []));
}

-- createSession, as its callers call it, with the workspace. none where the INSERT throws: the token is
-- there already, or no account has the id.
unfoldable pub create_session : String → ℕ → ℕ → Option String → Option String → ℕ → Db → Option Db
create_session token user_id ws ip agent now db =
    if any (has_token token) db.sessions || not (is_some (db.users user_id))
    then none
    else some (with_session token user_id ws ip agent now db)

-- The row of the join: a live session with the token, and its account.
abbrev pub is_live : String → ℕ → UserSession → Bool
is_live token now s = has_token token s && ltb now s.expires_at

-- validateSession: the session and its account; the request's workspace is the session's.
unfoldable pub validate_session : String → ℕ → Db → Option (UserSession × User)
validate_session token now db =
    if text_truthy token
    then join_first (is_live token now) (λ s. db.users s.user_id) db.sessions
    else none

unfoldable pub destroy_session : String → Db → Db
destroy_session token db = set_sessions (filter (λ s. not (has_token token s)) db.sessions) db

unfoldable pub destroy_all_user_sessions : ℕ → Db → Db
destroy_all_user_sessions id db = set_sessions (filter (λ s. not (s.user_id == id)) db.sessions) db

abbrev pub is_local : Provider → Bool
is_local local = true
is_local google = false

abbrev pub may_log_in : Platform → String → User → Bool
may_log_in w password u =
    is_local u.provider
    && u.is_approved == 1
    && verify_password w.hex w.unhex w.scrypt password u.password_hash

abbrev pub is_named : String → User → Bool
is_named username u = str_eq u.username username

abbrev pub find_username : String → Db → Option ℕ
find_username username db = first_id (λ i. row_has (is_named username) (db.users i)) db.next_user

abbrev pub check_login : Platform → String → Db → Option ℕ → Option ℕ
check_login w password db none = none
check_login w password db (some id) =
    if row_has (may_log_in w password) (db.users id) then some id else none

-- authenticateUser, by the id of the account.
unfoldable pub authenticate_user : Platform → String → String → Db → Option ℕ
unfolding verify_password
authenticate_user w username password db = check_login w password db (find_username username db)

-- What createUser is given besides the name, the password and the role.
pub record UserOptions : Type 0 where
  pub provider : Provider
  pub provider_user_id : Option String
  pub email : Option String
  pub avatar_url : Option String
  pub workspace_id : Option ℕ

abbrev pub new_user : String → String → String → String → ℕ → UserOptions → ℕ → User
new_user username display_name hash role ws o now = record {
  username = username;
  display_name = display_name;
  password_hash = hash;
  role = role;
  workspace_id = ws;
  provider = o.provider;
  provider_user_id = or_null o.provider_user_id;
  email = or_null o.email;
  avatar_url = or_null o.avatar_url;
  is_approved = 1;
  created_at = now;
  updated_at = now;
  last_login_at = none;
}

pub data Created : Type 0 where
  short_password name_taken : Created
  created : Db → ℕ → Created

-- createUser, for callers that approve what they create; `salt` is random.
unfoldable pub create_user :
    Platform → String → String → String → String → String → UserOptions → ℕ → Db → Created
unfolding hash_password
create_user w salt username password display_name role o now db =
    if ltb (utf16_length password) 12
    then short_password
    else (if is_some (find_username username db)
        then name_taken
        else created
            (record db {
              users = insert_row db.users db.next_user (
                  new_user username display_name
                    (hash_password w.hex w.unhex w.scrypt salt password) role
                    (id_or (get_default_workspace_id db) o.workspace_id) o now);
              next_user = suc db.next_user;
            })
            db.next_user)

-- none where the update leaves a column out; an email or an avatar may be set to null.
pub record UserUpdates : Type 0 where
  pub display_name : Option String
  pub role : Option String
  pub password : Option String
  pub email : Option (Option String)
  pub avatar_url : Option (Option String)
  pub is_approved : Option ℕ

abbrev pub sets_any : UserUpdates → Bool
sets_any c =
    is_some c.display_name
    || is_some c.role
    || is_some c.password
    || is_some c.email
    || is_some c.avatar_url
    || is_some c.is_approved

abbrev pub new_hash : Platform → String → String → Option String → String
new_hash w salt old none = old
new_hash w salt old (some p) = hash_password w.hex w.unhex w.scrypt salt p

abbrev pub apply_updates : Platform → String → UserUpdates → ℕ → User → User
apply_updates w salt c now u = record u {
  display_name = get_or_else u.display_name c.display_name;
  role = get_or_else u.role c.role;
  password_hash = new_hash w salt u.password_hash c.password;
  email = get_or_else u.email c.email;
  avatar_url = get_or_else u.avatar_url c.avatar_url;
  is_approved = get_or_else u.is_approved c.is_approved;
  updated_at = now;
}

-- updateUser; what it gives back is the row of the id in the new state.
unfoldable pub update_user : Platform → String → ℕ → UserUpdates → ℕ → Db → Db
unfolding hash_password
update_user w salt id c now db =
    if sets_any c
    then record db { users = update db.users id (λ u. true) (apply_updates w salt c now) }
    else db

-- deleteUser, and whether there was a row.
unfoldable pub delete_user : ℕ → Db → Db × Bool
unfolding destroy_all_user_sessions
delete_user id db = (
  record (destroy_all_user_sessions id db) { users = remove_row db.users id },
  is_some (db.users id),
)
