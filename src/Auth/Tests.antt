-- ===== src/Auth/Tests.antt =====
-- The requests of app/api/auth on small databases.
use conductor_dashboard.Common.{
  ℕ, ◌≤◌, ◌≡◌, ◌≢◌, refl, String, true, none, some, List, [], ◌∷◌, arith, Rows, ◌==◌, str_eq,
  if◌then◌else◌, row_has,
}
use conductor_dashboard.Auth.{local, User, UserSession, Db, Platform, Config}
use conductor_dashboard.Auth.Password.{hash_password}
use conductor_dashboard.Auth.Sessions.{validate_session, create_user, delete_user}
use conductor_dashboard.Auth.Headers.{Headers, parse_cookie}
use conductor_dashboard.Auth.Principal.{
  Principal, admin, session_principal, role_level, role_name, get_user_from_request, known,
  require_role,
}
use conductor_dashboard.Auth.Access.{Backed, require_role-granted}
use conductor_dashboard.Auth.Users.{
  CreateUserBody, PutBody, done, post_users, put_users, delete_users, delete_as,
}
use conductor_dashboard.Auth.Isolation.{Stays, users-Stays}
use conductor_dashboard.Auth.Admins.{is_admin, users-keep_admin}
use conductor_dashboard.Auth.History.{Request, create, play}
use conductor_dashboard.Auth.Deleted.{play-deleted}

-- One password has a hash of its own.
abbrev pub toy : Platform
toy = record {
  hex = λ (bytes : List ℕ). elim bytes [ [] ↦ "" | b ∷ bs ↦ if b == 171 then "ab" else "00" ];
  unhex = λ (s : String). if str_eq s "ab" then 171 ∷ [] else 0 ∷ [];
  scrypt = λ (password salt : String). if str_eq password "correct horse" then 171 ∷ [] else 0 ∷ [];
  sha256 = λ (s : String). s;
  decode_uri = λ (s : String). some s;
  lower_case = λ (s : String). s;
  parse_texts = λ (s : String). none;
  print_texts = λ (ss : List String). "[]";
}

abbrev pub no_key : Config
no_key = record { api_key = "" }

abbrev pub someone : String → String → ℕ → User
someone name role ws = record {
  username = name;
  display_name = name;
  password_hash = "salt:ab";
  role = role;
  workspace_id = ws;
  provider = local;
  provider_user_id = none;
  email = none;
  avatar_url = none;
  is_approved = 1;
  created_at = 0;
  updated_at = 0;
  last_login_at = none;
}

abbrev pub three_users : Rows User
three_users n =
    if n == 1
    then some (someone "ada" "admin" 1)
    else (if n == 2
        then some (someone "bob" "operator" 1)
        else (if n == 3 then some (someone "eve" "viewer" 2) else none))

abbrev pub ada_session : UserSession
ada_session = record {
  id = 1;
  token = "t1";
  user_id = 1;
  workspace_id = 1;
  expires_at = 1000;
  ip_address = none;
  user_agent = none;
}

abbrev pub office : Db
office = record {
  users = three_users;
  next_user = 4;
  sessions = ada_session ∷ [];
  next_session = 2;
  agents = [];
  keys = [];
  next_key = 1;
  default_row = some 1;
  audit = [];
}

abbrev pub from_ada : Headers
from_ada = record {
  cookie = some "theme=dark; mc-session=t1";
  x_api_key = none;
  authorization = none;
  x_agent_name = none;
}

abbrev ada : Principal
ada = session_principal none office (someone "ada" "admin" 1) ada_session

is_ada : (get_user_from_request toy no_key from_ada 500 office).1 ≡ known ada
unfolding get_user_from_request validate_session parse_cookie
is_ada = refl

require_role-granted_example :
    (role_level (role_name admin) ≤ role_level "admin") × Backed toy no_key from_ada 500 office ada
unfolding require_role get_user_from_request validate_session parse_cookie
require_role-granted_example = require_role-granted toy no_key from_ada admin 500 office ada refl

abbrev carol : CreateUserBody
carol = record {
  username = "carol";
  password = "longer than 12";
  display_name = none;
  role = none;
  provider = local;
  email = none;
}

abbrev promotion : PutBody
promotion = record {
  id = some 2;
  updates = record {
    display_name = none;
    role = some "admin";
    password = none;
    email = none;
    avatar_url = none;
    is_approved = none;
  };
}

ada_workspace :
    (p : Principal)
    → (get_user_from_request toy no_key from_ada 500 office).1 ≡ known p
    → p.role ≡ "admin"
    → p.workspace_id ≡ 1
unfolding get_user_from_request validate_session parse_cookie
ada_workspace p e r = cc

users-Stays_example :
    Stays 1 office (post_users toy no_key from_ada true "salt" carol 500 office).0
    × Stays 1 office (put_users toy no_key from_ada "salt" promotion 500 office).0
    × Stays 1 office (delete_users toy no_key from_ada (some 2) 500 office).0
users-Stays_example =
    users-Stays toy no_key from_ada 500 office 1 refl ada_workspace true "salt" carol promotion
      (some 2)

users-keep_admin_example :
    (row_has is_admin ((put_users toy no_key from_ada "salt" promotion 500 office).0.users 1)
      ≡ true)
    × (row_has is_admin ((delete_users toy no_key from_ada (some 2) 500 office).0.users 1) ≡ true)
users-keep_admin_example =
    users-keep_admin toy no_key from_ada 500 office ada "salt" promotion (some 2) is_ada refl refl
      (λ e. absurd (cc))

bob_deleted : (delete_users toy no_key from_ada (some 2) 500 office).1 ≡ done
unfolding delete_users delete_as delete_user get_user_from_request validate_session parse_cookie
bob_deleted = refl

abbrev later_requests : List (ℕ × Request)
later_requests = (600, create from_ada true "salt" carol) ∷ []

still_ada :
    (get_user_from_request toy no_key from_ada 700
      (play toy no_key later_requests (delete_users toy no_key from_ada (some 2) 500 office).0)).1
    ≡ known ada
unfolding get_user_from_request validate_session parse_cookie play post_users create_user
    hash_password delete_users delete_as delete_user
still_ada = refl

play-deleted_example : ada.id ≢ 2
play-deleted_example =
    play-deleted toy no_key from_ada 2 500 office (omega arith) bob_deleted later_requests from_ada
      700 ada still_ada refl
