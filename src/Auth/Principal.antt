-- ===== src/Auth/Principal.antt =====
-- Who a request comes from, and what its role permits: validateAgentApiKey, getUserFromRequest and
-- requireRole of lib/auth.ts.
use conductor_dashboard.Common.{
  ℕ, String, Bool, true, false, not, ◌&&◌, Option, none, some, List, [], ◌∷◌, find, map,
  update_where, filter, any, ltb, ◌==◌, str_eq, if◌then◌else◌, text_truthy, is_some, trim,
}
use conductor_dashboard.Auth.{
  Provider, User, UserSession, Agent, AgentApiKey, Db, Platform, Config, id_or,
  get_default_workspace_id, join_first,
}
use conductor_dashboard.Auth.Sessions.{validate_session}
use conductor_dashboard.Auth.Headers.{
  Headers, header, Cookie, malformed, absent, value, parse_cookie, non_empty,
  extract_api_key_from_headers,
}

pub data PrincipalType : Type 0 where
  user system_api_key agent_api_key : PrincipalType

-- The User that a request is given, without the times and is_approved. The provider is undefined for keys.
pub record Principal : Type 0 where
  pub id : ℕ
  pub username : String
  pub display_name : String
  pub role : String
  pub workspace_id : ℕ
  pub provider : Option Provider
  pub email : Option String
  pub avatar_url : Option String
  pub agent_name : Option String
  pub principal_type : PrincipalType
  pub agent_id : Option ℕ
  pub auth_scopes : Option (List String)

abbrev pub session_principal : Option String → Db → User → UserSession → Principal
session_principal agent_name db u s = record {
  id = s.user_id;
  username = u.username;
  display_name = u.display_name;
  role = u.role;
  workspace_id = id_or (get_default_workspace_id db) (some s.workspace_id);
  provider = some u.provider;
  email = u.email;
  avatar_url = u.avatar_url;
  agent_name = agent_name;
  principal_type = user;
  agent_id = none;
  auth_scopes = none;
}

abbrev pub includes : String → List String → Bool
includes scope scopes = any (λ s. str_eq s scope) scopes

abbrev pub to_role_from_scopes : List String → String
to_role_from_scopes scopes =
    if includes "admin" scopes
    then "admin"
    else (if includes "operator" scopes then "operator" else "viewer")

abbrev pub or_viewer : List String → List String
or_viewer [] = "viewer" ∷ []
or_viewer (s ∷ ss) = s ∷ ss

abbrev pub parsed_scopes : Option (List String) → List String
parsed_scopes none = "viewer" ∷ []
parsed_scopes (some values) = or_viewer (filter text_truthy (map trim values))

abbrev pub parse_scopes : Platform → String → List String
parse_scopes w raw = parsed_scopes (w.parse_texts raw)

-- expires_at IS NULL OR expires_at > now
abbrev pub not_over : ℕ → Option ℕ → Bool
not_over now none = true
not_over now (some t) = ltb now t

abbrev pub is_valid_key : String → ℕ → AgentApiKey → Bool
is_valid_key hash now k =
    str_eq k.key_hash hash && not (is_some k.revoked_at) && not_over now k.expires_at

abbrev pub agent_of : AgentApiKey → Agent → Bool
agent_of k a = a.id == k.agent_id && a.workspace_id == k.workspace_id

abbrev pub mark_used : ℕ → AgentApiKey → AgentApiKey
mark_used now k = record k { last_used_at = some now; updated_at = now }

abbrev pub key_principal : Platform → AgentApiKey → Agent → Principal
key_principal w k a = record {
  id = k.agent_id;
  username = a.name;
  display_name = a.name;
  role = to_role_from_scopes (parse_scopes w k.scopes);
  workspace_id = k.workspace_id;
  provider = none;
  email = none;
  avatar_url = none;
  agent_name = some a.name;
  principal_type = agent_api_key;
  agent_id = some k.agent_id;
  auth_scopes = some (parse_scopes w k.scopes);
}

abbrev pub use_key : Platform → ℕ → Db → Option (AgentApiKey × Agent) → Db × Option Principal
use_key w now db none = (db, none)
use_key w now db (some (k, a)) = (
  record db { keys = update_where (λ j. j.id == k.id) (mark_used now) db.keys },
  some (key_principal w k a),
)

unfoldable pub validate_agent_api_key : Platform → String → ℕ → Db → Db × Option Principal
validate_agent_api_key w raw now db =
    use_key w now db
      (join_first (is_valid_key (w.sha256 raw) now) (λ k. find (agent_of k) db.agents) db.keys)

abbrev pub system_principal : Option String → Db → Principal
system_principal agent_name db = record {
  id = 0;
  username = "api";
  display_name = "API Access";
  role = "admin";
  workspace_id = get_default_workspace_id db;
  provider = none;
  email = none;
  avatar_url = none;
  agent_name = agent_name;
  principal_type = system_api_key;
  agent_id = none;
  auth_scopes = some ("admin" ∷ []);
}

-- `crashed` where the cookie's value cannot be decoded, and the request ends in an error.
pub data Identity : Type 0 where
  crashed nobody : Identity
  known : Principal → Identity

abbrev pub or_system : Config → Option String → String → Db × Option Principal → Db × Identity
or_system c agent_name key (db, some p) = (db, known p)
or_system c agent_name key (db, none) = (
  db,
  if text_truthy (trim c.api_key) && str_eq key (trim c.api_key)
      then known (system_principal agent_name db)
      else nobody,
)

abbrev pub by_key : Platform → Config → Option String → ℕ → Db → Option String → Db × Identity
by_key w c agent_name now db none = (db, nobody)
by_key w c agent_name now db (some key) =
    or_system c agent_name key (validate_agent_api_key w key now db)

abbrev pub by_session :
    Platform
    → Config
    → Headers
    → Option String
    → ℕ
    → Db
    → Option (UserSession × User)
    → Db × Identity
by_session w c h agent_name now db (some (s, u)) = (db, known (session_principal agent_name db u s))
by_session w c h agent_name now db none =
    by_key w c agent_name now db (extract_api_key_from_headers w.lower_case h)

abbrev pub session_of : ℕ → Db → Cookie → Option (UserSession × User)
session_of now db malformed = none
session_of now db absent = none
session_of now db (value token) = validate_session token now db

abbrev pub is_malformed : Cookie → Bool
is_malformed malformed = true
is_malformed absent = false
is_malformed (value token) = false

abbrev pub agent_header : Headers → Option String
agent_header h = non_empty (trim (header h.x_agent_name))

-- getUserFromRequest
unfoldable pub get_user_from_request : Platform → Config → Headers → ℕ → Db → Db × Identity
unfolding validate_session parse_cookie extract_api_key_from_headers validate_agent_api_key
get_user_from_request w c h now db =
    let cookie = parse_cookie w.decode_uri (header h.cookie) in
    if is_malformed cookie
    then (db, crashed)
    else by_session w c h (agent_header h) now db (session_of now db cookie)

pub data Role : Type 0 where
  viewer operator admin : Role

abbrev pub role_name : Role → String
role_name viewer = "viewer"
role_name operator = "operator"
role_name admin = "admin"

-- ROLE_LEVELS and one more, 0 for a role that it has not; a role that is named like a property of
-- every JavaScript object, such as `constructor`, would not count as -1 in the source.
abbrev pub role_level : String → ℕ
role_level r =
    if str_eq r "viewer"
    then 1
    else (if str_eq r "operator" then 2 else (if str_eq r "admin" then 3 else 0))

pub data Gate : Type 0 where
  failed unauthenticated forbidden : Gate
  granted : Principal → Gate

abbrev pub check_role : Role → Identity → Gate
check_role min crashed = failed
check_role min nobody = unauthenticated
check_role min (known p) =
    if ltb (role_level p.role) (role_level (role_name min)) then forbidden else granted p

unfoldable pub require_role : Platform → Config → Headers → Role → ℕ → Db → Db × Gate
unfolding get_user_from_request
require_role w c h min now db =
    let (db', who) = get_user_from_request w c h now db in (db', check_role min who)
