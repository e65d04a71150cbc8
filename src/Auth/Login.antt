-- ===== src/Auth/Login.antt =====
-- POST of app/api/auth/login and app/api/auth/logout. The text that a client reads, and the cookie's flags,
-- are left out.
use conductor_dashboard.Common.{
  ℕ, ◌/◌, String, Bool, true, false, ◌&&◌, Option, none, some, if◌then◌else◌, text_truthy,
}
use conductor_dashboard.RateLimit.{RateLimiterOptions, Entries, check_rate_limit, extract_client_ip}
use conductor_dashboard.Auth.{
  Db, Platform, Config, login_failed, login, logout, log_audit_event, id_or,
  get_default_workspace_id,
}
use conductor_dashboard.Auth.Sessions.{
  authenticate_user, create_session, destroy_session, session_duration,
}
use conductor_dashboard.Auth.Headers.{
  Headers, header, Cookie, malformed, absent, value, parse_cookie,
}
use conductor_dashboard.Auth.Principal.{Identity, crashed, nobody, known, get_user_from_request}

-- `disabled` is MC_DISABLE_RATE_LIMIT === '1'
abbrev pub login_limiter : Bool → RateLimiterOptions
login_limiter disabled = record {
  window_ms = 60000;
  max_requests = 5;
  critical = true;
  disabled = disabled;
}

-- What tells a client: x-forwarded-for, x-real-ip and user-agent.
pub record Client : Type 0 where
  pub forwarded_for : Option String
  pub real_ip : Option String
  pub user_agent : Option String

pub record Credentials : Type 0 where
  pub username : String
  pub password : String

pub data LoginReply : Type 0 where
  too_many missing invalid failed : LoginReply
  welcome : ℕ → String → ℕ → LoginReply

abbrev pub text_or : Option String → String → String
text_or none d = d
text_or (some s) d = if text_truthy s then s else d

-- The address as the log and the session have it.
abbrev pub ip_address : Client → String
ip_address c = text_or c.forwarded_for (text_or c.real_ip "unknown")

abbrev pub name_of : Db → ℕ → String
name_of db id = elim (db.users id) [ none ↦ "" | some u ↦ u.username ]

abbrev pub workspace_of : Db → ℕ → ℕ
workspace_of db id = elim (db.users id) [
  | none ↦ get_default_workspace_id db
  | some u ↦ id_or (get_default_workspace_id db) (some u.workspace_id)
]

abbrev pub logged_in : ℕ → String → String → Db → Option Db → Db × LoginReply
logged_in id username token db none = (db, failed)
logged_in id username token db (some db') =
    (log_audit_event (login username id) db', welcome id token session_duration)

unfoldable pub open_session : Client → String → ℕ → Db → Option ℕ → String → Db × LoginReply
unfolding create_session
open_session c token now db none tried = (log_audit_event (login_failed tried) db, invalid)
open_session c token now db (some id) tried =
    logged_in id (name_of db id) token db
      (create_session token id (workspace_of db id) (some (ip_address c)) c.user_agent now db)

-- The handler once the limiter has let the request through; none for a body that is no JSON.
unfoldable pub answer_login :
    Platform → Client → Option Credentials → String → ℕ → Db → Db × LoginReply
unfolding authenticate_user open_session
answer_login w c none token now db = (db, failed)
answer_login w c (some b) token now db =
    if text_truthy b.username && text_truthy b.password
    then open_session c token now db (authenticate_user w b.username b.password db) b.username
    else (db, missing)

-- POST /api/auth/login, at a time in milliseconds; `token` is random.
unfoldable pub post_login :
    Platform
    → (String → Bool)
    → Bool
    → Bool
    → Client
    → Option Credentials
    → String
    → ℕ
    → Entries
    → Db
    → Entries × Db × LoginReply
unfolding check_rate_limit extract_client_ip answer_login
post_login w trusted has_trusted disabled c body token now entries db =
    let ip = extract_client_ip trusted has_trusted c.forwarded_for c.real_ip in
    let (entries', ok) = check_rate_limit (login_limiter disabled) ip now entries in
    if ok
    then (let (db', reply) = answer_login w c body token (now / 1000) db in (entries', db', reply))
    else (entries', db, too_many)

pub data LogoutReply : Type 0 where
  error logged_out : LogoutReply

abbrev pub forget : Cookie → Db → Db
forget malformed db = db
forget absent db = db
forget (value token) db = if text_truthy token then destroy_session token db else db

abbrev pub logged : Identity → Db → Db
logged crashed db = db
logged nobody db = db
logged (known p) db = log_audit_event (logout p.username p.id) db

abbrev pub is_crashed : Identity → Bool
is_crashed crashed = true
is_crashed nobody = false
is_crashed (known p) = false

-- POST /api/auth/logout
unfoldable pub post_logout : Platform → Config → Headers → ℕ → Db → Db × LogoutReply
unfolding get_user_from_request parse_cookie destroy_session
post_logout w c h now db =
    let (db', who) = get_user_from_request w c h now db in
    if is_crashed who
    then (db', error)
    else (logged who (forget (parse_cookie w.decode_uri (header h.cookie)) db'), logged_out)
