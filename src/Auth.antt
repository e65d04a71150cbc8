-- ===== src/Auth.antt =====
-- lib/auth.ts, lib/password.ts and the routes of app/api/auth: accounts, sessions, the keys of agents, and
-- who a request comes from. Times are seconds, but for those of the login limiter.
mod Password
mod Sessions
mod Headers
mod Principal
mod Login
mod Users
mod Profile
mod Access
mod Tests
mod LoginTests
mod Reading
mod Isolation
mod Admins
mod History
mod Gone
mod Later
mod Deleted
mod Lifetime
mod Guesses
mod OwnPassword
use conductor_dashboard.Common.{
  Rows, ℕ, suc, String, Bool, true, false, not, ◌&&◌, Option, none, some, List, [], ◌∷◌, ltb, ◌==◌,
  str_eq, if◌then◌else◌, text_truthy, trim, filter,
}

pub data Provider : Type 0 where
  local google : Provider

-- A row of `users`, which is kept under its id. The role is a text, since an update may write any.
pub record User : Type 0 where
  pub username : String
  pub display_name : String
  pub password_hash : String
  pub role : String
  pub workspace_id : ℕ
  pub provider : Provider
  pub provider_user_id : Option String
  pub email : Option String
  pub avatar_url : Option String
  pub is_approved : ℕ
  pub created_at : ℕ
  pub updated_at : ℕ
  pub last_login_at : Option ℕ

pub record UserSession : Type 0 where
  pub id : ℕ
  pub token : String
  pub user_id : ℕ
  pub workspace_id : ℕ
  pub expires_at : ℕ
  pub ip_address : Option String
  pub user_agent : Option String

pub record Agent : Type 0 where
  pub id : ℕ
  pub name : String
  pub workspace_id : ℕ

pub record AgentApiKey : Type 0 where
  pub id : ℕ
  pub agent_id : ℕ
  pub workspace_id : ℕ
  pub name : String
  pub key_hash : String
  pub scopes : String
  pub expires_at : Option ℕ
  pub revoked_at : Option ℕ
  pub last_used_at : Option ℕ
  pub updated_at : ℕ

-- What is written to the audit log: who did what to which account.
pub data AuditEvent : Type 0 where
  login_failed : String → AuditEvent
  login login_google logout password_change profile_update : String → ℕ → AuditEvent
  user_create user_update user_delete : String → ℕ → ℕ → AuditEvent

-- `default_row` is the id of the workspace 'default', if there is one.
pub record Db : Type 0 where
  pub users : Rows User
  pub next_user : ℕ
  pub sessions : List UserSession
  pub next_session : ℕ
  pub agents : List Agent
  pub keys : List AgentApiKey
  pub next_key : ℕ
  pub default_row : Option ℕ
  pub audit : List AuditEvent

-- What Node.js and JavaScript give: hexadecimal texts, scrypt with the cost of password.ts, SHA-256,
-- decodeURIComponent (none where it throws), toLowerCase, JSON.parse of an array with String of each
-- member (none where it throws or gives no array), and JSON.stringify of texts.
pub record Platform : Type 0 where
  pub hex : List ℕ → String
  pub unhex : String → List ℕ
  pub scrypt : String → String → List ℕ
  pub sha256 : String → String
  pub decode_uri : String → Option String
  pub lower_case : String → String
  pub parse_texts : String → Option (List String)
  pub print_texts : List String → String

-- process.env.API_KEY || ''
pub record Config : Type 0 where
  pub api_key : String

abbrev pub log_audit_event : AuditEvent → Db → Db
log_audit_event e db = record db { audit = e ∷ db.audit }

-- `id || d`
abbrev pub id_or : ℕ → Option ℕ → ℕ
id_or d none = d
id_or d (some i) = if i == 0 then d else i

abbrev pub get_default_workspace_id : Db → ℕ
get_default_workspace_id db = id_or 1 db.default_row

abbrev pub has_token : String → UserSession → Bool
has_token token s = str_eq s.token token

-- A text for a column: null for one that is empty.
abbrev pub or_null : Option String → Option String
or_null none = none
or_null (some s) = if text_truthy s then some s else none

module _ {ℓ κ} {A : Type ℓ} {B : Type κ} where
  abbrev pub pair_with : A → Option B → Option (A × B)
  pair_with a none = none
  pair_with a (some b) = some (a, b)

  abbrev pub or_next : Option (A × B) → Option (A × B) → Option (A × B)
  or_next none later = later
  or_next (some r) later = some r

  -- A JOIN with LIMIT 1: the first row that passes the test and has a partner.
  abbrev pub join_first : (A → Bool) → (A → Option B) → List A → Option (A × B)
  join_first p partner [] = none
  join_first p partner (x ∷ xs) =
      or_next (if p x then pair_with x (partner x) else none) (join_first p partner xs)
