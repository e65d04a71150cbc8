-- ===== src/Provision/Fields.antt =====
-- What a request to set up a tenant may hold, and the rows that a request adds.
use conductor_dashboard.Common.{
  ℕ, suc, String, Bool, true, false, not, ◌&&◌, ◌||◌, Option, none, some, List, [], ◌∷◌, any, find,
  leb, ltb, ◌==◌, str_eq, if◌then◌else◌, get_or_else, text_truthy, trim, Rows, insert_row,
  utf16_length, all_chars, first_char, last_char, is_some,
}
use conductor_dashboard.Common as C
use conductor_dashboard.Provision.{
  queued, JobType, Step, Tenant, JobRequest, Job, Level, AuditAction, Db,
}

-- Number(value) of a port: missing, null or '', no whole number that is not negative, or a number.
pub data Port : Type 0 where
  absent : Port
  unusable : Port
  number : ℕ → Port

-- An optional field is none where it is missing; `dry_run` is what `!== false` reads.
pub record BootstrapRequest : Type 0 where
  pub slug : String
  pub display_name : String
  pub linux_user : Option String
  pub plan_tier : Option String
  pub gateway_port : Port
  pub dashboard_port : Port
  pub dry_run : Option Bool
  pub owner_gateway : Option String

-- The environment: toLowerCase, the directories of a user, the path of a tenant's artifacts and of the
-- two templates, the first of which may be missing, and the default owner.
pub record Env : Type 0 where
  pub lower : String → String
  pub home_of : String → String
  pub openclaw_home_of : String → String
  pub workspace_of : String → String
  pub artifact_dir : String → String
  pub openclaw_template : Option String
  pub systemd_template : String
  pub default_owner : String

pub data Error : Type 0 where
  missing_template invalid_slug missing_name invalid_user invalid_port owner_too_long
        port_required :
      Error
  not_unique : Error
  tenant_not_found : Error

pub data Created : Type 0 where
  refused : Error → Created
  created : ℕ → Created  -- the job

-- [a-z0-9], [a-z0-9-], [a-z_] and [a-z0-9_-]
abbrev pub is_slug_end : ℕ → Bool
is_slug_end c = (leb 97 c && leb c 122) || (leb 48 c && leb c 57)

abbrev pub is_slug_char : ℕ → Bool
is_slug_char c = is_slug_end c || c == 45

abbrev pub is_user_start : ℕ → Bool
is_user_start c = (leb 97 c && leb c 122) || c == 95

abbrev pub is_user_char : ℕ → Bool
is_user_char c = is_slug_end c || c == 95 || c == 45

-- /^[a-z0-9][a-z0-9-]{1,30}[a-z0-9]$/
unfoldable pub is_valid_slug : String → Bool
is_valid_slug s =
    all_chars is_slug_char s
    && (first_char is_slug_end s && last_char is_slug_end s)
    && (leb 3 (utf16_length s) && leb (utf16_length s) 32)

-- /^[a-z_][a-z0-9_-]{1,30}$/
unfoldable pub is_valid_user : String → Bool
is_valid_user s =
    all_chars is_user_char s
    && first_char is_user_start s
    && (leb 2 (utf16_length s) && leb (utf16_length s) 31)

-- none where it throws
unfoldable pub ensure_port : Port → Option (Option ℕ)
ensure_port absent = some none
ensure_port unusable = none
ensure_port (number n) = if leb 1024 n && leb n 65535 then some (some n) else none

-- none where it throws
unfoldable pub normalize_owner_gateway : Option String → String → Option String
normalize_owner_gateway value fallback =
    let raw = trim (get_or_else String.[] value) in
    if not (text_truthy raw)
    then some fallback
    else (if ltb 120 (utf16_length raw) then none else some raw)

-- A truthy text, or else another.
abbrev pub text_or : String → Option String → String
text_or other none = other
text_or other (some s) = if text_truthy s then s else other

-- `dry_run !== false`
abbrev pub is_dry : Option Bool → Bool
is_dry d = get_or_else true d

abbrev pub taken : String → String → List Tenant → Bool
taken slug user ts = any (λ t. str_eq t.slug slug || str_eq t.linux_user user) ts

abbrev pub new_job : ℕ → JobType → Bool → String → JobRequest → List Step → ℕ → Job
new_job tenant kind dry by request plan now = record {
  tenant_id = tenant;
  job_type = kind;
  status = queued;
  dry_run = dry;
  requested_by = by;
  approved_by = none;
  request = request;
  plan = plan;
  results = none;
  error_text = none;
  started_at = none;
  completed_at = none;
  updated_at = now;
}

abbrev pub add_job : Job → Db → Db
add_job j db = record db { jobs = insert_row db.jobs db.next_job j; next_job = suc db.next_job }

abbrev pub log_event : ℕ → Level → String → Db → Db
log_event job level key db = record db {
  events = C.◌++◌ db.events (record { job_id = job; level = level; step_key = key } ∷ []);
}

abbrev pub log_audit : AuditAction → String → ℕ → Db → Db
log_audit action actor tenant db = record db {
  audit = C.◌++◌ db.audit (record { action = action; actor = actor; tenant_id = tenant } ∷ []);
}
