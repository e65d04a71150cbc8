-- ===== src/Store/Panels.antt =====
-- The smaller lists of the store: sessions, requests to spawn an agent, cron jobs, activities, comments,
-- token usage, and the collapsed groups of the sidebar. `updates` stands for a partial record,
-- and fields of rows that no action reads are left out.
use conductor_dashboard.Common.{
  ℕ, ◌+◌, ◌-◌, ◌*◌, String, Bool, not, List, [], ◌∷◌, ◌++◌, take, any, filter, update_where, leb,
  ◌==◌, str_eq, if◌then◌else◌,
}

pub record Session : Type 0 where
  pub id : String
  pub key : String
  pub kind : String
  pub age : String
  pub model : String
  pub tokens : String

pub record SpawnRequest : Type 0 where
  pub id : String
  pub task : String
  pub model : String
  pub label : String
  pub timeout_seconds : ℕ

pub record CronJob : Type 0 where
  pub name : String
  pub schedule : String
  pub command : String
  pub enabled : Bool

pub record BoardActivity : Type 0 where
  pub id : ℕ
  pub type : String
  pub entity_id : ℕ
  pub actor : String
  pub description : String

pub record Comment : Type 0 where
  pub id : ℕ
  pub task_id : ℕ
  pub author : String
  pub content : String

-- `date` is the time of the entry's date, in milliseconds.
pub record TokenUsage : Type 0 where
  pub model : String
  pub session_id : String
  pub date : ℕ
  pub total_tokens : ℕ

abbrev pub update_session : String → (Session → Session) → List Session → List Session
update_session id updates = update_where (λ s. str_eq s.id id) updates

abbrev pub add_spawn_request : SpawnRequest → List SpawnRequest → List SpawnRequest
add_spawn_request r rs = r ∷ rs

abbrev pub update_spawn_request :
    String → (SpawnRequest → SpawnRequest) → List SpawnRequest → List SpawnRequest
update_spawn_request id updates = update_where (λ r. str_eq r.id id) updates

abbrev pub update_cron_job : String → (CronJob → CronJob) → List CronJob → List CronJob
update_cron_job name updates = update_where (λ j. str_eq j.name name) updates

-- Keeps the newest 1000.
abbrev pub add_activity : BoardActivity → List BoardActivity → List BoardActivity
add_activity a rest = take 1000 (a ∷ rest)

-- The comments of each task.
abbrev pub set_task_comments : ℕ → List Comment → (ℕ → List Comment) → ℕ → List Comment
set_task_comments task cs table n = if n == task then cs else table n

abbrev pub add_task_comment : ℕ → Comment → (ℕ → List Comment) → ℕ → List Comment
add_task_comment task c table = set_task_comments task (c ∷ table task) table

unfoldable pub toggle_group : String → List String → List String
toggle_group group gs =
    if any (str_eq group) gs then filter (λ g. not (str_eq group g)) gs else gs ++ group ∷ []

abbrev pub add_token_usage : TokenUsage → List TokenUsage → List TokenUsage
add_token_usage u us = us ++ u ∷ []

pub data Timeframe : Type 0 where
  day week month all : Timeframe

-- The time of the cutoff, where the clock shows `now`, which is past January 1970.
abbrev pub cutoff : Timeframe → ℕ → ℕ
cutoff day now = now - 24 * 60 * 60 * 1000
cutoff week now = now - 7 * 24 * 60 * 60 * 1000
cutoff month now = now - 30 * 24 * 60 * 60 * 1000
cutoff all now = 0

abbrev pub add_usage : (String → ℕ) → TokenUsage → String → ℕ
add_usage acc u model = if str_eq model u.model then acc model + u.total_tokens else acc model

abbrev pub reduce_usage : (String → ℕ) → List TokenUsage → String → ℕ
reduce_usage acc [] = acc
reduce_usage acc (u ∷ us) = reduce_usage (add_usage acc u) us

-- 0 for a model that the record has not.
unfoldable pub get_usage_by_model : Timeframe → ℕ → List TokenUsage → String → ℕ
get_usage_by_model frame now us =
    reduce_usage (λ model. 0) (filter (λ u. leb (cutoff frame now) u.date) us)
