-- ===== src/Scheduler/Check.antt =====
-- `runHeartbeatCheck`, and the choice of the backups that `runBackup` removes. What the database refuses is
-- left out.
use conductor_dashboard.Common.{
  ℕ, ◌-◌, ◌*◌, String, Bool, true, false, not, ◌&&◌, Option, none, some, List, [], ◌∷◌, ◌++◌,
  filter, map, ltb, ◌==◌, if◌then◌else◌,
}

pub data AgentStatus : Type 0 where
  offline idle busy error : AgentStatus

pub record AgentRow : Type 0 where
  pub id : ℕ
  pub name : String
  pub status : AgentStatus
  pub last_seen : Option ℕ
  pub updated_at : ℕ

-- Who went offline: an activity and a notification each.
pub record Health : Type 0 where
  pub agents : List AgentRow
  pub activities : List ℕ
  pub notifications : List ℕ
  pub audits : List (List String)

abbrev pub is_offline : AgentStatus → Bool
is_offline offline = true
is_offline idle = false
is_offline busy = false
is_offline error = false

abbrev pub seen_before : ℕ → Option ℕ → Bool
seen_before threshold none = true
seen_before threshold (some t) = ltb t threshold

-- status != 'offline' AND (last_seen IS NULL OR last_seen < ?)
abbrev pub is_stale : ℕ → AgentRow → Bool
is_stale threshold a = not (is_offline a.status) && seen_before threshold a.last_seen

-- UPDATE agents SET status = ?, updated_at = ? WHERE id = ?
abbrev pub mark_offline : ℕ → ℕ → List AgentRow → List AgentRow
mark_offline now id agents =
    map (λ a. if a.id == id then record a { status = offline; updated_at = now } else a) agents

unfoldable pub mark_all : ℕ → List AgentRow → Health → Health
mark_all now [] h = h
mark_all now (a ∷ stale) h = mark_all now stale (record h {
  agents = mark_offline now a.id h.agents;
  activities = h.activities ++ a.id ∷ [];
  notifications = h.notifications ++ a.id ∷ [];
})

abbrev pub audit_marked : List AgentRow → Health → Health
audit_marked [] h = h
audit_marked (a ∷ stale) h = record h { audits = h.audits ++ map (λ b. b.name) (a ∷ stale) ∷ [] }

-- runHeartbeatCheck at a time in seconds; `timeout` is general.agent_timeout_minutes, 10 by default.
unfoldable pub run_heartbeat_check : ℕ → ℕ → Health → Health
unfolding mark_all
run_heartbeat_check now timeout h =
    let stale = filter (is_stale (now - timeout * 60)) h.agents in
    audit_marked stale (mark_all now stale h)
