-- ===== src/Mentions/Tests.antt =====
-- Mentions of a small text, and the theorems at it. The names are lower case.
use conductor_dashboard.Common.{String, ◌≡◌, refl, none, some, List, [], ◌∷◌, map}
use conductor_dashboard.Mentions.Resolve.{
  UserRow, AgentRow, get_mention_targets, add_users, add_user, user_target, add_agents, add_agent,
  candidate_handles,
}

abbrev same_case : String → String
same_case s = s

abbrev users : List UserRow
users = record { username = "ann"; display_name = none } ∷ []

abbrev agents : List AgentRow
agents = record { name = "build bot"; role = some "ci"; openclaw_id = some "bot" } ∷ []

handles :
    map (λ t. t.handle) (get_mention_targets same_case users agents)
    ≡ "ann" ∷ "bot" ∷ "build-bot" ∷ "build bot" ∷ []
unfolding get_mention_targets add_users add_user user_target add_agents add_agent candidate_handles
handles = refl
