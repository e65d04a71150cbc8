-- ===== src/Mentions/Resolve.antt =====
-- `getMentionTargets` and `resolveMentionRecipients`.
use Prim.Native.Char.{code}
use Prim.Native.String
use conductor_dashboard.Common.{
  String, Bool, true, false, Option, none, some, List, [], ◌∷◌, ◌++◌, map, any, str_eq, is_white,
  trim, text_truthy, if◌then◌else◌,
}
use conductor_dashboard.Mentions.{parse_mentions}

pub data TargetType : Type 0 where
  user agent : TargetType

pub record MentionTarget : Type 0 where
  pub handle : String
  pub recipient : String
  pub type : TargetType
  pub display : String
  pub role : Option String

-- The rows of the two SELECTs, in order of their names; `openclaw_id` is the text of that name in the
-- agent's config, if the config parses and has one.
pub record UserRow : Type 0 where
  pub username : String
  pub display_name : Option String

pub record AgentRow : Type 0 where
  pub name : String
  pub role : Option String
  pub openclaw_id : Option String

pub record MentionResolution : Type 0 where
  pub tokens : List String
  pub unresolved : List String
  pub recipients : List String
  pub resolved : List MentionTarget

-- replace(/\s+/g, '-'); `gap` where the last character was white.
abbrev pub dash_gaps : Bool → String → String
dash_gaps gap String.[] = String.[]
dash_gaps gap (String.◌∷◌ c s) =
    let in_gap = dash_gaps true s in
    let dashed = String.◌++◌ "-" in_gap in
    let kept = String.◌∷◌ c (dash_gaps false s) in
    if is_white (code c) then (if gap then in_gap else dashed) else kept

abbrev pub has_handle : String → MentionTarget → Bool
has_handle h t = str_eq t.handle h

-- A target whose handle is taken is left out; targets stand in order.
abbrev pub add_target : MentionTarget → List MentionTarget → List MentionTarget
add_target t ts = if any (has_handle t.handle) ts then ts else ts ++ t ∷ []

abbrev pub display_of : String → Option String → String
display_of name none = name
display_of name (some d) = if text_truthy (trim d) then trim d else name

abbrev pub some_text : Option String → Option String
some_text none = none
some_text (some s) = if text_truthy s then some s else none

abbrev pub agent_target : String → Option String → String → MentionTarget
agent_target recipient role handle = record {
  handle = handle;
  recipient = recipient;
  type = agent;
  display = recipient;
  role = some_text role;
}

-- The openclawId, if it is not blank.
abbrev pub openclaw_handle : Option String → List String
openclaw_handle none = []
openclaw_handle (some s) = if text_truthy (trim s) then trim s ∷ [] else []

abbrev pub add_handles :
    (String → MentionTarget) → List String → List MentionTarget → List MentionTarget
add_handles f [] ts = ts
add_handles f (h ∷ hs) ts = add_handles f hs (if text_truthy h then add_target (f h) ts else ts)

abbrev pub add_resolved : MentionTarget → List MentionTarget → List MentionTarget
add_resolved t rs = if any (λ r. str_eq r.recipient t.recipient) rs then rs else rs ++ t ∷ []

-- One token: it is resolved or it is not.
abbrev pub note_token :
    String
    → Option MentionTarget
    → List MentionTarget × List String
    → List MentionTarget × List String
note_token token none (resolved, unresolved) = (resolved, unresolved ++ token ∷ [])
note_token token (some t) (resolved, unresolved) = (add_resolved t resolved, unresolved)

module _ (lower : String → String) where
  unfoldable pub user_target : UserRow → MentionTarget
  user_target u =
      let name = trim u.username in
      record {
        handle = lower name;
        recipient = name;
        type = user;
        display = display_of name u.display_name;
        role = none;
      }

  unfoldable pub add_user : UserRow → List MentionTarget → List MentionTarget
  unfolding user_target
  add_user u ts = if text_truthy (trim u.username) then add_target (user_target u) ts else ts

  unfoldable pub candidate_handles : AgentRow → List String
  candidate_handles a =
      let name = trim a.name in
      map lower (openclaw_handle a.openclaw_id ++ dash_gaps false (lower name) ∷ lower name ∷ [])

  unfoldable pub add_agent : AgentRow → List MentionTarget → List MentionTarget
  unfolding candidate_handles
  add_agent a ts =
      if text_truthy (trim a.name)
      then add_handles (agent_target (trim a.name) a.role) (candidate_handles a) ts
      else ts

  unfoldable pub add_users : List UserRow → List MentionTarget → List MentionTarget
  unfolding add_user
  add_users [] ts = ts
  add_users (u ∷ us) ts = add_users us (add_user u ts)

  unfoldable pub add_agents : List AgentRow → List MentionTarget → List MentionTarget
  unfolding add_agent
  add_agents [] ts = ts
  add_agents (a ∷ rest) ts = add_agents rest (add_agent a ts)

  unfoldable pub get_mention_targets : List UserRow → List AgentRow → List MentionTarget
  unfolding add_users add_agents
  get_mention_targets users agents = add_agents agents (add_users users [])

  -- byHandle.get, where a later target of a handle replaces an earlier one.
  unfoldable pub look_up : String → Option MentionTarget → List MentionTarget → Option MentionTarget
  look_up k found [] = found
  look_up k found (t ∷ ts) = look_up k (if str_eq (lower t.handle) k then some t else found) ts

  unfoldable pub resolve_tokens :
      List String
      → List MentionTarget
      → List MentionTarget × List String
      → List MentionTarget × List String
  unfolding look_up
  resolve_tokens [] targets acc = acc
  resolve_tokens (token ∷ tokens) targets acc =
      resolve_tokens tokens targets (note_token token (look_up (lower token) none targets) acc)

  -- No tokens give an empty resolution, as the code's early return does.
  unfoldable pub resolve_mention_recipients :
      String → List UserRow → List AgentRow → MentionResolution
  unfolding resolve_tokens get_mention_targets parse_mentions
  resolve_mention_recipients text users agents =
      let tokens = parse_mentions lower text in
      let (resolved, unresolved) =
        resolve_tokens tokens (get_mention_targets users agents) ([], []) in
      record {
        tokens = tokens;
        unresolved = unresolved;
        recipients = map (λ t. t.recipient) resolved;
        resolved = resolved;
      }
