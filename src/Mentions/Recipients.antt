-- ===== src/Mentions/Recipients.antt =====
-- What becomes of each token of a text.
use conductor_dashboard.Common.{◌≡◌, String, Bool, true, Option, none, some, List, any, str_eq}
use conductor_dashboard.Mentions.Resolve.{MentionTarget, MentionResolution}

abbrev pub is_for : MentionTarget → MentionTarget → Bool
is_for t r = str_eq r.recipient t.recipient

abbrev pub Outcome : Type 0
Outcome = List MentionTarget × List String

-- The token is among the unresolved, or its target's recipient is that of a resolved target.
abbrev pub IsAccounted : String → Option MentionTarget → Outcome → Type 0
IsAccounted token none (resolved, unresolved) = any (str_eq token) unresolved ≡ true
IsAccounted token (some t) (resolved, unresolved) = any (is_for t) resolved ≡ true

-- The token is among the unresolved, or its target's recipient among the recipients.
abbrev pub IsReported : MentionResolution → String → Option MentionTarget → Type 0
IsReported r token none = any (str_eq token) r.unresolved ≡ true
IsReported r token (some t) = any (str_eq t.recipient) r.recipients ≡ true
