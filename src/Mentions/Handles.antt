-- ===== src/Mentions/Handles.antt =====
-- Every handle has one target.
use conductor_dashboard.Common.{
  ◌≡◌, ◌≢◌, sym, inl, inr, String, false, List, [], ◌∷◌, ◌++◌, any, eq_iff, All, All-append,
  Bool-cases, text_truthy, trim,
}
use conductor_dashboard.Mentions.Resolve.{
  MentionTarget, UserRow, AgentRow, has_handle, add_target, add_handles, agent_target, add_user,
  user_target, candidate_handles, add_agent, add_users, add_agents, get_mention_targets,
}

-- No two targets have one handle.
abbrev pub Distinct : List MentionTarget → Type 0
Distinct [] = Unit
Distinct (t ∷ ts) = All (λ u. u.handle ≢ t.handle) ts × Distinct ts

untaken :
    (h : String) (ts : List MentionTarget)
    → any (has_handle h) ts ≡ false
    → All (λ u. h ≢ u.handle) ts
untaken h [] e = tt
untaken h (t ∷ ts) e = elim (Bool-cases (has_handle h t)) [
  | inl hit ↦ absurd (let q = rw hit at e in cc q)
  | inr miss ↦ (λ same. let q = (eq_iff t.handle h).1 (sym same) in cc, untaken h ts (rw miss at e))
]

Distinct-append :
    (t : MentionTarget) (ts : List MentionTarget)
    → All (λ u. t.handle ≢ u.handle) ts
    → Distinct ts
    → Distinct (ts ++ t ∷ [])
Distinct-append t [] a d = (tt, tt)
Distinct-append t (u ∷ us) (a, others) (p, d) =
    (All-append (λ v. v.handle ≢ u.handle) us (t ∷ []) p (a, tt), Distinct-append t us others d)

add_target-Distinct :
    (t : MentionTarget) (ts : List MentionTarget) → Distinct ts → Distinct (add_target t ts)
add_target-Distinct t ts d = elim (Bool-cases (any (has_handle t.handle) ts)) [
  | inl taken ↦ rw taken d
  | inr free ↦ rw free (Distinct-append t ts (untaken t.handle ts free) d)
]

add_handles-Distinct :
    (f : String → MentionTarget) (hs : List String) (ts : List MentionTarget)
    → Distinct ts
    → Distinct (add_handles f hs ts)
add_handles-Distinct f [] ts d = d
add_handles-Distinct f (h ∷ hs) ts d = elim (Bool-cases (text_truthy h)) [
  | inl e ↦ rw e (add_handles-Distinct f hs (add_target (f h) ts) (add_target-Distinct (f h) ts d))
  | inr e ↦ rw e (add_handles-Distinct f hs ts d)
]

module _ (lower : String → String) where
  add_users-Distinct :
      (us : List UserRow) (ts : List MentionTarget) → Distinct ts → Distinct (add_users lower us ts)
  unfolding add_users add_user
  add_users-Distinct [] ts d = d
  add_users-Distinct (u ∷ us) ts d = elim (Bool-cases (text_truthy (trim u.username))) [
    | inl e ↦ rw e (
        add_users-Distinct us (add_target (user_target lower u) ts)
          (add_target-Distinct (user_target lower u) ts d))
    | inr e ↦ rw e (add_users-Distinct us ts d)
  ]

  add_agents-Distinct :
      (rows : List AgentRow) (ts : List MentionTarget)
      → Distinct ts
      → Distinct (add_agents lower rows ts)
  unfolding add_agents add_agent
  add_agents-Distinct [] ts d = d
  add_agents-Distinct (a ∷ rest) ts d = elim (Bool-cases (text_truthy (trim a.name))) [
    | inl e ↦ rw e (
        add_agents-Distinct rest
          (add_handles (agent_target (trim a.name) a.role) (candidate_handles lower a) ts)
          (add_handles-Distinct (agent_target (trim a.name) a.role) (candidate_handles lower a) ts
            d))
    | inr e ↦ rw e (add_agents-Distinct rest ts d)
  ]

  -- Whatever users and agents there are, no two targets have one handle.
  pub get_mention_targets-Distinct :
      (users : List UserRow) (agents : List AgentRow)
      → Distinct (get_mention_targets lower users agents)
  unfolding get_mention_targets
  get_mention_targets-Distinct users agents =
      add_agents-Distinct agents (add_users lower users []) (add_users-Distinct users [] tt)
