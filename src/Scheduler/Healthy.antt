-- ===== src/Scheduler/Healthy.antt =====
-- The check of the agents, against a description of it in one pass.
use conductor_dashboard.Common.{
  ℕ, ◌-◌, ◌*◌, ◌≡◌, refl, sym, ap, ◌∙◌, subst, fun_ext, inl, inr, Bool, true, false, List, [], ◌∷◌,
  ◌++◌, arith, filter, map, any, ◌==◌, if◌then◌else◌, All, Bool-cases,
}
use conductor_dashboard.Scheduler.Check.{
  AgentRow, Health, offline, is_stale, mark_offline, mark_all, audit_marked, run_heartbeat_check,
}

-- An agent that has not been seen since the threshold goes offline, another stays.
abbrev pub refresh : ℕ → ℕ → AgentRow → AgentRow
refresh now threshold a =
    if is_stale threshold a then record a { status = offline; updated_at = now } else a

-- The agents have different ids, as rows of a table do.
abbrev pub IdsApart : List AgentRow → Type 0
IdsApart [] = Unit
IdsApart (a ∷ rows) = (any (λ b. a.id == b.id) rows ≡ false) × IdsApart rows

abbrev mark : ℕ → List AgentRow → AgentRow → AgentRow
mark now stale a =
    if any (λ b. a.id == b.id) stale then record a { status = offline; updated_at = now } else a

map-map :
    (f g : AgentRow → AgentRow) (rows : List AgentRow)
    → map g (map f rows) ≡ map (λ a. g (f a)) rows
map-map f g [] = refl
map-map f g (a ∷ rows) = ap (λ xs. g (f a) ∷ xs) (map-map f g rows)

mark-cons :
    (now : ℕ) (x : AgentRow) (stale : List AgentRow) (a : AgentRow)
    → mark now stale (if a.id == x.id then record a { status = offline; updated_at = now } else a)
      ≡ mark now (x ∷ stale) a
mark-cons now x stale a = elim (Bool-cases (a.id == x.id)) [
  | inr e ↦ rw e refl
  | inl e ↦ elim (Bool-cases (any (λ b. a.id == b.id) stale)) [
    | inl f ↦ rw (e, f) refl
    | inr f ↦ rw (e, f) refl
  ]
]

mark-nil : (now : ℕ) (rows : List AgentRow) → rows ≡ map (mark now []) rows
mark-nil now [] = refl
mark-nil now (a ∷ rows) = ap (λ xs. a ∷ xs) (mark-nil now rows)

mark_all-agents :
    (now : ℕ) (stale : List AgentRow) (h : Health)
    → (mark_all now stale h).agents ≡ map (mark now stale) h.agents
unfolding mark_all
mark_all-agents now [] h = mark-nil now h.agents
mark_all-agents now (x ∷ stale) h =
    let h' : Health = record h {
      agents = mark_offline now x.id h.agents;
      activities = h.activities ++ x.id ∷ [];
      notifications = h.notifications ++ x.id ∷ [];
    } in
    mark_all-agents now stale h'
    ∙ map-map (λ a. if a.id == x.id then record a { status = offline; updated_at = now } else a)
        (mark now stale) h.agents
    ∙ ap (λ f. map f h.agents) (fun_ext (mark-cons now x stale))

-- The rows that are stale mark those rows alone.
any-filter-false :
    (p q : AgentRow → Bool) (rows : List AgentRow)
    → any p rows ≡ false
    → any p (filter q rows) ≡ false
any-filter-false p q [] h = refl
any-filter-false p q (a ∷ rows) h = elim (Bool-cases (p a)) [
  | inl e ↦ absurd (let g = rw e at h in cc g)
  | inr e ↦ elim (Bool-cases (q a)) [
    | inl f ↦ rw (f, e) (any-filter-false p q rows (rw e at h))
    | inr f ↦ rw f (any-filter-false p q rows (rw e at h))
  ]
]

-- One more row leaves the marks of the rows with other ids.
more-marks :
    (st : AgentRow → Bool) (x : AgentRow) (marks rows : List AgentRow)
    → any (λ b. x.id == b.id) rows ≡ false
    → All (λ a. any (λ b. a.id == b.id) marks ≡ st a) rows
    → All (λ a. any (λ b. a.id == b.id) (x ∷ marks) ≡ st a) rows
more-marks st x marks [] h all = tt
more-marks st x marks (a ∷ rows) h (here, rest) = elim (Bool-cases (x.id == a.id)) [
  | inl e ↦ absurd (let g = rw e at h in cc g)
  | inr e ↦
      let other : (a.id == x.id) ≡ false = ground (arith, e) in
      (rw other here, more-marks st x marks rows (rw e at h) rest)
]

filter-marks :
    (st : AgentRow → Bool) (rows : List AgentRow)
    → IdsApart rows
    → All (λ a. any (λ b. a.id == b.id) (filter st rows) ≡ st a) rows
filter-marks st [] apart = tt
filter-marks st (x ∷ rows) (different, apart) = elim (Bool-cases (st x)) [
  | inl e ↦
      let own : (x.id == x.id) ≡ true = ground arith in
      let step : filter st (x ∷ rows) ≡ x ∷ filter st rows = rw e refl in
      subst (λ m. All (λ a. any (λ b. a.id == b.id) m ≡ st a) (x ∷ rows)) (sym step)
        (
          rw own (sym e),
          more-marks st x (filter st rows) rows different (filter-marks st rows apart),
        )
  | inr e ↦
      let step : filter st (x ∷ rows) ≡ filter st rows = rw e refl in
      subst (λ m. All (λ a. any (λ b. a.id == b.id) m ≡ st a) (x ∷ rows)) (sym step)
        (any-filter-false (λ b. x.id == b.id) st rows different ∙ sym e, filter-marks st rows apart)
]

map-marks :
    (now threshold : ℕ) (marks rows : List AgentRow)
    → All (λ a. any (λ b. a.id == b.id) marks ≡ is_stale threshold a) rows
    → map (mark now marks) rows ≡ map (refresh now threshold) rows
map-marks now threshold marks [] all = refl
map-marks now threshold marks (a ∷ rows) (here, rest) =
    rw (here, map-marks now threshold marks rows rest) refl

audit_marked-agents :
    (stale : List AgentRow) (h : Health) → (audit_marked stale h).agents ≡ h.agents
audit_marked-agents [] h = refl
audit_marked-agents (a ∷ stale) h = refl

-- On agents with different ids, the check is one pass over them: each that is not offline and was last seen
-- before the timeout, or never, goes offline at that time, and every other stays as it is.
pub run_heartbeat_check-refresh :
    (now timeout : ℕ) (h : Health)
    → IdsApart h.agents
    → (run_heartbeat_check now timeout h).agents ≡ map (refresh now (now - timeout * 60)) h.agents
unfolding run_heartbeat_check
run_heartbeat_check-refresh now timeout h apart =
    let threshold = now - timeout * 60 in
    let stale = filter (is_stale threshold) h.agents in
    audit_marked-agents stale (mark_all now stale h)
    ∙ mark_all-agents now stale h
    ∙ map-marks now threshold stale h.agents (filter-marks (is_stale threshold) h.agents apart)
