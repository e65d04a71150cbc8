-- ===== src/Auth/Access.antt =====
-- What stands behind a request that requireRole lets through.
use mathlib.Core.List.{Memᴰ}
use conductor_dashboard.Common.{
  ℕ, ◌≤◌, ◌<◌, ◌≡◌, refl, sym, inl, inr, String, Bool, true, false, ◌&&◌, Option, none, some, List,
  [], ◌∷◌, arith, find, ltb, str_eq, eq_iff, if◌then◌else◌, Bool-cases, Option-cases, text_truthy,
  trim, is_some, find_passes,
}
use conductor_dashboard.Auth.{
  User, UserSession, Agent, AgentApiKey, Db, Platform, Config, pair_with, join_first,
}
use conductor_dashboard.Auth.Sessions.{is_live, validate_session}
use conductor_dashboard.Auth.Headers.{
  Headers, header, Cookie, malformed, absent, value, parse_cookie, extract_api_key_from_headers,
}
use conductor_dashboard.Auth.Principal.{
  Principal, session_principal, key_principal, system_principal, agent_header, is_valid_key,
  agent_of, use_key, or_system, by_key, by_session, session_of, is_malformed,
  validate_agent_api_key, get_user_from_request, Identity, crashed, nobody, known, Role, role_name,
  role_level, check_role, granted, require_role, not_over,
}

-- What may stand behind a principal: a live session of an account with the cookie's token, a key of an
-- agent of its own workspace that is neither revoked nor over, with the hash of the request's key, or the key
-- of the configuration.
pub data Backed (w : Platform) (c : Config) (h : Headers) (now : ℕ) (db : Db)
    : Principal → Type 0 where
  session :
      (token : String) (u : User) (s : UserSession)
      → parse_cookie w.decode_uri (header h.cookie) ≡ value token
      → text_truthy token ≡ true
      → Memᴰ s db.sessions
      → s.token ≡ token
      → now < s.expires_at
      → db.users s.user_id ≡ some u
      → Backed w c h now db (session_principal (agent_header h) db u s)
  agent_key :
      (raw : String) (k : AgentApiKey) (a : Agent)
      → extract_api_key_from_headers w.lower_case h ≡ some raw
      → Memᴰ k db.keys
      → k.key_hash ≡ w.sha256 raw
      → k.revoked_at ≡ none
      → not_over now k.expires_at ≡ true
      → Memᴰ a db.agents
      → a.id ≡ k.agent_id
      → a.workspace_id ≡ k.workspace_id
      → Backed w c h now db (key_principal w k a)
  system_key :
      extract_api_key_from_headers w.lower_case h ≡ some (trim c.api_key)
      → text_truthy (trim c.api_key) ≡ true
      → Backed w c h now db (system_principal (agent_header h) db)

module _ {ℓ} {A : Type ℓ} where
  find-Mem : (p : A → Bool) (xs : List A) {x : A} → find p xs ≡ some x → Memᴰ x xs
  find-Mem p [] h = absurd (cc)
  find-Mem p (y ∷ ys) {x} h = elim (Bool-cases (p y)) [
    | inl e ↦ Memᴰ.head (let same : y ≡ x = ground arith in sym same)
    | inr e ↦ Memᴰ.tail (find-Mem p ys (rw e at h))
  ]

module _ {ℓ κ} {A : Type ℓ} {B : Type κ} where
  pair_with-inv :
      (x : A) (o : Option B) {a : A} {b : B} → pair_with x o ≡ some (a, b) → (x ≡ a) × (o ≡ some b)
  pair_with-inv x none h = absurd (cc)
  pair_with-inv x (some b) h = ground arith

  join_first-finds :
      (p : A → Bool) (partner : A → Option B) (xs : List A) {a : A} {b : B}
      → join_first p partner xs ≡ some (a, b)
      → Memᴰ a xs × (p a ≡ true) × (partner a ≡ some b)
  join_first-finds p partner [] h = absurd (cc)
  join_first-finds p partner (x ∷ xs) {a} {b} h =
      elim (Option-cases (if p x then pair_with x (partner x) else none)) [
        | inl e ↦ let (m, q, r) = join_first-finds p partner xs (rw e at h) in (Memᴰ.tail m, q, r)
        | inr (ab, e) ↦
            let found : ab ≡ (a, b) = ground arith in
            elim (Bool-cases (p x)) [
              | inl q ↦
                  let (same, r) = pair_with-inv x (partner x) (let k = rw (q, found) at e in k) in
                  (Memᴰ.head (sym same), rw same at q, rw same at r)
              | inr q ↦ absurd (let k = rw q at e in cc k)
            ]
      ]

is_some-none {ℓ} : {A : Type ℓ} (o : Option A) → is_some o ≡ false → o ≡ none
is_some-none none h = refl
is_some-none (some a) h = absurd (cc)

is_live-inv :
    (token : String) (now : ℕ) (s : UserSession)
    → is_live token now s ≡ true
    → (s.token ≡ token) × (now < s.expires_at)
is_live-inv token now s h = ground (arith, eq_iff s.token token, h)

is_valid_key-inv :
    (hash : String) (now : ℕ) (k : AgentApiKey)
    → is_valid_key hash now k ≡ true
    → (k.key_hash ≡ hash) × (k.revoked_at ≡ none) × (not_over now k.expires_at ≡ true)
is_valid_key-inv hash now k h =
    let unrevoked : is_some k.revoked_at ≡ false = ground arith in
    (ground (arith, eq_iff k.key_hash hash), is_some-none k.revoked_at unrevoked, ground arith)

agent_of-inv :
    (k : AgentApiKey) (a : Agent)
    → agent_of k a ≡ true
    → (a.id ≡ k.agent_id) × (a.workspace_id ≡ k.workspace_id)
agent_of-inv k a h = ground arith

module _ (w : Platform) (c : Config) (h : Headers) (now : ℕ) (db : Db) where
  use_key-Backed :
      (raw : String) (p : Principal) (row : Option (AgentApiKey × Agent))
      → extract_api_key_from_headers w.lower_case h ≡ some raw
      → join_first (is_valid_key (w.sha256 raw) now) (λ k. find (agent_of k) db.agents) db.keys
        ≡ row
      → (or_system c (agent_header h) raw (use_key w now db row)).1 ≡ known p
      → Backed w c h now db p
  use_key-Backed raw p none has looked r =
      elim (Bool-cases (text_truthy (trim c.api_key) && str_eq raw (trim c.api_key))) [
        | inl e ↦
            let same : system_principal (agent_header h) db ≡ p = ground arith in
            let is_key : raw ≡ trim c.api_key = ground (arith, eq_iff raw (trim c.api_key)) in
            rw (sym same) (
              Backed.system_key (rw is_key at has)
                (let t : text_truthy (trim c.api_key) ≡ true = ground arith in t))
        | inr e ↦ absurd (let k = rw e at r in cc k)
      ]
  use_key-Backed raw p (some (k, a)) has looked r =
      let (m, q, found) = join_first-finds _ _ db.keys looked in
      let same : key_principal w k a ≡ p = ground arith in
      let (hashed, live, in_time) = is_valid_key-inv (w.sha256 raw) now k q in
      let (own, ws) = agent_of-inv k a (find_passes (agent_of k) db.agents found) in
      rw (sym same) (
        Backed.agent_key raw k a has m hashed live in_time (find-Mem (agent_of k) db.agents found)
          own ws)

  by_key-Backed :
      (p : Principal) (key : Option String)
      → extract_api_key_from_headers w.lower_case h ≡ key
      → (by_key w c (agent_header h) now db key).1 ≡ known p
      → Backed w c h now db p
  unfolding validate_agent_api_key
  by_key-Backed p none has r = absurd (cc)
  by_key-Backed p (some raw) has r = use_key-Backed raw p _ has refl r

  by_session-Backed :
      (p : Principal) (row : Option (UserSession × User)) (cookie : Cookie)
      → parse_cookie w.decode_uri (header h.cookie) ≡ cookie
      → session_of now db cookie ≡ row
      → (by_session w c h (agent_header h) now db row).1 ≡ known p
      → Backed w c h now db p
  unfolding validate_session
  by_session-Backed p none cookie read looked r = by_key-Backed p _ refl r
  by_session-Backed p (some (s, u)) malformed read looked r = absurd (cc)
  by_session-Backed p (some (s, u)) absent read looked r = absurd (cc)
  by_session-Backed p (some (s, u)) (value token) read looked r =
      elim (Bool-cases (text_truthy token)) [
        | inr e ↦ absurd (let k = rw e at looked in cc k)
        | inl truthy ↦
            let (m, q, found) = join_first-finds _ _ db.sessions (rw truthy at looked) in
            let (own, live) = is_live-inv token now s q in
            let same : session_principal (agent_header h) db u s ≡ p = ground arith in
            rw (sym same) (Backed.session token u s read truthy m own live found)
      ]

  pub get_user_from_request-Backed :
      (p : Principal) → (get_user_from_request w c h now db).1 ≡ known p → Backed w c h now db p
  unfolding get_user_from_request
  get_user_from_request-Backed p r =
      elim (Bool-cases (is_malformed (parse_cookie w.decode_uri (header h.cookie)))) [
        | inl e ↦ absurd (let k = rw e at r in cc k)
        | inr e ↦ by_session-Backed p _ _ refl refl (rw e at r)
      ]

ltb-false : (a b : ℕ) → ltb a b ≡ false → b ≤ a
ltb-false a b h = ground arith

check_granted :
    (min : Role) (p : Principal) (who : Identity)
    → check_role min who ≡ granted p
    → (role_level (role_name min) ≤ role_level p.role) × (who ≡ known p)
check_granted min p crashed r = absurd (cc)
check_granted min p nobody r = absurd (cc)
check_granted min p (known q) r =
    elim (Bool-cases (ltb (role_level q.role) (role_level (role_name min)))) [
      | inl e ↦ absurd (let k = rw e at r in cc k)
      | inr e ↦ let same : q ≡ p = ground arith in (rw same at (ltb-false _ _ e), rw same refl)
    ]

-- A request that requireRole lets through comes from a principal with at least that role, and behind it stands a
-- session that is not over, of an account that exists; or a key of an agent of its own workspace that is neither
-- revoked nor over; or the key of the configuration, which is not blank.
pub require_role-granted :
    (w : Platform) (c : Config) (h : Headers) (min : Role) (now : ℕ) (db : Db) (p : Principal)
    → (require_role w c h min now db).1 ≡ granted p
    → (role_level (role_name min) ≤ role_level p.role) × Backed w c h now db p
unfolding require_role
require_role-granted w c h min now db p r =
    let (enough, who) = check_granted min p _ r in
    (enough, get_user_from_request-Backed w c h now db p who)
