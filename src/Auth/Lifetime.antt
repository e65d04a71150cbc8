-- ===== src/Auth/Lifetime.antt =====
-- How long the session lasts that a login opens.
use conductor_dashboard.Common.{
  ℕ, ◌+◌, ◌≤◌, ◌<◌, ◌≡◌, refl, sym, ap, ◌∙◌, inl, inr, String, Bool, true, false, not, ◌&&◌, ◌||◌,
  Option, none, some, List, [], ◌∷◌, ◌++◌, arith, ltb, lt→ltb, ==_refl, str_eq, eq_iff,
  if◌then◌else◌, Bool-cases, Option-cases, text_truthy, is_some, any, filter, row_has,
  first_id_passes,
}
use conductor_dashboard.Auth.{
  login, log_audit_event, User, UserSession, Db, Platform, Config, has_token, or_next, pair_with,
  join_first,
}
use conductor_dashboard.Auth.Sessions.{
  create_session, with_session, validate_session, is_live, is_over, new_session, session_duration,
  touch_login, authenticate_user, may_log_in, is_named, find_username,
}
use conductor_dashboard.Auth.Headers.{Headers, header, value, parse_cookie}
use conductor_dashboard.Auth.Principal.{
  Principal, user, known, get_user_from_request, session_principal, agent_header,
}
use conductor_dashboard.Auth.Login.{
  Client, Credentials, answer_login, open_session, logged_in, welcome, LoginReply, workspace_of,
  ip_address, name_of,
}

or_next-none : (s : UserSession) (o : Option User) → or_next (pair_with s o) none ≡ pair_with s o
or_next-none s none = refl
or_next-none s (some u) = refl

module _ (token : String) (later : ℕ) (owner : UserSession → Option User) where
  -- A token that no session has finds only the session that is added.
  join_first-added :
      (now : ℕ) (ss : List UserSession) (s : UserSession)
      → any (has_token token) ss ≡ false
      → s.token ≡ token
      → is_over now s ≡ false
      → join_first (is_live token later) owner (filter (λ x. not (is_over now x)) (ss ++ (s ∷ [])))
        ≡ (if ltb later s.expires_at then pair_with s (owner s) else none)
  join_first-added now [] s h own fresh =
      let same : str_eq s.token token ≡ true = (eq_iff s.token token).1 own in
      elim (Bool-cases (ltb later s.expires_at)) [
        | inl e ↦ rw (fresh, same, e) (or_next-none s (owner s))
        | inr e ↦ rw (fresh, same, e) refl
      ]
  join_first-added now (x ∷ ss) s h own fresh =
      let other : has_token token x ≡ false = ground arith in
      let rest = join_first-added now ss s (ground arith) own fresh in
      elim (Bool-cases (is_over now x)) [ inl e ↦ rw e rest | inr e ↦ rw (e, other) rest ]

abbrev pub is_account : Platform → Credentials → User → Bool
is_account w b u = str_eq u.username b.username && may_log_in w b.password u

opt_some {ℓ} : {A : Type ℓ} {x y : A} → some x ≡ some y → x ≡ y
opt_some {x} h = ap (λ o. elim o [ none ↦ x | some z ↦ z ]) h

live_after :
    (token : String) (later id ws : ℕ) (ip agent : Option String) (now : ℕ) (db : Db) (u : User)
    → (with_session token id ws ip agent now db).users id ≡ some (touch_login now u)
    → any (has_token token) db.sessions ≡ false
    → join_first
        (is_live token later)
        (λ s. (with_session token id ws ip agent now db).users s.user_id)
        (with_session token id ws ip agent now db).sessions
      ≡ (if ltb later (now + session_duration)
          then some (new_session db.next_session token id ws ip agent now, touch_login now u)
          else none)
live_after token later id ws ip agent now db u touched new =
    let s = new_session db.next_session token id ws ip agent now in
    let owner = (with_session token id ws ip agent now db).users in
    let added =
      join_first-added token later (λ s. owner s.user_id) now db.sessions s new refl
        (ground arith) in
    added ∙ (rw touched refl)

-- What a login that succeeds has found and made.
created_session :
    (token : String) (id ws : ℕ) (ip agent : Option String) (now : ℕ) (db db' : Db)
    → create_session token id ws ip agent now db ≡ some db'
    → (u : User) × (db.users id ≡ some u)
      × (db'.users id ≡ some (touch_login now u))
      × ((later : ℕ)
          → validate_session token later db' ≡ (
              if text_truthy token && ltb later (now + session_duration)
              then some (new_session db.next_session token id ws ip agent now, touch_login now u)
              else none))
unfolding create_session validate_session
created_session token id ws ip agent now db db' made =
    elim (Bool-cases (any (has_token token) db.sessions || not (is_some (db.users id)))) [
      | inl e ↦ absurd (let k = rw e at made in cc k)
      | inr e ↦ elim (Option-cases (db.users id)) [
        | inl missing ↦ absurd (let k = rw missing at e in ground arith)
        | inr (u, row) ↦
            let same : with_session token id ws ip agent now db ≡ db' = opt_some (rw e at made) in
            let touched : (with_session token id ws ip agent now db).users id
                ≡ some (touch_login now u) =
              rw (==_refl id, row) refl in
            rw (sym same) (
              u,
              row,
              touched,
              (λ later. elim (Bool-cases (text_truthy token)) [
                | inr blank ↦ rw blank refl
                | inl truthy ↦
                    rw truthy
                      (live_after token later id ws ip agent now db u touched (ground arith))
              ]),
            )
      ]
    ]

row_has-inv :
    (p : User → Bool) (o : Option User) (u : User) → o ≡ some u → row_has p o ≡ true → p u ≡ true
row_has-inv p o u row h = rw row at h

authenticated :
    (w : Platform) (b : Credentials) (db : Db) (id : ℕ) (u : User)
    → authenticate_user w b.username b.password db ≡ some id
    → db.users id ≡ some u
    → is_account w b u ≡ true
unfolding authenticate_user
authenticated w b db id u found row = elim (Option-cases (find_username b.username db)) [
  | inl e ↦ absurd (let k = rw e at found in cc k)
  | inr (i, e) ↦ elim (Bool-cases (row_has (may_log_in w b.password) (db.users i))) [
    | inr k ↦ absurd (let q = rw (e, k) at found in cc q)
    | inl k ↦
        let same : i ≡ id = opt_some (rw (e, k) at found) in
        let (named, _) =
          first_id_passes (λ j. row_has (is_named b.username) (db.users j)) db.next_user e in
        let mine : str_eq u.username b.username ≡ true =
          row_has-inv (is_named b.username) (db.users id) u row (rw same at named) in
        let may : may_log_in w b.password u ≡ true =
          row_has-inv (may_log_in w b.password) (db.users id) u row (rw same at k) in
        rw (mine, may) refl
  ]
]

-- The account that a session finds.
by_token :
    (w : Platform) (c : Config) (h : Headers) (later : ℕ) (db : Db) (token : String)
    (s : UserSession) (u : User)
    → parse_cookie w.decode_uri (header h.cookie) ≡ value token
    → validate_session token later db ≡ some (s, u)
    → (get_user_from_request w c h later db).1 ≡ known (session_principal (agent_header h) db u s)
unfolding get_user_from_request
by_token w c h later db token s u read found = rw (read, found) refl

reply_id : ℕ → LoginReply → ℕ
reply_id n (welcome id token d) = id
reply_id n other = n

logged_in-inv :
    (i : ℕ) (name : String) (token : String) (db : Db) (made : Option Db) (db' : Db) (id d : ℕ)
    → logged_in i name token db made ≡ (db', welcome id token d)
    → (db1 : Db) × (made ≡ some db1) × (i ≡ id) × (log_audit_event (login name i) db1 ≡ db')
unfolding reply_id
logged_in-inv i name token db none db' id d h = absurd (let k = ap (λ r. r.1) h in cc k)
logged_in-inv i name token db (some db1) db' id d h =
    (db1, refl, ap (λ r. reply_id 0 r.1) h, ap (λ r. r.0) h)

-- The session that a login opens.
open_session-lasts :
    (client : Client) (token : String) (now : ℕ) (db : Db) (i : ℕ) (name : String) (db' : Db)
    (id d : ℕ)
    → open_session client token now db (some i) name ≡ (db', welcome id token d)
    → (i ≡ id)
      × (u : User) × (s : UserSession) × (db.users id ≡ some u)
      × (s.user_id ≡ id)
      × ((later : ℕ)
          → validate_session token later db' ≡ (
              if text_truthy token && ltb later (now + session_duration)
              then some (s, touch_login now u)
              else none))
unfolding open_session validate_session
open_session-lasts client token now db i name db' id d h =
    let (db1, made, same, logged) = logged_in-inv i (name_of db i) token db _ db' id d h in
    let (u, row, _, lasts) =
      created_session token i (workspace_of db i) (some (ip_address client)) client.user_agent now
        db db1 made in
    rw (sym same, sym logged)
      (
        refl,
        u,
        new_session db.next_session token i (workspace_of db i) (some (ip_address client))
            client.user_agent now,
        row,
        refl,
        lasts,
      )

-- A login that succeeds is that of a local, approved account with the name and the password of the request. A request
-- with the new token in its cookie, where that is not empty, is the account's, with its role, until seven days
-- are over; from then on the token has no session.
pub answer_login-lasts :
    (w : Platform) (c : Config) (client : Client) (b : Credentials) (token : String) (now id d : ℕ)
    (db db' : Db)
    → answer_login w client (some b) token now db ≡ (db', welcome id token d)
    → (u : User) × (db.users id ≡ some u)
      × (is_account w b u ≡ true)
      × ((h : Headers) (later : ℕ)
          → parse_cookie w.decode_uri (header h.cookie) ≡ value token
          → text_truthy token ≡ true
          → (later < now + session_duration
              → (p : Principal) × ((get_user_from_request w c h later db').1 ≡ known p)
                × (p.id ≡ id)
                × (p.role ≡ u.role)
                × (p.principal_type ≡ user))
            × (now + session_duration ≤ later → validate_session token later db' ≡ none))
unfolding answer_login
answer_login-lasts w c client b token now id d db db' h =
    elim (Bool-cases (text_truthy b.username && text_truthy b.password)) [
      | inr e ↦ absurd (let k = rw e at (ap (λ r. r.1) h) in cc k)
      | inl e ↦ elim (Option-cases (authenticate_user w b.username b.password db)) [
        | inl wrong ↦ absurd (let k = rw (e, wrong) at (ap (λ r. r.1) h) in cc k)
        | inr (i, right) ↦
            let opened = rw (e, right) at h in
            let (same, u, s, row, own, lasts) =
              open_session-lasts client token now db i b.username db' id d opened in
            (
              u,
              row,
              authenticated w b db id u (rw same at right) row,
              (λ h' later read truthy. (
                (λ early. (
                  session_principal (agent_header h') db' (touch_login now u) s,
                  by_token w c h' later db' token s (touch_login now u) read
                      (rw (truthy, lt→ltb later (now + session_duration) early) at (lasts later)),
                  own,
                  refl,
                  refl,
                )),
                (λ late.
                    let over : ltb later (now + session_duration) ≡ false = ground arith in
                    rw (truthy, over) at (lasts later)),
              )),
            )
      ]
    ]
