-- ===== src/Auth/Guesses.antt =====
-- How many passwords an address can try at POST of app/api/auth/login.
use conductor_dashboard.Common.{
  ℕ, ◌+◌, ◌/◌, ◌≤◌, ◌≡◌, refl, ap, inl, inr, String, Bool, true, false, not, ◌&&◌, ◌||◌, Option,
  none, some, List, [], ◌∷◌, Bool-cases, text_truthy, any, is_some, All,
}
use conductor_dashboard.RateLimit.{Entries, check_rate_limit, extract_client_ip}
use conductor_dashboard.RateLimit.Window.{
  Event, request, counts_for, admitted, left, Within, admitted-le,
}
use conductor_dashboard.Auth.{Db, Platform, has_token}
use conductor_dashboard.Auth.Sessions.{create_session}
use conductor_dashboard.Auth.Login.{
  Client, Credentials, LoginReply, too_many, missing, invalid, failed, welcome, login_limiter,
  open_session, answer_login, post_login,
}

-- A request, with the token that would be drawn, at a time in milliseconds.
pub record Attempt : Type 0 where
  pub client : Client
  pub body : Option Credentials
  pub token : String
  pub now : ℕ

abbrev pub is_answered : LoginReply → Bool
is_answered too_many = false
is_answered missing = true
is_answered invalid = true
is_answered failed = true
is_answered (welcome id token d) = true

module _ (trusted : String → Bool) (has_trusted : Bool) where
  abbrev pub ip_of : Attempt → String
  ip_of a = extract_client_ip trusted has_trusted a.client.forwarded_for a.client.real_ip

  abbrev pub events : List Attempt → List Event
  events [] = []
  events (a ∷ rest) = request (ip_of a) a.now ∷ events rest

module _ (w : Platform) (trusted : String → Bool) (has_trusted disabled : Bool) where
  -- How many requests from `ip` the limiter lets through to the password, of all that come.
  unfoldable pub answered : String → List Attempt → Entries → Db → ℕ
  unfolding post_login
  answered ip [] entries db = 0
  answered ip (a ∷ rest) entries db =
      let (entries', db', reply) =
        post_login w trusted has_trusted disabled a.client a.body a.token a.now entries db in
      counts_for ip (ip_of trusted has_trusted a) (is_answered reply)
      + answered ip rest entries' db'

open_is_answered :
    (c : Client) (token : String) (now : ℕ) (db : Db) (found : Option ℕ) (tried : String)
    → is_answered (open_session c token now db found tried).1 ≡ true
unfolding open_session create_session
open_is_answered c token now db none tried = refl
open_is_answered c token now db (some id) tried =
    elim (Bool-cases (any (has_token token) db.sessions || not (is_some (db.users id)))) [
      | inl e ↦ rw e refl
      | inr e ↦ rw e refl
    ]

answer_is_answered :
    (w : Platform) (c : Client) (body : Option Credentials) (token : String) (now : ℕ) (db : Db)
    → is_answered (answer_login w c body token now db).1 ≡ true
unfolding answer_login
answer_is_answered w c none token now db = refl
answer_is_answered w c (some b) token now db =
    elim (Bool-cases (text_truthy b.username && text_truthy b.password)) [
      | inl e ↦ rw e (open_is_answered c token now db _ b.username)
      | inr e ↦ rw e refl
    ]

module _ (w : Platform) (trusted : String → Bool) (has_trusted disabled : Bool) (ip : String) where
  answered-admitted :
      (attempts : List Attempt) (entries : Entries) (db : Db)
      → answered w trusted has_trusted disabled ip attempts entries db
        ≡ admitted (login_limiter disabled) ip (events trusted has_trusted attempts) entries
  unfolding answered admitted post_login
  answered-admitted [] entries db = refl
  answered-admitted (a ∷ rest) entries db =
      let o = login_limiter disabled in
      let from = ip_of trusted has_trusted a in
      let after = (check_rate_limit o from a.now entries).0 in
      let db' = (answer_login w a.client a.body a.token (a.now / 1000) db).0 in
      elim (Bool-cases (check_rate_limit o from a.now entries).1) [
        | inl e ↦
            rw (e, answer_is_answered w a.client a.body a.token (a.now / 1000) db)
              (ap (λ n. counts_for ip from true + n) (answered-admitted rest after db'))
        | inr e ↦ rw e (ap (λ n. counts_for ip from false + n) (answered-admitted rest after db))
      ]

events-Within :
    (trusted : String → Bool) (has_trusted disabled : Bool) (start : ℕ) (attempts : List Attempt)
    → All (λ a. (start ≤ a.now) × (a.now ≤ start + 60000)) attempts
    → Within (login_limiter disabled) start (events trusted has_trusted attempts)
events-Within trusted has_trusted disabled start [] h = tt
events-Within trusted has_trusted disabled start (a ∷ rest) (h, k) =
    (h, events-Within trusted has_trusted disabled start rest k)

never_off : (disabled : Bool) → (disabled && not true) ≡ false
never_off true = refl
never_off false = refl

-- In any minute, whatever comes from other addresses, the limiter lets through from one address at most what its
-- running window still admits and five more requests, also where rate limits are switched off.
pub answered-le :
    (w : Platform) (trusted : String → Bool) (has_trusted disabled : Bool) (ip : String) (start : ℕ)
    (attempts : List Attempt) (entries : Entries) (db : Db)
    → All (λ a. (start ≤ a.now) × (a.now ≤ start + 60000)) attempts
    → answered w trusted has_trusted disabled ip attempts entries db
      ≤ left (login_limiter disabled) (entries ip) + 5
answered-le w trusted has_trusted disabled ip start attempts entries db within =
    rw (answered-admitted w trusted has_trusted disabled ip attempts entries db) (
      admitted-le (login_limiter disabled) ip start (events trusted has_trusted attempts) entries
        (never_off disabled) (events-Within trusted has_trusted disabled start attempts within))
