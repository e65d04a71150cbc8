-- ===== src/Auth/Reading.antt =====
-- What finding out who a request comes from leaves of the state.
use conductor_dashboard.Common.{
  ℕ, ◌≡◌, refl, inl, inr, String, Option, none, some, List, Bool-cases,
}
use conductor_dashboard.Auth.{User, UserSession, Agent, AgentApiKey, Db, Platform, Config}
use conductor_dashboard.Auth.Headers.{Headers, header, parse_cookie}
use conductor_dashboard.Auth.Principal.{
  Principal, get_user_from_request, is_malformed, by_session, by_key, or_system, use_key,
  validate_agent_api_key,
}

-- Who a request comes from is found without a change but to the keys.
abbrev pub KeysOnly : Db → Db → Type 0
KeysOnly db db' = (ks : List AgentApiKey) × (db' ≡ record db { keys = ks })

use_key-KeysOnly :
    (w : Platform) (now : ℕ) (db : Db) (row : Option (AgentApiKey × Agent))
    → KeysOnly db (use_key w now db row).0
use_key-KeysOnly w now db none = (db.keys, refl)
use_key-KeysOnly w now db (some (k, a)) = (_, refl)

or_system-KeysOnly :
    (c : Config) (name : Option String) (key : String) (db : Db) (r : Db × Option Principal)
    → KeysOnly db r.0
    → KeysOnly db (or_system c name key r).0
or_system-KeysOnly c name key db (db', none) h = h
or_system-KeysOnly c name key db (db', some p) h = h

by_key-KeysOnly :
    (w : Platform) (c : Config) (name : Option String) (now : ℕ) (db : Db) (key : Option String)
    → KeysOnly db (by_key w c name now db key).0
unfolding validate_agent_api_key
by_key-KeysOnly w c name now db none = (db.keys, refl)
by_key-KeysOnly w c name now db (some key) =
    or_system-KeysOnly c name key db _ (use_key-KeysOnly w now db _)

by_session-KeysOnly :
    (w : Platform) (c : Config) (h : Headers) (name : Option String) (now : ℕ) (db : Db)
    (row : Option (UserSession × User))
    → KeysOnly db (by_session w c h name now db row).0
by_session-KeysOnly w c h name now db (some (s, u)) = (db.keys, refl)
by_session-KeysOnly w c h name now db none = by_key-KeysOnly w c name now db _

pub get_user_from_request-KeysOnly :
    (w : Platform) (c : Config) (h : Headers) (now : ℕ) (db : Db)
    → KeysOnly db (get_user_from_request w c h now db).0
unfolding get_user_from_request
get_user_from_request-KeysOnly w c h now db =
    elim (Bool-cases (is_malformed (parse_cookie w.decode_uri (header h.cookie)))) [
      | inl e ↦ rw e (db.keys, refl)
      | inr e ↦ rw e (by_session-KeysOnly w c h _ now db _)
    ]
