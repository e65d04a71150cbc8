-- ===== src/Auth/LoginTests.antt =====
-- Logins, passwords and profiles on small databases.
use conductor_dashboard.Common.{
  ℕ, ◌≤◌, ◌+◌, ◌<◌, ◌≡◌, ◌↔◌, refl, true, false, none, some, List, [], ◌∷◌, arith, text_truthy,
}
use conductor_dashboard.RateLimit.Window.{left}
use conductor_dashboard.Auth.{User, Db}
use conductor_dashboard.Auth.Password.{
  hash_password, verify_password, verify_password-hash_password,
}
use conductor_dashboard.Auth.Sessions.{
  session_duration, authenticate_user, create_session, validate_session,
}
use conductor_dashboard.Auth.Headers.{Headers, value, header, parse_cookie}
use conductor_dashboard.Auth.Principal.{Principal, user, get_user_from_request, known}
use conductor_dashboard.Auth.Login.{
  Client, Credentials, answer_login, open_session, login_limiter, welcome,
}
use conductor_dashboard.Auth.Profile.{MeBody, patch_me}
use conductor_dashboard.Auth.Lifetime.{is_account, answer_login-lasts}
use conductor_dashboard.Auth.Guesses.{Attempt, answered, answered-le}
use conductor_dashboard.Auth.OwnPassword.{Guarded, patch_me-Guarded}
use conductor_dashboard.Auth.Tests.{toy, no_key, someone, office, from_ada}

abbrev browser : Client
browser = record { forwarded_for = some "10.0.0.9"; real_ip = none; user_agent = none }

abbrev bob_login : Credentials
bob_login = record { username = "bob"; password = "correct horse" }

abbrev after_login : Db
unfolding answer_login open_session authenticate_user create_session verify_password
after_login = (answer_login toy browser (some bob_login) "t2" 500 office).0

welcome_bob :
    answer_login toy browser (some bob_login) "t2" 500 office
    ≡ (after_login, welcome 2 "t2" session_duration)
unfolding after_login answer_login open_session authenticate_user create_session verify_password
welcome_bob = refl

answer_login-lasts_example :
    (u : User) × (office.users 2 ≡ some u)
    × (is_account toy bob_login u ≡ true)
    × ((h : Headers) (later : ℕ)
        → parse_cookie toy.decode_uri (header h.cookie) ≡ value "t2"
        → text_truthy "t2" ≡ true
        → (later < 500 + session_duration
            → (p : Principal) × ((get_user_from_request toy no_key h later after_login).1 ≡ known p)
              × (p.id ≡ 2)
              × (p.role ≡ u.role)
              × (p.principal_type ≡ user))
          × (500 + session_duration ≤ later → validate_session "t2" later after_login ≡ none))
answer_login-lasts_example =
    answer_login-lasts toy no_key browser bob_login "t2" 500 2 session_duration office after_login
      welcome_bob

abbrev attempts : List Attempt
attempts =
    record { client = browser; body = some bob_login; token = "t2"; now = 70000 }
    ∷ record { client = browser; body = none; token = "t3"; now = 80000 }
    ∷ []

answered-le_example :
    answered toy (λ ip. false) true true "10.0.0.9" attempts (λ ip. none) office
    ≤ left (login_limiter true) none + 5
answered-le_example =
    answered-le toy (λ ip. false) true true "10.0.0.9" 60000 attempts (λ ip. none) office
      (omega arith)

verify_password-hash_password_example :
    (verify_password toy.hex toy.unhex toy.scrypt "wrong horse"
        (hash_password toy.hex toy.unhex toy.scrypt "salt" "correct horse")
      ≡ true)
    ↔ (toy.scrypt "wrong horse" "salt" ≡ toy.scrypt "correct horse" "salt")
verify_password-hash_password_example =
    verify_password-hash_password toy.hex toy.unhex toy.scrypt "salt" "correct horse" "wrong horse"
      refl refl refl refl refl

abbrev new_secret : MeBody
new_secret = record {
  current_password = some "correct horse";
  new_password = some "battery staple";
  display_name = none;
}

patch_me-Guarded_example :
    (u : User) × ((patch_me toy no_key from_ada "salt" new_secret 500 office).0.users 1 ≡ some u)
    × Guarded toy new_secret (someone "ada" "admin" 1) u
patch_me-Guarded_example =
    patch_me-Guarded toy no_key from_ada "salt" new_secret 500 office 1 (someone "ada" "admin" 1)
      refl
