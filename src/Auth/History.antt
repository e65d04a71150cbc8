-- ===== src/Auth/History.antt =====
-- The requests of all clients to login, logout, me and users of app/api/auth, one after the other. A
-- login is one that the limiter lets through; Google login and access requests are not among them.
use conductor_dashboard.Common.{ℕ, String, Bool, Option, List, [], ◌∷◌}
use conductor_dashboard.Auth.{Db, Platform, Config}
use conductor_dashboard.Auth.Headers.{Headers}
use conductor_dashboard.Auth.Login.{Client, Credentials, answer_login, post_logout}
use conductor_dashboard.Auth.Users.{CreateUserBody, PutBody, post_users, put_users, delete_users}
use conductor_dashboard.Auth.Profile.{MeBody, patch_me}

-- With the random token or salt, where one is drawn.
pub data Request : Type 0 where
  log_in : Client → Option Credentials → String → Request
  log_out : Headers → Request
  create : Headers → Bool → String → CreateUserBody → Request
  change : Headers → String → PutBody → Request
  delete : Headers → Option ℕ → Request
  profile : Headers → String → MeBody → Request

unfoldable pub handle : Platform → Config → ℕ → Request → Db → Db
unfolding answer_login post_logout post_users put_users delete_users patch_me
handle w c now (log_in client body token) db = (answer_login w client body token now db).0
handle w c now (log_out h) db = (post_logout w c h now db).0
handle w c now (create h admitted salt b) db = (post_users w c h admitted salt b now db).0
handle w c now (change h salt b) db = (put_users w c h salt b now db).0
handle w c now (delete h id) db = (delete_users w c h id now db).0
handle w c now (profile h salt b) db = (patch_me w c h salt b now db).0

-- Requests with their times.
unfoldable pub play : Platform → Config → List (ℕ × Request) → Db → Db
unfolding handle
play w c [] db = db
play w c ((now, r) ∷ rs) db = play w c rs (handle w c now r db)
