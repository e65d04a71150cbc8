-- ===== src/Auth/Later.antt =====
-- An account that is not there stays so over all requests.
use conductor_dashboard.Common.{
  ℕ, inl, inr, String, Bool, true, false, not, ◌&&◌, ◌||◌, Option, none, some, List, [], ◌∷◌, ◌==◌,
  if◌then◌else◌, Bool-cases, Option-cases, text_truthy, is_some, any,
}
use conductor_dashboard.Auth.{
  AuditEvent, password_change, profile_update, Db, Platform, Config, has_token,
}
use conductor_dashboard.Auth.Sessions.{update_user, create_session, destroy_session, touch_login}
use conductor_dashboard.Auth.Headers.{
  Headers, header, Cookie, malformed, absent, value, parse_cookie,
}
use conductor_dashboard.Auth.Principal.{
  Principal, Identity, crashed, nobody, known, get_user_from_request,
}
use conductor_dashboard.Auth.Reading.{get_user_from_request-KeysOnly}
use conductor_dashboard.Auth.Login.{
  Client, Credentials, answer_login, open_session, post_logout, forget, logged, is_crashed,
}
use conductor_dashboard.Auth.Users.{
  Reply, too_many, CreateUserBody, PutBody, post_users, put_users, delete_users, create_as,
  update_as, delete_as, for_given,
}
use conductor_dashboard.Auth.Profile.{
  MeBody, patch_me, update_me, for_user, check_me, log_if, me_updates, new_password,
}
use conductor_dashboard.Auth.History.{
  Request, log_in, log_out, create, change, delete, profile, handle, play,
}
use conductor_dashboard.Auth.Gone.{
  IsGone, update-none, update_user-IsGone, update_as-IsGone, delete_as-IsGone, limited-IsGone,
  for_admin-IsGone, for_given-IsGone,
}

module _ (id : ℕ) where
  log_if-IsGone : (b : Bool) (e : AuditEvent) (db : Db) → IsGone id db → IsGone id (log_if b e db)
  log_if-IsGone true e db gone = gone
  log_if-IsGone false e db gone = gone

  update_me-IsGone :
      (w : Platform) (salt : String) (p : Principal) (b : MeBody) (now : ℕ) (db : Db)
      → IsGone id db
      → IsGone id (update_me w salt p b now db).0
  unfolding update_me
  update_me-IsGone w salt p b now db gone = elim (Option-cases (check_me w p.id b db)) [
    | inr (why, e) ↦ rw e gone
    | inl e ↦ elim (Bool-cases (is_some (db.users p.id))) [
      | inr k ↦ rw (e, k) gone
      | inl k ↦
          rw (e, k)
            (let updated = update_user w salt p.id (me_updates b) now db in
              let changed = is_some (new_password b.new_password) in
              let said = password_change p.username p.id in
              log_if-IsGone (is_some b.display_name) (profile_update p.username p.id)
                (log_if changed said updated)
                (log_if-IsGone changed said updated
                  (update_user-IsGone id w salt p.id (me_updates b) now db gone)))
    ]
  ]

  for_user-IsGone :
      (who : Identity) (db : Db) (rest : Principal → Db × Reply)
      → IsGone id db
      → ((p : Principal) → IsGone id (rest p).0)
      → IsGone id (for_user who db rest).0
  for_user-IsGone crashed db rest gone k = gone
  for_user-IsGone nobody db rest gone k = gone
  for_user-IsGone (known p) db rest gone k = elim (Bool-cases (p.id == 0)) [
    | inl e ↦ rw e gone
    | inr e ↦ rw e (k p)
  ]

  open_session-IsGone :
      (client : Client) (token : String) (now : ℕ) (db : Db) (found : Option ℕ) (tried : String)
      → IsGone id db
      → IsGone id (open_session client token now db found tried).0
  unfolding open_session create_session
  open_session-IsGone client token now db none tried gone = gone
  open_session-IsGone client token now db (some n) tried (none_there, below) =
      elim (Bool-cases (any (has_token token) db.sessions || not (is_some (db.users n)))) [
        | inl e ↦ rw e (none_there, below)
        | inr e ↦ rw e (update-none id db.users n (λ u. true) (touch_login now) none_there, below)
      ]

  answer_login-IsGone :
      (w : Platform) (client : Client) (body : Option Credentials) (token : String) (now : ℕ)
      (db : Db)
      → IsGone id db
      → IsGone id (answer_login w client body token now db).0
  unfolding answer_login
  answer_login-IsGone w client none token now db gone = gone
  answer_login-IsGone w client (some b) token now db gone =
      elim (Bool-cases (text_truthy b.username && text_truthy b.password)) [
        | inl e ↦ rw e (open_session-IsGone client token now db _ b.username gone)
        | inr e ↦ rw e gone
      ]

  forget-IsGone : (k : Cookie) (db : Db) → IsGone id db → IsGone id (forget k db)
  unfolding destroy_session
  forget-IsGone malformed db gone = gone
  forget-IsGone absent db gone = gone
  forget-IsGone (value token) db gone = elim (Bool-cases (text_truthy token)) [
    | inl e ↦ rw e gone
    | inr e ↦ rw e gone
  ]

  logged-IsGone : (who : Identity) (db : Db) → IsGone id db → IsGone id (logged who db)
  logged-IsGone crashed db gone = gone
  logged-IsGone nobody db gone = gone
  logged-IsGone (known p) db gone = gone

  module _ (w : Platform) (c : Config) (h : Headers) (now : ℕ) (db : Db) (gone : IsGone id db) where
    post_logout-IsGone : IsGone id (post_logout w c h now db).0
    unfolding post_logout
    post_logout-IsGone =
        let (ks, same) = get_user_from_request-KeysOnly w c h now db in
        let who = (get_user_from_request w c h now db).1 in
        let db1 : Db = record db { keys = ks } in
        let k = parse_cookie w.decode_uri (header h.cookie) in
        rw same (elim (Bool-cases (is_crashed who)) [
          | inl e ↦ rw e gone
          | inr e ↦ rw e (logged-IsGone who (forget k db1) (forget-IsGone k db1 gone))
        ])

    post_users-IsGone :
        (admitted : Bool) (salt : String) (b : CreateUserBody)
        → IsGone id (post_users w c h admitted salt b now db).0
    unfolding post_users
    post_users-IsGone admitted salt b =
        let (ks, same) = get_user_from_request-KeysOnly w c h now db in
        let who = (get_user_from_request w c h now db).1 in
        let db1 : Db = record db { keys = ks } in
        rw same (
          for_admin-IsGone id who db1
            (λ p. if admitted then create_as w salt p b now db1 else (db1, too_many)) gone
            (λ p. limited-IsGone id admitted w salt p b now db1 gone))

    put_users-IsGone : (salt : String) (b : PutBody) → IsGone id (put_users w c h salt b now db).0
    unfolding put_users
    put_users-IsGone salt b =
        let (ks, same) = get_user_from_request-KeysOnly w c h now db in
        let who = (get_user_from_request w c h now db).1 in
        let db1 : Db = record db { keys = ks } in
        rw same (
          for_admin-IsGone id who db1
            (λ p. for_given b.id db1 (λ i. update_as w salt p i b.updates now db1)) gone
            (λ p.
              for_given-IsGone id b.id db1 (λ i. update_as w salt p i b.updates now db1) gone
                (λ i. update_as-IsGone id w salt p i b.updates now db1 gone)))

    delete_users-IsGone : (n : Option ℕ) → IsGone id (delete_users w c h n now db).0
    unfolding delete_users
    delete_users-IsGone n =
        let (ks, same) = get_user_from_request-KeysOnly w c h now db in
        let who = (get_user_from_request w c h now db).1 in
        let db1 : Db = record db { keys = ks } in
        rw same (
          for_admin-IsGone id who db1 (λ p. for_given n db1 (λ i. delete_as p i db1)) gone
            (λ p.
              for_given-IsGone id n db1 (λ i. delete_as p i db1) gone
                (λ i. delete_as-IsGone id p i db1 gone)))

    patch_me-IsGone : (salt : String) (b : MeBody) → IsGone id (patch_me w c h salt b now db).0
    unfolding patch_me
    patch_me-IsGone salt b =
        let (ks, same) = get_user_from_request-KeysOnly w c h now db in
        let who = (get_user_from_request w c h now db).1 in
        let db1 : Db = record db { keys = ks } in
        rw same (
          for_user-IsGone who db1 (λ p. update_me w salt p b now db1) gone
            (λ p. update_me-IsGone w salt p b now db1 gone))

  handle-IsGone :
      (w : Platform) (c : Config) (now : ℕ) (r : Request) (db : Db)
      → IsGone id db
      → IsGone id (handle w c now r db)
  unfolding handle
  handle-IsGone w c now (log_in client body token) db gone =
      answer_login-IsGone w client body token now db gone
  handle-IsGone w c now (log_out h) db gone = post_logout-IsGone w c h now db gone
  handle-IsGone w c now (create h admitted salt b) db gone =
      post_users-IsGone w c h now db gone admitted salt b
  handle-IsGone w c now (change h salt b) db gone = put_users-IsGone w c h now db gone salt b
  handle-IsGone w c now (delete h n) db gone = delete_users-IsGone w c h now db gone n
  handle-IsGone w c now (profile h salt b) db gone = patch_me-IsGone w c h now db gone salt b

  pub play-IsGone :
      (w : Platform) (c : Config) (rs : List (ℕ × Request)) (db : Db)
      → IsGone id db
      → IsGone id (play w c rs db)
  unfolding play
  play-IsGone w c [] db gone = gone
  play-IsGone w c ((now, r) ∷ rs) db gone =
      play-IsGone w c rs (handle w c now r db) (handle-IsGone w c now r db gone)
