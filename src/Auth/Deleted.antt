-- ===== src/Auth/Deleted.antt =====
-- A deleted account over all later requests.
use conductor_dashboard.Common.{
  ℕ, ◌<◌, ◌≡◌, ◌≢◌, refl, sym, ap, ◌∙◌, inl, inr, none, some, List, ◌==◌, ==_refl, str_eq,
  Bool-cases, is_some, select,
}
use conductor_dashboard.Auth.{Db, Platform, Config}
use conductor_dashboard.Auth.Sessions.{delete_user}
use conductor_dashboard.Auth.Headers.{Headers}
use conductor_dashboard.Auth.Principal.{
  Principal, user, Identity, crashed, nobody, known, get_user_from_request,
}
use conductor_dashboard.Auth.Access.{get_user_from_request-Backed}
use conductor_dashboard.Auth.Admins.{user_row}
use conductor_dashboard.Auth.Reading.{get_user_from_request-KeysOnly}
use conductor_dashboard.Auth.Login.{logged_in}
use conductor_dashboard.Auth.Users.{
  done, delete_users, delete_as, in_workspace, for_given, for_admin,
}
use conductor_dashboard.Auth.History.{Request, play}
use conductor_dashboard.Auth.Gone.{IsGone}
use conductor_dashboard.Auth.Later.{play-IsGone}

deleted_row :
    (p : Principal) (id : ℕ) (db : Db)
    → id < db.next_user
    → (delete_as p id db).1 ≡ done
    → IsGone id (delete_as p id db).0
unfolding delete_as delete_user
deleted_row p id db below h = elim (Bool-cases (id == p.id)) [
  | inl e ↦ absurd (let k = rw e at h in cc k)
  | inr e ↦ elim (Bool-cases (is_some (select db.users id (in_workspace p.workspace_id)))) [
    | inr k ↦ absurd (let q = rw (e, k) at h in cc q)
    | inl k ↦ rw (e, k, ==_refl id) (refl, below)
  ]
]

deleted_for :
    (who : Identity) (id : ℕ) (db : Db)
    → id < db.next_user
    → (for_admin who db (λ p. for_given (some id) db (λ i. delete_as p i db))).1 ≡ done
    → IsGone id (for_admin who db (λ p. for_given (some id) db (λ i. delete_as p i db))).0
deleted_for crashed id db below h = absurd (cc)
deleted_for nobody id db below h = absurd (cc)
deleted_for (known p) id db below h = elim (Bool-cases (str_eq p.role "admin")) [
  | inr e ↦ absurd (let k = rw e at h in cc k)
  | inl e ↦ elim (Bool-cases (id == 0)) [
    | inl z ↦ absurd (let k = rw (e, z) at h in cc k)
    | inr z ↦ rw (e, z) (deleted_row p id db below (rw (e, z) at h))
  ]
]

-- Once an account that had been given its id is deleted at app/api/auth/users, no session makes a request the
-- account's again, whatever requests to login, logout, me and users of app/api/auth come between, those
-- that create accounts included.
pub play-deleted :
    (w : Platform) (c : Config) (h : Headers) (id now : ℕ) (db : Db)
    → id < db.next_user
    → (delete_users w c h (some id) now db).1 ≡ done
    → (rs : List (ℕ × Request)) (h' : Headers) (later : ℕ) (p : Principal)
    → (get_user_from_request w c h' later (play w c rs (delete_users w c h (some id) now db).0)).1
      ≡ known p
    → p.principal_type ≡ user
    → p.id ≢ id
unfolding delete_users
play-deleted w c h id now db below deleted rs h' later p who logged_in same_id =
    let (ks, same) = get_user_from_request-KeysOnly w c h now db in
    let first = (delete_users w c h (some id) now db).0 in
    let gone : IsGone id first = rw same (
      deleted_for (get_user_from_request w c h now db).1 id (record db { keys = ks }) below
        (rw same at deleted)) in
    let (missing, _) = play-IsGone id w c rs first gone in
    let (u, row, _) =
      user_row w c h' later _ p (get_user_from_request-Backed w c h' later _ p who) logged_in in
    let after = play w c rs first in
    let there : after.users p.id ≡ none = ap after.users same_id ∙ missing in
    let clash : none ≡ some u = sym there ∙ row in cc
