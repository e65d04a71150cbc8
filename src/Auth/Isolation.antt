-- ===== src/Auth/Isolation.antt =====
-- What the administrators of a workspace can do to accounts, of other workspaces and their own.
use conductor_dashboard.Common.{
  ltb, utf16_length, ℕ, ◌≡◌, ◌≢◌, refl, ◌∙◌, inl, inr, String, Bool, true, false, Option, none,
  some, arith, ◌==◌, str_eq, eq_iff, if◌then◌else◌, Bool-cases, Option-cases, is_some, select, Rows,
}
use conductor_dashboard.Auth.{User, Db, Platform, Config}
use conductor_dashboard.Auth.Sessions.{
  UserUpdates, update_user, delete_user, create_user, find_username,
}
use conductor_dashboard.Auth.Headers.{Headers}
use conductor_dashboard.Auth.Principal.{
  Principal, Identity, crashed, nobody, known, get_user_from_request,
}
use conductor_dashboard.Auth.Reading.{get_user_from_request-KeysOnly}
use conductor_dashboard.Auth.Users.{
  Reply, too_many, for_admin, for_given, is_valid_body, CreateUserBody, PutBody, post_users,
  put_users, delete_users, create_as, update_as, delete_as, in_workspace, check_new_role,
}

-- The accounts of other workspaces are as they were.
abbrev pub Stays : ℕ → Db → Db → Type 0
Stays ws db db' =
    (n : ℕ) (u : User) → db.users n ≡ some u → u.workspace_id ≢ ws → db'.users n ≡ some u

-- Where a selected account is of the workspace, one of another workspace has another id.
elsewhere :
    (ws id n : ℕ) (us : Rows User) (u : User)
    → is_some (select us id (in_workspace ws)) ≡ true
    → us n ≡ some u
    → u.workspace_id ≢ ws
    → (n == id) ≡ false
elsewhere ws id n us u here row other = elim (Bool-cases (n == id)) [
  | inr e ↦ e
  | inl e ↦
      let same : us id ≡ some u = ground arith in absurd (let k = rw same at here in ground arith)
]

update_as-Stays :
    (w : Platform) (salt : String) (p : Principal) (id : ℕ) (c : UserUpdates) (now : ℕ) (db : Db)
    → Stays p.workspace_id db (update_as w salt p id c now db).0
unfolding update_as update_user
update_as-Stays w salt p id c now db n u row other =
    elim (Option-cases (check_new_role p id c.role)) [
      | inr (why, e) ↦ rw e row
      | inl e ↦ elim (Bool-cases (is_some (select db.users id (in_workspace p.workspace_id)))) [
        | inr k ↦ rw (e, k) row
        | inl k ↦
            let apart = elsewhere p.workspace_id id n db.users u k row other in
            rw (e, k) (ground arith)
      ]
    ]

delete_as-Stays : (p : Principal) (id : ℕ) (db : Db) → Stays p.workspace_id db (delete_as p id db).0
unfolding delete_as delete_user
delete_as-Stays p id db n u row other = elim (Bool-cases (id == p.id)) [
  | inl e ↦ rw e row
  | inr e ↦ elim (Bool-cases (is_some (select db.users id (in_workspace p.workspace_id)))) [
    | inr k ↦ rw (e, k) row
    | inl k ↦
        let apart = elsewhere p.workspace_id id n db.users u k row other in rw (e, k, apart) row
  ]
]

create_as-Stays :
    (w : Platform) (salt : String) (p : Principal) (b : CreateUserBody) (now : ℕ) (db : Db)
    → db.users db.next_user ≡ none
    → Stays p.workspace_id db (create_as w salt p b now db).0
unfolding create_as create_user
create_as-Stays w salt p b now db fresh n u row other =
    let old : (n == db.next_user) ≡ false = elim (Bool-cases (n == db.next_user)) [
      | inr e ↦ e
      | inl e ↦ absurd (let same : db.users n ≡ none = ground arith in cc)
    ] in
    elim (Bool-cases (is_valid_body b)) [
      | inr e ↦ rw e row
      | inl e ↦ elim (Bool-cases (ltb (utf16_length b.password) 12)) [
        | inl short ↦ rw (e, short) row
        | inr long ↦ elim (Bool-cases (is_some (find_username b.username db))) [
          | inl taken ↦ rw (e, long, taken) row
          | inr free ↦ rw (e, long, free, old) row
        ]
      ]
    ]

limited-Stays :
    (admitted : Bool) (w : Platform) (salt : String) (p : Principal) (b : CreateUserBody) (now : ℕ)
    (db : Db)
    → db.users db.next_user ≡ none
    → Stays p.workspace_id db (if admitted then create_as w salt p b now db else (db, too_many)).0
limited-Stays true w salt p b now db fresh = create_as-Stays w salt p b now db fresh
limited-Stays false w salt p b now db fresh = λ n u row other. row

for_admin-Stays :
    (ws : ℕ) (who : Identity) (db : Db) (rest : Principal → Db × Reply)
    → ((p : Principal)
        → who ≡ known p
        → p.role ≡ "admin"
        → (p.workspace_id ≡ ws) × Stays p.workspace_id db (rest p).0)
    → Stays ws db (for_admin who db rest).0
for_admin-Stays ws crashed db rest k n u row other = row
for_admin-Stays ws nobody db rest k n u row other = row
for_admin-Stays ws (known p) db rest k n u row other = elim (Bool-cases (str_eq p.role "admin")) [
  | inl e ↦
      let (same, stays) = k p refl ((eq_iff p.role "admin").0 e) in
      rw e (stays n u row (λ q. other (q ∙ same)))
  | inr e ↦ rw e row
]

for_given-Stays :
    (ws : ℕ) (id : Option ℕ) (db : Db) (rest : ℕ → Db × Reply)
    → ((i : ℕ) → Stays ws db (rest i).0)
    → Stays ws db (for_given id db rest).0
for_given-Stays ws none db rest k n u row other = row
for_given-Stays ws (some i) db rest k n u row other = elim (Bool-cases (i == 0)) [
  | inl e ↦ rw e row
  | inr e ↦ rw e (k i n u row other)
]

-- Where the id of the next account is free, what a request creates, changes or deletes at app/api/auth/users,
-- if it is an administrator's of the workspace ws or no administrator's, leaves the accounts of every other
-- workspace as they were.
pub users-Stays :
    (w : Platform) (c : Config) (h : Headers) (now : ℕ) (db : Db) (ws : ℕ)
    → db.users db.next_user ≡ none
    → ((p : Principal)
        → (get_user_from_request w c h now db).1 ≡ known p
        → p.role ≡ "admin"
        → p.workspace_id ≡ ws)
    → (admitted : Bool) (salt : String) (b : CreateUserBody) (put : PutBody) (id : Option ℕ)
    → Stays ws db (post_users w c h admitted salt b now db).0
      × Stays ws db (put_users w c h salt put now db).0
      × Stays ws db (delete_users w c h id now db).0
unfolding post_users put_users delete_users
users-Stays w c h now db ws fresh as_admin admitted salt b put id =
    let (ks, same) = get_user_from_request-KeysOnly w c h now db in
    let who = (get_user_from_request w c h now db).1 in
    rw same (
      for_admin-Stays ws who (record db { keys = ks }) _
          (λ p e a. (
            as_admin p e a,
            (limited-Stays admitted w salt p b now (record db { keys = ks }) fresh),
          )),
      for_admin-Stays ws who (record db { keys = ks }) _
          (λ p e a. (
            as_admin p e a,
            (for_given-Stays p.workspace_id put.id (record db { keys = ks }) _
                (λ i. update_as-Stays w salt p i put.updates now (record db { keys = ks }))),
          )),
      for_admin-Stays ws who (record db { keys = ks }) _
          (λ p e a. (
            as_admin p e a,
            (for_given-Stays p.workspace_id id (record db { keys = ks }) _
                (λ i. delete_as-Stays p i (record db { keys = ks }))),
          )),
    )
