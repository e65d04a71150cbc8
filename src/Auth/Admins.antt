-- ===== src/Auth/Admins.antt =====
-- An administrator who is logged in, and their own account.
use conductor_dashboard.Common.{
  ℕ, ◌≡◌, ◌≢◌, refl, sym, ap, ◌∙◌, inl, inr, String, Bool, true, false, Option, none, some, arith,
  ◌==◌, str_eq, eq_iff, Bool-cases, Option-cases, is_some, select, row_has, get_or_else,
}
use conductor_dashboard.Auth.{or_null, User, Db, Platform, Config}
use conductor_dashboard.Auth.Sessions.{UserUpdates, update_user, delete_user, sets_any}
use conductor_dashboard.Auth.Headers.{Headers}
use conductor_dashboard.Auth.Principal.{Principal, user, known, get_user_from_request}
use conductor_dashboard.Auth.Access.{Backed, get_user_from_request-Backed}
use conductor_dashboard.Auth.Reading.{get_user_from_request-KeysOnly}
use conductor_dashboard.Auth.Users.{
  Reply, PutBody, put_users, delete_users, update_as, delete_as, in_workspace, check_new_role,
  with_password, for_given,
}

-- The account of a principal that is logged in.
pub user_row :
    (w : Platform) (c : Config) (h : Headers) (now : ℕ) (db : Db) (p : Principal)
    → Backed w c h now db p
    → p.principal_type ≡ user
    → (u : User) × (db.users p.id ≡ some u) × (u.role ≡ p.role)
user_row w c h now db _ (Backed.session token u s _ _ _ _ _ row) e = (u, row, refl)
user_row w c h now db _ (Backed.agent_key raw k a _ _ _ _ _ _ _ _) e = absurd (cc)
user_row w c h now db _ (Backed.system_key _ _) e = absurd (cc)

abbrev pub is_admin : User → Bool
is_admin u = str_eq u.role "admin"

-- The role that an update of one's own account leaves.
own_role :
    (p : Principal) (role : Option String) (old : String)
    → check_new_role p p.id role ≡ none
    → role ≢ some ""
    → old ≡ p.role
    → get_or_else old role ≡ p.role
own_role p none old ok full same = same
own_role p (some r) old ok full same =
    let truthy : str_eq r "" ≡ false = elim (Bool-cases (str_eq r "")) [
      | inr e ↦ e
      | inl e ↦ absurd (full (ap some ((eq_iff r "").0 e)))
    ] in
    (eq_iff r p.role).0 (ground arith)

-- What an update leaves of one's own account.
own_row :
    (w : Platform) (salt : String) (id own : ℕ) (c : UserUpdates) (now : ℕ) (db : Db) (u : User)
    → db.users own ≡ some u
    → u.role ≡ "admin"
    → (id ≡ own → get_or_else u.role c.role ≡ "admin")
    → row_has is_admin ((update_user w salt id c now db).users own) ≡ true
unfolding update_user
own_row w salt id own c now db u row admin kept =
    let is : str_eq u.role "admin" ≡ true = (eq_iff u.role "admin").1 admin in
    elim (Bool-cases (sets_any c)) [
      | inr e ↦ rw (e, row) is
      | inl e ↦ elim (Bool-cases (own == id)) [
        | inr other ↦ rw (e, other, row) is
        | inl same ↦
            let hit : id ≡ own = ground arith in
            rw (e, same, row) ((eq_iff (get_or_else u.role c.role) "admin").1 (kept hit))
      ]
    ]

update_as_own :
    (w : Platform) (salt : String) (p : Principal) (id : ℕ) (c : UserUpdates) (now : ℕ) (db : Db)
    (u : User)
    → db.users p.id ≡ some u
    → u.role ≡ "admin"
    → p.role ≡ "admin"
    → c.role ≢ some ""
    → row_has is_admin ((update_as w salt p id c now db).0.users p.id) ≡ true
unfolding update_as
update_as_own w salt p id c now db u row admin mine full =
    let is : str_eq u.role "admin" ≡ true = (eq_iff u.role "admin").1 admin in
    elim (Option-cases (check_new_role p id c.role)) [
      | inr (why, e) ↦ rw (e, row) is
      | inl e ↦ elim (Bool-cases (is_some (select db.users id (in_workspace p.workspace_id)))) [
        | inr k ↦ rw (e, k, row) is
        | inl k ↦
            rw (e, k)
              (own_row w salt id p.id (with_password (or_null c.password) c) now db u row admin
                (λ hit. own_role p c.role u.role (rw hit at e) full (admin ∙ sym mine) ∙ mine))
      ]
    ]

delete_as_own :
    (p : Principal) (id : ℕ) (db : Db) (u : User)
    → db.users p.id ≡ some u
    → u.role ≡ "admin"
    → row_has is_admin ((delete_as p id db).0.users p.id) ≡ true
unfolding delete_as delete_user
delete_as_own p id db u row admin = elim (Bool-cases (id == p.id)) [
  | inl e ↦ rw (e, row) ((eq_iff u.role "admin").1 admin)
  | inr e ↦ elim (Bool-cases (is_some (select db.users id (in_workspace p.workspace_id)))) [
    | inr k ↦ rw (e, k, row) ((eq_iff u.role "admin").1 admin)
    | inl k ↦
        let apart : (p.id == id) ≡ false = ground arith in
        rw (e, k, apart, row) ((eq_iff u.role "admin").1 admin)
  ]
]

own_given :
    (f : Db → Bool) (id : Option ℕ) (db : Db) (rest : ℕ → Db × Reply)
    → f db ≡ true
    → ((i : ℕ) → f (rest i).0 ≡ true)
    → f (for_given id db rest).0 ≡ true
own_given f none db rest h k = h
own_given f (some i) db rest h k = elim (Bool-cases (i == 0)) [
  | inl e ↦ rw e h
  | inr e ↦ rw e (k i)
]

-- An administrator who is logged in has an administrator's account after any update or deletion that they make
-- at app/api/auth/users, if the update does not give the empty role.
pub users-keep_admin :
    (w : Platform) (c : Config) (h : Headers) (now : ℕ) (db : Db) (p : Principal) (salt : String)
    (put : PutBody) (id : Option ℕ)
    → (get_user_from_request w c h now db).1 ≡ known p
    → p.principal_type ≡ user
    → p.role ≡ "admin"
    → put.updates.role ≢ some ""
    → (row_has is_admin ((put_users w c h salt put now db).0.users p.id) ≡ true)
      × (row_has is_admin ((delete_users w c h id now db).0.users p.id) ≡ true)
unfolding put_users delete_users
users-keep_admin w c h now db p salt put id who logged_in admin full =
    let (ks, same) = get_user_from_request-KeysOnly w c h now db in
    let backed = get_user_from_request-Backed w c h now db p who in
    let (u, row, role) = user_row w c h now db p backed logged_in in
    let mine : u.role ≡ "admin" = role ∙ admin in
    let is : row_has is_admin (db.users p.id) ≡ true = rw row ((eq_iff u.role "admin").1 mine) in
    let may : str_eq p.role "admin" ≡ true = (eq_iff p.role "admin").1 admin in
    rw (same, who, may)
      (
        own_given (λ d. row_has is_admin (d.users p.id)) put.id (record db { keys = ks }) _ is
            (λ i.
              update_as_own w salt p i put.updates now (record db { keys = ks }) u row mine admin
                full),
        own_given (λ d. row_has is_admin (d.users p.id)) id (record db { keys = ks }) _ is
            (λ i. delete_as_own p i (record db { keys = ks }) u row mine),
      )
