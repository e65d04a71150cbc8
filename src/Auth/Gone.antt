-- ===== src/Auth/Gone.antt =====
-- What each request does to an account that is not there.
use conductor_dashboard.Common.{
  ℕ, ◌<◌, ◌≡◌, inl, inr, String, Bool, true, false, Option, none, some, arith, ltb, ◌==◌, str_eq,
  if◌then◌else◌, Bool-cases, Option-cases, is_some, select, utf16_length, Rows, update,
}
use conductor_dashboard.Auth.{User, Db, Platform}
use conductor_dashboard.Auth.Sessions.{
  UserUpdates, update_user, delete_user, apply_updates, sets_any, create_user, find_username,
}
use conductor_dashboard.Auth.Principal.{Principal, Identity, crashed, nobody, known}
use conductor_dashboard.Auth.Users.{
  Reply, too_many, CreateUserBody, create_as, update_as, delete_as, in_workspace, check_new_role,
  for_given, for_admin, is_valid_body,
}

-- There is no such account, and its id has been given away.
abbrev pub IsGone : ℕ → Db → Type 0
IsGone id db = (db.users id ≡ none) × (id < db.next_user)

module _ (id : ℕ) where
  pub update-none :
      (t : Rows User) (n : ℕ) (p : User → Bool) (f : User → User)
      → t id ≡ none
      → update t n p f id ≡ none
  update-none t n p f h = ground arith

  pub update_user-IsGone :
      (w : Platform) (salt : String) (n : ℕ) (c : UserUpdates) (now : ℕ) (db : Db)
      → IsGone id db
      → IsGone id (update_user w salt n c now db)
  unfolding update_user
  update_user-IsGone w salt n c now db (none_there, below) = elim (Bool-cases (sets_any c)) [
    | inr e ↦ rw e (none_there, below)
    | inl e ↦
        rw e (update-none db.users n (λ u. true) (apply_updates w salt c now) none_there, below)
  ]

  pub update_as-IsGone :
      (w : Platform) (salt : String) (p : Principal) (n : ℕ) (c : UserUpdates) (now : ℕ) (db : Db)
      → IsGone id db
      → IsGone id (update_as w salt p n c now db).0
  unfolding update_as
  update_as-IsGone w salt p n c now db gone = elim (Option-cases (check_new_role p n c.role)) [
    | inr (why, e) ↦ rw e gone
    | inl e ↦ elim (Bool-cases (is_some (select db.users n (in_workspace p.workspace_id)))) [
      | inr k ↦ rw (e, k) gone
      | inl k ↦ rw (e, k) (update_user-IsGone w salt n _ now db gone)
    ]
  ]

  pub delete_as-IsGone :
      (p : Principal) (n : ℕ) (db : Db) → IsGone id db → IsGone id (delete_as p n db).0
  unfolding delete_as delete_user
  delete_as-IsGone p n db (none_there, below) = elim (Bool-cases (n == p.id)) [
    | inl e ↦ rw e (none_there, below)
    | inr e ↦ elim (Bool-cases (is_some (select db.users n (in_workspace p.workspace_id)))) [
      | inr k ↦ rw (e, k) (none_there, below)
      | inl k ↦ rw (e, k) (ground arith, below)
    ]
  ]

  pub create_as-IsGone :
      (w : Platform) (salt : String) (p : Principal) (b : CreateUserBody) (now : ℕ) (db : Db)
      → IsGone id db
      → IsGone id (create_as w salt p b now db).0
  unfolding create_as create_user
  create_as-IsGone w salt p b now db (none_there, below) =
      let old : (id == db.next_user) ≡ false = ground arith in
      elim (Bool-cases (is_valid_body b)) [
        | inr e ↦ rw e (none_there, below)
        | inl e ↦ elim (Bool-cases (ltb (utf16_length b.password) 12)) [
          | inl short ↦ rw (e, short) (none_there, below)
          | inr long ↦ elim (Bool-cases (is_some (find_username b.username db))) [
            | inl taken ↦ rw (e, long, taken) (none_there, below)
            | inr free ↦ rw (e, long, free, old) (none_there, omega (arith, below))
          ]
        ]
      ]

  pub limited-IsGone :
      (admitted : Bool) (w : Platform) (salt : String) (p : Principal) (b : CreateUserBody)
      (now : ℕ) (db : Db)
      → IsGone id db
      → IsGone id (if admitted then create_as w salt p b now db else (db, too_many)).0
  limited-IsGone true w salt p b now db gone = create_as-IsGone w salt p b now db gone
  limited-IsGone false w salt p b now db gone = gone

  pub for_admin-IsGone :
      (who : Identity) (db : Db) (rest : Principal → Db × Reply)
      → IsGone id db
      → ((p : Principal) → IsGone id (rest p).0)
      → IsGone id (for_admin who db rest).0
  for_admin-IsGone crashed db rest gone k = gone
  for_admin-IsGone nobody db rest gone k = gone
  for_admin-IsGone (known p) db rest gone k = elim (Bool-cases (str_eq p.role "admin")) [
    | inl e ↦ rw e (k p)
    | inr e ↦ rw e gone
  ]

  pub for_given-IsGone :
      (n : Option ℕ) (db : Db) (rest : ℕ → Db × Reply)
      → IsGone id db
      → ((i : ℕ) → IsGone id (rest i).0)
      → IsGone id (for_given n db rest).0
  for_given-IsGone none db rest gone k = gone
  for_given-IsGone (some i) db rest gone k = elim (Bool-cases (i == 0)) [
    | inl e ↦ rw e gone
    | inr e ↦ rw e (k i)
  ]
