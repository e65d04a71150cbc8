-- ===== src/Auth/OwnPassword.antt =====
-- What PATCH of app/api/auth/me leaves of the accounts.
use conductor_dashboard.Common.{
  ℕ, ◌≤◌, ◌≡◌, refl, inl, inr, ◌⊎◌, String, Bool, true, false, Option, none, some, arith, ltb, ◌==◌,
  Bool-cases, Option-cases, text_truthy, is_some, utf16_length, get_or_else,
}
use conductor_dashboard.Auth.{
  AuditEvent, password_change, profile_update, User, Db, Platform, Config,
}
use conductor_dashboard.Auth.Sessions.{update_user, apply_updates, sets_any}
use conductor_dashboard.Auth.Headers.{Headers}
use conductor_dashboard.Auth.Principal.{
  Principal, Identity, crashed, nobody, known, get_user_from_request,
}
use conductor_dashboard.Auth.Reading.{get_user_from_request-KeysOnly}
use conductor_dashboard.Auth.Users.{Reply}
use conductor_dashboard.Auth.Profile.{
  MeBody, patch_me, update_me, for_user, check_me, check_password, knows, log_if, me_updates,
  new_password, when_set, or_reply,
}

-- The current password is the account's, and the new one has at least eight characters.
abbrev pub MayChange : Platform → MeBody → User → Type 0
MayChange w b u =
    (knows w (get_or_else "" b.current_password) u ≡ true)
    × (8 ≤ utf16_length (get_or_else "" b.new_password))

-- The account has the role and the password that it had, or the password may change.
abbrev pub Guarded : Platform → MeBody → User → User → Type 0
Guarded w b u u' = (u'.role ≡ u.role) × ((u'.password_hash ≡ u.password_hash) ⊎ MayChange w b u)

or_reply-none : (a b : Option Reply) → or_reply a b ≡ none → a ≡ none
or_reply-none none b h = refl
or_reply-none (some why) b h = absurd (cc)

when_set-none :
    (o : Option String) (why : Option Reply) → is_some o ≡ true → when_set o why ≡ none → why ≡ none
when_set-none none why set h = absurd (cc)
when_set-none (some s) why set h = h

password_checked :
    (w : Platform) (id : ℕ) (current wanted : String) (db : Db) (u : User)
    → db.users id ≡ some u
    → check_password w id current wanted db ≡ none
    → (knows w current u ≡ true) × (8 ≤ utf16_length wanted)
unfolding check_password
password_checked w id current wanted db u row ok = elim (Bool-cases (text_truthy current)) [
  | inr e ↦ absurd (let k = rw e at ok in cc k)
  | inl e ↦ elim (Bool-cases (ltb (utf16_length wanted) 8)) [
    | inl short ↦ absurd (let k = rw (e, short) at ok in cc k)
    | inr long ↦ elim (Bool-cases (knows w current u)) [
      | inl right ↦ (right, ground arith)
      | inr wrong ↦ absurd (let k = rw (e, long, row, wrong) at ok in cc k)
    ]
  ]
]

checked :
    (w : Platform) (id : ℕ) (b : MeBody) (db : Db) (u : User)
    → db.users id ≡ some u
    → check_me w id b db ≡ none
    → is_some (new_password b.new_password) ≡ true
    → MayChange w b u
unfolding check_me
checked w id b db u row ok changes =
    password_checked w id (get_or_else "" b.current_password) (get_or_else "" b.new_password) db u
      row (when_set-none (new_password b.new_password) _ changes (or_reply-none _ _ ok))

updated-Guarded :
    (w : Platform) (salt : String) (b : MeBody) (now : ℕ) (u : User)
    → (is_some (new_password b.new_password) ≡ true → MayChange w b u)
    → Guarded w b u (apply_updates w salt (me_updates b) now u)
updated-Guarded w salt b now u may = elim (Option-cases (new_password b.new_password)) [
  | inl e ↦ rw e (refl, inl refl)
  | inr (s, e) ↦ (refl, inr (may (rw e refl)))
]

log_if-users : (b : Bool) (e : AuditEvent) (db : Db) → (log_if b e db).users ≡ db.users
log_if-users true e db = refl
log_if-users false e db = refl

same_row-Guarded :
    (w : Platform) (b : MeBody) (o : Option User) (u : User)
    → o ≡ some u
    → (u' : User) × (o ≡ some u') × Guarded w b u u'
same_row-Guarded w b o u row = (u, row, (refl, inl refl))

update_me-Guarded :
    (w : Platform) (salt : String) (p : Principal) (b : MeBody) (now : ℕ) (db : Db) (n : ℕ)
    (u : User)
    → db.users n ≡ some u
    → (u' : User) × ((update_me w salt p b now db).0.users n ≡ some u') × Guarded w b u u'
unfolding update_me update_user
update_me-Guarded w salt p b now db n u row = elim (Option-cases (check_me w p.id b db)) [
  | inr (why, e) ↦ rw e (same_row-Guarded w b (db.users n) u row)
  | inl e ↦ elim (Bool-cases (is_some (db.users p.id))) [
    | inr k ↦ rw (e, k) (same_row-Guarded w b (db.users n) u row)
    | inl k ↦
        let c = me_updates b in
        let updated = update_user w salt p.id c now db in
        let changes = is_some (new_password b.new_password) in
        let said = password_change p.username p.id in
        rw
          (
            e,
            k,
            log_if-users (is_some b.display_name) (profile_update p.username p.id)
                (log_if changes said updated),
            log_if-users changes said updated,
          )
          (elim (Bool-cases (sets_any c)) [
            | inr q ↦ rw q (same_row-Guarded w b (db.users n) u row)
            | inl q ↦ elim (Bool-cases (n == p.id)) [
              | inr other ↦ rw (q, other) (same_row-Guarded w b (db.users n) u row)
              | inl same ↦
                  let own : p.id ≡ n = ground arith in
                  rw (q, same, row)
                    (
                      apply_updates w salt c now u,
                      refl,
                      updated-Guarded w salt b now u (checked w n b db u row (rw own at e)),
                    )
            ]
          ])
  ]
]

for_user-Guarded :
    (w : Platform) (b : MeBody) (who : Identity) (db : Db) (rest : Principal → Db × Reply) (n : ℕ)
    (u : User)
    → db.users n ≡ some u
    → ((p : Principal) → (u' : User) × ((rest p).0.users n ≡ some u') × Guarded w b u u')
    → (u' : User) × ((for_user who db rest).0.users n ≡ some u') × Guarded w b u u'
for_user-Guarded w b crashed db rest n u row k = same_row-Guarded w b (db.users n) u row
for_user-Guarded w b nobody db rest n u row k = same_row-Guarded w b (db.users n) u row
for_user-Guarded w b (known p) db rest n u row k = elim (Bool-cases (p.id == 0)) [
  | inl e ↦ rw e (same_row-Guarded w b (db.users n) u row)
  | inr e ↦ rw e (k p)
]

-- After PATCH of app/api/auth/me every account is still there with its role, and with its password, unless the
-- current password of the request is that account's and the new one has at least eight characters.
pub patch_me-Guarded :
    (w : Platform) (c : Config) (h : Headers) (salt : String) (b : MeBody) (now : ℕ) (db : Db)
    (n : ℕ) (u : User)
    → db.users n ≡ some u
    → (u' : User) × ((patch_me w c h salt b now db).0.users n ≡ some u') × Guarded w b u u'
unfolding patch_me
patch_me-Guarded w c h salt b now db n u row =
    let (ks, same) = get_user_from_request-KeysOnly w c h now db in
    rw same (
      for_user-Guarded w b (get_user_from_request w c h now db).1 (record db { keys = ks })
        (λ p. update_me w salt p b now (record db { keys = ks })) n u row
        (λ p. update_me-Guarded w salt p b now (record db { keys = ks }) n u row))
