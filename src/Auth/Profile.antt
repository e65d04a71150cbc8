-- ===== src/Auth/Profile.antt =====
-- PATCH of app/api/auth/me: one's own password and display name.
use conductor_dashboard.Common.{
  ℕ, String, Bool, true, false, ◌||◌, not, Option, none, some, ltb, ◌==◌, if◌then◌else◌,
  text_truthy, get_or_else, is_some, trim, utf16_length, row_has,
}
use conductor_dashboard.Auth.{
  User, Db, Platform, Config, AuditEvent, password_change, profile_update, log_audit_event,
}
use conductor_dashboard.Auth.Password.{verify_password}
use conductor_dashboard.Auth.Sessions.{UserUpdates, update_user}
use conductor_dashboard.Auth.Headers.{Headers}
use conductor_dashboard.Auth.Principal.{
  Principal, Identity, crashed, nobody, known, get_user_from_request,
}
use conductor_dashboard.Auth.Users.{
  Reply, failed, not_authenticated, not_found, unless_refused, key_user, current_required,
  too_short, wrong_password, empty_name, no_updates, done,
}

-- none where a field is missing
pub record MeBody : Type 0 where
  pub current_password : Option String
  pub new_password : Option String
  pub display_name : Option String

abbrev pub knows : Platform → String → User → Bool
knows w password u = verify_password w.hex w.unhex w.scrypt password u.password_hash

-- The checks of a new password that is not empty.
unfoldable pub check_password : Platform → ℕ → String → String → Db → Option Reply
unfolding verify_password
check_password w id current wanted db =
    if not (text_truthy current)
    then some current_required
    else (if ltb (utf16_length wanted) 8
        then some too_short
        else (if row_has (knows w current) (db.users id) then none else some wrong_password))

abbrev pub empty_display : Option String → Bool
empty_display none = false
empty_display (some s) = not (text_truthy (trim s))

abbrev pub trimmed : Option String → Option String
trimmed none = none
trimmed (some s) = some (trim s)

abbrev pub new_password : Option String → Option String
new_password none = none
new_password (some s) = if text_truthy s then some s else none

abbrev pub when_set : Option String → Option Reply → Option Reply
when_set none why = none
when_set (some s) why = why

abbrev pub or_reply : Option Reply → Option Reply → Option Reply
or_reply none later = later
or_reply (some why) later = some why

-- The checks of the body, in order.
unfoldable pub check_me : Platform → ℕ → MeBody → Db → Option Reply
unfolding check_password
check_me w id b db =
    or_reply
      (when_set (new_password b.new_password) (
        check_password w id (get_or_else "" b.current_password) (get_or_else "" b.new_password) db))
      (if empty_display b.display_name
        then some empty_name
        else (if is_some (new_password b.new_password) || is_some b.display_name
            then none
            else some no_updates))

abbrev pub me_updates : MeBody → UserUpdates
me_updates b = record {
  display_name = trimmed b.display_name;
  role = none;
  password = new_password b.new_password;
  email = none;
  avatar_url = none;
  is_approved = none;
}

abbrev pub log_if : Bool → AuditEvent → Db → Db
log_if true e db = log_audit_event e db
log_if false e db = db

unfoldable pub update_me : Platform → String → Principal → MeBody → ℕ → Db → Db × Reply
unfolding update_user check_me
update_me w salt p b now db = unless_refused (check_me w p.id b db) db (
    if is_some (db.users p.id)
    then (
      log_if (is_some b.display_name) (profile_update p.username p.id) (
          log_if (is_some (new_password b.new_password)) (password_change p.username p.id)
            (update_user w salt p.id (me_updates b) now db)),
      done,
    )
    else (db, not_found))

-- `!user`, and the refusal of the key of the configuration, whose id is 0.
abbrev pub for_user : Identity → Db → (Principal → Db × Reply) → Db × Reply
for_user crashed db rest = (db, failed)
for_user nobody db rest = (db, not_authenticated)
for_user (known p) db rest = if p.id == 0 then (db, key_user) else rest p

unfoldable pub patch_me : Platform → Config → Headers → String → MeBody → ℕ → Db → Db × Reply
unfolding get_user_from_request update_me
patch_me w c h salt b now db =
    let (db', who) = get_user_from_request w c h now db in
    for_user who db' (λ p. update_me w salt p b now db')
