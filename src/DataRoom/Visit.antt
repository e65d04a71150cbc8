-- ===== src/DataRoom/Visit.antt =====
-- What visitors do, by the routes below app/api/room/[token]: enter, look at the room, read a document and
-- report what they look at. A broadcast, and the notification of an administrator, are left out.
use conductor_dashboard.Common.{
  ℕ, suc, ◌+◌, ◌/◌, String, Bool, true, false, not, ◌&&◌, ◌||◌, Option, none, some, List, [], ◌∷◌,
  ltb, ◌==◌, str_eq, if◌then◌else◌, row_has, first_id, insert_row, update, is_some, text_truthy,
  trim, split_commas,
}
use conductor_dashboard.RateLimit.{RateLimitEntry, Entries, set_entry}
use conductor_dashboard.DataRoom.Tables.{
  DataRoom, DataRoomLink, DataRoomVisitor, Db, is_same, null_if_empty,
}
use conductor_dashboard.DataRoom.Links.{get_link_by_token}

-- Why a link does not lead to its room.
pub data Closed : Type 0 where
  link_not_found link_expired room_not_found : Closed

pub data VisitReply : Type 0 where
  too_many : VisitReply
  closed : Closed → VisitReply
  invalid_body wrong_passcode session_required invalid_session : VisitReply
  document_not_found no_downloads file_not_found failed : VisitReply
  entered : ℕ → String → VisitReply
  outside : String → Bool → VisitReply
  inside : ℕ → List (ℕ × Bool) → VisitReply
  recorded : ℕ → VisitReply
  served : ℕ → String → Bool → VisitReply

-- The client's address: the first part of x-forwarded-for, or 'unknown'.
abbrev pub first_part : List String → String
first_part [] = ""
first_part (p ∷ ps) = trim p

abbrev pub or_unknown : String → String
or_unknown s = if text_truthy s then s else "unknown"

abbrev pub enter_ip : Option String → String
enter_ip none = "unknown"
enter_ip (some xff) = or_unknown (first_part (split_commas xff))

abbrev pub first_entry : ℕ → RateLimitEntry
first_entry now = record { count = 1; reset_at = now + 60000 }

abbrev pub bump_entry : RateLimitEntry → RateLimitEntry
bump_entry e = record e { count = suc e.count }

-- checkRateLimit of the route, at a time in milliseconds.
abbrev pub enter_entry : ℕ → Option RateLimitEntry → RateLimitEntry × Bool
enter_entry now none = (first_entry now, true)
enter_entry now (some e) =
    if ltb e.reset_at now
    then (first_entry now, true)
    else (bump_entry e, not (ltb 10 (suc e.count)))

unfoldable pub check_enter_limit : String → ℕ → Entries → Entries × Bool
check_enter_limit ip now entries =
    let (e, ok) = enter_entry now (entries ip) in (set_entry ip e entries, ok)

-- A link with its room, or why there is none.
pub data Opened : Type 0 where
  refused : Closed → Opened
  opened : ℕ → DataRoomLink → DataRoom → Opened

-- `link.expires_at && link.expires_at < now`
abbrev pub is_expired : ℕ → Option ℕ → Bool
is_expired now none = false
is_expired now (some t) = not (t == 0) && ltb t now

abbrev pub is_archived : DataRoom → Bool
is_archived r = str_eq r.status "archived"

-- A guard, and what follows it.
abbrev pub unless : Bool → Closed → Opened → Opened
unless true why rest = refused why
unless false why rest = rest

-- `checks` is whether the route looks at the link's end and at the room's status.
abbrev pub open_room : Bool → ℕ → DataRoomLink → Option DataRoom → Opened
open_room checks id l none = refused room_not_found
open_room checks id l (some r) = unless (checks && is_archived r) room_not_found (opened id l r)

abbrev pub open_row : Bool → ℕ → ℕ → Db → Option DataRoomLink → Opened
open_row checks now id db none = refused link_not_found
open_row checks now id db (some l) = unless (not l.is_active) link_not_found (
    unless (checks && is_expired now l.expires_at) link_expired
      (open_room checks id l (db.rooms l.room_id)))

abbrev pub open_found : Bool → ℕ → Db → Option ℕ → Opened
open_found checks now db none = refused link_not_found
open_found checks now db (some id) = open_row checks now id db (db.links id)

unfoldable pub open_link : Bool → String → ℕ → Db → Opened
open_link checks token now db = open_found checks now db (get_link_by_token token db)

abbrev pub is_visitor : String → ℕ → DataRoomVisitor → Bool
is_visitor session room v = str_eq v.session_token session && v.room_id == room

-- validateVisitorSession, by the id of the visitor.
unfoldable pub validate_visitor_session : String → ℕ → Db → Option ℕ
validate_visitor_session session room db =
    first_id (λ i. row_has (is_visitor session room) (db.visitors i)) db.next_visitor

pub record EnterBody : Type 0 where
  pub email : String
  pub name : String
  pub company : String
  pub passcode : Option String

abbrev pub is_returning : ℕ → String → DataRoomVisitor → Bool
is_returning link email v = v.link_id == link && str_eq v.email email

abbrev pub find_returning : ℕ → String → Db → Option ℕ
find_returning link email db =
    first_id (λ i. row_has (is_returning link email) (db.visitors i)) db.next_visitor

abbrev pub has_session : String → DataRoomVisitor → Bool
has_session session v = str_eq v.session_token session

-- Whether another visitor has the session token, and the statement throws.
abbrev pub session_taken : String → Option ℕ → Db → Bool
session_taken session except db = is_some (
    first_id (λ i. row_has (has_session session) (db.visitors i) && not (is_same except i))
      db.next_visitor)

abbrev pub new_visitor :
    ℕ → ℕ → EnterBody → String → Option String → Option String → DataRoomVisitor
new_visitor link room b session ip agent = record {
  link_id = link;
  room_id = room;
  email = b.email;
  name = b.name;
  company = b.company;
  session_token = session;
  ip_address = null_if_empty ip;
  user_agent = null_if_empty agent;
}

abbrev pub come_back : String → Option String → Option String → DataRoomVisitor → DataRoomVisitor
come_back session ip agent v = record v {
  session_token = session;
  ip_address = null_if_empty ip;
  user_agent = null_if_empty agent;
}

abbrev pub put_visitor :
    Option ℕ → ℕ → ℕ → EnterBody → String → Option String → Option String → Db → Db × ℕ
put_visitor (some id) link room b session ip agent db =
    (record db { visitors = update db.visitors id (λ v. true) (come_back session ip agent) }, id)
put_visitor none link room b session ip agent db = (
  record db {
    visitors = insert_row db.visitors db.next_visitor (new_visitor link room b session ip agent);
    next_visitor = suc db.next_visitor;
  },
  db.next_visitor,
)

-- createVisitor; `session` is random, none where the statement throws.
unfoldable pub create_visitor :
    ℕ → ℕ → EnterBody → String → Option String → Option String → Db → Option (Db × ℕ)
create_visitor link room b session ip agent db =
    let existing = find_returning link b.email db in
    if session_taken session existing db
    then none
    else some (put_visitor existing link room b session ip agent db)

-- `link.passcode && passcode !== link.passcode`
abbrev pub is_right : Option String → Option String → Bool
is_right none given = true
is_right (some p) none = not (text_truthy p)
is_right (some p) (some given) = not (text_truthy p) || str_eq given p

abbrev pub let_in : Option (Db × ℕ) → String → Db → Db × VisitReply
let_in none session db = (db, failed)
let_in (some (db', id)) session db = (db', entered id session)

unfoldable pub enter_opened :
    Opened → Option EnterBody → String → String → Option String → Db → Db × VisitReply
unfolding create_visitor
enter_opened (refused why) body session ip agent db = (db, closed why)
enter_opened (opened id l r) none session ip agent db = (db, invalid_body)
enter_opened (opened id l r) (some b) session ip agent db =
    if is_right l.passcode b.passcode
    then let_in (create_visitor id l.room_id b session (some ip) agent db) session db
    else (db, wrong_passcode)

-- POST of enter, at a time in milliseconds; the body is none where it is no valid one. The route awaits
-- its body between the link's checks and the rest; here nothing changes the tables meanwhile.
unfoldable pub post_enter :
    String
    → Option String
    → Option String
    → Option EnterBody
    → String
    → ℕ
    → Entries
    → Db
    → Entries × Db × VisitReply
unfolding check_enter_limit open_link enter_opened
post_enter token xff agent body session now entries db =
    let (entries', ok) = check_enter_limit (enter_ip xff) now entries in
    if ok
    then (let (db', reply) =
          enter_opened (open_link true token (now / 1000) db) body session (enter_ip xff) agent
            db in
        (entries', db', reply))
    else (entries', db, too_many)
