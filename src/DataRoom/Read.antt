-- ===== src/DataRoom/Read.antt =====
-- What a visitor with a session sees and reports: the room, its documents, and recordEvent of lib/data-room.ts. The
-- order of the documents is left out, and a duration is a whole number.
use conductor_dashboard.Common.{
  ℕ, zero, suc, ◌-◌, String, Bool, true, false, not, ◌&&◌, ◌||◌, Option, none, some, List, [], ◌∷◌,
  Rows, ltb, ◌==◌, if◌then◌else◌, row_has, insert_row, update, is_some, text_truthy, select,
}
use conductor_dashboard.DataRoom.Tables.{
  DataRoom, DataRoomDocument, DataRoomLink, DataRoomEvent, EventType, doc_viewed, doc_downloaded,
  page_viewed, Db, is_same, null_if_zero,
}
use conductor_dashboard.DataRoom.Manage.{in_room}
use conductor_dashboard.DataRoom.Visit.{
  VisitReply, closed, session_required, invalid_session, document_not_found, no_downloads,
  file_not_found, outside, inside, recorded, served, Opened, refused, opened, open_link,
  validate_visitor_session,
}

-- What an event is made of.
pub record EventData : Type 0 where
  pub visitor_id : ℕ
  pub room_id : ℕ
  pub document_id : ℕ
  pub event_type : EventType
  pub page_number : Option ℕ
  pub duration_seconds : Option ℕ

abbrev pub is_page_view : EventType → Bool
is_page_view doc_viewed = false
is_page_view doc_downloaded = false
is_page_view page_viewed = true

abbrev pub is_open_view : ℕ → ℕ → DataRoomEvent → Bool
is_open_view visitor document e =
    e.visitor_id == visitor
    && is_same e.document_id document
    && is_page_view e.event_type
    && not (is_some e.duration_seconds)

abbrev pub created : Rows DataRoomEvent → Option ℕ → ℕ
created es none = 0
created es (some i) = elim (es i) [ none ↦ 0 | some e ↦ e.created_at ]

-- ORDER BY created_at DESC LIMIT 1: of events of one time, the last.
abbrev pub latest : (DataRoomEvent → Bool) → Rows DataRoomEvent → ℕ → Option ℕ
latest p es zero = none
latest p es (suc n) =
    let best = latest p es n in
    if row_has p (es n) && not (ltb (created es (some n)) (created es best)) then some n else best

abbrev pub end_view : ℕ → DataRoomEvent → DataRoomEvent
end_view now e = record e { duration_seconds = some (now - e.created_at) }

abbrev pub end_row : ℕ → Option ℕ → Rows DataRoomEvent → Rows DataRoomEvent
end_row now none es = es
end_row now (some i) es = update es i (λ e. true) (end_view now)

-- The page view before this one is over.
abbrev pub backfill : EventData → ℕ → Db → Rows DataRoomEvent
backfill d now db =
    if is_page_view d.event_type && not (d.document_id == 0)
    then end_row now (latest (is_open_view d.visitor_id d.document_id) db.events db.next_event)
        db.events
    else db.events

abbrev pub new_event : EventData → ℕ → DataRoomEvent
new_event d now = record {
  visitor_id = d.visitor_id;
  room_id = d.room_id;
  document_id = null_if_zero (some d.document_id);
  event_type = d.event_type;
  page_number = null_if_zero d.page_number;
  duration_seconds = null_if_zero d.duration_seconds;
  created_at = now;
}

unfoldable pub record_event : EventData → ℕ → Db → Db
record_event d now db = record db {
  events = insert_row (backfill d now db) db.next_event (new_event d now);
  next_event = suc db.next_event;
}

-- `request.cookies.get('dr-session')?.value`, where an empty one is none.
abbrev pub session_cookie : Option String → Option String
session_cookie none = none
session_cookie (some s) = if text_truthy s then some s else none

abbrev pub visitor_with : Option String → ℕ → Db → Option ℕ
visitor_with none room db = none
visitor_with (some session) room db = validate_visitor_session session room db

-- Why a session is refused.
abbrev pub no_visitor : Option String → VisitReply
no_visitor none = session_required
no_visitor (some s) = invalid_session

-- The documents below n of the room, and whether each may be downloaded.
abbrev pub shown : ℕ → Bool → Rows DataRoomDocument → ℕ → List (ℕ × Bool)
shown room any ds zero = []
shown room any ds (suc n) =
    let rest = shown room any ds n in
    elim (select ds n (in_room room)) [ none ↦ rest | some d ↦ (n, any || d.allow_download) ∷ rest ]

abbrev pub has_passcode : DataRoomLink → Bool
has_passcode l = elim l.passcode [ none ↦ false | some p ↦ text_truthy p ]

abbrev pub seen_by : DataRoomLink → DataRoom → Db → Option ℕ → VisitReply
seen_by l r db none = outside r.name (has_passcode l)
seen_by l r db (some v) = inside v (shown l.room_id l.allow_download db.documents db.next_document)

unfoldable pub room_reply : Opened → Option String → Db → VisitReply
unfolding validate_visitor_session
room_reply (refused why) cookie db = closed why
room_reply (opened id l r) cookie db =
    seen_by l r db (visitor_with (session_cookie cookie) l.room_id db)

-- GET of the room
unfoldable pub get_room : String → Option String → ℕ → Db → VisitReply
unfolding open_link room_reply
get_room token cookie now db = room_reply (open_link true token now db) cookie db

-- A handler's rest, for a visitor and a document of the room.
abbrev pub Rest : Type 0
Rest = DataRoomLink → ℕ → DataRoomDocument → Db × VisitReply

abbrev pub for_document : DataRoomLink → ℕ → Db → Option DataRoomDocument → Rest → Db × VisitReply
for_document l v db none rest = (db, document_not_found)
for_document l v db (some d) rest = rest l v d

abbrev pub for_visitor : DataRoomLink → Option String → ℕ → Db → Option ℕ → Rest → Db × VisitReply
for_visitor l cookie id db none rest = (db, no_visitor (session_cookie cookie))
for_visitor l cookie id db (some v) rest =
    for_document l v db (select db.documents id (in_room l.room_id)) rest

abbrev pub with_document : Opened → Option String → ℕ → Db → Rest → Db × VisitReply
with_document (refused why) cookie id db rest = (db, closed why)
with_document (opened link l r) cookie id db rest =
    for_visitor l cookie id db (visitor_with (session_cookie cookie) l.room_id db) rest

abbrev pub view_type : Bool → EventType
view_type true = doc_downloaded
view_type false = doc_viewed

abbrev pub file_event : DataRoomLink → ℕ → ℕ → Bool → EventData
file_event l v id downloads = record {
  visitor_id = v;
  room_id = l.room_id;
  document_id = id;
  event_type = view_type downloads;
  page_number = none;
  duration_seconds = none;
}

abbrev pub send : Option String → DataRoomLink → ℕ → ℕ → Bool → ℕ → Db → Db × VisitReply
send none l v id downloads now db = (db, file_not_found)
send (some content) l v id downloads now db =
    (record_event (file_event l v id downloads) now db, served id content downloads)

-- What the handler does with a document; `reads` is the file system, none where the path is refused or
-- cannot be read.
unfoldable pub send_file :
    (ℕ → String → Option String)
    → Bool
    → ℕ
    → ℕ
    → Db
    → DataRoomLink
    → ℕ
    → DataRoomDocument
    → Db × VisitReply
unfolding record_event
send_file reads downloads id now db l v d =
    if downloads && not (l.allow_download || d.allow_download)
    then (db, no_downloads)
    else send (reads d.room_id d.filename) l v id downloads now db

-- GET of a document's file
unfoldable pub get_file :
    (ℕ → String → Option String) → String → ℕ → Option String → Bool → ℕ → Db → Db × VisitReply
unfolding open_link validate_visitor_session send_file
get_file reads token id cookie downloads now db =
    with_document (open_link true token now db) cookie id db (send_file reads downloads id now db)

pub record EventBody : Type 0 where
  pub document_id : ℕ
  pub event_type : EventType
  pub page_number : Option ℕ
  pub duration_seconds : Option ℕ

abbrev pub reported : EventBody → DataRoomLink → ℕ → EventData
reported b l v = record {
  visitor_id = v;
  room_id = l.room_id;
  document_id = b.document_id;
  event_type = b.event_type;
  page_number = b.page_number;
  duration_seconds = b.duration_seconds;
}

-- The event of a document that is there; its id is not 0, by the schema.
unfoldable pub report : EventBody → ℕ → Db → DataRoomLink → ℕ → DataRoomDocument → Db × VisitReply
unfolding record_event
report b now db l v d = (record_event (reported b l v) now db, recorded db.next_event)

-- POST of events, with a body that is valid. The route looks neither at the link's end nor at the room's
-- status.
unfoldable pub post_event : String → EventBody → Option String → ℕ → Db → Db × VisitReply
unfolding open_link validate_visitor_session report
post_event token b cookie now db =
    with_document (open_link false token now db) cookie b.document_id db (report b now db)
