-- ===== src/DataRoom/Manage.antt =====
-- What administrators do: rooms, documents and links, by the routes of app/api/data-rooms once the role is
-- checked and the body is parsed. An id of a path is a number.
use conductor_dashboard.Common.{
  ℕ, suc, String, Bool, true, false, not, ◌&&◌, ◌||◌, Option, none, some, Rows, ◌==◌, str_eq,
  if◌then◌else◌, row_has, first_id, insert_row, remove_row, update, select, is_some, get_or_else,
  max, ltb, zero,
}
use conductor_dashboard.DataRoom.Tables.{
  DataRoom, DataRoomDocument, DataRoomVisitor, Db, delete_where, drop_orphans, unlink_missing,
}

pub data Reply : Type 0 where
  slug_taken room_not_found document_not_found link_not_found no_file too_large : Reply
  failed success : Reply
  made : ℕ → Reply

abbrev pub has_slug : String → DataRoom → Bool
has_slug slug r = str_eq r.slug slug

abbrev pub find_slug : String → Db → Option ℕ
find_slug slug db = first_id (λ i. row_has (has_slug slug) (db.rooms i)) db.next_room

pub record RoomBody : Type 0 where
  pub name : String
  pub slug : String
  pub branding : Option String

abbrev pub or_one : ℕ → ℕ
or_one ws = if ws == 0 then 1 else ws

-- POST of /api/data-rooms; `standard` is the JSON of the default branding.
unfoldable pub create_room : String → ℕ → RoomBody → ℕ → Db → Db × Reply
create_room standard ws b now db = if is_some (find_slug b.slug db) then (db, slug_taken) else (
  record db {
    rooms = insert_row db.rooms db.next_room (record {
      workspace_id = or_one ws;
      name = b.name;
      slug = b.slug;
      status = "draft";
      branding = get_or_else standard b.branding;
      updated_at = now;
    });
    next_room = suc db.next_room;
  },
  made db.next_room,
)

-- none where a field is missing
pub record RoomUpdates : Type 0 where
  pub name : Option String
  pub slug : Option String
  pub status : Option String
  pub branding : Option String

abbrev pub sets_room : RoomUpdates → Bool
sets_room c = is_some c.name || is_some c.slug || is_some c.status || is_some c.branding

abbrev pub change_room : RoomUpdates → ℕ → DataRoom → DataRoom
change_room c now r = record r {
  name = get_or_else r.name c.name;
  slug = get_or_else r.slug c.slug;
  status = get_or_else r.status c.status;
  branding = get_or_else r.branding c.branding;
  updated_at = now;
}

abbrev pub other_slug : Option String → ℕ → Db → Bool
other_slug none id db = false
other_slug (some slug) id db =
    is_some (first_id (λ i. row_has (has_slug slug) (db.rooms i) && not (i == id)) db.next_room)

-- PUT; the UPDATE throws where another room has the slug.
unfoldable pub update_room : ℕ → RoomUpdates → ℕ → Db → Db × Reply
update_room id c now db =
    if not (is_some (db.rooms id))
    then (db, room_not_found)
    else (if other_slug c.slug id db
        then (db, failed)
        else (if sets_room c
            then (record db { rooms = update db.rooms id (λ r. true) (change_room c now) }, success)
            else (db, success)))

abbrev pub visitors_after : (DataRoomVisitor → Bool) → Db → Rows DataRoomVisitor
visitors_after p db = delete_where p db.visitors

-- DELETE, with what cascades.
unfoldable pub delete_room : ℕ → Db → Db × Reply
delete_room id db =
    if is_some (db.rooms id)
    then (
      record db {
        rooms = remove_row db.rooms id;
        documents = delete_where (λ d. d.room_id == id) db.documents;
        links = delete_where (λ l. l.room_id == id) db.links;
        visitors = visitors_after (λ v. v.room_id == id) db;
        events = unlink_missing (delete_where (λ d. d.room_id == id) db.documents) (
            delete_where (λ e. e.room_id == id)
              (drop_orphans (visitors_after (λ v. v.room_id == id) db) db.events));
      },
      success,
    )
    else (db, room_not_found)

-- The greatest sort order of a room's documents and one more, 0 where it has none.
abbrev pub next_order : ℕ → ℕ → Rows DataRoomDocument → ℕ
next_order room zero ds = 0
next_order room (suc n) ds =
    max (next_order room n ds)
      (elim (ds n) [ none ↦ 0 | some d ↦ if d.room_id == room then suc d.sort_order else 0 ])

-- A file of the form: its name, type and size, and the name under which it is stored.
pub record FileUpload : Type 0 where
  pub name : String
  pub mime_type : String
  pub size : ℕ
  pub stored : String
  pub folder : String
  pub allow_download : Bool

-- POST of /api/data-rooms/[id]/documents; `accepted` is whether the path is safe and the file can be written.
unfoldable pub upload_document : ℕ → Option FileUpload → Bool → ℕ → Db → Db × Reply
upload_document room none accepted now db =
    if is_some (db.rooms room) then (db, no_file) else (db, room_not_found)
upload_document room (some f) accepted now db =
    if not (is_some (db.rooms room))
    then (db, room_not_found)
    else (if ltb 52428800 f.size
        then (db, too_large)
        else (if not accepted then (db, failed) else (
          record db {
            documents = insert_row db.documents db.next_document (record {
              room_id = room;
              folder = f.folder;
              filename = f.stored;
              original_name = f.name;
              mime_type = if str_eq f.mime_type "" then "application/octet-stream" else f.mime_type;
              file_size = f.size;
              sort_order = next_order room db.next_document db.documents;
              allow_download = f.allow_download;
              updated_at = now;
            });
            next_document = suc db.next_document;
          },
          made db.next_document,
        )))

abbrev pub in_room : ℕ → DataRoomDocument → Bool
in_room room d = d.room_id == room

pub record DocumentUpdates : Type 0 where
  pub folder : Option String
  pub sort_order : Option ℕ
  pub allow_download : Option Bool

abbrev pub change_document : DocumentUpdates → ℕ → DataRoomDocument → DataRoomDocument
change_document c now d = record d {
  folder = get_or_else d.folder c.folder;
  sort_order = get_or_else d.sort_order c.sort_order;
  allow_download = get_or_else d.allow_download c.allow_download;
  updated_at = now;
}

abbrev pub sets_document : DocumentUpdates → Bool
sets_document c = is_some c.folder || is_some c.sort_order || is_some c.allow_download

unfoldable pub update_document : ℕ → ℕ → DocumentUpdates → ℕ → Db → Db × Reply
update_document room id c now db =
    if not (is_some (db.rooms room))
    then (db, room_not_found)
    else (if not (is_some (select db.documents id (in_room room)))
        then (db, document_not_found)
        else (if sets_document c
            then (
              record db { documents = update db.documents id (λ d. true) (change_document c now) },
              success,
            )
            else (db, success)))

-- The file is removed too, if it is there.
unfoldable pub delete_document : ℕ → ℕ → Db → Db × Reply
delete_document room id db =
    if not (is_some (db.rooms room))
    then (db, room_not_found)
    else (if not (is_some (select db.documents id (in_room room)))
        then (db, document_not_found)
        else (
          record db {
            documents = remove_row db.documents id;
            events = unlink_missing (remove_row db.documents id) db.events;
          },
          success,
        ))
