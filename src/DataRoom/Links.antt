-- ===== src/DataRoom/Links.antt =====
-- The links of a room, by the routes below app/api/data-rooms/[id]/links.
use conductor_dashboard.Common.{
  ℕ, suc, String, Bool, true, false, not, ◌||◌, Option, ◌==◌, str_eq, if◌then◌else◌, row_has,
  first_id, insert_row, remove_row, update, select, is_some, get_or_else,
}
use conductor_dashboard.DataRoom.Tables.{
  DataRoomLink, Db, drop_orphans, null_if_empty, null_if_zero,
}
use conductor_dashboard.DataRoom.Manage.{
  Reply, room_not_found, link_not_found, failed, success, made, visitors_after,
}

abbrev pub has_link_token : String → DataRoomLink → Bool
has_link_token token l = str_eq l.token token

-- getLinkByToken, by the id of the link.
abbrev pub get_link_by_token : String → Db → Option ℕ
get_link_by_token token db =
    first_id (λ i. row_has (has_link_token token) (db.links i)) db.next_link

pub record LinkBody : Type 0 where
  pub name : Option String
  pub passcode : Option String
  pub allow_download : Option Bool
  pub expires_at : Option ℕ

-- POST; `token` is random, and the INSERT throws where a link has it.
unfoldable pub create_link : ℕ → LinkBody → String → ℕ → Db → Db × Reply
create_link room b token now db =
    if not (is_some (db.rooms room))
    then (db, room_not_found)
    else (if is_some (get_link_by_token token db) then (db, failed) else (
      record db {
        links = insert_row db.links db.next_link (record {
          room_id = room;
          token = token;
          name = get_or_else "" b.name;
          is_active = true;
          passcode = null_if_empty b.passcode;
          allow_download = get_or_else false b.allow_download;
          expires_at = null_if_zero b.expires_at;
          updated_at = now;
        });
        next_link = suc db.next_link;
      },
      made db.next_link,
    ))

-- none where a field is missing; the passcode and the end may be set to null.
pub record LinkUpdates : Type 0 where
  pub name : Option String
  pub is_active : Option Bool
  pub passcode : Option (Option String)
  pub allow_download : Option Bool
  pub expires_at : Option (Option ℕ)

abbrev pub sets_link : LinkUpdates → Bool
sets_link c =
    is_some c.name
    || is_some c.is_active
    || is_some c.passcode
    || is_some c.allow_download
    || is_some c.expires_at

abbrev pub change_link : LinkUpdates → ℕ → DataRoomLink → DataRoomLink
change_link c now l = record l {
  name = get_or_else l.name c.name;
  is_active = get_or_else l.is_active c.is_active;
  passcode = get_or_else l.passcode c.passcode;
  allow_download = get_or_else l.allow_download c.allow_download;
  expires_at = get_or_else l.expires_at c.expires_at;
  updated_at = now;
}

abbrev pub link_in : ℕ → DataRoomLink → Bool
link_in room l = l.room_id == room

unfoldable pub update_link : ℕ → ℕ → LinkUpdates → ℕ → Db → Db × Reply
update_link room id c now db =
    if not (is_some (db.rooms room))
    then (db, room_not_found)
    else (if not (is_some (select db.links id (link_in room)))
        then (db, link_not_found)
        else (if sets_link c
            then (record db { links = update db.links id (λ l. true) (change_link c now) }, success)
            else (db, success)))

-- With the visitors of the link and their events, which cascade.
unfoldable pub delete_link : ℕ → ℕ → Db → Db × Reply
delete_link room id db =
    if not (is_some (db.rooms room))
    then (db, room_not_found)
    else (if not (is_some (select db.links id (link_in room))) then (db, link_not_found) else (
      record db {
        links = remove_row db.links id;
        visitors = visitors_after (λ v. v.link_id == id) db;
        events = drop_orphans (visitors_after (λ v. v.link_id == id) db) db.events;
      },
      success,
    ))
