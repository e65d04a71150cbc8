-- ===== src/DataRoom/History.antt =====
-- What administrators and visitors do with data rooms, one request after the other.
use conductor_dashboard.Common.{ℕ, String, Bool, true, Option, List, [], ◌∷◌}
use conductor_dashboard.DataRoom.Tables.{Db}
use conductor_dashboard.DataRoom.Manage.{
  RoomBody, RoomUpdates, FileUpload, DocumentUpdates, create_room, update_room, delete_room,
  upload_document, update_document, delete_document,
}
use conductor_dashboard.DataRoom.Links.{
  LinkBody, LinkUpdates, create_link, update_link, delete_link,
}
use conductor_dashboard.DataRoom.Visit.{EnterBody, open_link, enter_opened}
use conductor_dashboard.DataRoom.Read.{EventBody, get_file, post_event}

-- A request to enter is one that the limiter lets through.
pub data Request : Type 0 where
  found : String → ℕ → RoomBody → Request
  change : ℕ → RoomUpdates → Request
  remove : ℕ → Request
  upload : ℕ → Option FileUpload → Bool → Request
  edit : ℕ → ℕ → DocumentUpdates → Request
  discard : ℕ → ℕ → Request
  link : ℕ → LinkBody → String → Request
  relink : ℕ → ℕ → LinkUpdates → Request
  unlink : ℕ → ℕ → Request
  enter : String → Option EnterBody → String → String → Option String → Request
  read : (ℕ → String → Option String) → String → ℕ → Option String → Bool → Request
  report : String → EventBody → Option String → Request

unfoldable pub handle : ℕ → Request → Db → Db
unfolding create_room update_room delete_room upload_document update_document delete_document
    create_link update_link delete_link open_link enter_opened get_file post_event
handle now (found standard ws b) db = (create_room standard ws b now db).0
handle now (change id c) db = (update_room id c now db).0
handle now (remove id) db = (delete_room id db).0
handle now (upload room f accepted) db = (upload_document room f accepted now db).0
handle now (edit room id c) db = (update_document room id c now db).0
handle now (discard room id) db = (delete_document room id db).0
handle now (link room b token) db = (create_link room b token now db).0
handle now (relink room id c) db = (update_link room id c now db).0
handle now (unlink room id) db = (delete_link room id db).0
handle now (enter token body session ip agent) db =
    (enter_opened (open_link true token now db) body session ip agent db).0
handle now (read reads token id cookie downloads) db =
    (get_file reads token id cookie downloads now db).0
handle now (report token b cookie) db = (post_event token b cookie now db).0

unfoldable pub play : List (ℕ × Request) → Db → Db
unfolding handle
play [] db = db
play ((now, r) ∷ rs) db = play rs (handle now r db)
