-- ===== src/DataRoom/Whole.antt =====
-- The rows of data rooms hang together over all requests.
use conductor_dashboard.Common.{ℕ, refl, List, [], ◌∷◌}
use conductor_dashboard.DataRoom.Tables.{Db}
use conductor_dashboard.DataRoom.History.{
  Request, found, change, remove, upload, edit, discard, link, relink, unlink, enter, read,
  report as report_event, handle, play,
}
use conductor_dashboard.DataRoom.Sound.{IsSound}
use conductor_dashboard.DataRoom.Kept.{
  create_room-IsSound, update_room-IsSound, upload_document-IsSound, update_document-IsSound,
  delete_document-IsSound,
}
use conductor_dashboard.DataRoom.Cascades.{
  delete_room-IsSound, create_link-IsSound, update_link-IsSound, delete_link-IsSound,
}
use conductor_dashboard.DataRoom.Visits.{enter_opened-IsSound, get_file-IsSound, post_event-IsSound}

handle-IsSound : (now : ℕ) (r : Request) (db : Db) → IsSound db → IsSound (handle now r db)
unfolding handle
handle-IsSound now (found standard ws b) db sound = create_room-IsSound now db sound standard ws b
handle-IsSound now (change id c) db sound = update_room-IsSound now db sound id c
handle-IsSound now (remove id) db sound = delete_room-IsSound now db sound id
handle-IsSound now (upload room f accepted) db sound =
    upload_document-IsSound now db sound room f accepted
handle-IsSound now (edit room id c) db sound = update_document-IsSound now db sound room id c
handle-IsSound now (discard room id) db sound = delete_document-IsSound now db sound room id
handle-IsSound now (link room b token) db sound = create_link-IsSound now db sound room b token
handle-IsSound now (relink room id c) db sound = update_link-IsSound now db sound room id c
handle-IsSound now (unlink room id) db sound = delete_link-IsSound now db sound room id
handle-IsSound now (enter token body session ip agent) db sound =
    enter_opened-IsSound db sound _ token now body session ip agent refl
handle-IsSound now (read reads token id cookie downloads) db sound =
    get_file-IsSound db sound reads token id cookie downloads now
handle-IsSound now (report_event token b cookie) db sound =
    post_event-IsSound db sound token b cookie now

-- Whatever administrators and visitors do, deletions included, the documents and links stay those of rooms that
-- exist, a visitor's link exists and leads to the visitor's room, an event's visitor exists and is in the event's
-- room, and ids of links and visitors are below the next one.
pub play-IsSound : (rs : List (ℕ × Request)) (db : Db) → IsSound db → IsSound (play rs db)
unfolding play
play-IsSound [] db sound = sound
play-IsSound ((now, r) ∷ rs) db sound =
    play-IsSound rs (handle now r db) (handle-IsSound now r db sound)
