-- ===== src/DataRoom/Kept.antt =====
-- What administrators do to rooms and documents leaves the rows of data rooms hanging together.
use conductor_dashboard.Common.{
  ℕ, suc, inl, inr, String, Bool, true, Option, none, some, Rows, ltb, ◌==◌, Bool-cases, is_some,
  Holds, Holds-update, Holds-insert_row, remove_row, select,
}
use conductor_dashboard.DataRoom.Tables.{DataRoom, DataRoomDocument, Db, unlink, unlink_missing}
use conductor_dashboard.DataRoom.Manage.{
  RoomBody, RoomUpdates, FileUpload, DocumentUpdates, create_room, update_room, find_slug,
  other_slug, sets_room, change_room, upload_document, update_document, delete_document, in_room,
  sets_document, change_document,
}
use conductor_dashboard.DataRoom.Sound.{
  Exists, IsTraced, IsSound, Holds-weaken, Exists-insert_row, Exists-update, Holds-map_row,
}

pub removed {ℓ κ} :
    {A : Type ℓ} {P : A → Type κ} (t : Rows A) (id : ℕ) → Holds P t → Holds P (remove_row t id)
removed t id h n a e = elim (Bool-cases (n == id)) [
  | inl same ↦ absurd (let q = rw same at e in cc q)
  | inr other ↦ h n a (rw other at e)
]

module _ (now : ℕ) (db : Db) (sound : IsSound db) where
  -- Where no room goes.
  with_rooms :
      (rs : Rows DataRoom) (n : ℕ)
      → ((id : ℕ) → Exists db.rooms id → Exists rs id)
      → IsSound (record db { rooms = rs; next_room = n })
  with_rooms rs n keep = record {
    documents =
        Holds-weaken (λ d. Exists db.rooms d.room_id) (λ d. Exists rs d.room_id) db.documents
          (λ d. keep d.room_id) sound.documents;
    links =
        Holds-weaken (λ l. Exists db.rooms l.room_id) (λ l. Exists rs l.room_id) db.links
          (λ l. keep l.room_id) sound.links;
    visitors = sound.visitors;
    events = sound.events;
    links_old = sound.links_old;
    visitors_old = sound.visitors_old;
  }

  pub create_room-IsSound :
      (standard : String) (ws : ℕ) (b : RoomBody) → IsSound (create_room standard ws b now db).0
  unfolding create_room
  create_room-IsSound standard ws b = elim (Bool-cases (is_some (find_slug b.slug db))) [
    | inl e ↦ rw e sound
    | inr e ↦ rw e (with_rooms _ (suc db.next_room) (Exists-insert_row db.rooms db.next_room _))
  ]

  pub update_room-IsSound : (id : ℕ) (c : RoomUpdates) → IsSound (update_room id c now db).0
  unfolding update_room
  update_room-IsSound id c = elim (Bool-cases (is_some (db.rooms id))) [
    | inr e ↦ rw e sound
    | inl e ↦ elim (Bool-cases (other_slug c.slug id db)) [
      | inl k ↦ rw (e, k) sound
      | inr k ↦ elim (Bool-cases (sets_room c)) [
        | inr q ↦ rw (e, k, q) sound
        | inl q ↦
            rw (e, k, q) (with_rooms _ db.next_room (Exists-update db.rooms id (change_room c now)))
      ]
    ]
  ]

  -- Where no document's room goes, and events may lose their document.
  with_documents :
      (ds : Rows DataRoomDocument) (n : ℕ)
      → Holds (λ d. Exists db.rooms d.room_id) ds
      → IsSound (record db { documents = ds; next_document = n })
  with_documents ds n fine = record {
    documents = fine;
    links = sound.links;
    visitors = sound.visitors;
    events = sound.events;
    links_old = sound.links_old;
    visitors_old = sound.visitors_old;
  }

  pub upload_document-IsSound :
      (room : ℕ) (f : Option FileUpload) (accepted : Bool)
      → IsSound (upload_document room f accepted now db).0
  unfolding upload_document
  upload_document-IsSound room none accepted = elim (Bool-cases (is_some (db.rooms room))) [
    | inl e ↦ rw e sound
    | inr e ↦ rw e sound
  ]
  upload_document-IsSound room (some f) accepted = elim (Bool-cases (is_some (db.rooms room))) [
    | inr e ↦ rw e sound
    | inl e ↦ elim (Bool-cases (ltb 52428800 f.size)) [
      | inl k ↦ rw (e, k) sound
      | inr k ↦ elim (Bool-cases accepted) [
        | inr q ↦ rw (e, k, q) sound
        | inl q ↦
            rw (e, k, q)
              (with_documents _ (suc db.next_document) (
                Holds-insert_row (λ d. Exists db.rooms d.room_id) db.documents db.next_document _
                  sound.documents e))
      ]
    ]
  ]

  pub update_document-IsSound :
      (room id : ℕ) (c : DocumentUpdates) → IsSound (update_document room id c now db).0
  unfolding update_document
  update_document-IsSound room id c = elim (Bool-cases (is_some (db.rooms room))) [
    | inr e ↦ rw e sound
    | inl e ↦ elim (Bool-cases (is_some (select db.documents id (in_room room)))) [
      | inr k ↦ rw (e, k) sound
      | inl k ↦ elim (Bool-cases (sets_document c)) [
        | inr q ↦ rw (e, k, q) sound
        | inl q ↦
            rw (e, k, q)
              (with_documents _ db.next_document (
                Holds-update (λ d. Exists db.rooms d.room_id) db.documents id (λ d. true)
                  (change_document c now) sound.documents (λ d row _. sound.documents id d row)))
      ]
    ]
  ]

  unlinked :
      (ds : Rows DataRoomDocument) → Holds (IsTraced db.visitors) (unlink_missing ds db.events)
  unlinked ds =
      Holds-map_row (IsTraced db.visitors) (unlink ds) db.events (λ e traced. traced) sound.events

  pub delete_document-IsSound : (room id : ℕ) → IsSound (delete_document room id db).0
  unfolding delete_document
  delete_document-IsSound room id = elim (Bool-cases (is_some (db.rooms room))) [
    | inr e ↦ rw e sound
    | inl e ↦ elim (Bool-cases (is_some (select db.documents id (in_room room)))) [
      | inr k ↦ rw (e, k) sound
      | inl k ↦
          rw (e, k)
            (record {
              documents = removed db.documents id sound.documents;
              links = sound.links;
              visitors = sound.visitors;
              events = unlinked (remove_row db.documents id);
              links_old = sound.links_old;
              visitors_old = sound.visitors_old;
            })
    ]
  ]
