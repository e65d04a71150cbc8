-- ===== src/DataRoom/Cascades.antt =====
-- What administrators do to links, and the deletion of a room, leave the rows hanging together.
use conductor_dashboard.Common.{
  ℕ, ◌≡◌, refl, inl, inr, String, Bool, true, false, not, arith, ◌==◌, Bool-cases, is_some, Holds,
  Holds-update, Holds-insert_row, remove_row, select,
}
use conductor_dashboard.DataRoom.Tables.{
  DataRoomVisitor, Db, delete_where, visitor_of, drop_orphans, unlink,
}
use conductor_dashboard.DataRoom.Manage.{delete_room}
use conductor_dashboard.DataRoom.Links.{
  LinkBody, LinkUpdates, create_link, update_link, delete_link, get_link_by_token, link_in,
  sets_link, change_link,
}
use conductor_dashboard.DataRoom.Sound.{
  Exists, IsLinked, IsTraced, IsSound, Holds-delete_where, old_insert_row, old_update,
  old_delete_where, old_remove_row, row_has-update, row_has-insert_row, row_has-delete_where,
  row_has-left, row_has-remove_row, Holds-map_row,
}
use conductor_dashboard.DataRoom.Kept.{removed}

not-false : (b : Bool) → not b ≡ false → b ≡ true
not-false true h = refl
not-false false h = absurd (cc)

same_other : (a b c : ℕ) → (a == b) ≡ true → (b == c) ≡ false → (a == c) ≡ false
same_other a b c h k = ground arith

module _ (now : ℕ) (db : Db) (sound : IsSound db) where
  pub create_link-IsSound :
      (room : ℕ) (b : LinkBody) (token : String) → IsSound (create_link room b token now db).0
  unfolding create_link
  create_link-IsSound room b token = elim (Bool-cases (is_some (db.rooms room))) [
    | inr e ↦ rw e sound
    | inl e ↦ elim (Bool-cases (is_some (get_link_by_token token db))) [
      | inl k ↦ rw (e, k) sound
      | inr k ↦
          rw (e, k)
            (record {
              documents = sound.documents;
              links =
                  Holds-insert_row (λ l. Exists db.rooms l.room_id) db.links db.next_link _
                    sound.links e;
              visitors = λ n v row.
                  row_has-insert_row (λ l. l.room_id == v.room_id) db.links v.link_id db.next_link _
                    sound.links_old (sound.visitors n v row);
              events = sound.events;
              links_old = old_insert_row db.links db.next_link _ sound.links_old;
              visitors_old = sound.visitors_old;
            })
    ]
  ]

  pub update_link-IsSound :
      (room id : ℕ) (c : LinkUpdates) → IsSound (update_link room id c now db).0
  unfolding update_link
  update_link-IsSound room id c = elim (Bool-cases (is_some (db.rooms room))) [
    | inr e ↦ rw e sound
    | inl e ↦ elim (Bool-cases (is_some (select db.links id (link_in room)))) [
      | inr k ↦ rw (e, k) sound
      | inl k ↦ elim (Bool-cases (sets_link c)) [
        | inr q ↦ rw (e, k, q) sound
        | inl q ↦
            rw (e, k, q)
              (record {
                documents = sound.documents;
                links =
                    Holds-update (λ l. Exists db.rooms l.room_id) db.links id (λ l. true)
                      (change_link c now) sound.links (λ l row _. sound.links id l row);
                visitors = λ n v row.
                    row_has-update (λ l. l.room_id == v.room_id) db.links v.link_id id
                      (change_link c now) (λ l. refl) (sound.visitors n v row);
                events = sound.events;
                links_old = old_update db.links id db.next_link (change_link c now) sound.links_old;
                visitors_old = sound.visitors_old;
              })
      ]
    ]
  ]

  -- The events of the visitors who stay.
  traced_after :
      (q : DataRoomVisitor → Bool)
      → Holds
          (IsTraced (delete_where q db.visitors))
          (drop_orphans (delete_where q db.visitors) db.events)
  traced_after q =
      Holds-delete_where (IsTraced db.visitors) (IsTraced (delete_where q db.visitors))
        (λ e. not (visitor_of (delete_where q db.visitors) e)) db.events
        (λ e there traced.
          row_has-left (λ v. v.room_id == e.room_id) db.visitors e.visitor_id q
            (not-false (visitor_of (delete_where q db.visitors) e) there) traced)
        sound.events

  pub delete_link-IsSound : (room id : ℕ) → IsSound (delete_link room id db).0
  unfolding delete_link
  delete_link-IsSound room id = elim (Bool-cases (is_some (db.rooms room))) [
    | inr e ↦ rw e sound
    | inl e ↦ elim (Bool-cases (is_some (select db.links id (link_in room)))) [
      | inr k ↦ rw (e, k) sound
      | inl k ↦
          rw (e, k)
            (record {
              documents = sound.documents;
              links = removed db.links id sound.links;
              visitors =
                  Holds-delete_where (IsLinked db.links) (IsLinked (remove_row db.links id))
                    (λ v. v.link_id == id) db.visitors
                    (λ v other linked.
                      row_has-remove_row (λ l. l.room_id == v.room_id) db.links v.link_id id other
                        linked)
                    sound.visitors;
              events = traced_after (λ v. v.link_id == id);
              links_old = old_remove_row db.links id db.next_link sound.links_old;
              visitors_old =
                  old_delete_where db.visitors db.next_visitor (λ v. v.link_id == id)
                    sound.visitors_old;
            })
    ]
  ]

  left_room :
      (id room : ℕ)
      → (room == id) ≡ false
      → Exists db.rooms room
      → Exists (remove_row db.rooms id) room
  left_room id room other there = rw other there

  pub delete_room-IsSound : (id : ℕ) → IsSound (delete_room id db).0
  unfolding delete_room
  delete_room-IsSound id = elim (Bool-cases (is_some (db.rooms id))) [
    | inr e ↦ rw e sound
    | inl e ↦ rw e (record {
      documents =
          Holds-delete_where (λ d. Exists db.rooms d.room_id)
            (λ d. Exists (remove_row db.rooms id) d.room_id) (λ d. d.room_id == id) db.documents
            (λ d. left_room id d.room_id) sound.documents;
      links =
          Holds-delete_where (λ l. Exists db.rooms l.room_id)
            (λ l. Exists (remove_row db.rooms id) l.room_id) (λ l. l.room_id == id) db.links
            (λ l. left_room id l.room_id) sound.links;
      visitors =
          Holds-delete_where (IsLinked db.links)
            (IsLinked (delete_where (λ l. l.room_id == id) db.links)) (λ v. v.room_id == id)
            db.visitors
            (λ v other linked.
              row_has-delete_where (λ l. l.room_id == v.room_id) db.links v.link_id
                (λ l. l.room_id == id) (λ l same. same_other l.room_id v.room_id id same other)
                linked)
            sound.visitors;
      events =
          let vs = delete_where (λ v. v.room_id == id) db.visitors in
          let left = delete_where (λ x. x.room_id == id) (drop_orphans vs db.events) in
          Holds-map_row (IsTraced vs) (unlink (delete_where (λ d. d.room_id == id) db.documents))
            left (λ x traced. traced)
            (Holds-delete_where (IsTraced vs) (IsTraced vs) (λ x. x.room_id == id)
              (drop_orphans vs db.events) (λ x other traced. traced)
              (traced_after (λ v. v.room_id == id)));
      links_old = old_delete_where db.links db.next_link (λ l. l.room_id == id) sound.links_old;
      visitors_old =
          old_delete_where db.visitors db.next_visitor (λ v. v.room_id == id) sound.visitors_old;
    })
  ]
