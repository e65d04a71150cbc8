-- ===== src/DataRoom/Visits.antt =====
-- What visitors do leaves the rows hanging together.
use conductor_dashboard.Common.{
  ℕ, suc, ◌≡◌, refl, inl, inr, String, Bool, true, not, ◌&&◌, ◌||◌, Option, none, some, Rows, ◌==◌,
  ==_iff, ==_refl, Bool-cases, Option-cases, row_has, Holds, Holds-update, Holds-insert_row, select,
}
use conductor_dashboard.DataRoom.Tables.{DataRoomDocument, DataRoomLink, DataRoomEvent, Db}
use conductor_dashboard.DataRoom.Manage.{in_room}
use conductor_dashboard.DataRoom.Visit.{
  Opened, refused, opened, open_link, EnterBody, enter_opened, create_visitor, find_returning,
  session_taken, put_visitor, come_back, new_visitor, is_right,
}
use conductor_dashboard.DataRoom.Read.{
  EventData, EventBody, record_event, backfill, end_row, end_view, latest, is_open_view,
  is_page_view, new_event, session_cookie, visitor_with, with_document, send, send_file, report,
  reported, get_file, post_event, Rest,
}
use conductor_dashboard.DataRoom.Safety.{open_link-IsOpen, visitor_with-IsVisitor}
use conductor_dashboard.DataRoom.Sound.{
  IsLinked, IsTraced, IsSound, old_insert_row, old_update, row_has-update, row_has-insert_row,
}

module _ (db : Db) (sound : IsSound db) where
  -- A visitor who comes for the first time, or again.
  put_visitor-IsSound :
      (o : Option ℕ) (id : ℕ) (l : DataRoomLink) (b : EnterBody) (session : String)
      (ip agent : Option String)
      → db.links id ≡ some l
      → IsSound (put_visitor o id l.room_id b session ip agent db).0
  put_visitor-IsSound none id l b session ip agent row = record {
    documents = sound.documents;
    links = sound.links;
    visitors =
        Holds-insert_row (IsLinked db.links) db.visitors db.next_visitor
          (new_visitor id l.room_id b session ip agent) sound.visitors
          (rw (row, ==_refl l.room_id) refl);
    events = λ n e there.
        row_has-insert_row (λ v. v.room_id == e.room_id) db.visitors e.visitor_id db.next_visitor
          (new_visitor id l.room_id b session ip agent) sound.visitors_old (sound.events n e there);
    links_old = sound.links_old;
    visitors_old =
        old_insert_row db.visitors db.next_visitor (new_visitor id l.room_id b session ip agent)
          sound.visitors_old;
  }
  put_visitor-IsSound (some i) id l b session ip agent row = record {
    documents = sound.documents;
    links = sound.links;
    visitors =
        Holds-update (IsLinked db.links) db.visitors i (λ v. true) (come_back session ip agent)
          sound.visitors (λ v there _. sound.visitors i v there);
    events = λ n e there.
        row_has-update (λ v. v.room_id == e.room_id) db.visitors e.visitor_id i
          (come_back session ip agent) (λ v. refl) (sound.events n e there);
    links_old = sound.links_old;
    visitors_old =
        old_update db.visitors i db.next_visitor (come_back session ip agent) sound.visitors_old;
  }

  pub enter_opened-IsSound :
      (o : Opened) (token : String) (now : ℕ) (body : Option EnterBody) (session ip : String)
      (agent : Option String)
      → open_link true token now db ≡ o
      → IsSound (enter_opened o body session ip agent db).0
  unfolding enter_opened create_visitor
  enter_opened-IsSound (refused why) token now body session ip agent looked = sound
  enter_opened-IsSound (opened id l r) token now none session ip agent looked = sound
  enter_opened-IsSound (opened id l r) token now (some b) session ip agent looked =
      let is_open = open_link-IsOpen true token now db id l r looked in
      elim (Bool-cases (is_right l.passcode b.passcode)) [
        | inr e ↦ rw e sound
        | inl e ↦ elim (Bool-cases (session_taken session (find_returning id b.email db) db)) [
          | inl k ↦ rw (e, k) sound
          | inr k ↦
              rw (e, k)
                (put_visitor-IsSound (find_returning id b.email db) id l b session (some ip) agent
                  is_open.row)
        ]
      ]

  -- Where events are added and ended.
  with_events :
      (es : Rows DataRoomEvent) (n : ℕ)
      → Holds (IsTraced db.visitors) es
      → IsSound (record db { events = es; next_event = n })
  with_events es n traced = record {
    documents = sound.documents;
    links = sound.links;
    visitors = sound.visitors;
    events = traced;
    links_old = sound.links_old;
    visitors_old = sound.visitors_old;
  }

  ended : (now : ℕ) (o : Option ℕ) → Holds (IsTraced db.visitors) (end_row now o db.events)
  ended now none = sound.events
  ended now (some i) =
      Holds-update (IsTraced db.visitors) db.events i (λ e. true) (end_view now) sound.events
        (λ e there _. sound.events i e there)

  backfilled : (d : EventData) (now : ℕ) → Holds (IsTraced db.visitors) (backfill d now db)
  backfilled d now = elim (Bool-cases (is_page_view d.event_type && not (d.document_id == 0))) [
    | inl e ↦
        rw e (ended now (latest (is_open_view d.visitor_id d.document_id) db.events db.next_event))
    | inr e ↦ rw e sound.events
  ]

  record_event-IsSound :
      (d : EventData) (now : ℕ)
      → row_has (λ v. v.room_id == d.room_id) (db.visitors d.visitor_id) ≡ true
      → IsSound (record_event d now db)
  unfolding record_event
  record_event-IsSound d now there = with_events _ (suc db.next_event) (
      Holds-insert_row (IsTraced db.visitors) (backfill d now db) db.next_event (new_event d now)
        (backfilled d now) there)

  in_own_room :
      (cookie : Option String) (room v : ℕ)
      → visitor_with (session_cookie cookie) room db ≡ some v
      → row_has (λ x. x.room_id == room) (db.visitors v) ≡ true
  in_own_room cookie room v looked =
      let (x, is_visitor) = visitor_with-IsVisitor cookie room db v looked in
      rw is_visitor.row ((==_iff x.room_id room).1 is_visitor.own_room)

  -- A handler for a visitor of the room and one of its documents.
  with_document-IsSound :
      (o : Opened) (cookie : Option String) (id : ℕ) (rest : Rest)
      → ((l : DataRoomLink) (v : ℕ) (d : DataRoomDocument)
          → row_has (λ x. x.room_id == l.room_id) (db.visitors v) ≡ true
          → IsSound (rest l v d).0)
      → IsSound (with_document o cookie id db rest).0
  with_document-IsSound (refused why) cookie id rest k = sound
  with_document-IsSound (opened link l r) cookie id rest k =
      elim (Option-cases (visitor_with (session_cookie cookie) l.room_id db)) [
        | inl e ↦ rw e sound
        | inr (v, e) ↦ elim (Option-cases (select db.documents id (in_room l.room_id))) [
          | inl q ↦ rw (e, q) sound
          | inr (d, q) ↦ rw (e, q) (k l v d (in_own_room cookie l.room_id v e))
        ]
      ]

  sent-IsSound :
      (o : Option String) (l : DataRoomLink) (v id : ℕ) (downloads : Bool) (now : ℕ)
      → row_has (λ x. x.room_id == l.room_id) (db.visitors v) ≡ true
      → IsSound (send o l v id downloads now db).0
  sent-IsSound none l v id downloads now there = sound
  sent-IsSound (some content) l v id downloads now there = record_event-IsSound _ now there

  pub get_file-IsSound :
      (reads : ℕ → String → Option String) (token : String) (id : ℕ) (cookie : Option String)
      (downloads : Bool) (now : ℕ)
      → IsSound (get_file reads token id cookie downloads now db).0
  unfolding get_file send_file
  get_file-IsSound reads token id cookie downloads now =
      with_document-IsSound _ cookie id (send_file reads downloads id now db) (λ l v d there.
        elim (Bool-cases (downloads && not (l.allow_download || d.allow_download))) [
          | inl e ↦ rw e sound
          | inr e ↦ rw e (sent-IsSound (reads d.room_id d.filename) l v id downloads now there)
        ])

  pub post_event-IsSound :
      (token : String) (b : EventBody) (cookie : Option String) (now : ℕ)
      → IsSound (post_event token b cookie now db).0
  unfolding post_event report
  post_event-IsSound token b cookie now =
      with_document-IsSound _ cookie b.document_id (report b now db)
        (λ l v d there. record_event-IsSound (reported b l v) now there)
