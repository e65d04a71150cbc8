-- ===== src/DataRoom/Safety.antt =====
-- Who is served a document.
use conductor_dashboard.Common.{
  ℕ, ◌≡◌, refl, sym, ap, ◌∙◌, inl, inr, String, Bool, true, false, not, ◌&&◌, ◌||◌, Option, none,
  some, arith, ==_iff, eq_iff, Bool-cases, Option-cases, row_has, first_id_passes, select,
  select_row, text_truthy,
}
use conductor_dashboard.DataRoom.Tables.{
  DataRoom, DataRoomDocument, DataRoomLink, DataRoomVisitor, Db,
}
use conductor_dashboard.DataRoom.Manage.{in_room}
use conductor_dashboard.DataRoom.Links.{get_link_by_token, has_link_token}
use conductor_dashboard.DataRoom.Visit.{
  Closed, VisitReply, served, Opened, refused, opened, open_link, unless, room_not_found,
  link_not_found, link_expired, open_room, is_expired, is_archived, is_visitor,
  validate_visitor_session,
}
use conductor_dashboard.DataRoom.Read.{
  session_cookie, visitor_with, no_visitor, with_document, for_document, for_visitor, send,
  send_file, get_file,
}

content_of : String → VisitReply → String
content_of c (served id content downloads) = content
content_of c other = c

pub row_has-some {ℓ} :
    {A : Type ℓ} (p : A → Bool) (o : Option A)
    → row_has p o ≡ true
    → (a : A) × (o ≡ some a) × (p a ≡ true)
row_has-some p none h = absurd (cc)
row_has-some p (some a) h = (a, refl, h)

-- A link that is open: active, and, where the route checks it, not over and of a room that is not archived.
pub record IsOpen (checks : Bool) (token : String) (now : ℕ) (db : Db) (id : ℕ) (l : DataRoomLink)
    (r : DataRoom) : Type 0 where
  pub row : db.links id ≡ some l
  pub named : l.token ≡ token
  pub active : l.is_active ≡ true
  pub in_time : (checks && is_expired now l.expires_at) ≡ false
  pub room : db.rooms l.room_id ≡ some r
  pub current : (checks && is_archived r) ≡ false

id_of : Opened → ℕ
id_of (refused why) = 0
id_of (opened id l r) = id

link_of : DataRoomLink → Opened → DataRoomLink
link_of l (refused why) = l
link_of l (opened id m r) = m

room_of : DataRoom → Opened → DataRoom
room_of r (refused why) = r
room_of r (opened id l s) = s

unless_inv :
    (b : Bool) (why : Closed) (rest : Opened) {id : ℕ} {l : DataRoomLink} {r : DataRoom}
    → unless b why rest ≡ opened id l r
    → (b ≡ false) × (rest ≡ opened id l r)
unless_inv true why rest h = absurd (cc)
unless_inv false why rest h = (refl, h)

opened_inv :
    (i j : ℕ) (l m : DataRoomLink) (r s : DataRoom)
    → opened i l r ≡ opened j m s
    → (i ≡ j) × (l ≡ m) × (r ≡ s)
unfolding id_of link_of room_of
opened_inv i j l m r s h = (ap id_of h, ap (link_of l) h, ap (room_of r) h)

module _ (checks : Bool) (token : String) (now : ℕ) (db : Db) (id : ℕ) (l : DataRoomLink)
    (r : DataRoom) where
  gates :
      (m : DataRoomLink) (rest : Opened)
      → unless
          (not m.is_active)
          link_not_found
          (unless (checks && is_expired now m.expires_at) link_expired rest)
        ≡ opened id l r
      → (m.is_active ≡ true)
        × ((checks && is_expired now m.expires_at) ≡ false)
        × (rest ≡ opened id l r)
  gates m rest h =
      let over = checks && is_expired now m.expires_at in
      let (active, k) =
        unless_inv (not m.is_active) link_not_found (unless over link_expired rest) h in
      let (in_time, q) = unless_inv over link_expired rest k in (ground arith, in_time, q)

  open_row-IsOpen :
      (i : ℕ) (m : DataRoomLink) (s : Option DataRoom)
      → db.links i ≡ some m
      → m.token ≡ token
      → db.rooms m.room_id ≡ s
      → unless
          (not m.is_active)
          link_not_found
          (unless (checks && is_expired now m.expires_at) link_expired (open_room checks i m s))
        ≡ opened id l r
      → IsOpen checks token now db id l r
  open_row-IsOpen i m none row named room h =
      let (_, _, q) = gates m (refused room_not_found) h in
      absurd (let k : refused room_not_found ≡ opened id l r = q in cc k)
  open_row-IsOpen i m (some s) row named room h =
      let (active, in_time, q) = gates m (open_room checks i m (some s)) h in
      let (current, same) = unless_inv (checks && is_archived s) room_not_found (opened i m s) q in
      let (same_id, same_link, same_room) = opened_inv i id m l s r same in
      rw (sym same_id, sym same_link, sym same_room)
        (record {
          row = row;
          named = named;
          active = active;
          in_time = in_time;
          room = room;
          current = current;
        })

  pub open_link-IsOpen :
      open_link checks token now db ≡ opened id l r → IsOpen checks token now db id l r
  unfolding open_link
  open_link-IsOpen h = elim (Option-cases (get_link_by_token token db)) [
    | inl e ↦ absurd (let k = rw (open_link, e) at h in cc k)
    | inr (i, e) ↦
        let (has, _) =
          first_id_passes (λ j. row_has (has_link_token token) (db.links j)) db.next_link e in
        let (m, row, named) = row_has-some (has_link_token token) (db.links i) has in
        open_row-IsOpen i m _ row ((eq_iff m.token token).0 named) refl
          (rw (open_link, e, row) at h)
  ]

-- A visitor whose session the cookie names, in the room.
pub record IsVisitor (cookie : Option String) (room : ℕ) (db : Db) (id : ℕ) (v : DataRoomVisitor)
    : Type 0 where
  pub row : db.visitors id ≡ some v
  pub session : cookie ≡ some v.session_token
  pub own_room : v.room_id ≡ room

validate_visitor_session-IsVisitor :
    (token : String) (room : ℕ) (db : Db) (id : ℕ)
    → validate_visitor_session token room db ≡ some id
    → (v : DataRoomVisitor) × IsVisitor (some token) room db id v
unfolding validate_visitor_session
validate_visitor_session-IsVisitor token room db id h =
    let (has, _) =
      first_id_passes (λ i. row_has (is_visitor token room) (db.visitors i)) db.next_visitor h in
    let (v, row, k) = row_has-some (is_visitor token room) (db.visitors id) has in
    let same : v.session_token ≡ token = ground (arith, eq_iff v.session_token token) in
    (v, record { row = row; session = ap some (sym same); own_room = ground arith })

pub visitor_with-IsVisitor :
    (cookie : Option String) (room : ℕ) (db : Db) (id : ℕ)
    → visitor_with (session_cookie cookie) room db ≡ some id
    → (v : DataRoomVisitor) × IsVisitor cookie room db id v
visitor_with-IsVisitor none room db id h = absurd (cc)
visitor_with-IsVisitor (some s) room db id h = elim (Bool-cases (text_truthy s)) [
  | inl e ↦ validate_visitor_session-IsVisitor s room db id (rw e at h)
  | inr e ↦ absurd (let k = rw e at h in cc k)
]

-- The content of a document comes from an open link to the room that has it, to a visitor of the room, and as a
-- download only where the link or the document allows it.
pub record MayRead (reads : ℕ → String → Option String) (token : String) (id : ℕ)
    (cookie : Option String) (downloads : Bool) (now : ℕ) (db : Db) (content : String)
    : Type 0 where
  pub link_id : ℕ
  pub link : DataRoomLink
  pub room : DataRoom
  pub visitor_id : ℕ
  pub visitor : DataRoomVisitor
  pub document : DataRoomDocument
  pub is_open : IsOpen true token now db link_id link room
  pub is_visitor : IsVisitor cookie link.room_id db visitor_id visitor
  pub row : db.documents id ≡ some document
  pub own_room : document.room_id ≡ link.room_id
  pub stored : reads link.room_id document.filename ≡ some content
  pub may_download : (downloads && not (link.allow_download || document.allow_download)) ≡ false

no_visitor_not_served :
    {B : Type 0} (o : Option String) {i : ℕ} {c : String} {e : Bool}
    → no_visitor o ≡ served i c e
    → B
no_visitor_not_served none h = absurd (cc)
no_visitor_not_served (some s) h = absurd (cc)

module _ (reads : ℕ → String → Option String) (token : String) (id : ℕ) (cookie : Option String)
    (downloads : Bool) (now : ℕ) (db : Db) (content : String) where
  sent_inv :
      (o : Option String) (l : DataRoomLink) (v i : ℕ) (d : Bool)
      → (send o l v id downloads now db).1 ≡ served i content d
      → o ≡ some content
  unfolding content_of
  sent_inv none l v i d h = absurd (cc)
  sent_inv (some c) l v i d h = ap some (ap (content_of c) h)

  for_row :
      (i : ℕ) (e : Bool) (lid vid : ℕ) (l : DataRoomLink) (r : DataRoom) (v : DataRoomVisitor)
      (o : Option DataRoomDocument)
      → IsOpen true token now db lid l r
      → IsVisitor cookie l.room_id db vid v
      → select db.documents id (in_room l.room_id) ≡ o
      → (for_document l vid db o (send_file reads downloads id now db)).1 ≡ served i content e
      → MayRead reads token id cookie downloads now db content
  unfolding send_file
  for_row i e lid vid l r v none is_open is_visitor looked h = absurd (cc)
  for_row i e lid vid l r v (some d) is_open is_visitor looked h =
      let (row, own) = select_row db.documents id (in_room l.room_id) looked in
      let own_room : d.room_id ≡ l.room_id = (==_iff d.room_id l.room_id).0 own in
      elim (Bool-cases (downloads && not (l.allow_download || d.allow_download))) [
        | inl f ↦ absurd (let k = rw f at h in cc k)
        | inr may ↦ record {
          link_id = lid;
          link = l;
          room = r;
          visitor_id = vid;
          visitor = v;
          document = d;
          is_open = is_open;
          is_visitor = is_visitor;
          row = row;
          own_room = own_room;
          stored =
              ap (λ n. reads n d.filename) (sym own_room)
              ∙ sent_inv (reads d.room_id d.filename) l vid i e (rw may at h);
          may_download = may;
        }
      ]

  for_session :
      (i : ℕ) (e : Bool) (lid : ℕ) (l : DataRoomLink) (r : DataRoom) (o : Option ℕ)
      → IsOpen true token now db lid l r
      → visitor_with (session_cookie cookie) l.room_id db ≡ o
      → (for_visitor l cookie id db o (send_file reads downloads id now db)).1 ≡ served i content e
      → MayRead reads token id cookie downloads now db content
  for_session i e lid l r none is_open looked h = no_visitor_not_served (session_cookie cookie) h
  for_session i e lid l r (some vid) is_open looked h =
      let (v, is_visitor) = visitor_with-IsVisitor cookie l.room_id db vid looked in
      for_row i e lid vid l r v _ is_open is_visitor refl h

  for_opened :
      (i : ℕ) (e : Bool) (o : Opened)
      → open_link true token now db ≡ o
      → (with_document o cookie id db (send_file reads downloads id now db)).1 ≡ served i content e
      → MayRead reads token id cookie downloads now db content
  for_opened i e (refused why) looked h = absurd (cc)
  for_opened i e (opened lid l r) looked h =
      for_session i e lid l r _ (open_link-IsOpen true token now db lid l r looked) refl h

  -- Whoever gets a document's content by the route of its file may read it: the link is active, not over and to a
  -- room that is not archived, the cookie names the session of a visitor of that room, the document is the
  -- room's, and a download is allowed by the link or the document.
  pub get_file-MayRead :
      (i : ℕ) (d : Bool)
      → (get_file reads token id cookie downloads now db).1 ≡ served i content d
      → MayRead reads token id cookie downloads now db content
  unfolding get_file
  get_file-MayRead i d h = for_opened i d _ refl h
