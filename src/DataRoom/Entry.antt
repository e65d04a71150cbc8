-- ===== src/DataRoom/Entry.antt =====
-- Who is let in, and what the session is good for.
use conductor_dashboard.Common.{
  ℕ, ◌≡◌, refl, sym, ap, ◌∙◌, inl, inr, String, Bool, true, ◌&&◌, Option, none, some, arith, Rows,
  ◌==◌, ==_refl, str_eq, eq_iff, Bool-cases, row_has, first_id_passes,
}
use conductor_dashboard.DataRoom.Tables.{DataRoom, DataRoomLink, DataRoomVisitor, Db}
use conductor_dashboard.DataRoom.Visit.{
  VisitReply, entered, Opened, refused, opened, open_link, EnterBody, enter_opened, create_visitor,
  find_returning, is_returning, session_taken, put_visitor, come_back, new_visitor, let_in,
  is_right,
}
use conductor_dashboard.DataRoom.Safety.{IsOpen, open_link-IsOpen, row_has-some}
use conductor_dashboard.DataRoom.Sound.{IsSound}

-- The visitor of the link with the email, who has the session.
abbrev pub has_entered : ℕ → ℕ → String → String → DataRoomVisitor → Bool
has_entered link room email session v =
    v.link_id == link && v.room_id == room && str_eq v.email email && str_eq v.session_token session

-- A visitor who is let in came by an open link with the right passcode, and is in the link's room.
pub record IsAdmitted (token : String) (now : ℕ) (b : EnterBody) (session : String) (db : Db)
    (db' : Db) (id : ℕ) : Type 0 where
  pub link_id : ℕ
  pub link : DataRoomLink
  pub room : DataRoom
  pub is_open : IsOpen true token now db link_id link room
  pub passcode : is_right link.passcode b.passcode ≡ true
  pub visitor : row_has (has_entered link_id link.room_id b.email session) (db'.visitors id) ≡ true

str_refl : (s : String) → str_eq s s ≡ true
str_refl s = (eq_iff s s).1 refl

entered_new :
    (id room : ℕ) (b : EnterBody) (session : String) (ip agent : Option String)
    → has_entered id room b.email session (new_visitor id room b session ip agent) ≡ true
entered_new id room b session ip agent =
    rw (==_refl id, ==_refl room, str_refl b.email, str_refl session) refl

entered_again :
    (id : ℕ) (l : DataRoomLink) (email session : String) (ip agent : Option String)
    (ls : Rows DataRoomLink) (v : DataRoomVisitor)
    → ls id ≡ some l
    → row_has (λ m. m.room_id == v.room_id) (ls v.link_id) ≡ true
    → is_returning id email v ≡ true
    → has_entered id l.room_id email session (come_back session ip agent v) ≡ true
entered_again id l email session ip agent ls v row linked back =
    let same : v.link_id ≡ id = ground arith in
    let own : ls v.link_id ≡ some l = ap ls same ∙ row in
    let room : (l.room_id == v.room_id) ≡ true = rw own at linked in
    let is : str_eq session session ≡ true = str_refl session in ground arith

put_visitor-entered :
    (o : Option ℕ) (id : ℕ) (l : DataRoomLink) (b : EnterBody) (session : String)
    (ip agent : Option String) (db : Db)
    → IsSound db
    → db.links id ≡ some l
    → find_returning id b.email db ≡ o
    → row_has (has_entered id l.room_id b.email session) (
        (put_visitor o id l.room_id b session ip agent db).0.visitors
          (put_visitor o id l.room_id b session ip agent db).1)
      ≡ true
put_visitor-entered none id l b session ip agent db sound row looked =
    rw (==_refl db.next_visitor) (entered_new id l.room_id b session ip agent)
put_visitor-entered (some i) id l b session ip agent db sound row looked =
    let (has, _) =
      first_id_passes (λ j. row_has (is_returning id b.email) (db.visitors j)) db.next_visitor
        looked in
    let (v, there, back) = row_has-some (is_returning id b.email) (db.visitors i) has in
    rw (==_refl i, there)
      (entered_again id l b.email session ip agent db.links v row (sound.visitors i v there) back)

reply_session : String → VisitReply → String
reply_session d (entered id session) = session
reply_session d other = d

reply_visitor : VisitReply → ℕ
reply_visitor (entered id session) = id
reply_visitor other = 0

entered_as :
    (i : ℕ) (session : String) (db1 db db' : Db) (id : ℕ) (given : String)
    → let_in (some (db1, i)) session db ≡ (db', entered id given)
    → (db1 ≡ db') × (i ≡ id) × (session ≡ given)
unfolding reply_session reply_visitor
entered_as i session db1 db db' id given h =
    (ap (λ r. r.0) h, ap (λ r. reply_visitor r.1) h, ap (λ r. reply_session session r.1) h)

entered_by :
    (token : String) (now : ℕ) (b : EnterBody) (session ip : String) (agent : Option String)
    (db db' : Db) (id : ℕ) (given : String)
    → IsSound db
    → (o : Opened) → open_link true token now db ≡ o
    → enter_opened o (some b) session ip agent db ≡ (db', entered id given)
    → (given ≡ session) × IsAdmitted token now b session db db' id
unfolding enter_opened create_visitor
entered_by token now b session ip agent db db' id given sound (refused why) looked h =
    absurd (let k = ap (λ r. r.1) h in cc k)
entered_by token now b session ip agent db db' id given sound (opened lid l r) looked h =
    let is_open = open_link-IsOpen true token now db lid l r looked in
    elim (Bool-cases (is_right l.passcode b.passcode)) [
      | inr e ↦ absurd (let k = rw e at (ap (λ r. r.1) h) in cc k)
      | inl right ↦ elim (Bool-cases (session_taken session (find_returning lid b.email db) db)) [
        | inl e ↦ absurd (let k = rw (right, e) at (ap (λ r. r.1) h) in cc k)
        | inr fresh ↦
            let o = find_returning lid b.email db in
            let put = put_visitor o lid l.room_id b session (some ip) agent db in
            let (same_db, same_id, same_session) =
              entered_as put.1 session put.0 db db' id given (rw (right, fresh) at h) in
            (
              sym same_session,
              rw (sym same_db, sym same_id)
                  (record {
                    link_id = lid;
                    link = l;
                    room = r;
                    is_open = is_open;
                    passcode = right;
                    visitor =
                        put_visitor-entered o lid l b session (some ip) agent db sound is_open.row
                          refl;
                  }),
            )
      ]
    ]

-- Where rows hang together, a visitor who is let in gave the passcode of a link that is active, not over and of a
-- room that is not archived, if it has one, and is then a visitor of that link with the email of the request, in
-- the link's room and with the new session.
pub enter_opened-IsAdmitted :
    (token : String) (now : ℕ) (b : EnterBody) (session ip : String) (agent : Option String)
    (db db' : Db) (id : ℕ) (given : String)
    → IsSound db
    → enter_opened (open_link true token now db) (some b) session ip agent db
      ≡ (db', entered id given)
    → (given ≡ session) × IsAdmitted token now b session db db' id
enter_opened-IsAdmitted token now b session ip agent db db' id given sound h =
    entered_by token now b session ip agent db db' id given sound _ refl h
