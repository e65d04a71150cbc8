-- ===== src/DataRoom/Tests.antt =====
-- Requests about data rooms on a small database.
use conductor_dashboard.Common.{
  ℕ, ◌≡◌, refl, String, true, false, Option, none, some, List, [], ◌∷◌, arith, Rows, ◌==◌,
  if◌then◌else◌,
}
use conductor_dashboard.DataRoom.Tables.{
  DataRoom, DataRoomDocument, DataRoomLink, DataRoomVisitor, Db,
}
use conductor_dashboard.DataRoom.Visit.{
  served, entered, EnterBody, open_link, enter_opened, validate_visitor_session, create_visitor,
}
use conductor_dashboard.DataRoom.Read.{get_file, send_file}
use conductor_dashboard.DataRoom.Safety.{MayRead, get_file-MayRead}
use conductor_dashboard.DataRoom.Sound.{IsSound}
use conductor_dashboard.DataRoom.History.{Request, enter, unlink, remove, play}
use conductor_dashboard.DataRoom.Whole.{play-IsSound}
use conductor_dashboard.DataRoom.Entry.{IsAdmitted, enter_opened-IsAdmitted}

abbrev only {ℓ} : {A : Type ℓ} → A → Rows A
only a n = if n == 1 then some a else none

abbrev deal : DataRoom
deal = record {
  workspace_id = 1;
  name = "Deal";
  slug = "deal";
  status = "active";
  branding = "{}";
  updated_at = 0;
}

abbrev plan : DataRoomDocument
plan = record {
  room_id = 1;
  folder = "";
  filename = "1-plan.pdf";
  original_name = "plan.pdf";
  mime_type = "application/pdf";
  file_size = 9;
  sort_order = 0;
  allow_download = false;
  updated_at = 0;
}

abbrev invitation : DataRoomLink
invitation = record {
  room_id = 1;
  token = "abc";
  name = "";
  is_active = true;
  passcode = some "1234";
  allow_download = true;
  expires_at = some 900;
  updated_at = 0;
}

abbrev guest : DataRoomVisitor
guest = record {
  link_id = 1;
  room_id = 1;
  email = "g@example.com";
  name = "";
  company = "";
  session_token = "s1";
  ip_address = none;
  user_agent = none;
}

abbrev one_room : Db
one_room = record {
  rooms = only deal;
  documents = only plan;
  links = only invitation;
  visitors = only guest;
  events = λ n. none;
  next_room = 2;
  next_document = 2;
  next_link = 2;
  next_visitor = 2;
  next_event = 1;
}

abbrev disk : ℕ → String → Option String
disk room name = some "content"

served_plan : (get_file disk "abc" 1 (some "s1") true 800 one_room).1 ≡ served 1 "content" true
unfolding get_file open_link validate_visitor_session send_file
served_plan = refl

get_file-MayRead_example : MayRead disk "abc" 1 (some "s1") true 800 one_room "content"
get_file-MayRead_example =
    get_file-MayRead disk "abc" 1 (some "s1") true 800 one_room "content" 1 true served_plan

one_room-IsSound : IsSound one_room
one_room-IsSound = record {
  documents = λ n d e. ground arith;
  links = λ n l e. ground arith;
  visitors = λ n v e. ground arith;
  events = λ n x e. absurd (cc);
  links_old = λ n l e. ground arith;
  visitors_old = λ n v e. ground arith;
}

abbrev new_guest : EnterBody
new_guest = record { email = "h@example.com"; name = ""; company = ""; passcode = some "1234" }

abbrev requests : List (ℕ × Request)
requests =
    (800, enter "abc" (some new_guest) "s2" "10.0.0.9" none)
    ∷ (801, unlink 1 1)
    ∷ (802, remove 1)
    ∷ []

play-IsSound_example : IsSound (play requests one_room)
play-IsSound_example = play-IsSound requests one_room one_room-IsSound

abbrev after_entry : Db
unfolding open_link enter_opened create_visitor
after_entry =
    (enter_opened (open_link true "abc" 800 one_room) (some new_guest) "s2" "10.0.0.9" none
      one_room).0

let_in_guest :
    enter_opened (open_link true "abc" 800 one_room) (some new_guest) "s2" "10.0.0.9" none one_room
    ≡ (after_entry, entered 2 "s2")
unfolding after_entry open_link enter_opened create_visitor
let_in_guest = refl

enter_opened-IsAdmitted_example :
    (◌≡◌ {A = String} "s2" "s2") × IsAdmitted "abc" 800 new_guest "s2" one_room after_entry 2
enter_opened-IsAdmitted_example =
    enter_opened-IsAdmitted "abc" 800 new_guest "s2" "10.0.0.9" none one_room after_entry 2 "s2"
      one_room-IsSound let_in_guest
