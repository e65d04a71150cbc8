-- ===== src/DataRoom/Tables.antt =====
-- The tables of lib/data-room.ts, with the deletions that their foreign keys cascade.
use conductor_dashboard.Common.{
  ℕ, String, Bool, true, false, not, Option, none, some, Rows, ◌==◌, if◌then◌else◌, row_has,
  text_truthy,
}

-- `branding` is the JSON of the column.
pub record DataRoom : Type 0 where
  pub workspace_id : ℕ
  pub name : String
  pub slug : String
  pub status : String
  pub branding : String
  pub updated_at : ℕ

pub record DataRoomDocument : Type 0 where
  pub room_id : ℕ
  pub folder : String
  pub filename : String
  pub original_name : String
  pub mime_type : String
  pub file_size : ℕ
  pub sort_order : ℕ
  pub allow_download : Bool
  pub updated_at : ℕ

pub record DataRoomLink : Type 0 where
  pub room_id : ℕ
  pub token : String
  pub name : String
  pub is_active : Bool
  pub passcode : Option String
  pub allow_download : Bool
  pub expires_at : Option ℕ
  pub updated_at : ℕ

pub record DataRoomVisitor : Type 0 where
  pub link_id : ℕ
  pub room_id : ℕ
  pub email : String
  pub name : String
  pub company : String
  pub session_token : String
  pub ip_address : Option String
  pub user_agent : Option String

pub data EventType : Type 0 where
  doc_viewed doc_downloaded page_viewed : EventType

pub record DataRoomEvent : Type 0 where
  pub visitor_id : ℕ
  pub room_id : ℕ
  pub document_id : Option ℕ
  pub event_type : EventType
  pub page_number : Option ℕ
  pub duration_seconds : Option ℕ
  pub created_at : ℕ

-- The rows under their ids, and the ids that come next.
pub record Db : Type 0 where
  pub rooms : Rows DataRoom
  pub documents : Rows DataRoomDocument
  pub links : Rows DataRoomLink
  pub visitors : Rows DataRoomVisitor
  pub events : Rows DataRoomEvent
  pub next_room : ℕ
  pub next_document : ℕ
  pub next_link : ℕ
  pub next_visitor : ℕ
  pub next_event : ℕ

-- DELETE … WHERE p
abbrev pub keep_row {ℓ} : {A : Type ℓ} → (A → Bool) → Option A → Option A
keep_row p none = none
keep_row p (some a) = if p a then none else some a

abbrev pub delete_where {ℓ} : {A : Type ℓ} → (A → Bool) → Rows A → Rows A
delete_where p t n = keep_row p (t n)

abbrev pub is_same : Option ℕ → ℕ → Bool
is_same none id = false
is_same (some i) id = i == id

-- ON DELETE CASCADE from a visitor, a link and a room, and ON DELETE SET NULL from a document.
abbrev pub visitor_of : Rows DataRoomVisitor → DataRoomEvent → Bool
visitor_of vs e = row_has (λ v. true) (vs e.visitor_id)

abbrev pub drop_orphans : Rows DataRoomVisitor → Rows DataRoomEvent → Rows DataRoomEvent
drop_orphans vs es = delete_where (λ e. not (visitor_of vs e)) es

abbrev pub still_there : Rows DataRoomDocument → Option ℕ → Option ℕ
still_there ds none = none
still_there ds (some id) = if row_has (λ d. true) (ds id) then some id else none

abbrev pub unlink : Rows DataRoomDocument → DataRoomEvent → DataRoomEvent
unlink ds e = record e { document_id = still_there ds e.document_id }

abbrev pub map_row {ℓ} : {A : Type ℓ} → (A → A) → Option A → Option A
map_row f none = none
map_row f (some a) = some (f a)

abbrev pub unlink_missing : Rows DataRoomDocument → Rows DataRoomEvent → Rows DataRoomEvent
unlink_missing ds es n = map_row (unlink ds) (es n)

-- `x || null`, `x || ''` and the like
abbrev pub null_if_empty : Option String → Option String
null_if_empty none = none
null_if_empty (some s) = if text_truthy s then some s else none

abbrev pub null_if_zero : Option ℕ → Option ℕ
null_if_zero none = none
null_if_zero (some n) = if n == 0 then none else some n
