-- ===== src/Store/Chat.antt =====
-- The chat of the client: messages, oldest first and at most 500, and conversations. A message that
-- waits for the server has a negative id; `now` is Math.floor(Date.now() / 1000).
use Prim.Native.Nat.{◌-◌}
use conductor_dashboard.Common.{
  ℕ, zero, suc, String, Bool, true, false, not, ◌&&◌, Option, some, List, [], ◌∷◌, ◌++◌, length,
  drop, any, filter, update_where, ◌==◌, str_eq, if◌then◌else◌,
}
use conductor_dashboard.Store.Notifications.{falsy}

pub data ℤ : Type 0 where
  pos : ℕ → ℤ
  negsuc : ℕ → ℤ

abbrev pub same : ℤ → ℤ → Bool
same (pos m) (pos n) = m == n
same (negsuc m) (negsuc n) = m == n
same (pos m) (negsuc n) = false
same (negsuc m) (pos n) = false

-- `id > 0`
abbrev pub positive : ℤ → Bool
positive (pos zero) = false
positive (pos (suc n)) = true
positive (negsuc n) = false

pub data PendingStatus : Type 0 where
  sending sent failed : PendingStatus

pub record ChatMessage : Type 0 where
  pub id : ℤ
  pub conversation_id : String
  pub from_agent : String
  pub to_agent : Option String
  pub content : String
  pub read_at : Option ℕ
  pub created_at : ℕ
  pub pending_status : Option PendingStatus

pub record Conversation : Type 0 where
  pub id : String
  pub last_message : Option ChatMessage
  pub unread_count : ℕ
  pub updated_at : ℕ

pub record Chat : Type 0 where
  pub messages : List ChatMessage
  pub conversations : List Conversation

-- slice(-500)
abbrev pub last_500 : List ChatMessage → List ChatMessage
last_500 ms = drop (length ms - 500) ms

abbrev pub is_message : ℤ → ChatMessage → Bool
is_message id m = same m.id id

unfoldable pub set_chat_messages : List ChatMessage → Chat → Chat
set_chat_messages ms c = record c { messages = last_500 ms }

unfoldable pub touch_conversation : ChatMessage → Conversation → Conversation
touch_conversation m conv = record conv { last_message = some m; updated_at = m.created_at }

unfoldable pub add_chat_message : ChatMessage → Chat → Chat
add_chat_message m c = if positive m.id && any (is_message m.id) c.messages then c else record {
  messages = last_500 (c.messages ++ m ∷ []);
  conversations =
      update_where (λ conv. str_eq conv.id m.conversation_id) (touch_conversation m)
        c.conversations;
}

unfoldable pub replace_pending_message : ℤ → ChatMessage → Chat → Chat
replace_pending_message temp m c = record c {
  messages =
      update_where (is_message temp) (λ old. record m { pending_status = some sent }) c.messages;
}

unfoldable pub update_pending_message : ℤ → (ChatMessage → ChatMessage) → Chat → Chat
update_pending_message temp updates c = record c {
  messages = update_where (is_message temp) updates c.messages;
}

unfoldable pub remove_pending_message : ℤ → Chat → Chat
remove_pending_message temp c = record c {
  messages = filter (λ m. not (is_message temp m)) c.messages;
}

abbrev pub is_unread_in : String → ChatMessage → Bool
is_unread_in id m = str_eq m.conversation_id id && falsy m.read_at

unfoldable pub mark_conversation_read : ℕ → String → Chat → Chat
mark_conversation_read now id c = record {
  messages = update_where (is_unread_in id) (λ m. record m { read_at = some now }) c.messages;
  conversations =
      update_where (λ conv. str_eq conv.id id) (λ conv. record conv { unread_count = 0 })
        c.conversations;
}
