-- ===== src/Store/Tests.antt =====
-- The store's actions on small inputs, and the theorems at such inputs.
use mathlib.Core.Option
use conductor_dashboard.Common.{◌≡◌, refl, none, some, [], ◌∷◌, arith, map}
use conductor_dashboard.Task.{inbox, assigned}
use conductor_dashboard.Store.Selection.{BoardTask, Selection, task_id, update_task, delete_task}
use conductor_dashboard.Store.Mirror.{act-Mirrors, Mirrors, act, change}
use conductor_dashboard.Store.Notifications.{Notification, Inbox}
use conductor_dashboard.Store.Unread.{unread_in, IsExact, act-IsExact, mark_notification_read-drift}
use conductor_dashboard.Store.Unread
use conductor_dashboard.Store.Logs.{LogEntry, info, add_log}
use conductor_dashboard.Store.Chat.{pos, negsuc, ChatMessage, Chat, sending}
use conductor_dashboard.Store.Messages.{IsChat, count, act-IsChat, replace_pending_message-twice}
use conductor_dashboard.Store.Messages
use conductor_dashboard.Store.Panels.{TokenUsage, all, get_usage_by_model}

abbrev task : BoardTask
task = record {
  id = 3;
  title = "Ship";
  description = none;
  status = inbox;
  assigned_to = none;
  created_by = "ann";
  updated_at = 10;
}

abbrev board : Selection BoardTask
board = record { items = task ∷ []; selected = some task }

abbrev assign : BoardTask → BoardTask
assign t = record t { status = assigned; assigned_to = some "bob" }

gone : (delete_task 3 board).selected ≡ none
unfolding delete_task
gone = refl

updated : Option.map (λ t. t.status) (update_task 3 assign board).selected ≡ some assigned
unfolding update_task
updated = refl

board-Mirrors : Mirrors task_id board
board-Mirrors a h = ground (arith)

act-Mirrors_example : Mirrors task_id (act task_id (change 3 assign) board)
act-Mirrors_example = act-Mirrors task_id (change 3 assign) board (λ a. refl) board-Mirrors

abbrev note : Notification
note = record {
  id = 1;
  recipient = "ann";
  title = "hi";
  message = "hello";
  read_at = none;
  created_at = 5;
}

abbrev box : Inbox
box = record { notifications = note ∷ record note { id = 2 } ∷ []; unread_count = 2 }

act-IsExact_example : IsExact (Unread.act 9 (Unread.mark 2) box)
act-IsExact_example =
    act-IsExact 9 (Unread.mark 2) box (omega arith)
      (((λ h. omega (arith, h), tt), (tt, tt)), (record note { id = 2 }, refl, refl)) refl

abbrev line : LogEntry
line = record { id = "a"; timestamp = 1; level = info; source = "gateway"; message = "up" }

one_line :
    map (λ l. l.message) (add_log (record line { message = "down" }) (line ∷ [])) ≡ "down" ∷ []
unfolding add_log
one_line = refl

abbrev pending : ChatMessage
pending = record {
  id = negsuc 0;
  conversation_id = "agent_bob";
  from_agent = "human";
  to_agent = some "bob";
  content = "hello";
  read_at = none;
  created_at = 7;
  pending_status = some sending;
}

abbrev stored : ChatMessage
stored = record pending { id = pos 12; pending_status = none }

abbrev no_chat : Chat
no_chat = record { messages = []; conversations = [] }

act-IsChat_example : IsChat (Messages.act (Messages.add stored) no_chat)
act-IsChat_example = act-IsChat (Messages.add stored) no_chat (omega arith, λ id h. omega arith)

abbrev used : TokenUsage
used = record { model = "opus"; session_id = "s"; date = 900; total_tokens = 40 }

usage_of_both : get_usage_by_model all 1000 (used ∷ used ∷ []) "opus" ≡ 80
unfolding get_usage_by_model
usage_of_both = refl
