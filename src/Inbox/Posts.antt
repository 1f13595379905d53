-- ===== src/Inbox/Posts.antt =====
-- hushline/routes/message.py and hushline/settings/replies.py: the requests that change what is stored
-- of the messages and the answers, and a user's part of it.
use hushline.Common.{
  ℕ, ◌≡◌, false, Option, none, some, List, [], ◌∷◌, String, ◌==◌, nat_eq, string_eq, rows, All,
  option_eq,
}
use hushline.UserDeletion.{FieldValueRow}
use hushline.Inbox.{
  MessageStatus, StatusText, StoredMessage, Mailbox, is_own, handle_delete_message,
  handle_set_message_status,
}
use hushline.Inbox.Replies.{handle_replies}

-- A POST of a user at a time: to /message/…/delete, /message/…/status or /settings/replies.
pub data Post : Type 0 where
  delete : ℕ → String → Post
  set_status : ℕ → ℕ → String → Option MessageStatus → Post
  reply : ℕ → Option (MessageStatus × Option String) → Post

abbrev pub sender : Post → ℕ
sender (delete user _) = user
sender (set_status _ user _ _) = user
sender (reply user _) = user

-- What is stored afterwards; a transaction that fails is rolled back.
abbrev pub kept : Mailbox → Option Mailbox → Mailbox
kept box none = box
kept box (some after) = after

unfoldable pub perform : Post → Mailbox → Mailbox
perform (delete user public_id) box = (handle_delete_message user public_id box).1
perform (set_status now user public_id status) box =
    (handle_set_message_status now user public_id status box).1
perform (reply user form) box = kept box (handle_replies user form box)

unfoldable pub perform_each : List Post → Mailbox → Mailbox
perform_each [] box = box
perform_each (p ∷ ps) box = perform_each ps (perform p box)

-- The messages' primary key.
abbrev pub HaveIds : List StoredMessage → Type 0
HaveIds [] = Unit
HaveIds (m ∷ ms) = All (λ (k : StoredMessage). (k.id == m.id) ≡ false) ms × HaveIds ms

-- A user's part of what is stored.
unfoldable pub messages_of : ℕ → Mailbox → List StoredMessage
messages_of user box = rows (is_own user box.usernames) box.messages

unfoldable pub answers_of : ℕ → Mailbox → List StatusText
answers_of user box = rows (λ (t : StatusText). t.user_id == user) box.status_texts

-- The values of the fields of a message.
unfoldable pub values_of : ℕ → Mailbox → List FieldValueRow
values_of id box = rows (λ (v : FieldValueRow). v.message_id == some id) box.field_values
