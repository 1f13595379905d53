-- ===== src/Conversation/Delete.antt =====
-- hushline/routes/message.py: `delete_conversation`.
pub mod Members
pub mod Copies
pub mod Erased
use hushline.Common.{
  ℕ, Bool, true, false, ◌&&◌, ◌||◌, not, Option, none, some, List, [], ◌∷◌, String, if◌then◌else◌,
  ◌==◌, nat_eq, string_eq, option_eq, rows, first, any, all, Found, absent, one, multiple,
}
use hushline.Auth.Store.{Response, redirect, page, server_error, inbox}
use hushline.Conversation.RateLimit.{Attempt}
use hushline.Conversation.Threads.{
  Conversation, Participant, Message, MessageCopy, FieldValue, InitialMessage, Tables, is_of,
  is_present, find_thread, participant_for_user_id, put_participant, latest_message,
}

abbrev chat_only_placeholder : String
chat_only_placeholder = "Stored in encrypted conversation."

-- `_message_is_chat_only_placeholder`
abbrev is_some_field : List FieldValue → Bool
is_some_field [] = false
is_some_field (f ∷ fs) = true

abbrev pub is_placeholder : InitialMessage → Bool
is_placeholder m =
    is_some_field m.field_values
    && all (λ (f : FieldValue). not f.encrypted && f.value == some chat_only_placeholder)
        m.field_values

abbrev pub starts : ℕ → InitialMessage → Bool
starts thread m = m.conversation_id == some thread

-- `initial_message.conversation = None`, unless the message is a placeholder.
abbrev detach : ℕ → List InitialMessage → List InitialMessage
detach thread [] = []
detach thread (m ∷ ms) =
    (if starts thread m && not (is_placeholder m) then record m { conversation_id = none } else m)
    ∷ detach thread ms

-- The row of the participant that leaves.
abbrev pub left : ℕ → Option Message → Participant → Participant
left now none p = record p {
  deleted_at = some now;
  last_read_at = some now;
  last_read_message_id = none;
}
left now (some m) p = record p {
  deleted_at = some now;
  last_read_at = some now;
  last_read_message_id = some m.id;
}

-- The copies that the two DELETE statements take: of what the participant sent, and those made for
-- the participant.
abbrev pub is_sent_by : ℕ → List Message → MessageCopy → Bool
is_sent_by participant messages k =
    any
      (λ (m : Message). m.sender_participant_id == participant && m.id == k.conversation_message_id)
      messages

abbrev pub is_erased : ℕ → List Message → MessageCopy → Bool
is_erased participant messages k =
    is_sent_by participant messages k || k.recipient_participant_id == participant

-- Deleting the conversation takes along what its foreign keys cascade to. Its initial message can
-- only be a placeholder by now, which is deleted as well.
abbrev pub outlives : ℕ → Tables → MessageCopy → Bool
outlives thread db k = not (
    any (λ (m : Message). m.conversation_id == thread && m.id == k.conversation_message_id)
      db.messages
    || any (λ p. is_of thread p && p.id == k.recipient_participant_id) db.participants)

abbrev pub drop_thread : ℕ → Tables → Tables
drop_thread thread db = record {
  conversations = rows (λ (c : Conversation). not (c.id == thread)) db.conversations;
  participants = rows (λ p. not (is_of thread p)) db.participants;
  messages = rows (λ (m : Message). not (m.conversation_id == thread)) db.messages;
  copies = rows (outlives thread db) db.copies;
  initial_messages = rows (λ m. not (starts thread m)) db.initial_messages;
  attempts = rows (λ (a : Attempt). not (a.conversation_id == thread)) db.attempts;
}

abbrev pub leave : ℕ → ℕ → Participant → Tables → Tables
leave now thread p db = record db {
  participants =
      put_participant
        (left now (latest_message (rows (λ (m : Message). m.conversation_id == thread) db.messages))
          p)
        db.participants;
  copies = rows (λ k. not (is_erased p.id db.messages k)) db.copies;
  initial_messages = detach thread db.initial_messages;
}

abbrev pub is_inhabited : ℕ → Tables → Bool
is_inhabited thread db = any (λ p. is_of thread p && is_present p) db.participants

abbrev pub delete_for : ℕ → ℕ → Participant → Tables → Tables
delete_for now thread p db =
    let after = leave now thread p db in
    if is_inhabited thread after then after else drop_thread thread after

abbrev delete_of : ℕ → Bool → ℕ → Tables → Option Participant → Response × Tables
delete_of now form_valid thread db none = (page 404, db)
delete_of now form_valid thread db (some p) =
    if form_valid then (redirect inbox, delete_for now thread p db) else (page 400, db)

abbrev delete_in : ℕ → Bool → ℕ → Tables → Found Conversation → Response × Tables
delete_in now form_valid user db absent = (page 404, db)
delete_in now form_valid user db multiple = (server_error, db)
delete_in now form_valid user db (one c) =
    delete_of now form_valid c.id db (participant_for_user_id c.id user db)

-- For the user that the guard let through.
unfoldable pub handle_delete_conversation : ℕ → Bool → ℕ → String → Tables → Response × Tables
handle_delete_conversation now form_valid user public_id db =
    delete_in now form_valid user db (find_thread user public_id db)
