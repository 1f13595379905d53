-- ===== src/Conversation/Threads.antt =====
-- hushline/model/conversation.py, and in hushline/routes/message.py what finds a conversation and
-- marks a participant as present (`conversation_presence`). Times are in microseconds.
use hushline.Common.{
  ℕ, ◌+◌, ◌*◌, Bool, false, ◌&&◌, ◌||◌, Option, none, some, List, [], ◌∷◌, String, if◌then◌else◌,
  ◌==◌, nat_eq, string_eq, option_eq, leb, ltb, first, any, max, ℤ, pos, negsuc, is_none, Found,
  absent, one, multiple, one_or_none,
}
use hushline.Conversation.RateLimit.{Attempt, Setting, rate_limit_config}
use hushline.Auth.Store.{Response, page, server_error}

pub record Conversation : Type 0 where
  pub id : ℕ
  pub public_id : String

pub record Participant : Type 0 where
  pub id : ℕ
  pub conversation_id : ℕ
  pub user_id : ℕ
  pub last_read_at : Option ℕ
  pub last_read_message_id : Option ℕ
  pub last_active_at : Option ℕ
  pub deleted_at : Option ℕ

pub record Message : Type 0 where
  pub id : ℕ
  pub conversation_id : ℕ
  pub sender_participant_id : ℕ
  pub created_at : ℕ

pub record MessageCopy : Type 0 where
  pub id : ℕ
  pub conversation_message_id : ℕ
  pub recipient_participant_id : ℕ
  pub encrypted_payload : String

-- A row of `field_values`, and the message of the inbox that a conversation began with.
pub record FieldValue : Type 0 where
  pub encrypted : Bool
  pub value : Option String

pub record InitialMessage : Type 0 where
  pub id : ℕ
  pub conversation_id : Option ℕ
  pub field_values : List FieldValue

pub record Tables : Type 0 where
  pub conversations : List Conversation
  pub participants : List Participant
  pub messages : List Message
  pub copies : List MessageCopy
  pub initial_messages : List InitialMessage
  pub attempts : List Attempt

abbrev pub is_of : ℕ → Participant → Bool
is_of thread p = p.conversation_id == thread

abbrev pub is_present : Participant → Bool
is_present p = is_none p.deleted_at

-- `Conversation.for_user_id(user).where(public_id == …)`
abbrev pub is_visible : ℕ → Tables → Conversation → Bool
is_visible user db c =
    any (λ p. is_of c.id p && (p.user_id == user && is_present p)) db.participants

abbrev pub find_thread : ℕ → String → Tables → Found Conversation
find_thread user public_id db =
    one_or_none (λ c. c.public_id == public_id && is_visible user db c) db.conversations

-- `participant_for_user_id`
abbrev pub participant_for_user_id : ℕ → ℕ → Tables → Option Participant
participant_for_user_id thread user db =
    first (λ p. is_of thread p && p.user_id == user) db.participants

abbrev pub put_participant : Participant → List Participant → List Participant
put_participant p [] = []
put_participant p (q ∷ qs) = (if q.id == p.id then p else q) ∷ put_participant p qs

abbrev later_message : Message → Option Message → Message
later_message m none = m
later_message m (some n) =
    if ltb m.created_at n.created_at || (m.created_at == n.created_at && ltb m.id n.id)
    then n
    else m

-- `_conversation_latest_message`
abbrev pub latest_message : List Message → Option Message
latest_message [] = none
latest_message (m ∷ ms) = some (later_message m (latest_message ms))

-- `_mark_conversation_participant_active`
abbrev pub mark_active : ℕ → Participant → Participant
mark_active now p = record p { last_active_at = some now }

abbrev second : ℕ
second = 1000000

-- `_conversation_activity_timeout`, from the setting CONVERSATION_ACTIVITY_TIMEOUT_SECONDS
abbrev at_least_one : ℤ → ℕ
at_least_one (pos n) = max 1 n
at_least_one (negsuc n) = 1

abbrev pub activity_timeout : Setting → ℕ
activity_timeout s = at_least_one (rate_limit_config s (pos 120)) * second

-- `_conversation_participant_is_active`
abbrev is_since : ℕ → ℕ → Option ℕ → Bool
is_since timeout now none = false
is_since timeout now (some t) = leb now (t + timeout)

unfoldable pub is_active : Setting → ℕ → Participant → Bool
is_active s now p = is_since (activity_timeout s) now p.last_active_at

-- `_user_has_active_conversation_session`
unfoldable pub has_active_session : Setting → ℕ → ℕ → Tables → Bool
has_active_session s now user db = any (λ p. p.user_id == user && is_active s now p) db.participants

-- The body of `conversation_presence` for the user that the guard let through.
abbrev presence_of : ℕ → Bool → Tables → Option Participant → Response × Tables
presence_of now csrf_ok db none = (page 404, db)
presence_of now csrf_ok db (some p) =
    if csrf_ok
    then (
      page 200,
      record db { participants = put_participant (mark_active now p) db.participants },
    )
    else (page 400, db)

abbrev presence_in : ℕ → Bool → ℕ → Tables → Found Conversation → Response × Tables
presence_in now csrf_ok user db absent = (page 404, db)
presence_in now csrf_ok user db multiple = (server_error, db)
presence_in now csrf_ok user db (one c) =
    presence_of now csrf_ok db (participant_for_user_id c.id user db)

unfoldable pub handle_presence : ℕ → Bool → ℕ → String → Tables → Response × Tables
handle_presence now csrf_ok user public_id db =
    presence_in now csrf_ok user db (find_thread user public_id db)
