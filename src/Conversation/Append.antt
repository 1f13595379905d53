-- ===== src/Conversation/Append.antt =====
-- hushline/routes/message.py: `append_conversation_message`.
pub mod Copies
pub mod Sealed
pub mod Tests
use hushline.Common.{
  ℕ, suc, Bool, true, false, not, ◌&&◌, Option, none, some, List, [], ◌∷◌, ◌++◌, String,
  if◌then◌else◌, ◌==◌, nat_eq, string_eq, rows, any, all, length, Found, absent, one, multiple,
}
use hushline.Model.ChatKey.{ChatKey}
use hushline.Model.User.{User, get_user, active_chat_key}
use hushline.Auth.Store.{Response, page, server_error}
use hushline.Conversation.RateLimit.{Settings, Sender, consume_rate_limit}
use hushline.Conversation.Threads.{
  Conversation, Participant, Message, MessageCopy, Tables, is_of, is_present, find_thread,
  participant_for_user_id, put_participant, mark_active,
}
use hushline.Conversation.Envelope.{
  Json, object, text, Fields, no_fields, field, Library, get, lookup, str_id, is_envelope, is_bound,
}
use hushline.Conversation.Signature.{is_signed}

-- What the request and the database bring along: the clock, the ids of the new rows, the users, and
-- the JSON body, which is an object or not. A decoded object has no key twice.
pub record Post : Type 0 where
  pub now : ℕ
  pub csrf_ok : Bool
  pub message_id : ℕ
  pub copy_id : ℕ
  pub payload : Option Json

abbrev pub participants_of : ℕ → Tables → List Participant
participants_of thread db = rows (is_of thread) db.participants

-- `user.chat_public_signing_key`
abbrev key_of : Option ChatKey → Option String
key_of none = none
key_of (some k) = some k.material.public_signing_key

abbrev pub signing_key : Option User → Option String
signing_key none = none
signing_key (some u) = key_of (active_chat_key u)

abbrev has_keys : Option ChatKey → Bool
has_keys none = false
has_keys (some k) = not (k.material.public_key == "") && not (k.material.public_signing_key == "")

-- `_participant_can_sign_replies`
abbrev can_sign : Option User → Bool
can_sign none = false
can_sign (some u) = has_keys (active_chat_key u)

-- `_conversation_reply_capable_participant_ids`; ids are a primary key, so no text comes twice.
abbrev is_capable : List User → Participant → Bool
is_capable users p = is_present p && can_sign (get_user p.user_id users)

abbrev ids : Library → List Participant → List String
ids lib [] = []
ids lib (p ∷ ps) = str_id lib p.id ∷ ids lib ps

abbrev keys : Fields → List String
keys no_fields = []
keys (field k v rest) = k ∷ keys rest

abbrev same_set : List String → List String → Bool
same_set xs ys = all (λ x. any (λ y. y == x) ys) xs && all (λ y. any (λ x. x == y) xs) ys

abbrev pub all_items : (String → Json → Bool) → Fields → Bool
all_items check no_fields = true
all_items check (field k v rest) = check k v && all_items check rest

-- Every check of the body, all of which answer 400.
abbrev is_available : List User → List Participant → Participant → Bool
is_available users members p =
    length (rows is_present members) == length members
    && (length (rows (is_capable users) members) == length members
        && can_sign (get_user p.user_id users))

abbrev pub is_acceptable : Library → List User → Conversation → Participant → Tables → Fields → Bool
is_acceptable lib users c p db copies =
    let members = participants_of c.id db in
    is_available users members p
    && (same_set (keys copies) (ids lib (rows (is_capable users) members))
        && (all_items (λ k v. is_envelope lib v) copies
            && (all_items (λ k v. is_bound lib c.id c.public_id p.id k v) copies
                && all_items (λ k v. is_signed lib (signing_key (get_user p.user_id users)) v)
                    copies)))

-- The rows for the recipients; `none` is the KeyError of a missing one.
abbrev with_copy :
    Post → Participant → Option Json → Option (List MessageCopy) → Option (List MessageCopy)
with_copy post p (some (text s)) (some rest) = some (
    record {
      id = post.copy_id;
      conversation_message_id = post.message_id;
      recipient_participant_id = p.id;
      encrypted_payload = s;
    }
    ∷ rest)
with_copy post p _ _ = none

abbrev next_copy : Post → Post
next_copy post = record post { copy_id = suc post.copy_id }

abbrev pub new_copies : Library → Post → Fields → List Participant → Option (List MessageCopy)
new_copies lib post copies [] = some []
new_copies lib post copies (p ∷ ps) =
    with_copy post p (lookup (str_id lib p.id) copies) (new_copies lib (next_copy post) copies ps)

abbrev pub sender_of : Post → Conversation → Participant → ℕ → Sender
sender_of post c p user = record { thread = c.id; participant = p.id; user = user; now = post.now }

abbrev new_message : Post → Conversation → Participant → Message
new_message post c p = record {
  id = post.message_id;
  conversation_id = c.id;
  sender_participant_id = p.id;
  created_at = post.now;
}

abbrev store_copies :
    Settings
    → Post
    → Conversation
    → Participant
    → ℕ
    → Tables
    → Option (List MessageCopy)
    → Response × Tables
store_copies s post c p user db none = (server_error, db)
store_copies s post c p user db (some copies) = (
  page 201,
  record db {
    messages = new_message post c p ∷ db.messages;
    copies = copies ++ db.copies;
    participants = put_participant (mark_active post.now p) db.participants;
    attempts = (consume_rate_limit s (sender_of post c p user) db.attempts).1;
  },
)

abbrev append_copies :
    Settings
    → Library
    → List User
    → Post
    → Conversation
    → Participant
    → ℕ
    → Tables
    → Fields
    → Response × Tables
append_copies s lib users post c p user db copies =
    if is_acceptable lib users c p db copies
    then (if (consume_rate_limit s (sender_of post c p user) db.attempts).0
        then (page 429, db)
        else store_copies s post c p user db (new_copies lib post copies (participants_of c.id db)))
    else (page 400, db)

abbrev append_json :
    Settings
    → Library
    → List User
    → Post
    → Conversation
    → Participant
    → ℕ
    → Tables
    → Json
    → Response × Tables
append_json s lib users post c p user db (object copies) =
    append_copies s lib users post c p user db copies
append_json s lib users post c p user db _ = (page 400, db)

abbrev append_payload :
    Settings
    → Library
    → List User
    → Post
    → Conversation
    → Participant
    → ℕ
    → Tables
    → Option Json
    → Response × Tables
append_payload s lib users post c p user db (some (object body)) =
    append_json s lib users post c p user db (get "encrypted_copies" body)
append_payload s lib users post c p user db _ = (page 400, db)

abbrev append_of :
    Settings
    → Library
    → List User
    → Post
    → Conversation
    → ℕ
    → Tables
    → Option Participant
    → Response × Tables
append_of s lib users post c user db none = (page 404, db)
append_of s lib users post c user db (some p) =
    if post.csrf_ok
    then append_payload s lib users post c p user db post.payload
    else (page 400, db)

abbrev append_in :
    Settings → Library → List User → Post → ℕ → Tables → Found Conversation → Response × Tables
append_in s lib users post user db absent = (page 404, db)
append_in s lib users post user db multiple = (server_error, db)
append_in s lib users post user db (one c) =
    append_of s lib users post c user db (participant_for_user_id c.id user db)

-- For the user that the guard let through. A refused message leaves the tables as they were, since
-- nothing is committed; the notifications follow the commit.
unfoldable pub handle_append :
    Settings → Library → List User → Post → ℕ → String → Tables → Response × Tables
handle_append s lib users post user public_id db =
    append_in s lib users post user db (find_thread user public_id db)
