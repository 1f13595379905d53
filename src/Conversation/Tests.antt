-- ===== src/Conversation/Tests.antt =====
-- The theorems on hushline/routes/message.py at concrete rows.
use hushline.Common.{
  All, ℕ, pos, ◌≡◌, refl, ◌⊎◌, ◌↔◌, ◌≤◌, true, false, none, some, [], ◌∷◌, arith, one, count, ◌*◌,
}
use hushline.Auth.Store.{redirect, inbox}
use hushline.Conversation.RateLimit.{
  Settings, unset, number, Sender, recent, is_limited, by_participant, in_conversation, by_user,
  participant_window, conversation_window, user_window, participant_max, conversation_max, user_max,
  consume_rate_limit,
}
use hushline.Conversation.RateLimit.Bounds.{
  IsBounded, consume_all, last, consume_all-IsBounded, consume_rate_limit_iff,
}
use hushline.Conversation.Threads.{
  Conversation, Participant, Message, MessageCopy, Tables, is_visible, find_thread,
  participant_for_user_id,
}
use hushline.Conversation.Delete.{handle_delete_conversation}
use hushline.Conversation.Delete.Members.{is_member, IsConstrained}
use hushline.Conversation.Delete.Erased.{Remains, handle_delete_conversation-erases}
use hushline.Conversation.Delete.Copies.{IsOwn}

-- A participant may send one message a minute.
abbrev settings : Settings
settings = record {
  participant_window = unset;
  conversation_window = unset;
  user_window = unset;
  participant_max = number (pos 1);
  conversation_max = unset;
  user_max = unset;
}

abbrev at : ℕ → Sender
at t = record { thread = 4; participant = 8; user = 7; now = t * 1000000 }

empty-IsBounded : IsBounded settings 0 []
empty-IsBounded = record { participant = λ q t. refl; conversation = λ t. refl; user = λ u. refl }

-- The second message of a minute is refused, the one after the minute passes.
limit_example :
    ((consume_rate_limit settings (at 70) (consume_all settings (at 5 ∷ at 6 ∷ []) [])).0 ≡ false)
    × ((consume_rate_limit settings (at 6) (consume_all settings (at 5 ∷ []) [])).0 ≡ true)
unfolding consume_rate_limit
limit_example = (refl, refl)

consume_all-IsBounded_example :
    IsBounded settings
      (last 0 (at 5 ∷ at 6 ∷ at 70 ∷ []))
      (consume_all settings (at 5 ∷ at 6 ∷ at 70 ∷ []) [])
consume_all-IsBounded_example =
    consume_all-IsBounded settings 0 (at 5 ∷ at 6 ∷ at 70 ∷ []) []
      (omega arith, (omega arith, (omega arith, tt))) empty-IsBounded

full_bucket_limits : ((consume_rate_limit settings (at 5) []).0 ≡ true) ↔ (
    (is_limited
        (participant_max settings)
        (recent (by_participant 8 4) (participant_window settings) 5000000 [])
      ≡ true)
    ⊎ (is_limited
          (conversation_max settings)
          (recent (in_conversation 4) (conversation_window settings) 5000000 [])
        ≡ true)
    ⊎ (is_limited (user_max settings) (recent (by_user 7) (user_window settings) 5000000 [])
        ≡ true))
full_bucket_limits = consume_rate_limit_iff settings (at 5) []

abbrev thread : Conversation
thread = record { id = 4; public_id = "c-4" }

abbrev member : ℕ → ℕ → Participant
member p u = record {
  id = p;
  conversation_id = 4;
  user_id = u;
  last_read_at = none;
  last_read_message_id = none;
  last_active_at = none;
  deleted_at = none;
}

abbrev sent : Message
sent = record { id = 1; conversation_id = 4; sender_participant_id = 8; created_at = 2 }

abbrev copy : ℕ → ℕ → MessageCopy
copy i p = record {
  id = i;
  conversation_message_id = 1;
  recipient_participant_id = p;
  encrypted_payload = "sealed";
}

abbrev db : Tables
db = record {
  conversations = thread ∷ [];
  participants = member 8 7 ∷ member 9 6 ∷ [];
  messages = sent ∷ [];
  copies = copy 1 8 ∷ copy 2 9 ∷ [];
  initial_messages = [];
  attempts = [];
}

one_of : (t u : ℕ) → count (is_member t u) db.participants ≤ 1
one_of t u = ground arith

db-IsConstrained : IsConstrained db
db-IsConstrained = record { keyed = ((omega arith, tt), (tt, tt)); one_each = one_of }

abbrev after : Tables
after = (handle_delete_conversation 5 true 7 "c-4" db).1

deleted : handle_delete_conversation 5 true 7 "c-4" db ≡ (redirect inbox, after)
unfolding handle_delete_conversation
deleted = refl

handle_delete_conversation-erases_example :
    (c : Conversation) × (p : Participant) × (find_thread 7 "c-4" db ≡ one c)
    × (participant_for_user_id c.id 7 db ≡ some p)
    × (is_visible 7 after c ≡ false)
    × ((v : ℕ) (d : Conversation) → (v ≡ 7) ⊎ (is_visible v after d ≡ is_visible v db d))
    × All (λ k. ¬ (IsOwn p.id db.messages k)) after.copies
    × Remains c p db after
handle_delete_conversation-erases_example =
    handle_delete_conversation-erases 5 7 true "c-4" db after db-IsConstrained deleted
