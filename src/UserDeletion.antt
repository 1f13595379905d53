-- ===== src/UserDeletion.antt =====
-- hushline/user_deletion.py: the rows that the deletion of a user reads and writes. Rows whose only
-- columns of interest are the owner's are OwnedRow.
pub mod Events
pub mod Blocking
pub mod Delete
pub mod Redacted
mod Foreign
mod Steps
pub mod Erased
pub mod Accounts
mod Tests
use hushline.Common.{
  ℕ, Bool, true, false, ◌&&◌, ◌||◌, not, Option, none, some, List, [], ◌∷◌, ◌==◌, nat_eq, rows, any,
  if◌then◌else◌,
}
use hushline.Model.User.{User}
use hushline.Premium.Work.{StripeEvent, StripeInvoice}
use hushline.Conversation.Threads.{Participant, Message, MessageCopy}

-- hushline/model/username.py, field_definition.py, field_value.py and message.py
pub record UsernameRow : Type 0 where
  pub id : ℕ
  pub user_id : ℕ
  pub is_primary : Bool

pub record FieldDefinition : Type 0 where
  pub id : ℕ
  pub username_id : Option ℕ

pub record FieldValueRow : Type 0 where
  pub id : ℕ
  pub field_definition_id : Option ℕ
  pub message_id : Option ℕ

pub record InboxMessage : Type 0 where
  pub id : ℕ
  pub username_id : ℕ

pub record OwnedRow : Type 0 where
  pub id : ℕ
  pub user_id : ℕ

pub record Database : Type 0 where
  pub users : List User
  pub usernames : List UsernameRow
  pub field_definitions : List FieldDefinition
  pub field_values : List FieldValueRow
  pub inbox : List InboxMessage
  pub status_texts : List OwnedRow
  pub authentication_logs : List OwnedRow
  pub notification_recipients : List OwnedRow
  pub stripe_invoices : List StripeInvoice
  pub stripe_events : List StripeEvent
  pub participants : List Participant
  pub thread_messages : List Message
  pub copies : List MessageCopy

-- A DELETE is refused if a row still refers to a deleted one by a foreign key without a cascade.
abbrev pub restrict : Bool → Database → Option Database
restrict true db = none
restrict false db = some db

-- Whether a foreign key, which may be NULL, is one of the selected.
abbrev pub is_selected : (ℕ → Bool) → Option ℕ → Bool
is_selected p none = false
is_selected p (some id) = p id

-- `id IN (SELECT id FROM usernames WHERE p)`, and likewise of the other tables
abbrev pub is_username : (UsernameRow → Bool) → List UsernameRow → ℕ → Bool
is_username p names id = any (λ n. p n && n.id == id) names

abbrev pub is_definition : (ℕ → Bool) → List FieldDefinition → ℕ → Bool
is_definition p ds id = any (λ (d : FieldDefinition). is_selected p d.username_id && d.id == id) ds

abbrev pub is_inbox_message : (ℕ → Bool) → List InboxMessage → ℕ → Bool
is_inbox_message p ms id = any (λ (m : InboxMessage). p m.username_id && m.id == id) ms

-- What a statement `DELETE` leaves.
abbrev pub without {ℓ} : {A : Type ℓ} → (A → Bool) → List A → List A
without p xs = rows (λ x. not (p x)) xs

-- Deletions of rows below the usernames `p`.
abbrev pub delete_field_values : (ℕ → Bool) → Database → Database
delete_field_values p db = record db {
  field_values =
      without
        (λ (v : FieldValueRow).
          is_selected (is_definition p db.field_definitions) v.field_definition_id)
        db.field_values;
}

abbrev pub delete_field_definitions : (ℕ → Bool) → Database → Option Database
delete_field_definitions p db =
    restrict
      (any
        (λ (v : FieldValueRow).
          is_selected (is_definition p db.field_definitions) v.field_definition_id)
        db.field_values)
      (record db {
        field_definitions =
            without (λ (d : FieldDefinition). is_selected p d.username_id) db.field_definitions;
      })

-- The field values of a message are deleted with it.
abbrev pub delete_messages : (ℕ → Bool) → Database → Database
delete_messages p db = record db {
  inbox = without (λ (m : InboxMessage). p m.username_id) db.inbox;
  field_values =
      without (λ (v : FieldValueRow). is_selected (is_inbox_message p db.inbox) v.message_id)
        db.field_values;
}

abbrev pub delete_usernames : (UsernameRow → Bool) → Database → Option Database
delete_usernames p db =
    restrict
      (any (λ (d : FieldDefinition). is_selected (is_username p db.usernames) d.username_id)
          db.field_definitions
        || any (λ (m : InboxMessage). is_username p db.usernames m.username_id) db.inbox)
      (record db { usernames = without p db.usernames })

-- The participants of a deleted user are deleted with it, with what they sent and the copies for
-- them.
abbrev pub is_participant : (ℕ → Bool) → List Participant → ℕ → Bool
is_participant p qs id = any (λ (q : Participant). p q.user_id && q.id == id) qs

abbrev pub is_thread_message : (ℕ → Bool) → List Message → ℕ → Bool
is_thread_message p ms id = any (λ (m : Message). p m.sender_participant_id && m.id == id) ms

abbrev pub forget : (ℕ → Bool) → Participant → Participant
forget p q =
    if is_selected p q.last_read_message_id then record q { last_read_message_id = none } else q

abbrev pub forget_all : (ℕ → Bool) → List Participant → List Participant
forget_all p [] = []
forget_all p (q ∷ qs) = forget p q ∷ forget_all p qs

abbrev pub delete_participants : (ℕ → Bool) → Database → Database
delete_participants p db =
    let gone = is_participant p db.participants in
    let lost = is_thread_message gone db.thread_messages in
    record db {
      participants = forget_all lost (without (λ (q : Participant). p q.user_id) db.participants);
      thread_messages = without (λ (m : Message). gone m.sender_participant_id) db.thread_messages;
      copies =
          without
            (λ (k : MessageCopy). lost k.conversation_message_id || gone k.recipient_participant_id)
            db.copies;
    }

-- `db.session.delete(user)`: the row is deleted with its chat keys and reset tokens, which it holds
-- here, and its notification recipients.
abbrev pub delete_user_row : ℕ → Database → Option Database
delete_user_row id db =
    restrict
      (any (λ (n : UsernameRow). n.user_id == id) db.usernames
        || any (λ (r : OwnedRow). r.user_id == id) db.status_texts
        || any (λ (r : OwnedRow). r.user_id == id) db.authentication_logs
        || any (λ (r : StripeInvoice). r.user_id == id) db.stripe_invoices)
      (record (delete_participants (λ i. i == id) db) {
        users = without (λ (u : User). u.id == id) db.users;
        notification_recipients =
            without (λ (r : OwnedRow). r.user_id == id) db.notification_recipients;
      })
