-- ===== src/Inbox.antt =====
-- The messages that a user receives: hushline/model/message.py and message_status_text.py, and in
-- hushline/routes/message.py delete_message and set_message_status.
pub mod Replies
pub mod Posts
pub mod Others
pub mod Isolated
pub mod Answers
mod Tests
use hushline.Common.{
  ℕ, Bool, true, false, ◌&&◌, Option, none, some, List, [], ◌∷◌, String, if◌then◌else◌, ◌==◌,
  nat_eq, string_eq, option_eq, any, count, Found, absent, one, multiple, one_or_none,
}
use hushline.Auth.Store.{Response, redirect, redirect_to, page, server_error, inbox}
use hushline.UserDeletion.{UsernameRow, FieldValueRow, without}

-- hushline/model/enums.py
pub data MessageStatus : Type 0 where
  pending accepted declined archived : MessageStatus

pub record StoredMessage : Type 0 where
  pub id : ℕ
  pub public_id : String
  pub username_id : ℕ
  pub reply_slug : String
  pub status : MessageStatus
  pub status_changed_at : ℕ

pub record StatusText : Type 0 where
  pub user_id : ℕ
  pub status : MessageStatus
  pub markdown : String

pub record Mailbox : Type 0 where
  pub usernames : List UsernameRow
  pub messages : List StoredMessage
  pub field_values : List FieldValueRow
  pub status_texts : List StatusText

-- `username_id IN (SELECT id FROM usernames WHERE user_id = user)`
abbrev pub is_own : ℕ → List UsernameRow → StoredMessage → Bool
is_own user names m = any (λ (n : UsernameRow). n.user_id == user && n.id == m.username_id) names

abbrev pub is_asked : ℕ → String → List UsernameRow → StoredMessage → Bool
is_asked user public_id names m = m.public_id == public_id && is_own user names m

-- `delete_message`: the field values are deleted and committed, and then the message.
abbrev pub drop_message : StoredMessage → Mailbox → Mailbox
drop_message m box = record box {
  field_values = without (λ (v : FieldValueRow). v.message_id == some m.id) box.field_values;
  messages = without (λ (n : StoredMessage). n.id == m.id) box.messages;
}

abbrev pub delete_found : Mailbox → Found StoredMessage → Response × Mailbox
delete_found box absent = (redirect inbox, box)
delete_found box multiple = (server_error, box)
delete_found box (one m) = (redirect inbox, drop_message m box)

-- For the user that the guard let through, as below.
unfoldable pub handle_delete_message : ℕ → String → Mailbox → Response × Mailbox
handle_delete_message user public_id box =
    delete_found box (one_or_none (is_asked user public_id box.usernames) box.messages)

-- `set_message_status`; the form gives a status, or none where it is not valid.
abbrev pub with_status : ℕ → MessageStatus → StoredMessage → StoredMessage
with_status now status m = record m { status = status; status_changed_at = now }

abbrev pub update_rows :
    (StoredMessage → Bool) → ℕ → MessageStatus → List StoredMessage → List StoredMessage
update_rows p now status [] = []
update_rows p now status (m ∷ ms) =
    (if p m then with_status now status m else m) ∷ update_rows p now status ms

-- The UPDATE is committed if it matched one row, and rolled back otherwise.
abbrev pub commit_if_one : ℕ → List StoredMessage → Mailbox → Mailbox
commit_if_one row_count updated box =
    if row_count == 1 then record box { messages = updated } else box

unfoldable pub handle_set_message_status :
    ℕ → ℕ → String → Option MessageStatus → Mailbox → Response × Mailbox
handle_set_message_status now user public_id none box = (redirect_to public_id, box)
handle_set_message_status now user public_id (some status) box =
    let p = is_asked user public_id box.usernames in
    (
      redirect_to public_id,
      commit_if_one (count p box.messages) (update_rows p now status box.messages) box,
    )
