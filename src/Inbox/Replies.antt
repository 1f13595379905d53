-- ===== src/Inbox/Replies.antt =====
-- hushline/model/message_status_text.py: the answer that a user shows to the senders of messages with a
-- status, and hushline/model/message.py: what a sender sees (status_text).
use hushline.Common.{
  ℕ, Bool, true, false, ◌&&◌, Option, none, some, List, [], ◌∷◌, String, if◌then◌else◌, ◌==◌,
  nat_eq, string_eq, leb, any, count, strip, Found, absent, one, multiple, one_or_none,
}
use hushline.UserDeletion.{UsernameRow, without}
use hushline.Inbox.{
  MessageStatus, pending, accepted, declined, archived, StatusText, StoredMessage, Mailbox,
}

abbrev pub same_status : MessageStatus → MessageStatus → Bool
same_status pending pending = true
same_status accepted accepted = true
same_status declined declined = true
same_status archived archived = true
same_status _ _ = false

abbrev pub is_text_for : ℕ → MessageStatus → StatusText → Bool
is_text_for user status t = t.user_id == user && same_status t.status status

-- `INSERT … ON CONFLICT (user_id, status) DO UPDATE`
abbrev pub put_text : ℕ → MessageStatus → String → List StatusText → List StatusText
put_text user status markdown [] =
    record { user_id = user; status = status; markdown = markdown } ∷ []
put_text user status markdown (t ∷ ts) =
    if is_text_for user status t
    then record t { markdown = markdown } ∷ ts
    else t ∷ put_text user status markdown ts

-- `MessageStatusText.upsert`; the constraint lets no two rows match, so the 503 never comes about.
abbrev pub upsert_text : ℕ → MessageStatus → String → List StatusText → List StatusText
upsert_text user status markdown ts =
    if markdown == ""
    then without (is_text_for user status) ts
    else put_text user status markdown ts

unfoldable pub upsert : ℕ → MessageStatus → String → Mailbox → Option Mailbox
upsert user status markdown box =
    if strip markdown == "" && leb 2 (count (is_text_for user status) box.status_texts)
    then none
    else some
        (record box { status_texts = upsert_text user status (strip markdown) box.status_texts })

-- `MessageStatusText.statuses_for_user`: the last row with a status is in the dictionary.
abbrev or_later : Option StatusText → Option StatusText → Option StatusText
or_later found none = found
or_later found (some t) = some t

abbrev pub text_for : ℕ → MessageStatus → List StatusText → Option StatusText
text_for user status [] = none
text_for user status (t ∷ ts) =
    or_later (if is_text_for user status t then some t else none) (text_for user status ts)

unfoldable pub statuses_for_user : ℕ → Mailbox → List (MessageStatus × Option StatusText)
statuses_for_user user box =
    (pending, text_for user pending box.status_texts)
    ∷ (accepted, text_for user accepted box.status_texts)
    ∷ (declined, text_for user declined box.status_texts)
    ∷ (archived, text_for user archived box.status_texts)
    ∷ []

-- `Message.status_text`: the text of the owner of the message's username for its status, or the
-- status's default text; `none` stands for more than one row.
abbrev pub default_text : MessageStatus → String
default_text pending =
    "Your message has been received. Please allow 24-72 hours for a reply. You can check this page any time for an update."
default_text accepted =
    "Thank you for contacting us. We&#39;re looking more into your case. If you left a contact method we&#39;ll reach out to you there, too."
default_text declined =
    "Thank you for contacting us. Unfortunately we aren&#39;t able to move forward with your case. Please check the Hush Line user directory to find someone else who might be able to help."
default_text archived = "Your case has been archived. Contact us again if you need more help."

abbrev pub is_owner : List UsernameRow → StoredMessage → ℕ → Bool
is_owner names m user = any (λ (n : UsernameRow). n.user_id == user && n.id == m.username_id) names

abbrev pub shown : MessageStatus → Found StatusText → Option String
shown status absent = some (default_text status)
shown status (one t) = some t.markdown
shown status multiple = none

unfoldable pub status_text : StoredMessage → Mailbox → Option String
status_text m box = shown m.status (
    one_or_none (λ t. same_status t.status m.status && is_owner box.usernames m t.user_id)
      box.status_texts)

-- hushline/settings/replies.py: the form's text, where the default one stands for none.
abbrev default_markdown : MessageStatus → String
default_markdown pending =
    "Your message has been received. Please allow 24-72 hours for a reply. You can check this page any time for an update."
default_markdown accepted =
    "Thank you for contacting us. We're looking more into your case. If you left a contact method we'll reach out to you there, too."
default_markdown declined =
    "Thank you for contacting us. Unfortunately we aren't able to move forward with your case. Please check the Hush Line user directory to find someone else who might be able to help."
default_markdown archived = "Your case has been archived. Contact us again if you need more help."

abbrev pub submitted_markdown : MessageStatus → Option String → String
submitted_markdown status none = ""
submitted_markdown status (some markdown) =
    if strip markdown == default_markdown status then "" else markdown

unfoldable pub handle_replies :
    ℕ → Option (MessageStatus × Option String) → Mailbox → Option Mailbox
handle_replies user none box = some box
handle_replies user (some (status, markdown)) box =
    upsert user status (submitted_markdown status markdown) box
