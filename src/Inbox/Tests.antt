-- ===== src/Inbox/Tests.antt =====
-- hushline/routes/message.py and hushline/settings/replies.py on two users' messages.
use hushline.Common.{◌≡◌, refl, true, arith, none, some, List, [], ◌∷◌, string_eq}
use hushline.Auth.Store.{redirect, inbox}
use hushline.UserDeletion.{UsernameRow}
use hushline.Inbox.{
  pending, accepted, declined, archived, StoredMessage, Mailbox, handle_delete_message,
  handle_set_message_status,
}
use hushline.Inbox.Replies.{upsert, status_text, statuses_for_user, handle_replies, default_text}
use hushline.Inbox.Answers.{status_text-upsert}
use hushline.Inbox.Posts.{Post, delete, set_status, reply, perform_each}
use hushline.Inbox.Isolated.{AreUnchanged, others_change_nothing}

abbrev names : List UsernameRow
names =
    record { id = 10; user_id = 1; is_primary = true }
    ∷ record { id = 11; user_id = 2; is_primary = true }
    ∷ []

abbrev ada_message : StoredMessage
ada_message = record {
  id = 100;
  public_id = "m-1";
  username_id = 10;
  reply_slug = "slug-1";
  status = accepted;
  status_changed_at = 5;
}

abbrev bob_message : StoredMessage
bob_message = record {
  id = 101;
  public_id = "m-2";
  username_id = 11;
  reply_slug = "slug-2";
  status = pending;
  status_changed_at = 6;
}

abbrev mail : Mailbox
mail = record {
  usernames = names;
  messages = ada_message ∷ bob_message ∷ [];
  field_values = [];
  status_texts = record { user_id = 2; status = pending; markdown = "Wait." } ∷ [];
}

foreign_message_stays : (handle_delete_message 2 "m-1" mail) ≡ (redirect inbox, mail)
unfolding handle_delete_message
foreign_message_stays = refl

own_message_goes : (handle_delete_message 2 "m-2" mail).1.messages ≡ ada_message ∷ []
unfolding handle_delete_message
own_message_goes = refl

status_is_set :
    (handle_set_message_status 9 1 "m-1" (some archived) mail).1.messages
    ≡ record ada_message { status = archived; status_changed_at = 9 } ∷ bob_message ∷ []
unfolding handle_set_message_status
status_is_set = refl

default_is_shown : status_text ada_message mail ≡ some (default_text accepted)
unfolding status_text
default_is_shown = refl

own_answer_is_shown : status_text bob_message mail ≡ some "Wait."
unfolding status_text
own_answer_is_shown = refl

answer_is_listed :
    statuses_for_user 2 mail
    ≡ (pending, some (record { user_id = 2; status = pending; markdown = "Wait." }))
      ∷ (accepted, none)
      ∷ (declined, none)
      ∷ (archived, none)
      ∷ []
unfolding statuses_for_user
answer_is_listed = refl

default_text_resets :
    handle_replies 2 (some (pending, some "  ")) mail ≡ some (record mail { status_texts = [] })
unfolding handle_replies upsert
default_text_resets = refl

status_text-upsert_example :
    (after : Mailbox) × (upsert 2 pending " Soon. " mail ≡ some after)
    × (status_text bob_message after ≡ some "Soon.")
status_text-upsert_example =
    status_text-upsert 2 " Soon. " bob_message mail ((refl, tt), (tt, tt)) (omega arith) refl

abbrev posts : List Post
posts =
    delete 2 "m-1"
    ∷ set_status 9 2 "m-1" (some declined)
    ∷ delete 2 "m-2"
    ∷ reply 2 (some (accepted, some "No."))
    ∷ []

others_change_nothing_example : AreUnchanged 1 mail (perform_each posts mail)
others_change_nothing_example =
    others_change_nothing 1 posts mail (((refl, tt), (tt, tt)), ((refl, tt), (tt, tt)))
      (refl, (refl, (refl, (refl, tt))))
