-- ===== src/Notifications/Tests.antt =====
-- hushline/settings/notifications.py, on a user with two recipients.
use hushline.Common.{
  ◌≡◌, refl, true, false, not, ◌&&◌, ◌||◌, none, some, List, [], ◌∷◌, if◌then◌else◌, ◌==◌,
  string_eq, option_eq, any, All, first,
}
use hushline.Notifications.{
  Recipient, Account, is_reachable, is_first, contains, several, message_recipient_keys,
  message_encryption_target,
}
use hushline.Notifications.Settings.{
  Gpg, saved, RecipientForm, Post, new, edit, enable, delete, pgp_key, handle_post, save_recipient,
  validate_recipient_form, normalize_recipient_positions, normalize_notification_state,
  enabled_recipients_support_content,
}
use hushline.Notifications.Mail.{
  Mailer, Mail, is_armored_pgp_message, deliver, send_email_to_user_recipients, resend_message,
}
use hushline.Notifications.Content.{KeepsContent}
use hushline.Notifications.Posts.{handle_posts, posts_keep_content}
use hushline.Notifications.Keys.{has_primary_key, message_recipient_keys_iff}
use hushline.Notifications.Delivery.{IsDue, GoOnce, send_email_to_user_recipients_sound}
use hushline.Notifications.Private.{IsSealed, resend_message_private}

abbrev gpg : Gpg
gpg = record {
  is_valid_pgp_key = λ k. not (k == "bad");
  can_encrypt_with_pgp_key = λ k. not (k == "sign only");
}

abbrev first_recipient : Recipient
first_recipient = record {
  id = 1;
  enabled = true;
  position = 0;
  email = some "a@b.org";
  pgp_key = some "K1";
}

abbrev second_recipient : Recipient
second_recipient = record {
  id = 2;
  enabled = true;
  position = 1;
  email = some "A@b.org";
  pgp_key = some "K2";
}

abbrev account : Account
account = record {
  tier_id = some 2;
  email = some "a@b.org";
  pgp_key = some "K0";
  enable_email_notifications = true;
  email_include_message_content = true;
  email_encrypt_entire_body = true;
  notification_recipients = first_recipient ∷ second_recipient ∷ [];
}

abbrev lib : Mailer
lib = record {
  is_configured = true;
  sends = λ to body. true;
  fold = λ s. if s == "A@b.org" then "a@b.org" else s;
  encrypt_message = λ text target. some "-----BEGIN PGP MESSAGE-----";
}

both_keys : message_encryption_target account ≡ several ("K1" ∷ "K2" ∷ [])
unfolding message_encryption_target message_recipient_keys
both_keys = refl

-- A disabled primary recipient leaves the user's own key in its place.
legacy_key :
    message_recipient_keys (record account {
      notification_recipients = record first_recipient { enabled = false } ∷ second_recipient ∷ [];
    })
    ≡ "K0" ∷ "K2" ∷ []
unfolding message_recipient_keys
legacy_key = refl

armor :
    is_armored_pgp_message " -----BEGIN PGP MESSAGE-----\n\nabc\n-----END PGP MESSAGE-----\n" ≡ true
unfolding is_armored_pgp_message
armor = refl

no_armor :
    is_armored_pgp_message "abc -----BEGIN PGP MESSAGE-----\n\nabc\n-----END PGP MESSAGE-----"
    ≡ false
unfolding is_armored_pgp_message
no_armor = refl

-- One mail for one address in two spellings.
one_mail : send_email_to_user_recipients lib account (λ r. "text") ≡ ("a@b.org", "text") ∷ []
unfolding send_email_to_user_recipients deliver
one_mail = refl

abbrev edit_form : RecipientForm
edit_form = record {
  is_valid = true;
  recipient_email = "a@b.org";
  recipient_pgp_key = " ";
  recipient_enabled = none;
}

-- The page's form for a recipient has no checkbox: an enabled one can lose its key, and contents are
-- still included.
abbrev keyless : Account
keyless = record account {
  pgp_key = none;
  notification_recipients = record first_recipient { pgp_key = none } ∷ second_recipient ∷ [];
}

key_is_dropped : handle_post gpg (edit 1 edit_form) account ≡ saved keyless
unfolding handle_post save_recipient validate_recipient_form normalize_recipient_positions
    normalize_notification_state
key_is_dropped = refl

contents_stay : enabled_recipients_support_content gpg keyless ≡ false
unfolding enabled_recipients_support_content
contents_stay = refl

abbrev posts : List Post
posts =
    enable 2 false
    ∷ new 3 (record edit_form { recipient_pgp_key = "K3"; recipient_enabled = some true })
    ∷ edit 1 (record edit_form { recipient_enabled = some false })
    ∷ delete 3
    ∷ pgp_key "K4"
    ∷ []

account-KeepsContent : KeepsContent gpg account
unfolding enabled_recipients_support_content
account-KeepsContent h = refl

posts_keep_content_example : KeepsContent gpg (handle_posts gpg posts account)
posts_keep_content_example =
    posts_keep_content gpg posts account (refl, (refl, (refl, (refl, (refl, tt)))))
      account-KeepsContent

message_recipient_keys_iff_example : contains "K2" (message_recipient_keys account) ≡ (
    any
      (λ (r : Recipient). is_reachable r && r.pgp_key == some "K2")
      account.notification_recipients
    || account.pgp_key == some "K2"
      && not (has_primary_key (first is_first account.notification_recipients)))
message_recipient_keys_iff_example =
    message_recipient_keys_iff account "K2" ((refl, tt), (tt, tt)) refl

send_email_to_user_recipients_sound_example :
    All (IsDue lib account (λ r. "text")) (send_email_to_user_recipients lib account (λ r. "text"))
    × GoOnce lib (send_email_to_user_recipients lib account (λ r. "text"))
send_email_to_user_recipients_sound_example =
    send_email_to_user_recipients_sound lib account (λ r. "text")

resend_message_private_example :
    All
      (λ (m : Mail). IsSealed lib ("secret" ∷ []) m.1)
      (resend_message lib account "m-1" true (some ("secret" ∷ []))).1
resend_message_private_example =
    resend_message_private lib account "m-1" true ("secret" ∷ []) (λ h. refl)
