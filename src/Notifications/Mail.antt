-- ===== src/Notifications/Mail.antt =====
-- Sending mail to a user's recipients: send_email_to_user_recipients of hushline/routes/common.py, and
-- in hushline/routes/message.py resend_message and the body for a conversation.
use hushline.Common.{
  ℕ, nat_eq, codes, Bool, true, false, not, ◌&&◌, ◌||◌, Option, none, some, List, [], ◌∷◌, ◌++◌,
  String, if◌then◌else◌, ◌==◌, string_eq, strip,
}
use mathlib.Core.List.{reverse}
use hushline.Auth.Store.{Response, redirect, redirect_to, inbox}
use hushline.Notifications.{
  Recipient, Account, enabled_notification_recipients, contains, Target, nobody, single, several,
  message_encryption_target,
}
use hushline.Notifications.Settings.{is_empty}

-- What one request calls: whether a complete SMTP configuration is found, sending, which fails or
-- raises for false, `strip().casefold()`, and GPG, which may raise.
pub record Mailer : Type 0 where
  pub is_configured : Bool
  pub sends : String → String → Bool
  pub fold : String → String
  pub encrypt_message : String → Target → Option String

-- `_ARMORED_PGP_MESSAGE_PATTERN.fullmatch`, without the white space at the ends: a line BEGIN, any text,
-- and a line END; the pattern's headers and blank line are of that text.
abbrev after : List ℕ → List ℕ → Option (List ℕ)
after [] t = some t
after (c ∷ p) [] = none
after (c ∷ p) (d ∷ t) = if c == d then after p t else none

abbrev after_newline : Option (List ℕ) → Option (List ℕ)
after_newline none = none
after_newline (some []) = none
after_newline (some (c ∷ [])) = if c == 10 then some [] else none
after_newline (some (c ∷ d ∷ t)) =
    if c == 10 then some (d ∷ t) else if c == 13 && d == 10 then some t else none

abbrev ends_line : Option (List ℕ) → Bool
ends_line none = false
ends_line (some t) = elim (after (reverse (codes "-----END PGP MESSAGE-----")) (reverse t)) [
  | some (c ∷ u) ↦ c == 10
  | _ ↦ false
]

unfoldable pub is_armored_pgp_message : String → Bool
is_armored_pgp_message s =
    ends_line (after_newline (after (codes "-----BEGIN PGP MESSAGE-----") (codes (strip s))))

abbrev pub Mail : Type 0
Mail = String × String

abbrev pub attempt_to : Mailer → String → List String → String → Option Mail
attempt_to lib body delivered email =
    if contains (lib.fold email) delivered
    then none
    else if body == ""
    then none
    else if lib.sends email body
    then some (email, body)
    else none

abbrev pub attempt :
    Mailer → (Recipient → String) → List String → Recipient → Option String → Option Mail
attempt lib body delivered r none = none
attempt lib body delivered r (some email) = attempt_to lib (body r) delivered email

-- The mails that are sent, with the addresses that were reached before.
unfoldable pub deliver : Mailer → (Recipient → String) → List String → List Recipient → List Mail
deliver lib body delivered [] = []
deliver lib body delivered (r ∷ rs) = elim (attempt lib body delivered r r.email) [
  | none ↦ deliver lib body delivered rs
  | some m ↦ m ∷ deliver lib body (lib.fold m.0 ∷ delivered) rs
]

unfoldable pub send_email_to_user_recipients : Mailer → Account → (Recipient → String) → List Mail
send_email_to_user_recipients lib u body =
    if is_empty (enabled_notification_recipients u) || not u.enable_email_notifications
    then []
    else if lib.is_configured
    then deliver lib body [] (enabled_notification_recipients u)
    else []

abbrev pub generic_body : String
generic_body = "You have a new Hush Line message! Please log in to read it."

abbrev pub text_or : String → Option String → String
text_or generic none = generic
text_or generic (some s) = if s == "" then generic else s

-- `encrypt_message(…) if target and not value_is_armored else None`, with None where it raises
abbrev pub encrypted : Mailer → String → Bool → Target → Option String
encrypted lib value true target = none
encrypted lib value false nobody = none
encrypted lib value false (single k) = lib.encrypt_message value (single k)
encrypted lib value false (several ks) = lib.encrypt_message value (several ks)

-- The body that holds a value where the entire body is to be encrypted.
abbrev pub sealed_body : Mailer → String → Bool → Target → Option String
sealed_body lib value true (single k) = some value
sealed_body lib value armored target = encrypted lib value armored target

unfoldable pub resend_body : Mailer → Account → String → String
resend_body lib u value =
    if u.email_encrypt_entire_body
    then strip (
        text_or generic_body
          (sealed_body lib value (is_armored_pgp_message value) (message_encryption_target u)))
    else strip value

-- The bodies, one for each value that is not empty.
abbrev pub resend_bodies : Mailer → Account → List String → List String
resend_bodies lib u [] = []
resend_bodies lib u (v ∷ vs) =
    let rest = resend_bodies lib u vs in if v == "" then rest else resend_body lib u v ∷ rest

abbrev pub or_generic : List String → List String
or_generic [] = generic_body ∷ []
or_generic (b ∷ bs) = b ∷ bs

abbrev pub send_each : Mailer → Account → List String → List Mail
send_each lib u [] = []
send_each lib u (b ∷ bs) = send_email_to_user_recipients lib u (λ _. b) ++ send_each lib u bs

-- For the user that the guard let through: whether the form is valid, and the values of the message's
-- fields if the user has a message with the id.
unfoldable pub resend_message :
    Mailer → Account → String → Bool → Option (List String) → Response × List Mail
resend_message lib u public_id false found = (redirect_to public_id, [])
resend_message lib u public_id true none = (redirect inbox, [])
resend_message lib u public_id true (some values) =
    if not u.enable_email_notifications then (redirect_to public_id, []) else (
      redirect_to public_id,
      send_each lib u (
          if u.email_include_message_content
          then or_generic (resend_bodies lib u values)
          else generic_body ∷ []),
    )

abbrev pub conversation_notification : String
conversation_notification =
    "You have new Hush Line conversation activity. Log in and unlock your Hush Line chat key to read it."

-- `_conversation_notification_body`; where GPG raises, the body goes as it is.
abbrev pub or_plain : Option String → String
or_plain none = conversation_notification
or_plain (some s) = s

unfoldable pub conversation_notification_body : Mailer → Account → String
conversation_notification_body lib u =
    if u.email_include_message_content && u.email_encrypt_entire_body
    then or_plain (encrypted lib conversation_notification false (message_encryption_target u))
    else conversation_notification
