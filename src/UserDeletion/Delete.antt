-- ===== src/UserDeletion/Delete.antt =====
-- hushline/user_deletion.py: `delete_user_and_related` and `delete_username_and_related`. `none` stands
-- for an exception, and the session is then rolled back.
use hushline.Common.{
  ℕ, Bool, Option, none, some, List, [], ◌∷◌, String, if◌then◌else◌, ◌==◌, nat_eq, string_eq,
}
use hushline.Conversation.Envelope.{Library}
use hushline.Model.User.{User}
use hushline.Premium.Work.{StripeEvent, StripeInvoice}
use hushline.UserDeletion.Events.{redact_invoice_events, redact_subscription_events}
use hushline.UserDeletion.{
  Database, UsernameRow, OwnedRow, is_username, without, delete_field_values,
  delete_field_definitions, delete_messages, delete_usernames, delete_user_row,
}

infixl 5 ◌>>=◌
abbrev pub ◌>>=◌ {ℓ κ} : {A : Type ℓ} {B : Type κ} → Option A → (A → Option B) → Option B
none >>= f = none
some a >>= f = f a

-- The rows below usernames: field values, field definitions, messages.
abbrev pub delete_below : (ℕ → Bool) → Database → Option Database
delete_below p db = do
  db ← delete_field_definitions p (delete_field_values p db)
  some (delete_messages p db)

abbrev pub add_id : Option String → List String → List String
add_id none ids = ids
add_id (some id) ids = id ∷ ids

abbrev pub invoice_ids_of : ℕ → List StripeInvoice → List String
invoice_ids_of user [] = []
invoice_ids_of user (r ∷ rs) =
    if r.user_id == user
    then add_id r.invoice_id (invoice_ids_of user rs)
    else invoice_ids_of user rs

abbrev pub set_of : Option String → List String
set_of none = []
set_of (some s) = if s == "" then [] else s ∷ []

abbrev pub redact_events :
    Library → User → List String → List StripeEvent → Option (List StripeEvent)
redact_events lib user invoice_ids es = do
  es ← redact_invoice_events lib invoice_ids es
  redact_subscription_events lib (set_of user.stripe_customer_id)
      (set_of user.stripe_subscription_id) es

abbrev pub is_owned : ℕ → OwnedRow → Bool
is_owned user r = r.user_id == user

abbrev pub delete_owned : ℕ → Database → Database
delete_owned user db = record db {
  status_texts = without (is_owned user) db.status_texts;
  authentication_logs = without (is_owned user) db.authentication_logs;
  notification_recipients = without (is_owned user) db.notification_recipients;
}

abbrev pub is_name_of : ℕ → UsernameRow → Bool
is_name_of user n = n.user_id == user

unfoldable pub delete_user_and_related : Library → User → Database → Option Database
delete_user_and_related lib user db = do
  let invoice_ids = invoice_ids_of user.id db.stripe_invoices
  below ← delete_below (is_username (is_name_of user.id) db.usernames) db
  let owned = delete_owned user.id below
  events ← redact_events lib user invoice_ids owned.stripe_events
  let redacted = record owned {
    stripe_events = events;
    stripe_invoices = without (λ (r : StripeInvoice). r.user_id == user.id) owned.stripe_invoices;
  }
  nameless ← delete_usernames (is_name_of user.id) redacted
  delete_user_row user.id nameless

unfoldable pub delete_username_and_related : UsernameRow → Database → Option Database
delete_username_and_related name db = do
  below ← delete_below (λ id. id == name.id) db
  delete_usernames (λ n. n.id == name.id) below
