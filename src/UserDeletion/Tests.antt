-- ===== src/UserDeletion/Tests.antt =====
-- Runs of the deletions of hushline/user_deletion.py, and instances of their theorems.
use hushline.Common.{
  ◌≡◌, ◌&&◌, refl, true, false, pos, none, some, [], ◌∷◌, String, if◌then◌else◌, ◌==◌, string_eq,
  nat_eq, any, count, All, arith,
}
use hushline.Model.Samples.{ada}
use hushline.Model.Enums.{finished, pending, paid}
use hushline.Model.User.{User, get_user, has_deletion_blocking_stripe_subscription}
use hushline.Model.User.Table.{IsKeyed}
use hushline.Premium.Work.{StripeEvent, StripeInvoice}
use hushline.Conversation.Envelope.{Json, text, object, no_fields, field, Library}
use hushline.UserDeletion.Events.{
  stripe_event_object, redact_invoice_events, redact_subscription_events,
}
use hushline.UserDeletion.Redacted.{decodes}
use hushline.UserDeletion.Blocking.{
  has_blocking_invoice_event, has_blocking_invoice, has_blocking_subscription_event,
  blocking_invoice_event_counts, blocking_subscription_event_counts, blocking_invoice_counts,
}
use hushline.UserDeletion.Blocking.Queued.{has_queued}
use hushline.UserDeletion.Delete.{
  delete_user_and_related, delete_username_and_related, invoice_ids_of,
}
use hushline.UserDeletion.Erased.{
  IsErased, IsNameErased, delete_user_and_related-erases, delete_username_and_related-erases,
}
use hushline.UserDeletion.Accounts.{refused, deleted, handle_delete_account, handle_delete_user}
use hushline.UserDeletion.Accounts.Checked.{IsUnblocked, handle_delete_account_sound}
use hushline.UserDeletion.Accounts.Admins.{own, other, done, deletions_keep_admin}
use hushline.UserDeletion.{Database, UsernameRow}

-- The data of an event about the invoice or subscription with an id.
abbrev event_json : String → Json
event_json id = object (
    field "data" (object (field "object" (object (field "id" (text id) no_fields)) no_fields))
      no_fields)

-- A text stands for the data of the event about that id.
abbrev library : Library
library = record {
  loads = λ s. if s == "{}" then some (object no_fields) else some (event_json s);
  dumps = λ j. none;
  str = λ j. "";
  b64decode = λ s. none;
  urlsafe_b64decode = λ s. none;
  is_public_key = λ x y. false;
  verify = λ x y r s m. false;
}

abbrev free_ada : User
free_ada = record ada { stripe_subscription_id = none }

abbrev root : User
root = record free_ada { id = 9; is_admin = true; stripe_customer_id = none }

abbrev invoice : StripeInvoice
invoice = record {
  customer_id = some "cus_1";
  invoice_id = some "in_1";
  hosted_invoice_url = none;
  total = pos 2000;
  status = some paid;
  created_at = 5;
  user_id = 7;
  tier_id = 2;
}

abbrev event : StripeEvent
event = record {
  event_id = "evt_1";
  event_type = "invoice.updated";
  event_created = 3;
  event_data = "in_1";
  status = finished;
  error_message = none;
}

abbrev database : Database
database = record {
  users = free_ada ∷ root ∷ [];
  usernames =
      record { id = 1; user_id = 7; is_primary = true }
      ∷ record { id = 2; user_id = 9; is_primary = true }
      ∷ record { id = 3; user_id = 9; is_primary = false }
      ∷ [];
  field_definitions =
      record { id = 1; username_id = some 1 } ∷ record { id = 2; username_id = some 2 } ∷ [];
  field_values =
      record { id = 1; field_definition_id = some 1; message_id = some 1 }
      ∷ record { id = 2; field_definition_id = some 2; message_id = some 2 }
      ∷ [];
  inbox = record { id = 1; username_id = 1 } ∷ record { id = 2; username_id = 2 } ∷ [];
  status_texts = [];
  authentication_logs = record { id = 1; user_id = 7 } ∷ record { id = 2; user_id = 9 } ∷ [];
  notification_recipients = record { id = 1; user_id = 7 } ∷ [];
  stripe_invoices = invoice ∷ [];
  stripe_events = event ∷ record event { event_id = "evt_2"; event_data = "in_2" } ∷ [];
  participants = [];
  thread_messages = [];
  copies = [];
}

abbrev left : Database
left = record database {
  users = root ∷ [];
  usernames =
      record { id = 2; user_id = 9; is_primary = true }
      ∷ record { id = 3; user_id = 9; is_primary = false }
      ∷ [];
  field_definitions = record { id = 2; username_id = some 2 } ∷ [];
  field_values = record { id = 2; field_definition_id = some 2; message_id = some 2 } ∷ [];
  inbox = record { id = 2; username_id = 2 } ∷ [];
  authentication_logs = record { id = 2; user_id = 9 } ∷ [];
  notification_recipients = [];
  stripe_invoices = [];
  stripe_events =
      record event { event_data = "{}" }
      ∷ record event { event_id = "evt_2"; event_data = "in_2" }
      ∷ [];
}

deletes_own : handle_delete_account library 7 database ≡ deleted left
unfolding handle_delete_account handle_delete_user delete_user_and_related
    has_deletion_blocking_stripe_subscription has_blocking_invoice has_blocking_invoice_event
    has_blocking_subscription_event blocking_invoice_counts blocking_invoice_event_counts
    blocking_subscription_event_counts redact_invoice_events redact_subscription_events
    stripe_event_object
deletes_own = refl

deletes_other : handle_delete_user library 9 7 database ≡ deleted left
unfolding handle_delete_account handle_delete_user delete_user_and_related
    has_deletion_blocking_stripe_subscription has_blocking_invoice has_blocking_invoice_event
    has_blocking_subscription_event blocking_invoice_counts blocking_invoice_event_counts
    blocking_subscription_event_counts redact_invoice_events redact_subscription_events
    stripe_event_object
deletes_other = refl

only_admin : handle_delete_account library 9 database ≡ refused 400
unfolding handle_delete_account handle_delete_user delete_user_and_related
    has_deletion_blocking_stripe_subscription has_blocking_invoice has_blocking_invoice_event
    has_blocking_subscription_event blocking_invoice_counts blocking_invoice_event_counts
    blocking_subscription_event_counts redact_invoice_events redact_subscription_events
    stripe_event_object
only_admin = refl

queued :
    has_blocking_invoice_event library free_ada
      (record database { stripe_events = record event { status = pending } ∷ [] })
    ≡ some true
unfolding handle_delete_account handle_delete_user delete_user_and_related
    has_deletion_blocking_stripe_subscription has_blocking_invoice has_blocking_invoice_event
    has_blocking_subscription_event blocking_invoice_counts blocking_invoice_event_counts
    blocking_subscription_event_counts redact_invoice_events redact_subscription_events
    stripe_event_object
queued = refl

no_data : All (λ e. decodes library e ≡ true) database.stripe_events
unfolding stripe_event_object
no_data = (refl, (refl, tt))

delete_user_and_related-erases_example :
    (after : Database) × (delete_user_and_related library free_ada database ≡ some after)
    × IsErased library free_ada database after
delete_user_and_related-erases_example =
    delete_user_and_related-erases library free_ada database refl no_data

abbrev alias : UsernameRow
alias = record { id = 3; user_id = 9; is_primary = false }

alias_is_erased :
    (after : Database) × (delete_username_and_related alias database ≡ some after)
    × IsNameErased alias database after
alias_is_erased = delete_username_and_related-erases alias database

handle_delete_account_sound_example :
    (user : User) × (get_user 7 database.users ≡ some user)
    × ((user.is_admin && count (λ (u : User). u.is_admin) database.users == 1) ≡ false)
    × IsUnblocked library user database
    × (has_queued library (invoice_ids_of user.id database.stripe_invoices) database.stripe_events
        ≡ false)
    × IsErased library user database left
handle_delete_account_sound_example =
    handle_delete_account_sound library 7 database refl no_data deletes_own

ids_differ : IsKeyed database.users
ids_differ = ((omega arith, tt), (tt, tt))

deletions_keep_admin_example : any (λ u. u.is_admin) left.users ≡ true
deletions_keep_admin_example = deletions_keep_admin library ids_differ refl (own 7 deletes_own done)

-- An admin deletes the other account.
by_admin : any (λ u. u.is_admin) left.users ≡ true
by_admin = deletions_keep_admin library ids_differ refl (other 9 7 refl refl deletes_other done)
