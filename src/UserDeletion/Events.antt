-- ===== src/UserDeletion/Events.antt =====
-- hushline/user_deletion.py: what a stored Stripe event is about, and the redaction of the events that
-- are processed.
use package.text.Mathlib.Text.{starts_with}
use hushline.Common.{
  Bool, true, false, ◌&&◌, ◌||◌, not, Option, none, some, List, [], ◌∷◌, String, if◌then◌else◌,
  ◌==◌, string_eq, option_eq, any,
}
use hushline.Conversation.Envelope.{Json, object, text, Fields, no_fields, Library, lookup, get}
use hushline.Model.Enums.{EventStatus, pending, in_progress}
use hushline.Premium.Work.{StripeEvent}

-- `_stripe_event_object_from_data`: `.get(…, {})` of what is no dictionary raises, and a text that is no
-- JSON gives {}.
abbrev object_or_empty : Option Json → Fields
object_or_empty (some (object fs)) = fs
object_or_empty _ = no_fields

abbrev object_of : Option Json → Option Fields
object_of none = some no_fields
object_of (some (object inner)) = some (object_or_empty (lookup "object" inner))
object_of (some _) = none

abbrev object_from : Option Json → Option Fields
object_from none = some no_fields
object_from (some (object event)) = object_of (lookup "data" event)
object_from (some _) = none

unfoldable pub stripe_event_object : Library → String → Option Fields
stripe_event_object lib event_data = object_from (lib.loads event_data)

-- The attribute of an object, if it is a text.
abbrev text_or_none : Json → Option String
text_or_none (text s) = some s
text_or_none _ = none

-- `_invoice_id_from_stripe_event_data`, and the two of `_subscription_ids_from_stripe_event_data`
abbrev pub invoice_id_of : Fields → Option String
invoice_id_of fs = text_or_none (get "id" fs)

abbrev pub customer_id_of : Fields → Option String
customer_id_of fs = text_or_none (get "customer" fs)

abbrev pub subscription_id_of : Fields → Option String
subscription_id_of fs = text_or_none (get "id" fs)

-- `x is not None and x in ids`
abbrev pub is_in : Option String → List String → Bool
is_in none ids = false
is_in (some x) ids = any (λ y. y == x) ids

abbrev pub is_about_invoice : List String → Fields → Bool
is_about_invoice ids fs = is_in (invoice_id_of fs) ids

-- `_stripe_event_matches_subscription_ids`
abbrev pub is_about_subscription : List String → List String → Fields → Bool
is_about_subscription customers subscriptions fs =
    is_in (customer_id_of fs) customers || is_in (subscription_id_of fs) subscriptions

-- `_is_processed_stripe_event`, whose set has the statuses of an event that is queued
abbrev pub is_queued : EventStatus → Bool
is_queued pending = true
is_queued in_progress = true
is_queued _ = false

abbrev pub is_processed : StripeEvent → Bool
is_processed e = not (is_queued e.status)

abbrev pub redacted : Bool → StripeEvent → StripeEvent
redacted true e = record e { event_data = "{}" }
redacted false e = e

-- The body of the loop: the data of an event is read only where the type matches and the event is
-- processed.
abbrev pub is_candidate : String → StripeEvent → Bool
is_candidate prefix e = starts_with e.event_type prefix && is_processed e

abbrev pub redact_read : (Fields → Bool) → StripeEvent → Option Fields → Option StripeEvent
redact_read about e none = none
redact_read about e (some fs) = some (redacted (about fs) e)

abbrev pub redact_one : Library → String → (Fields → Bool) → StripeEvent → Option StripeEvent
redact_one lib prefix about e =
    if is_candidate prefix e
    then redact_read about e (stripe_event_object lib e.event_data)
    else some e

abbrev pub cons_or_raise :
    Option StripeEvent → Option (List StripeEvent) → Option (List StripeEvent)
cons_or_raise none es = none
cons_or_raise (some e) none = none
cons_or_raise (some e) (some es) = some (e ∷ es)

abbrev pub redact_all :
    Library → String → (Fields → Bool) → List StripeEvent → Option (List StripeEvent)
redact_all lib prefix about [] = some []
redact_all lib prefix about (e ∷ es) =
    cons_or_raise (redact_one lib prefix about e) (redact_all lib prefix about es)

abbrev pub is_empty : List String → Bool
is_empty [] = true
is_empty (x ∷ xs) = false

-- `_redact_processed_stripe_invoice_events` and `_redact_processed_stripe_subscription_events`;
-- `none` stands for an exception.
unfoldable pub redact_invoice_events :
    Library → List String → List StripeEvent → Option (List StripeEvent)
redact_invoice_events lib ids es =
    if is_empty ids then some es else redact_all lib "invoice." (is_about_invoice ids) es

unfoldable pub redact_subscription_events :
    Library → List String → List String → List StripeEvent → Option (List StripeEvent)
redact_subscription_events lib customers subscriptions es =
    if is_empty customers && is_empty subscriptions
    then some es
    else redact_all lib "customer.subscription." (is_about_subscription customers subscriptions) es
