-- ===== src/Premium/Work.antt =====
-- The rows that the Stripe event handlers read and write (hushline/premium.py,
-- hushline/model/stripe_event.py, hushline/model/stripe_invoice.py), and how a handler ends.
use hushline.Common.{ℕ, ℤ, Bool, Option, none, some, List, String}
use hushline.Model.Enums.{InvoiceStatus, EventStatus}
use hushline.Model.User.{User, put_user}

pub record StripeEvent : Type 0 where
  pub event_id : String
  pub event_type : String
  pub event_created : ℕ
  pub event_data : String
  pub status : EventStatus
  pub error_message : Option String

-- The attributes of `stripe.Subscription` that are read; an expanded customer does not occur in
-- an event's payload, so `customer` is a text or null.
pub record Subscription : Type 0 where
  pub id : String
  pub customer : Option String
  pub status : String
  pub cancel_at_period_end : Bool
  pub current_period_end : ℕ
  pub current_period_start : ℕ

-- `stripe.Invoice`; `plan` is the product of the first line's plan, if the line has one.
pub record Invoice : Type 0 where
  pub id : Option String
  pub customer : Option String
  pub hosted_invoice_url : Option String
  pub invoice_pdf : Option String
  pub total : ℤ
  pub status : Option String
  pub created : Option ℕ
  pub plan : Option String

pub record StripeInvoice : Type 0 where
  pub customer_id : Option String
  pub invoice_id : Option String
  pub hosted_invoice_url : Option String
  pub total : ℤ
  pub status : Option InvoiceStatus
  pub created_at : ℕ
  pub user_id : ℕ
  pub tier_id : ℕ

pub record Tier : Type 0 where
  pub id : ℕ
  pub stripe_product_id : Option String

-- What a handler works on; `event` is its argument `stripe_event`, a row that it may change.
pub record Work : Type 0 where
  pub users : List User
  pub invoices : List StripeInvoice
  pub tiers : List Tier
  pub event : Option StripeEvent

pub data Error : Type 0 where
  value_error multiple_results integrity_error : Error

-- What was written before a raise stays written, except where it is an IntegrityError: the worker
-- commits the session afterwards.
pub data Outcome : Type 0 where
  returned : Outcome
  raised : Error → Outcome

abbrev pub save_user : User → Work → Work
save_user u w = record w { users = put_user u w.users }

abbrev redact_event : Option StripeEvent → Option StripeEvent
redact_event none = none
redact_event (some e) = some (record e { event_data = "{}" })

-- `_redact_stripe_event_payload`
abbrev pub redact_stripe_event_payload : Work → Work
redact_stripe_event_payload w = record w { event = redact_event w.event }
