-- ===== src/Model/Enums.antt =====
-- hushline/model/enums.py: the Stripe enumerations, and reading one from its value.
use hushline.Common.{
  ◌≡◌, refl, Bool, true, false, Option, none, some, String, if◌then◌else◌, ◌==◌, string_eq,
}

pub data SubscriptionStatus : Type 0 where
  incomplete incomplete_expired trialing active past_due canceled unpaid paused : SubscriptionStatus

pub data InvoiceStatus : Type 0 where
  draft open_invoice paid uncollectible void : InvoiceStatus

pub data EventStatus : Type 0 where
  pending in_progress error finished : EventStatus

-- `StripeSubscriptionStatusEnum(value)`: `none` stands for the ValueError.
unfoldable pub parse_subscription_status : String → Option SubscriptionStatus
parse_subscription_status s =
    if s == "incomplete"
    then some incomplete
    else if s == "incomplete_expired"
    then some incomplete_expired
    else if s == "trialing"
    then some trialing
    else if s == "active"
    then some active
    else if s == "past_due"
    then some past_due
    else if s == "canceled"
    then some canceled
    else if s == "unpaid"
    then some unpaid
    else if s == "paused"
    then some paused
    else none

abbrev pub subscription_status_value : SubscriptionStatus → String
subscription_status_value incomplete = "incomplete"
subscription_status_value incomplete_expired = "incomplete_expired"
subscription_status_value trialing = "trialing"
subscription_status_value active = "active"
subscription_status_value past_due = "past_due"
subscription_status_value canceled = "canceled"
subscription_status_value unpaid = "unpaid"
subscription_status_value paused = "paused"

-- `StripeInvoiceStatusEnum(value)`
unfoldable pub parse_invoice_status : String → Option InvoiceStatus
parse_invoice_status s =
    if s == "draft"
    then some draft
    else if s == "open"
    then some open_invoice
    else if s == "paid"
    then some paid
    else if s == "uncollectible"
    then some uncollectible
    else if s == "void"
    then some void
    else none

-- `status in TERMINAL_NON_BILLING_SUBSCRIPTION_STATUSES` (hushline/premium.py); None is in no set.
abbrev pub is_terminal : Option SubscriptionStatus → Bool
is_terminal (some incomplete_expired) = true
is_terminal _ = false

abbrev pub is_pending : EventStatus → Bool
is_pending pending = true
is_pending _ = false

pub parse-subscription_status_value :
    (st : SubscriptionStatus) → parse_subscription_status (subscription_status_value st) ≡ some st
unfolding parse_subscription_status
parse-subscription_status_value incomplete = refl
parse-subscription_status_value incomplete_expired = refl
parse-subscription_status_value trialing = refl
parse-subscription_status_value active = refl
parse-subscription_status_value past_due = refl
parse-subscription_status_value canceled = refl
parse-subscription_status_value unpaid = refl
parse-subscription_status_value paused = refl
