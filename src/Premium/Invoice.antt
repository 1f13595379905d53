-- ===== src/Premium/Invoice.antt =====
-- hushline/premium.py and hushline/model/stripe_invoice.py: the handlers of the `invoice.*` events.
pub mod Created
pub mod Owner
pub mod Tests
use hushline.Common.{
  ℕ, Bool, false, not, ◌&&◌, ◌||◌, Option, none, some, List, [], ◌∷◌, String, if◌then◌else◌, ◌==◌,
  nat_eq, string_eq, option_eq, is_none, is_some, any, Found, absent, one, multiple, one_or_none,
}
use hushline.Model.Enums.{InvoiceStatus, parse_invoice_status}
use hushline.Premium.Work.{
  Invoice, StripeInvoice, Tier, Work, Outcome, returned, raised, Error, value_error,
  multiple_results, integrity_error, redact_stripe_event_payload,
}
use hushline.Premium.Subscription.{has_customer}

-- The truth of a text attribute.
abbrev pub truthy : Option String → Bool
truthy none = false
truthy (some s) = not (s == "")

abbrev nonempty : Option String → Option String
nonempty o = if truthy o then o else none

-- A creation time of zero counts as none.
abbrev time_or : Option ℕ → ℕ → ℕ
time_or none d = d
time_or (some t) d = if t == 0 then d else t

pub data Built : Type 0 where
  built : StripeInvoice → Built
  failed : Error → Built

abbrev with_tier : (ℕ → StripeInvoice) → Found Tier → Built
with_tier row absent = failed value_error
with_tier row (one t) = built (row t.id)
with_tier row multiple = failed multiple_results

abbrev with_plan : List Tier → Option String → (ℕ → StripeInvoice) → Built
with_plan tiers none row = failed value_error
with_plan tiers (some product) row =
    with_tier row (one_or_none (λ t. t.stripe_product_id == some product) tiers)

-- The status of the new row, or the ValueError of an unknown one; a missing status stays unset.
abbrev new_status : Option String → Option (Option InvoiceStatus)
new_status none = some none
new_status (some s) =
    if s == ""
    then some none
    else elim (parse_invoice_status s) [ none ↦ none | some st ↦ some (some st) ]

-- `StripeInvoice(invoice)`; `now` is the column's default.
unfoldable pub new_stripe_invoice : ℕ → Invoice → Work → Built
new_stripe_invoice now invoice w = elim (new_status invoice.status) [
  | none ↦ failed value_error
  | some st ↦ elim (one_or_none (has_customer invoice.customer) w.users) [
    | absent ↦ failed value_error
    | multiple ↦ failed multiple_results
    | one user ↦ with_plan w.tiers invoice.plan (λ tier. record {
      customer_id = nonempty invoice.customer;
      invoice_id = nonempty invoice.id;
      hosted_invoice_url = nonempty invoice.hosted_invoice_url;
      total = invoice.total;
      status = st;
      created_at = time_or invoice.created now;
      user_id = user.id;
      tier_id = tier;
    })
  ]
]

-- `db.session.add(new_invoice); db.session.commit()`: the columns of the row that are texts are
-- NOT NULL, and `invoice_id` is unique.
unfoldable pub insert_invoice : StripeInvoice → Work → Outcome × Work
insert_invoice row w =
    if is_none row.customer_id
      || (is_none row.invoice_id
          || (is_none row.hosted_invoice_url
              || any (λ r. r.invoice_id == row.invoice_id) w.invoices))
    then (raised integrity_error, w)
    else (returned, record w { invoices = row ∷ w.invoices })

-- The `except ValueError` branch: the error is logged, and the event counts as handled.
pub created_failed : Invoice → Work → Outcome × Work
created_failed invoice w =
    if is_some w.event && is_some invoice.customer
    then elim (one_or_none (has_customer invoice.customer) w.users) [
      | absent ↦ (returned, redact_stripe_event_payload w)
      | one user ↦ (returned, w)
      | multiple ↦ (raised multiple_results, w)
    ]
    else (returned, w)

unfoldable pub handle_invoice_created : ℕ → Invoice → Work → Outcome × Work
unfolding new_stripe_invoice insert_invoice created_failed
handle_invoice_created now invoice w = elim (new_stripe_invoice now invoice w) [
  | built row ↦ insert_invoice row w
  | failed value_error ↦ created_failed invoice w
  | failed e ↦ (raised e, w)
]

-- `_receipt_url_from_invoice`
abbrev pub receipt_url_from_invoice : Invoice → Option String
receipt_url_from_invoice invoice =
    if truthy invoice.hosted_invoice_url
    then invoice.hosted_invoice_url
    else if truthy invoice.invoice_pdf
    then invoice.invoice_pdf
    else none

abbrev or_keep : Option String → Option String → Option String
or_keep none old = old
or_keep (some url) _ = some url

abbrev parse_opt : Option String → Option InvoiceStatus
parse_opt none = none
parse_opt (some s) = parse_invoice_status s

-- `_sync_invoice` on one row; the total is written before the status is read.
pub sync_invoice : StripeInvoice → Invoice → Outcome × StripeInvoice
sync_invoice row invoice = elim (parse_opt invoice.status) [
  | none ↦ (raised value_error, record row { total = invoice.total })
  | some st ↦ (
    returned,
    record row {
      total = invoice.total;
      status = some st;
      hosted_invoice_url = or_keep (receipt_url_from_invoice invoice) row.hosted_invoice_url;
    },
  )
]

abbrev pub put_invoice : StripeInvoice → List StripeInvoice → List StripeInvoice
put_invoice r [] = []
put_invoice r (x ∷ xs) =
    if x.invoice_id == r.invoice_id then r ∷ put_invoice r xs else x ∷ put_invoice r xs

pub updated_unknown_invoice : Invoice → Work → Outcome × Work
updated_unknown_invoice invoice w =
    if is_some invoice.customer
    then elim (one_or_none (has_customer invoice.customer) w.users) [
      | absent ↦ (returned, redact_stripe_event_payload w)
      | one user ↦ (raised value_error, w)
      | multiple ↦ (raised multiple_results, w)
    ]
    else (raised value_error, w)

unfoldable pub handle_invoice_updated : Invoice → Work → Outcome × Work
unfolding sync_invoice updated_unknown_invoice
handle_invoice_updated invoice w = elim (one_or_none (λ r. r.invoice_id == invoice.id) w.invoices) [
  | absent ↦ updated_unknown_invoice invoice w
  | multiple ↦ (raised multiple_results, w)
  | one row ↦
      let (out, row') = sync_invoice row invoice in
      (out, record w { invoices = put_invoice row' w.invoices })
]
