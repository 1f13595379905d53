-- ===== src/Premium/Worker/Events.antt =====
-- What a handler may do to the event row in its hands: redact its payload, and nothing else.
use hushline.Common.{ℕ, ◌≡◌, ◌⊎◌, inl, ◌||◌, some, arith, ◌==◌, string_eq, if_elim}
use text.Mathlib.Text.{starts_with}
use hushline.Premium.Work.{StripeEvent, Subscription, Invoice, Work, Outcome}
use hushline.Premium.Subscription.{
  handle_subscription_created, handle_subscription_updated, handle_subscription_deleted,
}
use hushline.Premium.Invoice.{handle_invoice_created, handle_invoice_updated}
use hushline.Premium.Worker.{Event, process}

abbrev redacted : StripeEvent → StripeEvent
redacted e = record e { event_data = "{}" }

-- The row in hand is as it was, or has lost its payload.
abbrev pub Carries : StripeEvent → Work → Type 0
Carries e w = (w.event ≡ some e) ⊎ (w.event ≡ some (redacted e))

module _ (e : StripeEvent) (w : Work) (h : w.event ≡ some e) where
  created-Carries : (sub : Subscription) → Carries e (handle_subscription_created sub w).1
  unfolding handle_subscription_created
  created-Carries sub = ground arith

  updated-Carries : (sub : Subscription) → Carries e (handle_subscription_updated sub w).1
  unfolding handle_subscription_updated
  updated-Carries sub = ground arith

  deleted-Carries : (sub : Subscription) → Carries e (handle_subscription_deleted sub w).1
  unfolding handle_subscription_deleted
  deleted-Carries sub = ground arith

  invoice_created-Carries :
      (now : ℕ) (invoice : Invoice) → Carries e (handle_invoice_created now invoice w).1
  unfolding handle_invoice_created
  invoice_created-Carries now invoice = ground arith

  invoice_updated-Carries : (invoice : Invoice) → Carries e (handle_invoice_updated invoice w).1
  unfolding handle_invoice_updated
  invoice_updated-Carries invoice = ground arith

  pub process-Carries : (now : ℕ) (event : Event) → Carries e (process now event w).1
  unfolding process
  process-Carries now event =
      let P = λ (r : Outcome × Work). Carries e r.1 in
      let t = event.type in
      if_elim P (starts_with t "customer.subscription.")
        (if_elim P (t == "customer.subscription.created") (created-Carries event.as_subscription) (
          if_elim P (t == "customer.subscription.updated") (updated-Carries event.as_subscription) (
            if_elim P (t == "customer.subscription.deleted") (deleted-Carries event.as_subscription)
              (inl h))))
        (if_elim P (starts_with t "invoice.")
          (if_elim P (t == "invoice.created") (invoice_created-Carries now event.as_invoice) (
            if_elim P (t == "invoice.updated" || t == "invoice.payment_succeeded")
              (invoice_updated-Carries event.as_invoice) (inl h)))
          (inl h))
