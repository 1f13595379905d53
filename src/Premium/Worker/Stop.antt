-- ===== src/Premium/Worker/Stop.antt =====
-- When an event ends the worker of hushline/premium.py: the insertion of an invoice that the table
-- refuses leaves the session unusable.
use hushline.Common.{
  sym, if◌then◌else◌, ℕ, zero, suc, ◌≡◌, ◌≢◌, refl, ◌∙◌, ap, ◌⊎◌, inl, inr, Bool, true, false, ◌||◌,
  Option, none, some, List, [], ◌∷◌, arith, Bool-cases, any, ◌==◌, string_eq, option_eq, eq_iff,
  if_elim,
}
use text.Mathlib.Text.{starts_with}
use hushline.Model.Enums.{in_progress}
use hushline.Premium.Work.{
  StripeEvent, StripeInvoice, Subscription, Invoice, Work, Outcome, returned, raised,
  integrity_error,
}
use hushline.Premium.Subscription.{
  handle_subscription_created, handle_subscription_updated, handle_subscription_deleted,
}
use hushline.Premium.Invoice.{
  built, new_stripe_invoice, insert_invoice, handle_invoice_created, handle_invoice_updated,
}
use hushline.Premium.Worker.{
  Store, Library, Event, next_event, process, put_event, run_event, worker_round, worker_rounds,
  stopped, settle, taken_up, work_of,
}
use hushline.Premium.Worker.Table.{is_open, older-eq}

abbrev pub AnyEvent : (StripeEvent → Type 0) → List StripeEvent → Type 0
AnyEvent P [] = ⊥
AnyEvent P (e ∷ es) = P e ⊎ AnyEvent P es

-- The worker has ended with an invoice's created event in its hands.
pub record IsStopped (lib : Library) (st : Store) : Type 0 where
  pub ended : st.worker_runs ≡ false
  pub in_hand :
      AnyEvent
        (λ e. (e.status ≡ in_progress) × ((lib.construct e.event_data).type ≡ "invoice.created"))
        st.events

pub put_event-AnyEvent :
    (P : StripeEvent → Type 0) (e e' : StripeEvent) (es : List StripeEvent)
    → next_event es ≡ some e
    → e'.event_id ≡ e.event_id
    → P e'
    → AnyEvent P (put_event e' es)
unfolding next_event
put_event-AnyEvent P e e' [] h i p = cc
put_event-AnyEvent P e e' (x ∷ xs) h i p = elim (Bool-cases (x.event_id == e'.event_id)) [
  | inl same ↦ rw same (inl p)
  | inr other ↦
      let rest = put_event-AnyEvent P e e' xs in
      rw other (
        inr (elim (Bool-cases (is_open x)) [
          | inl t ↦ elim (older-eq x e (next_event xs) (rw t at h)) [
            | inl is ↦ absurd (
                cc (
                  other,
                  (eq_iff x.event_id e'.event_id).1
                      (ap (λ (y : StripeEvent). y.event_id) (sym is) ∙ sym i),
                ))
            | inr later ↦ rest later i p
          ]
          | inr f ↦ rest (rw f at h) i p
        ]))
]

module _ (w : Work) where
  created_fine :
      (sub : Subscription) → (handle_subscription_created sub w).0 ≢ raised integrity_error
  unfolding handle_subscription_created
  created_fine sub = ground arith

  updated_fine :
      (sub : Subscription) → (handle_subscription_updated sub w).0 ≢ raised integrity_error
  unfolding handle_subscription_updated
  updated_fine sub = ground arith

  deleted_fine :
      (sub : Subscription) → (handle_subscription_deleted sub w).0 ≢ raised integrity_error
  unfolding handle_subscription_deleted
  deleted_fine sub = ground arith

  invoice_updated_fine :
      (invoice : Invoice) → (handle_invoice_updated invoice w).0 ≢ raised integrity_error
  unfolding handle_invoice_updated
  invoice_updated_fine invoice = ground arith

  -- No other event than an invoice's created one is refused by the database.
  pub process_integrity :
      (now : ℕ) (event : Event)
      → (process now event w).0 ≡ raised integrity_error
      → event.type ≡ "invoice.created"
  unfolding process
  process_integrity now event =
      let t = event.type in
      let P = λ (r : Outcome × Work). r.0 ≡ raised integrity_error → t ≡ "invoice.created" in
      let idle : P (returned, w) = λ e. absurd cc in
      if_elim P (starts_with t "customer.subscription.")
        (if_elim P (t == "customer.subscription.created")
          (λ e. absurd (created_fine event.as_subscription e))
          (if_elim P (t == "customer.subscription.updated")
            (λ e. absurd (updated_fine event.as_subscription e))
            (if_elim P (t == "customer.subscription.deleted")
              (λ e. absurd (deleted_fine event.as_subscription e)) idle)))
        (if_elim P (starts_with t "invoice.")
          (elim (Bool-cases (t == "invoice.created")) [
            | inl is ↦ λ e. (eq_iff t "invoice.created").0 is
            | inr isnt ↦ rw isnt (
                if_elim P (t == "invoice.updated" || t == "invoice.payment_succeeded")
                  (λ e. absurd (invoice_updated_fine event.as_invoice e)) idle)
          ])
          idle)

-- A worker that has ended does nothing.
pub worker_round-ended :
    (lib : Library) (now : ℕ) (st : Store) → st.worker_runs ≡ false → worker_round lib now st ≡ st
unfolding worker_round
worker_round-ended lib now st h =
    ap
      (λ (runs : Bool).
        if runs
        then elim (next_event st.events) [ none ↦ st | some e ↦ run_event lib now e st ]
        else st)
      h

pub worker_rounds-ended :
    (lib : Library) (now n : ℕ) (st : Store)
    → st.worker_runs ≡ false
    → worker_rounds lib now n st ≡ st
unfolding worker_rounds
worker_rounds-ended lib now zero st h = refl
worker_rounds-ended lib now (suc n) st h =
    ap (worker_rounds lib now n) (worker_round-ended lib now st h)
    ∙ worker_rounds-ended lib now n st h

pub worker_round-takes :
    (lib : Library) (now : ℕ) (st : Store) {e : StripeEvent}
    → st.worker_runs ≡ true
    → next_event st.events ≡ some e
    → worker_round lib now st ≡ run_event lib now e st
unfolding worker_round
worker_round-takes lib now st {e} h next =
    let take_one = λ (o : Option StripeEvent). elim o as (λ o. Store) [
      | none ↦ st
      | some e ↦ run_event lib now e st
    ] in
    ap (λ (runs : Bool). if runs then take_one (next_event st.events) else st) h ∙ ap take_one next

pub worker_round-idle :
    (lib : Library) (now : ℕ) (st : Store)
    → st.worker_runs ≡ true
    → next_event st.events ≡ none
    → worker_round lib now st ≡ st
unfolding worker_round
worker_round-idle lib now st h next =
    let take_one = λ (o : Option StripeEvent). elim o as (λ o. Store) [
      | none ↦ st
      | some e ↦ run_event lib now e st
    ] in
    ap (λ (runs : Bool). if runs then take_one (next_event st.events) else st) h ∙ ap take_one next

process-created :
    (now : ℕ) (event : Event) (w : Work)
    → event.type ≡ "invoice.created"
    → process now event w ≡ handle_invoice_created now event.as_invoice w
unfolding process
process-created now event w h = rw h refl

insert_invoice-refused :
    (row : StripeInvoice) (w : Work)
    → (row.hosted_invoice_url ≡ none)
      ⊎ (any (λ (r : StripeInvoice). r.invoice_id == row.invoice_id) w.invoices ≡ true)
    → insert_invoice row w ≡ (raised integrity_error, w)
unfolding insert_invoice
insert_invoice-refused row w (inl h) = ground arith
insert_invoice-refused row w (inr h) = ground arith

handle_invoice_created-refused :
    (now : ℕ) (invoice : Invoice) (w : Work) {row : StripeInvoice}
    → new_stripe_invoice now invoice w ≡ built row
    → (row.hosted_invoice_url ≡ none)
      ⊎ (any (λ (r : StripeInvoice). r.invoice_id == row.invoice_id) w.invoices ≡ true)
    → handle_invoice_created now invoice w ≡ (raised integrity_error, w)
unfolding handle_invoice_created
handle_invoice_created-refused now invoice w {row} new h =
    rw (new, handle_invoice_created) (insert_invoice-refused row w h)

-- An invoice's created event, next in the queue, whose invoice the table has already, or for whose
-- invoice Stripe has no address yet, ends the worker: the event stays IN_PROGRESS, and however many
-- rounds would follow, no other event is processed and nothing else is changed.
pub refused_invoice_stops_worker :
    (lib : Library) (now n : ℕ) (st : Store) (e : StripeEvent) {row : StripeInvoice}
    → st.worker_runs ≡ true
    → next_event st.events ≡ some e
    → (lib.construct e.event_data).type ≡ "invoice.created"
    → new_stripe_invoice now (lib.construct e.event_data).as_invoice (work_of (taken_up e) st)
      ≡ built row
    → (row.hosted_invoice_url ≡ none)
      ⊎ (any (λ r. r.invoice_id == row.invoice_id) st.invoices ≡ true)
    → worker_rounds lib now (suc n) st ≡ record st {
      events = put_event (record e { status = in_progress }) st.events;
      worker_runs = false;
    }
unfolding worker_rounds run_event
refused_invoice_stops_worker lib now n st e {row} runs next type new refused =
    let event = lib.construct e.event_data in
    let w = work_of (taken_up e) st in
    let handled : process now event w ≡ (raised integrity_error, w) =
      process-created now event w type
      ∙ handle_invoice_created-refused now event.as_invoice w new refused in
    let here : worker_round lib now st ≡ stopped (taken_up e) st =
      worker_round-takes lib now st runs next
      ∙ ap (λ (r : Outcome × Work). settle lib.message r.0 (taken_up e) r.1 st) handled in
    ap (worker_rounds lib now n) here ∙ worker_rounds-ended lib now n (stopped (taken_up e) st) refl
