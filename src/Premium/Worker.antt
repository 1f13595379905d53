-- ===== src/Premium/Worker.antt =====
-- hushline/premium.py: `webhook`, which stores an event, and one round of `worker`, which takes the
-- oldest pending event, runs its handler and records how it ended. A stored event's text is taken to
-- decode. An IntegrityError leaves the session with its transaction rolled back, and nothing rolls the
-- session back: its next use, in the `except` branch, raises PendingRollbackError and ends the worker.
pub mod Events
pub mod Table
pub mod Queue
pub mod Stop
pub mod Oldest
pub mod Delivery
pub mod Users
pub mod Tests
use hushline.Common.{
  ℕ, Bool, true, false, not, ◌&&◌, ◌||◌, Option, none, some, List, [], ◌∷◌, ◌++◌, String,
  if◌then◌else◌, ◌==◌, string_eq, option_eq, ltb, any, rows,
}
use text.Mathlib.Text.{starts_with}
use hushline.Model.Enums.{EventStatus, pending, in_progress, error, finished, is_pending}
use hushline.Model.User.{User}
use hushline.Premium.Work.{
  StripeEvent, Subscription, Invoice, StripeInvoice, Tier, Work, Outcome, returned, raised, Error,
  value_error, multiple_results, integrity_error,
}
use hushline.Premium.Subscription.{
  handle_subscription_created, handle_subscription_updated, handle_subscription_deleted,
}
use hushline.Premium.Invoice.{handle_invoice_created, handle_invoice_updated}

pub record Store : Type 0 where
  pub users : List User
  pub invoices : List StripeInvoice
  pub tiers : List Tier
  pub events : List StripeEvent
  pub worker_runs : Bool

-- `stripe.Event.construct_from(json.loads(event_data))`: its type, and its object read as either.
pub record Event : Type 0 where
  pub type : String
  pub as_subscription : Subscription
  pub as_invoice : Invoice

-- What the worker takes from outside: the Stripe library's decoding, and `str(e)`.
pub record Library : Type 0 where
  pub construct : String → Event
  pub message : Error → String

-- The dispatch in the `try` block.
pub process : ℕ → Event → Work → Outcome × Work
process now event w =
    if starts_with event.type "customer.subscription."
    then (if event.type == "customer.subscription.created"
        then handle_subscription_created event.as_subscription w
        else if event.type == "customer.subscription.updated"
        then handle_subscription_updated event.as_subscription w
        else if event.type == "customer.subscription.deleted"
        then handle_subscription_deleted event.as_subscription w
        else (returned, w))
    else if starts_with event.type "invoice."
    then (if event.type == "invoice.created"
        then handle_invoice_created now event.as_invoice w
        else if event.type == "invoice.updated" || event.type == "invoice.payment_succeeded"
        then handle_invoice_updated event.as_invoice w
        else (returned, w))
    else (returned, w)

abbrev older : StripeEvent → Option StripeEvent → Option StripeEvent
older e none = some e
older e (some f) = if ltb f.event_created e.event_created then some f else some e

-- `filter_by(status=PENDING).order_by(event_created.asc()).limit(1)`
pub next_event : List StripeEvent → Option StripeEvent
next_event [] = none
next_event (e ∷ es) = if is_pending e.status then older e (next_event es) else next_event es

abbrev pub put_event : StripeEvent → List StripeEvent → List StripeEvent
put_event e [] = []
put_event e (x ∷ xs) = if x.event_id == e.event_id then e ∷ put_event e xs else x ∷ put_event e xs

-- How the row of the event is left: FINISHED, or ERROR with the exception's text.
abbrev close_event : (Error → String) → Outcome → StripeEvent → StripeEvent
close_event message returned e = record e { status = finished }
close_event message (raised x) e = record e { status = error; error_message = some (message x) }

abbrev event_or : Option StripeEvent → StripeEvent → StripeEvent
event_or none d = d
event_or (some e) _ = e

-- The row is IN_PROGRESS and committed, and what the handler wrote is lost.
abbrev pub stopped : StripeEvent → Store → Store
stopped e st = record st { events = put_event e st.events; worker_runs = false }

-- What the worker commits, with the row as the handler left it. What the handler wrote before a
-- ValueError or a MultipleResultsFound is committed, too.
abbrev closed : (Error → String) → Outcome → StripeEvent → Work → Store → Store
closed message out e w st = record {
  users = w.users;
  invoices = w.invoices;
  tiers = w.tiers;
  events = put_event (close_event message out (event_or w.event e)) st.events;
  worker_runs = st.worker_runs;
}

abbrev settle : (Error → String) → Outcome → StripeEvent → Work → Store → Store
settle message returned e w st = closed message returned e w st
settle message (raised value_error) e w st = closed message (raised value_error) e w st
settle message (raised multiple_results) e w st = closed message (raised multiple_results) e w st
settle message (raised integrity_error) e w st = stopped e st

abbrev pub taken_up : StripeEvent → StripeEvent
taken_up e = record e { status = in_progress }

abbrev pub work_of : StripeEvent → Store → Work
work_of e st = record { users = st.users; invoices = st.invoices; tiers = st.tiers; event = some e }

-- The body of the loop once `stripe_event` is in hand.
pub run_event : Library → ℕ → StripeEvent → Store → Store
unfolding process
run_event lib now e st =
    let (out, w) = process now (lib.construct e.event_data) (work_of (taken_up e) st) in
    settle lib.message out (taken_up e) w st

-- One round: with nothing pending the worker sleeps.
pub worker_round : Library → ℕ → Store → Store
unfolding next_event
worker_round lib now st =
    if st.worker_runs
    then elim (next_event st.events) [ none ↦ st | some e ↦ run_event lib now e st ]
    else st

pub worker_rounds : Library → ℕ → ℕ → Store → Store
worker_rounds lib now ℕ.zero st = st
worker_rounds lib now (ℕ.suc n) st = worker_rounds lib now n (worker_round lib now st)

-- `webhook` for a payload whose signature has been verified; `str(event)` is its text.
pub webhook : String → String → ℕ → String → Store → Store
webhook event_id event_type event_created text st =
    if any (λ e. e.event_id == event_id) st.events then st else record st {
      events =
          record {
            event_id = event_id;
            event_type = event_type;
            event_created = event_created;
            event_data = text;
            status = pending;
            error_message = none;
          }
          ∷ st.events;
    }
