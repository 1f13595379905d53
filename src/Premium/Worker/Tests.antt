-- ===== src/Premium/Worker/Tests.antt =====
-- The theorems on the worker of hushline/premium.py at concrete events.
use hushline.Common.{
  false, pos, ◌≡◌, refl, ◌⊎◌, inl, true, false, none, some, [], ◌∷◌, arith, count, map,
  if◌then◌else◌, ◌==◌, string_eq, eq_iff,
}
use hushline.Model.Enums.{pending, in_progress, finished, error, parse_subscription_status}
use hushline.Model.User.Table.{All₂}
use hushline.Model.Samples.{ada}
use hushline.Premium.Work.{StripeEvent, StripeInvoice, Invoice}
use hushline.Premium.Invoice.{built, new_stripe_invoice}
use hushline.Premium.Worker.Stop.{IsStopped, refused_invoice_stops_worker}
use hushline.Premium.Subscription.{handle_subscription_updated}
use hushline.Premium.Worker.{
  Store, Library, taken_up, work_of, next_event, process, run_event, worker_rounds, worker_round,
  webhook,
}
use hushline.Premium.Worker.Table
use hushline.Premium.Worker.Table.{is_open}
use hushline.Premium.Worker.Queue.{Progress, worker_round-Progress, worker_rounds-drain}
use hushline.Premium.Worker.Oldest.{NoneBefore, next_event-oldest}
use hushline.Premium.Worker.Delivery.{webhook-once}
use hushline.Premium.Worker.Users.{Kept, worker_rounds-Kept}
use hushline.Premium.Subscription.Tests.{paid, odd, ada-IsKeyed}

abbrev second_event : StripeEvent
second_event = record {
  event_id = "evt_2";
  event_type = "customer.subscription.updated";
  event_created = 20;
  event_data = "updated";
  status = pending;
  error_message = none;
}

abbrev first_event : StripeEvent
first_event = record second_event { event_id = "evt_1"; event_created = 10; event_data = "odd" }

abbrev store : Store
store = record {
  users = ada ∷ [];
  invoices = [];
  tiers = [];
  events = second_event ∷ first_event ∷ [];
  worker_runs = true;
}

abbrev bill : Invoice
bill = record {
  id = some "in_1";
  customer = some "cus_1";
  hosted_invoice_url = none;
  invoice_pdf = none;
  total = pos 2000;
  status = some "paid";
  created = some 5;
  plan = none;
}

abbrev library : Library
library = record {
  construct = λ text. record {
    type = "customer.subscription.updated";
    as_subscription = if text == "odd" then odd else paid;
    as_invoice = bill;
  };
  message = λ e. "failed";
}

store-IsKeyed : Table.IsKeyed store.events
store-IsKeyed = ((ground (arith, eq_iff "evt_1" "evt_2"), tt), (tt, tt))

-- The two events are taken by their age: the odd one ends in an error, the other upgrades the user.
rounds_example :
    map (λ (e : StripeEvent). e.status) (worker_rounds library 30 2 store).events
    ≡ finished ∷ error ∷ []
unfolding worker_rounds worker_round run_event process next_event handle_subscription_updated
    parse_subscription_status
rounds_example = refl

one_round_closes :
    Table.IsKeyed (worker_round library 30 store).events
    × Progress library store (worker_round library 30 store)
one_round_closes = worker_round-Progress library 30 store refl store-IsKeyed

worker_rounds-drain_example :
    ((count is_open (worker_rounds library 30 2 store).events ≡ 0)
      × ((worker_rounds library 30 2 store).worker_runs ≡ true))
    ⊎ IsStopped library (worker_rounds library 30 2 store)
worker_rounds-drain_example = worker_rounds-drain library 30 2 store refl store-IsKeyed refl

-- A draft invoice, which has no address yet.
abbrev drafts : Library
drafts = record library {
  construct = λ text. record {
    type = "invoice.created";
    as_subscription = paid;
    as_invoice = record bill { plan = some "prod_1"; status = none };
  };
}

abbrev shop : Store
shop = record store { tiers = record { id = 2; stripe_product_id = some "prod_1" } ∷ [] }

abbrev unsent : StripeInvoice
unsent = record {
  customer_id = some "cus_1";
  invoice_id = some "in_1";
  hosted_invoice_url = none;
  total = pos 2000;
  status = none;
  created_at = 5;
  user_id = 7;
  tier_id = 2;
}

unsent_is_built :
    new_stripe_invoice 30
      (record bill { plan = some "prod_1"; status = none })
      (work_of (taken_up first_event) shop)
    ≡ built unsent
unfolding new_stripe_invoice
unsent_is_built = refl

next_event_example : next_event store.events ≡ some first_event
unfolding next_event
next_event_example = refl

refused_invoice_stops_worker_example : worker_rounds drafts 30 3 shop ≡ record shop {
  events = second_event ∷ record first_event { status = in_progress } ∷ [];
  worker_runs = false;
}
refused_invoice_stops_worker_example =
    refused_invoice_stops_worker drafts 30 2 shop first_event refl next_event_example refl
      unsent_is_built (inl refl)

oldest_of_store : (is_open first_event ≡ true) × NoneBefore 10 store.events
oldest_of_store = next_event-oldest store.events first_event next_event_example

webhook-once_example :
    Table.IsKeyed (webhook "evt_3" "invoice.created" 30 "bill" store).events
    × (webhook "evt_3" "invoice.updated" 40 "again"
          (webhook "evt_3" "invoice.created" 30 "bill" store)
        ≡ webhook "evt_3" "invoice.created" 30 "bill" store)
webhook-once_example =
    webhook-once "evt_3" "invoice.created" "invoice.updated" "bill" "again" 30 40 store
      store-IsKeyed

worker_rounds-Kept_example : All₂ Kept store.users (worker_rounds library 30 2 store).users
worker_rounds-Kept_example = worker_rounds-Kept library 30 2 store ada-IsKeyed
