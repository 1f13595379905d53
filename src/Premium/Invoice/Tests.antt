-- ===== src/Premium/Invoice/Tests.antt =====
-- The theorem on the invoice handlers of hushline/premium.py at a concrete invoice.
use hushline.Common.{◌⊎◌, pos, ◌≡◌, none, some, [], ◌∷◌, map}
use hushline.Model.Samples.{ada}
use hushline.Premium.Work.{Invoice, StripeInvoice, Work}
use hushline.Premium.Invoice.{handle_invoice_created, handle_invoice_updated}
use hushline.Premium.Invoice.Created.{Added, handle_invoice_created-Added}
use hushline.Premium.Invoice.Owner.{owner, handle_invoice_updated-owner}

abbrev stored : StripeInvoice
stored = record {
  customer_id = some "cus_1";
  invoice_id = some "in_1";
  hosted_invoice_url = some "https://example.org/1";
  total = pos 0;
  status = none;
  created_at = 5;
  user_id = 7;
  tier_id = 2;
}

abbrev work : Work
work = record {
  users = ada ∷ [];
  invoices = record stored { invoice_id = some "in_2" } ∷ stored ∷ [];
  tiers = record { id = 2; stripe_product_id = some "prod_1" } ∷ [];
  event = none;
}

abbrev paid : Invoice
paid = record {
  id = some "in_1";
  customer = some "cus_2";
  hosted_invoice_url = none;
  invoice_pdf = none;
  total = pos 2000;
  status = some "paid";
  created = some 9;
  plan = none;
}

-- An invoice of the business tier's product for the user of the other.
abbrev fresh : Invoice
fresh = record paid {
  id = some "in_3";
  customer = some "cus_1";
  hosted_invoice_url = some "https://example.org/3";
  plan = some "prod_1";
}

handle_invoice_updated-owner_example :
    map owner (handle_invoice_updated paid work).1.invoices ≡ map owner work.invoices
handle_invoice_updated-owner_example = handle_invoice_updated-owner paid work

handle_invoice_created-Added_example :
    ((handle_invoice_created 9 fresh work).1.invoices ≡ work.invoices)
    ⊎ Added fresh work (handle_invoice_created 9 fresh work).1.invoices
handle_invoice_created-Added_example = handle_invoice_created-Added 9 fresh work
