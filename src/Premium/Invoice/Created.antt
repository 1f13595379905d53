-- ===== src/Premium/Invoice/Created.antt =====
-- Which invoices are made: `handle_invoice_created` in hushline/premium.py, and the constructor in
-- hushline/model/stripe_invoice.py.
use hushline.Common.{
  ℕ, ◌≡◌, refl, ap, ◌⊎◌, inl, inr, false, Option, none, some, List, ◌∷◌, String, arith, ◌==◌,
  string_eq, option_eq, Option-cases, Found-cases, Found, absent, one, multiple, one_or_none, any,
}
use hushline.Model.User.{User}
use hushline.Premium.Work.{
  Invoice, StripeInvoice, Tier, Work, Error, value_error, multiple_results, integrity_error,
}
use hushline.Premium.Subscription.{has_customer}
use hushline.Premium.Invoice.{
  Built, built, failed, with_tier, with_plan, new_status, new_stripe_invoice, insert_invoice,
  created_failed, handle_invoice_created,
}

with_tier_sound :
    (row : ℕ → StripeInvoice) (f : Found Tier) (r : StripeInvoice)
    → with_tier row f ≡ built r
    → (t : ℕ) × (r ≡ row t)
with_tier_sound row absent r e = absurd cc
with_tier_sound row (one t) r e = (t.id, cc e)
with_tier_sound row multiple r e = absurd cc

with_plan_sound :
    (tiers : List Tier) (plan : Option String) (row : ℕ → StripeInvoice) (r : StripeInvoice)
    → with_plan tiers plan row ≡ built r
    → (t : ℕ) × (r ≡ row t)
with_plan_sound tiers none row r e = absurd cc
with_plan_sound tiers (some product) row r e =
    with_tier_sound row (one_or_none (λ (t : Tier). t.stripe_product_id == some product) tiers) r e

-- A new invoice belongs to the one user with its customer.
new_stripe_invoice_sound :
    (now : ℕ) (invoice : Invoice) (w : Work) (r : StripeInvoice)
    → new_stripe_invoice now invoice w ≡ built r
    → (u : User) × (one_or_none (has_customer invoice.customer) w.users ≡ one u)
      × (r.user_id ≡ u.id)
unfolding new_stripe_invoice
new_stripe_invoice_sound now invoice w r e = elim (Option-cases (new_status invoice.status)) [
  | inl bad ↦ absurd (cc (rw (new_stripe_invoice, bad) at e))
  | inr (st, good) ↦ elim (Found-cases (one_or_none (has_customer invoice.customer) w.users)) [
    | inl nobody ↦ absurd (cc (rw (new_stripe_invoice, good, nobody) at e))
    | inr (inl (u, found_it)) ↦
        let (t, is_row) =
          with_plan_sound w.tiers invoice.plan _ r (rw (new_stripe_invoice, good, found_it) at e) in
        (u, found_it, ap (λ (x : StripeInvoice). x.user_id) is_row)
    | inr (inr many) ↦ absurd (cc (rw (new_stripe_invoice, good, many) at e))
  ]
]

-- The row that a created event adds, if it adds one.
pub record Added (invoice : Invoice) (w : Work) (after : List StripeInvoice) : Type 0 where
  pub row : StripeInvoice
  pub user : User
  pub added : after ≡ row ∷ w.invoices
  pub customer : one_or_none (has_customer invoice.customer) w.users ≡ one user
  pub owned : row.user_id ≡ user.id
  pub new_id : any (λ (r : StripeInvoice). r.invoice_id == row.invoice_id) w.invoices ≡ false

insert_invoice_sound :
    (r : StripeInvoice) (w : Work)
    → ((insert_invoice r w).1.invoices ≡ w.invoices)
      ⊎ (((insert_invoice r w).1.invoices ≡ r ∷ w.invoices)
          × (any (λ (x : StripeInvoice). x.invoice_id == r.invoice_id) w.invoices ≡ false))
unfolding insert_invoice
insert_invoice_sound r w = ground arith

created_failed-same :
    (invoice : Invoice) (w : Work) → (created_failed invoice w).1.invoices ≡ w.invoices
unfolding created_failed
created_failed-same invoice w = ground arith

Built-cases : (b : Built) → ((r : StripeInvoice) × (b ≡ built r)) ⊎ ((e : Error) × (b ≡ failed e))
Built-cases (built r) = inl (r, refl)
Built-cases (failed e) = inr (e, refl)

-- A created event adds no invoice, or one whose id is new and whose user is the one that has the
-- invoice's customer; the others stay as they are.
pub handle_invoice_created-Added :
    (now : ℕ) (invoice : Invoice) (w : Work)
    → ((handle_invoice_created now invoice w).1.invoices ≡ w.invoices)
      ⊎ Added invoice w (handle_invoice_created now invoice w).1.invoices
unfolding handle_invoice_created
handle_invoice_created-Added now invoice w = elim (Built-cases (new_stripe_invoice now invoice w)) [
  | inl (r, made) ↦
      let (u, found_it, owned) = new_stripe_invoice_sound now invoice w r made in
      elim (insert_invoice_sound r w) [
        | inl same ↦ inl (rw (handle_invoice_created, made) same)
        | inr (added, new) ↦ inr record {
          row = r;
          user = u;
          added = rw (handle_invoice_created, made) added;
          customer = found_it;
          owned = owned;
          new_id = new;
        }
      ]
  | inr (value_error, bad) ↦ inl (rw (handle_invoice_created, bad) (created_failed-same invoice w))
  | inr (multiple_results, bad) ↦ inl (rw (handle_invoice_created, bad) refl)
  | inr (integrity_error, bad) ↦ inl (rw (handle_invoice_created, bad) refl)
]
