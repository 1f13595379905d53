-- ===== src/Premium/Invoice/Owner.antt =====
-- Whose an invoice is: the handlers of hushline/premium.py and hushline/model/stripe_invoice.py.
use hushline.Common.{
  ℕ, ◌≡◌, refl, sym, ap, ◌∙◌, inl, inr, true, false, Option, List, [], ◌∷◌, String, arith, map,
  ◌==◌, string_eq, option_eq, option_beq_iff, Bool-cases, Found-cases, one, found, rows,
  one_or_none,
}
use mathlib.Core.Bool.{false≢true}
use hushline.Premium.Work.{Invoice, StripeInvoice, Work}
use hushline.Premium.Invoice.{
  sync_invoice, put_invoice, updated_unknown_invoice, handle_invoice_updated,
}

-- What ties an invoice to its user: the customer, the user, the tier, and when it was made.
abbrev pub owner : StripeInvoice → Option String × Option String × ℕ × ℕ × ℕ
owner r = (r.invoice_id, r.customer_id, r.user_id, r.tier_id, r.created_at)

put_invoice-none :
    (id : Option String) (v : StripeInvoice) (xs : List StripeInvoice)
    → rows (λ r. r.invoice_id == id) xs ≡ []
    → v.invoice_id ≡ id
    → put_invoice v xs ≡ xs
put_invoice-none id v [] e i = refl
put_invoice-none id v (x ∷ xs) e i = elim (Bool-cases (x.invoice_id == id)) [
  | inl here ↦ absurd (cc (rw here at e))
  | inr other ↦
      let test : (x.invoice_id == v.invoice_id) ≡ false =
        ap (λ (o : Option String). x.invoice_id == o) i ∙ other in
      let rest = put_invoice-none id v xs (rw other at e) i in rw (test, rest) refl
]

found-head :
    (x u : StripeInvoice) (ys : List StripeInvoice) → found (x ∷ ys) ≡ one u → (x ≡ u) × (ys ≡ [])
found-head x u [] e = (cc e, refl)
found-head x u (y ∷ ys) e = absurd cc

found-id :
    (id : Option String) (u : StripeInvoice) (xs : List StripeInvoice)
    → found (rows (λ r. r.invoice_id == id) xs) ≡ one u
    → u.invoice_id ≡ id
found-id id u [] e = absurd cc
found-id id u (x ∷ xs) e = elim (Bool-cases (x.invoice_id == id)) [
  | inl here ↦
      let is_u = (found-head x u (rows (λ r. r.invoice_id == id) xs) (rw here at e)).0 in
      ap (λ (r : StripeInvoice). r.invoice_id) (sym is_u) ∙ (option_beq_iff x.invoice_id id).0 here
  | inr other ↦ found-id id u xs (rw other at e)
]

put_invoice-owner :
    (id : Option String) (u v : StripeInvoice) (xs : List StripeInvoice)
    → found (rows (λ r. r.invoice_id == id) xs) ≡ one u
    → owner v ≡ owner u
    → map owner (put_invoice v xs) ≡ map owner xs
put_invoice-owner id u v [] e o = absurd cc
put_invoice-owner id u v (x ∷ xs) e o = elim (Bool-cases (x.invoice_id == id)) [
  | inl here ↦
      let (is_u, none_left) = found-head x u (rows (λ r. r.invoice_id == id) xs) (rw here at e) in
      let x_id : x.invoice_id ≡ id = (option_beq_iff x.invoice_id id).0 here in
      let same : v.invoice_id ≡ x.invoice_id =
        ap (λ (p : Option String × Option String × ℕ × ℕ × ℕ). p.0) o
        ∙ ap (λ (r : StripeInvoice). r.invoice_id) (sym is_u) in
      let test : (x.invoice_id == v.invoice_id) ≡ true =
        (option_beq_iff x.invoice_id v.invoice_id).1 (sym same) in
      let rest = put_invoice-none id v xs none_left (same ∙ x_id) in
      let whose : owner v ≡ owner x = o ∙ ap owner (sym is_u) in
      rw (test, rest) (ap (λ h. h ∷ map owner xs) whose)
  | inr other ↦
      let rest = put_invoice-owner id u v xs (rw other at e) o in
      elim (Bool-cases (x.invoice_id == v.invoice_id)) [
        | inl clash ↦ absurd (
            false≢true (
              sym other
              ∙ (option_beq_iff x.invoice_id id).1 (
                  (option_beq_iff x.invoice_id v.invoice_id).0 clash
                  ∙ ap (λ (p : Option String × Option String × ℕ × ℕ × ℕ). p.0) o
                  ∙ found-id id u xs (rw other at e))))
        | inr apart ↦ rw (apart, rest) refl
      ]
]

sync_invoice-owner :
    (row : StripeInvoice) (invoice : Invoice) → owner (sync_invoice row invoice).1 ≡ owner row
unfolding sync_invoice
sync_invoice-owner row invoice = ground arith

-- An update of an invoice, also one that raises, neither adds nor drops an invoice, and none gets
-- another id, customer, user, tier or date.
pub handle_invoice_updated-owner :
    (invoice : Invoice) (w : Work)
    → map owner (handle_invoice_updated invoice w).1.invoices ≡ map owner w.invoices
unfolding handle_invoice_updated updated_unknown_invoice
handle_invoice_updated-owner invoice w =
    elim (Found-cases
      (one_or_none (λ (r : StripeInvoice). r.invoice_id == invoice.id) w.invoices)) [
        | inl e ↦ rw (e, handle_invoice_updated) (ground arith)
        | inr (inl (row, e)) ↦
            rw (e, handle_invoice_updated)
              (put_invoice-owner invoice.id row (sync_invoice row invoice).1 w.invoices e
                (sync_invoice-owner row invoice))
        | inr (inr e) ↦ rw (e, handle_invoice_updated) refl
      ]
