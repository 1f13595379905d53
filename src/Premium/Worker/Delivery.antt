-- ===== src/Premium/Worker/Delivery.antt =====
-- Deliveries to the webhook of hushline/premium.py.
use hushline.Common.{
  ℕ, ◌≡◌, ◌≢◌, refl, inl, inr, false, List, [], ◌∷◌, String, arith, Bool-cases, All, any, ◌==◌,
  string_eq, eq_iff,
}
use hushline.Premium.Work.{StripeEvent}
use hushline.Premium.Worker.{Store, webhook}
use hushline.Premium.Worker.Table.{IsKeyed}

any-false :
    (a : String) (es : List StripeEvent)
    → any (λ e. e.event_id == a) es ≡ false
    → All (λ e. e.event_id ≢ a) es
any-false a [] h = tt
any-false a (x ∷ xs) h = ground (arith, any-false a xs, eq_iff x.event_id a)

-- A delivery keeps the ids unique; a second delivery of the same event, also with another body,
-- changes nothing.
pub webhook-once :
    (id type type' text text' : String) (at at' : ℕ) (st : Store)
    → IsKeyed st.events
    → IsKeyed (webhook id type at text st).events
      × (webhook id type' at' text' (webhook id type at text st) ≡ webhook id type at text st)
unfolding webhook
webhook-once id type type' text text' at at' st k =
    elim (Bool-cases (any (λ e. e.event_id == id) st.events)) [
      | inl seen ↦ rw (seen, seen) (k, refl)
      | inr new ↦ rw new ((any-false id st.events new, k), rw ((eq_iff id id).1 refl))
    ]
