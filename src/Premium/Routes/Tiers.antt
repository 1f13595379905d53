-- ===== src/Premium/Routes/Tiers.antt =====
-- hushline/premium.py: what its routes leave of the users' rows.
use hushline.Common.{
  ℕ, ◌≡◌, ◌≢◌, refl, ap, ◌∙◌, true, not, Option, none, some, List, [], ◌∷◌, String, ◌==◌, nat_eq,
  string_eq, option_eq, nat_beq_iff, All, rows, one, one_or_none, Bool-cases, Option-cases, if_elim,
  arith, inl, inr,
}
use hushline.Model.User.{User, get_user, is_business_tier, set_free_tier}
use hushline.Model.User.Table.{IsKeyed, All₂, All₂-refl, put_user-one, All₂-IsKeyed, All₂-trans}
use hushline.Premium.Routes.{
  Call, ok, invalid_request, stripe_error, Stripe, Price, Handled, new_customer, kept_customer,
  customer_of, create_customer, checkout_for, upgrade_at, upgrade, select_free,
  update_payment_method, if_ok, with_subscription, set_autorenew, cancel, Route, upgrade_route,
  select_free_route, payment_method_route, cancel_route, status_route, autorenew_route,
  handle_route, committed, handle_request,
}

-- Only the tier, the customer's id and the renewal change, and the tier does not become business.
abbrev pub IsKept : User → User → Type 0
IsKept u v =
    (v ≡ record u {
      tier_id = v.tier_id;
      stripe_customer_id = v.stripe_customer_id;
      stripe_subscription_cancel_at_period_end = v.stripe_subscription_cancel_at_period_end;
    })
    × (is_business_tier v ≡ true → is_business_tier u ≡ true)

IsKept-refl : (u : User) → IsKept u u
IsKept-refl u = (refl, λ h. h)

IsKept-trans : (u v w : User) → IsKept u v → IsKept v w → IsKept u w
IsKept-trans u v w (a, f) (b, g) = (
  b
      ∙ ap
          (λ (x : User). record x {
            tier_id = w.tier_id;
            stripe_customer_id = w.stripe_customer_id;
            stripe_subscription_cancel_at_period_end = w.stripe_subscription_cancel_at_period_end;
          })
          a,
  λ h. f (g h),
)

-- What a handler commits.
abbrev Keeps : User → Option User → Type 0
Keeps u none = Unit
Keeps u (some v) = IsKept u v

abbrev KeepsIn : User → Handled → Type 0
KeepsIn u h = Keeps u h.1

new_customer-Keeps : (u : User) (c : Call String) → Keeps u (new_customer u c)
new_customer-Keeps u (ok id) = (refl, λ h. h)
new_customer-Keeps u invalid_request = tt
new_customer-Keeps u stripe_error = tt

kept_customer-Keeps :
    (stripe : Stripe) (u : User) (c : Call String) → Keeps u (kept_customer stripe u c)
kept_customer-Keeps stripe u (ok id) = IsKept-refl u
kept_customer-Keeps stripe u invalid_request = new_customer-Keeps u stripe.create_customer
kept_customer-Keeps stripe u stripe_error = tt

customer_of-Keeps :
    (stripe : Stripe) (u : User) (id : Option String) → Keeps u (customer_of stripe u id)
customer_of-Keeps stripe u none = new_customer-Keeps u stripe.create_customer
customer_of-Keeps stripe u (some id) = kept_customer-Keeps stripe u (stripe.modify_customer id)

checkout_for-Keeps :
    (stripe : Stripe) (price : String) (u : User) (v : Option User)
    → Keeps u v
    → KeepsIn u (checkout_for stripe price v)
checkout_for-Keeps stripe price u none k = tt
checkout_for-Keeps stripe price u (some v) k = k

upgrade_at-Keeps :
    (stripe : Stripe) (u : User) (price : Price) → KeepsIn u (upgrade_at stripe u price)
unfolding create_customer
upgrade_at-Keeps stripe u none = tt
upgrade_at-Keeps stripe u (some none) = tt
upgrade_at-Keeps stripe u (some (some price)) =
    if_elim (KeepsIn u) (price == "") tt
      (checkout_for-Keeps stripe price u _ (customer_of-Keeps stripe u u.stripe_customer_id))

if_ok-Keeps : (u v : User) (c : Call Unit) → IsKept u v → KeepsIn u (if_ok c v)
if_ok-Keeps u v (ok _) k = k
if_ok-Keeps u v invalid_request k = tt
if_ok-Keeps u v stripe_error k = tt

with_subscription-Keeps :
    (u : User) (id : Option String) (next : String → Handled)
    → ((i : String) → KeepsIn u (next i))
    → KeepsIn u (with_subscription id next)
with_subscription-Keeps u none next h = tt
with_subscription-Keeps u (some i) next h = if_elim (KeepsIn u) (i == "") tt (h i)

set_free_tier-IsKept : (u : User) → IsKept u (set_free_tier u)
set_free_tier-IsKept u = (refl, λ h. cc h)

handle_route-Keeps :
    (stripe : Stripe) (price : Price) (route : Route) (u : User)
    → KeepsIn u (handle_route stripe price route u)
unfolding handle_route upgrade select_free update_payment_method set_autorenew cancel
handle_route-Keeps stripe price upgrade_route u =
    if_elim (KeepsIn u) (is_business_tier u) tt (upgrade_at-Keeps stripe u price)
handle_route-Keeps stripe price select_free_route u =
    if_elim (Keeps u) (u.tier_id == none) (set_free_tier-IsKept u) tt
handle_route-Keeps stripe price payment_method_route u = tt
handle_route-Keeps stripe price cancel_route u =
    with_subscription-Keeps u u.stripe_subscription_id _
      (λ i. if_ok-Keeps u _ (stripe.delete_subscription i) (set_free_tier-IsKept u))
handle_route-Keeps stripe price status_route u = tt
handle_route-Keeps stripe price (autorenew_route renews) u =
    with_subscription-Keeps u u.stripe_subscription_id _
      (λ i. if_ok-Keeps u _ (stripe.modify_subscription i (not renews)) (refl, λ h. h))

no_more : (i : ℕ) (us : List User) → All (λ u. u.id ≢ i) us → rows (λ (w : User). w.id == i) us ≡ []
no_more i [] h = refl
no_more i (u ∷ us) (n, h) = ground (arith, no_more i us h)

get_user-one :
    (i : ℕ) (us : List User) {u : User}
    → IsKeyed us
    → get_user i us ≡ some u
    → one_or_none (λ (w : User). w.id == i) us ≡ one u
get_user-one i [] k e = cc
get_user-one i (v ∷ us) {u} (f, k) e = elim (Bool-cases (v.id == i)) [
  | inl b ↦
      let q : v ≡ u = cc (rw b at e) in
      rw (b, no_more i us (rw ((nat_beq_iff v.id i).0 b) at f)) (ap one q)
  | inr b ↦ rw b (get_user-one i us k (rw b at e))
]

committed-IsKept :
    (i : ℕ) (us : List User) {u : User} (v : Option User)
    → IsKeyed us
    → get_user i us ≡ some u
    → Keeps u v
    → All₂ IsKept us (committed us v)
committed-IsKept i us none k e h = All₂-refl IsKept IsKept-refl us
committed-IsKept i us (some v) k e h =
    put_user-one IsKept (λ w. w.id == i) _ v us IsKept-refl k (get_user-one i us k e)
      (ap (λ (x : User). x.id) h.0) h

handle_request-IsKept :
    (stripe : Stripe) (price : Price) (i : ℕ) (route : Route) (us : List User)
    → IsKeyed us
    → All₂ IsKept us (handle_request stripe price i route us).1
unfolding handle_request
handle_request-IsKept stripe price i route us k = elim (Option-cases (get_user i us)) [
  | inl e ↦ rw e (All₂-refl IsKept IsKept-refl us)
  | inr (u, e) ↦ rw e (
      committed-IsKept i us (handle_route stripe price route u).1 k e
        (handle_route-Keeps stripe price route u))
]

-- A request to one of the routes: what Stripe answers, the business tier, the session's user.
abbrev pub Asked : Type 0
Asked = Stripe × Price × ℕ × Route

unfoldable pub handle_each : List Asked → List User → List User
handle_each [] us = us
handle_each ((stripe, price, i, route) ∷ rs) us =
    handle_each rs (handle_request stripe price i route us).1

-- Whatever users ask of the routes, and whatever Stripe answers, no user is added or dropped, no user
-- gets on the business tier, and of the columns of a row only the tier, the customer's id and the
-- renewal change; if the users' ids are different. The subscription and its status are Stripe's
-- events' to write.
pub routes_never_upgrade :
    (rs : List Asked) (us : List User) → IsKeyed us → All₂ IsKept us (handle_each rs us)
unfolding handle_each
routes_never_upgrade [] us k = All₂-refl IsKept IsKept-refl us
routes_never_upgrade ((stripe, price, i, route) ∷ rs) us k =
    let first = handle_request-IsKept stripe price i route us k in
    All₂-trans IsKept us (handle_request stripe price i route us).1 _ IsKept-trans first (
      routes_never_upgrade rs _
        (All₂-IsKeyed IsKept us _ (λ u v h. ap (λ (x : User). x.id) h.0) first k))
