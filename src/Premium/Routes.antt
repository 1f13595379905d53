-- ===== src/Premium/Routes.antt =====
-- hushline/premium.py: the routes by which a user subscribes, cancels and changes the renewal. A user's
-- tier rises by Stripe's events alone.
pub mod Tiers
mod Tests
use hushline.Common.{
  ℕ, ◌≡◌, ◌≢◌, refl, sym, ap, ◌∙◌, Bool, true, false, not, ◌&&◌, ◌||◌, Option, none, some, List, [],
  ◌∷◌, String, if◌then◌else◌, ◌==◌, nat_eq, string_eq, option_eq, first, Bool-cases, Option-cases,
  if_elim, arith, inl, inr, All,
}
use hushline.Model.User.{
  User, get_user, put_user, is_business_tier, set_free_tier, free_tier_id, business_tier_id,
}

-- A call of Stripe: its result, an InvalidRequestError, or another StripeError.
pub data Call (A : Type 0) : Type 0 where
  ok : A → Call A
  invalid_request stripe_error : Call A

-- What Stripe answers during one request: ids of customers, and addresses of pages.
pub record Stripe : Type 0 where
  pub modify_customer : String → Call String
  pub create_customer : Call String
  pub create_checkout : Option String → String → Call (Option String)
  pub create_portal : String → Call (Option String)
  pub modify_subscription : String → Bool → Call Unit
  pub delete_subscription : String → Call Unit

-- The business tier's price in the table of tiers, if the tier is there.
abbrev pub Price : Type 0
Price = Option (Option String)

pub data Reply : Type 0 where
  cleared_to_login to_index to_inbox server_error : Reply
  to_url : String → Reply
  tier : Option ℕ → Reply

-- A handler's reply, and the row if it is committed.
abbrev pub Handled : Type 0
Handled = Reply × Option User

-- `create_customer`: the row with a customer's id, or none where a StripeError is raised.
abbrev pub new_customer : User → Call String → Option User
new_customer u (ok id) = some (record u { stripe_customer_id = some id })
new_customer u invalid_request = none
new_customer u stripe_error = none

abbrev pub kept_customer : Stripe → User → Call String → Option User
kept_customer stripe u (ok id) = some u
kept_customer stripe u invalid_request = new_customer u stripe.create_customer
kept_customer stripe u stripe_error = none

abbrev pub customer_of : Stripe → User → Option String → Option User
customer_of stripe u none = new_customer u stripe.create_customer
customer_of stripe u (some id) = kept_customer stripe u (stripe.modify_customer id)

unfoldable pub create_customer : Stripe → User → Option User
create_customer stripe u = customer_of stripe u u.stripe_customer_id

abbrev pub to_page : Option String → Reply
to_page none = server_error
to_page (some url) = if url == "" then server_error else to_url url

abbrev pub check_out : Call (Option String) → Reply
check_out (ok url) = to_page url
check_out invalid_request = server_error
check_out stripe_error = server_error

-- The customer is committed before the checkout.
abbrev pub checkout_for : Stripe → String → Option User → Handled
checkout_for stripe price none = (to_index, none)
checkout_for stripe price (some v) =
    (check_out (stripe.create_checkout v.stripe_customer_id price), some v)

abbrev pub upgrade_at : Stripe → User → Price → Handled
upgrade_at stripe u none = (to_index, none)
upgrade_at stripe u (some none) = (to_index, none)
upgrade_at stripe u (some (some price)) =
    if price == "" then (to_index, none) else checkout_for stripe price (create_customer stripe u)

unfoldable pub upgrade : Stripe → Price → User → Handled
upgrade stripe price u = if is_business_tier u then (to_index, none) else upgrade_at stripe u price

unfoldable pub select_free : User → Handled
select_free u = (to_inbox, if u.tier_id == none then some (set_free_tier u) else none)

abbrev pub portal : Call (Option String) → Reply
portal (ok url) = to_page url
portal invalid_request = to_index
portal stripe_error = to_index

abbrev pub open_portal : Stripe → Option String → Reply
open_portal stripe none = to_index
open_portal stripe (some id) = if id == "" then to_index else portal (stripe.create_portal id)

unfoldable pub update_payment_method : Stripe → User → Handled
update_payment_method stripe u =
    (if is_business_tier u then open_portal stripe u.stripe_customer_id else to_index, none)

-- What is committed if Stripe does as it is asked.
abbrev pub if_ok : Call Unit → User → Handled
if_ok (ok _) v = (to_index, some v)
if_ok invalid_request v = (to_index, none)
if_ok stripe_error v = (to_index, none)

abbrev pub with_subscription : Option String → (String → Handled) → Handled
with_subscription none next = (to_index, none)
with_subscription (some id) next = if id == "" then (to_index, none) else next id

-- `disable_autorenew` and `enable_autorenew`
unfoldable pub set_autorenew : Stripe → Bool → User → Handled
set_autorenew stripe renews u = with_subscription u.stripe_subscription_id (λ id.
    if_ok (stripe.modify_subscription id (not renews))
      (record u { stripe_subscription_cancel_at_period_end = some (not renews) }))

unfoldable pub cancel : Stripe → User → Handled
cancel stripe u =
    with_subscription u.stripe_subscription_id
      (λ id. if_ok (stripe.delete_subscription id) (set_free_tier u))

pub data Route : Type 0 where
  upgrade_route select_free_route payment_method_route cancel_route status_route : Route
  autorenew_route : Bool → Route

unfoldable pub handle_route : Stripe → Price → Route → User → Handled
handle_route stripe price upgrade_route u = upgrade stripe price u
handle_route stripe price select_free_route u = select_free u
handle_route stripe price payment_method_route u = update_payment_method stripe u
handle_route stripe price cancel_route u = cancel stripe u
handle_route stripe price status_route u = (tier u.tier_id, none)
handle_route stripe price (autorenew_route renews) u = set_autorenew stripe renews u

abbrev pub committed : List User → Option User → List User
committed us none = us
committed us (some u) = put_user u us

-- For the session's user, as `db.session.get` finds it.
abbrev pub for_user : List User → Option User → (User → Handled) → Reply × List User
for_user us none next = (cleared_to_login, us)
for_user us (some u) next = let (reply, v) = next u in (reply, committed us v)

unfoldable pub handle_request : Stripe → Price → ℕ → Route → List User → Reply × List User
handle_request stripe price id route us =
    for_user us (get_user id us) (handle_route stripe price route)
