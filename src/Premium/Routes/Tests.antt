-- ===== src/Premium/Routes/Tests.antt =====
-- The routes of hushline/premium.py on concrete requests.
use hushline.Common.{◌≡◌, refl, true, false, none, some, List, [], ◌∷◌}
use hushline.Model.User.Table.{All₂}
use hushline.Model.User.{User, set_free_tier}
use hushline.Model.Samples.{ada}
use hushline.Premium.Subscription.Tests.{ada-IsKeyed}
use hushline.Premium.Routes.{
  ok, invalid_request, stripe_error, Stripe, Price, Reply, cleared_to_login, to_index, to_inbox,
  server_error, to_url, upgrade_route, select_free_route, payment_method_route, cancel_route,
  status_route, autorenew_route, create_customer, upgrade, cancel, handle_request,
}
use hushline.Premium.Routes.Tiers.{IsKept, Asked, handle_each, routes_never_upgrade}

-- The customer is gone, the checkout fails, and all else works.
abbrev stripe : Stripe
stripe = record {
  modify_customer = λ _. invalid_request;
  create_customer = ok "cus_2";
  create_checkout = λ _ _. stripe_error;
  create_portal = λ _. ok (some "https://billing");
  modify_subscription = λ _ _. ok tt;
  delete_subscription = λ _. ok tt;
}

abbrev down : Stripe
down = record stripe { delete_subscription = λ _. stripe_error; create_customer = stripe_error }

abbrev price : Price
price = some (some "price_1")

abbrev member : User
member = record ada { tier_id = some 2 }

-- The new customer stays on the row when the checkout fails.
failed_checkout :
    upgrade stripe price ada
    ≡ (server_error, some (record ada { stripe_customer_id = some "cus_2" }))
unfolding upgrade create_customer
failed_checkout = refl

no_customer : upgrade down price ada ≡ (to_index, none)
unfolding upgrade create_customer
no_customer = refl

upgraded_already : upgrade stripe price member ≡ (to_index, none)
unfolding upgrade
upgraded_already = refl

cancelled : cancel stripe member ≡ (to_index, some (set_free_tier member))
unfolding cancel
cancelled = refl

not_cancelled : cancel down member ≡ (to_index, none)
unfolding cancel
not_cancelled = refl

portal_opens :
    (handle_request stripe price 7 payment_method_route (member ∷ [])).0 ≡ to_url "https://billing"
unfolding handle_request hushline.Premium.Routes.handle_route
    hushline.Premium.Routes.update_payment_method
portal_opens = refl

nobody : handle_request stripe price 8 status_route (ada ∷ []) ≡ (cleared_to_login, ada ∷ [])
unfolding handle_request
nobody = refl

abbrev requests : List Asked
requests =
    (stripe, price, 7, upgrade_route)
    ∷ (stripe, price, 7, autorenew_route false)
    ∷ (down, price, 7, cancel_route)
    ∷ (stripe, none, 8, status_route)
    ∷ []

after_requests :
    handle_each requests (ada ∷ [])
    ≡ record ada {
      stripe_customer_id = some "cus_2";
      stripe_subscription_cancel_at_period_end = some true;
    }
      ∷ []
unfolding handle_each handle_request hushline.Premium.Routes.handle_route
    hushline.Premium.Routes.upgrade hushline.Premium.Routes.create_customer
    hushline.Premium.Routes.set_autorenew hushline.Premium.Routes.cancel
after_requests = refl

routes_never_upgrade_example : All₂ IsKept (ada ∷ []) (handle_each requests (ada ∷ []))
routes_never_upgrade_example = routes_never_upgrade requests (ada ∷ []) ada-IsKeyed
