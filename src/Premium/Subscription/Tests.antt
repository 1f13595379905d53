-- ===== src/Premium/Subscription/Tests.antt =====
-- The theorems on the subscription handlers of hushline/premium.py at concrete events.
use hushline.Common.{◌≡◌, refl, ◌⊎◌, ◌↔◌, true, false, none, some, [], ◌∷◌, string_eq}
use hushline.Model.Enums.{active, is_terminal, parse_subscription_status}
use hushline.Model.User.{User, get_user, is_business_tier, is_free_tier}
use hushline.Model.User.Table as Users
use hushline.Model.User.Table.{All₂}
use hushline.Model.Samples.{ada}
use hushline.Premium.Work.{Subscription, Work, returned, raised, value_error}
use hushline.Premium.Subscription.{
  handle_subscription_created, handle_subscription_updated, handle_subscription_deleted,
}
use hushline.Premium.Subscription.Transitions.{updated, handle, Allowed, IsPaying, handle-Allowed}
use hushline.Premium.Subscription.Effects.{updated-in_step, deleted-downgrades, created_partial}

abbrev pub paid : Subscription
paid = record {
  id = "sub_1";
  customer = some "cus_1";
  status = "active";
  cancel_at_period_end = false;
  current_period_end = 200;
  current_period_start = 100;
}

abbrev pub odd : Subscription
odd = record paid { id = "sub_2"; status = "unheard_of" }

abbrev work : Work
work = record { users = ada ∷ []; invoices = []; tiers = []; event = none }

pub ada-IsKeyed : Users.IsKeyed (ada ∷ [])
ada-IsKeyed = (tt, tt)

handle-Allowed_example : All₂ (Allowed updated paid) work.users (handle updated paid work).1.users
handle-Allowed_example = handle-Allowed updated paid work ada-IsKeyed

update_is_in_step :
    ((handle_subscription_updated paid work).0 ≡ returned)
    × (u' : User) × (get_user 7 (handle_subscription_updated paid work).1.users ≡ some u')
    × (u'.stripe_subscription_status ≡ some active)
    × (u'.stripe_subscription_cancel_at_period_end ≡ some false)
    × (u'.stripe_subscription_current_period_end ≡ some 200)
    × ((is_business_tier u' ≡ true) ↔ IsPaying paid)
unfolding parse_subscription_status
update_is_in_step = updated-in_step paid active work ada refl refl refl refl

deleted_is_downgraded :
    ((handle_subscription_deleted paid work).0 ≡ returned)
    × (u' : User) × (get_user 7 (handle_subscription_deleted paid work).1.users ≡ some u')
    × (is_free_tier u' ≡ true)
    × (is_business_tier u' ≡ false)
    × ((is_terminal ada.stripe_subscription_status ≡ true)
        ⊎ ((u'.stripe_subscription_id ≡ none) × (u'.stripe_subscription_status ≡ none)))
deleted_is_downgraded = deleted-downgrades paid work ada refl

unknown_status_keeps_id :
    ((handle_subscription_created odd work).0 ≡ raised value_error)
    × (u' : User) × (get_user 7 (handle_subscription_created odd work).1.users ≡ some u')
    × (u'.stripe_subscription_id ≡ some "sub_2")
    × (u'.stripe_subscription_status ≡ none)
unfolding parse_subscription_status
unknown_status_keeps_id = created_partial odd work ada refl refl refl
