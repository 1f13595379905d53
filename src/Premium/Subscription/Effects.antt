-- ===== src/Premium/Subscription/Effects.antt =====
-- What the handlers of hushline/premium.py write to the row of the subscription's user.
use hushline.Common.{
  ◌≡◌, ◌↔◌, refl, ◌⊎◌, inl, inr, true, false, ◌||◌, none, some, arith, Bool-cases, ◌==◌, string_eq,
  option_eq, one_or_none, one, eq_iff,
}
use hushline.Model.Enums.{SubscriptionStatus, is_terminal, parse_subscription_status}
use hushline.Model.User.{User, get_user, is_business_tier, is_free_tier}
use hushline.Model.User.Table.{get_user-put_user}
use hushline.Premium.Work.{Subscription, Work, returned, raised, value_error}
use hushline.Premium.Subscription.{
  has_customer, has_subscription, created_for, handle_subscription_created, updated_for,
  handle_subscription_updated, deleted_for, handle_subscription_deleted,
}
use hushline.Premium.Subscription.Transitions.{IsPaying}

-- An update of a known subscription to a status that Stripe bills leaves the user's row in step
-- with it: the same status, the same periods, and the business tier exactly if it is active or
-- trialing.
pub updated-in_step :
    (sub : Subscription) (st : SubscriptionStatus) (w : Work) (u : User)
    → one_or_none (has_subscription sub.id) w.users ≡ one u
    → parse_subscription_status sub.status ≡ some st
    → is_terminal u.stripe_subscription_status ≡ false
    → is_terminal (some st) ≡ false
    → ((handle_subscription_updated sub w).0 ≡ returned)
      × (u' : User) × (get_user u.id (handle_subscription_updated sub w).1.users ≡ some u')
      × (u'.stripe_subscription_status ≡ some st)
      × (u'.stripe_subscription_cancel_at_period_end ≡ some sub.cancel_at_period_end)
      × (u'.stripe_subscription_current_period_end ≡ some sub.current_period_end)
      × ((is_business_tier u' ≡ true) ↔ IsPaying sub)
unfolding handle_subscription_updated updated_for
updated-in_step sub st w u e good live live' =
    elim (Bool-cases (sub.status == "active" || sub.status == "trialing")) [
      | inl paid ↦
          rw (good, handle_subscription_updated, e, updated_for, live, live', paid)
            (
              refl,
              _,
              get_user-put_user (has_subscription sub.id) u _ w.users e refl,
              refl,
              refl,
              refl,
              (
                λ _. ground (arith, eq_iff sub.status "active", eq_iff sub.status "trialing"),
                λ _. refl,
              ),
            )
      | inr unpaid ↦
          rw (good, handle_subscription_updated, e, updated_for, live, live', unpaid)
            (
              refl,
              _,
              get_user-put_user (has_subscription sub.id) u _ w.users e refl,
              refl,
              refl,
              refl,
              (
                λ h. cc,
                λ p. ground (arith, eq_iff sub.status "active", eq_iff sub.status "trialing"),
              ),
            )
    ]

-- A deletion takes the user off the business tier; unless the subscription had expired
-- incomplete, it also clears every trace of it.
pub deleted-downgrades :
    (sub : Subscription) (w : Work) (u : User)
    → one_or_none (has_subscription sub.id) w.users ≡ one u
    → ((handle_subscription_deleted sub w).0 ≡ returned)
      × (u' : User) × (get_user u.id (handle_subscription_deleted sub w).1.users ≡ some u')
      × (is_free_tier u' ≡ true)
      × (is_business_tier u' ≡ false)
      × ((is_terminal u.stripe_subscription_status ≡ true)
          ⊎ ((u'.stripe_subscription_id ≡ none) × (u'.stripe_subscription_status ≡ none)))
unfolding handle_subscription_deleted deleted_for
deleted-downgrades sub w u e = elim (Bool-cases (is_terminal u.stripe_subscription_status)) [
  | inl t ↦
      rw (e, handle_subscription_deleted, deleted_for, t)
        (
          refl,
          _,
          get_user-put_user (has_subscription sub.id) u _ w.users e refl,
          refl,
          refl,
          inl refl,
        )
  | inr f ↦
      rw (e, handle_subscription_deleted, deleted_for, f)
        (
          refl,
          _,
          get_user-put_user (has_subscription sub.id) u _ w.users e refl,
          refl,
          refl,
          inr (refl, refl),
        )
]

-- A created event whose status is unknown raises after the subscription's id has been assigned:
-- the row then holds the new subscription with the status of the old one.
pub created_partial :
    (sub : Subscription) (w : Work) (u : User)
    → one_or_none (has_customer sub.customer) w.users ≡ one u
    → is_terminal u.stripe_subscription_status ≡ false
    → parse_subscription_status sub.status ≡ none
    → ((handle_subscription_created sub w).0 ≡ raised value_error)
      × (u' : User) × (get_user u.id (handle_subscription_created sub w).1.users ≡ some u')
      × (u'.stripe_subscription_id ≡ some sub.id)
      × (u'.stripe_subscription_status ≡ u.stripe_subscription_status)
unfolding handle_subscription_created created_for
created_partial sub w u e live bad =
    rw (e, handle_subscription_created, created_for, live, bad)
      (refl, _, get_user-put_user (has_customer sub.customer) u _ w.users e refl, refl, refl)
