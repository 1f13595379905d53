-- ===== src/Premium/Subscription/Transitions.antt =====
-- What a subscription event may do to each row of `users`, over all branches of the handlers.
use hushline.Common.{
  false, ◌≡◌, refl, ◌⊎◌, inl, inr, true, not, ◌||◌, ◌&&◌, some, arith, Bool-cases, Option-cases,
  ◌==◌, string_eq, option_eq, option_beq_iff, nat_eq, Found-cases, one_or_none, is_some, one,
  eq_iff,
}
use hushline.Model.Enums.{SubscriptionStatus, is_terminal, parse_subscription_status}
use hushline.Model.User.{User, is_business_tier}
use hushline.Model.User.Table.{IsKeyed, All₂, All₂-refl, put_user-one, one_or_none-holds}
use hushline.Premium.Work.{Subscription, Work, Outcome}
use hushline.Premium.Subscription.{
  has_customer, has_subscription, created_for, handle_subscription_created, updated_for,
  updated_unknown, handle_subscription_updated, deleted_for, deleted_unknown,
  handle_subscription_deleted,
}

pub data Kind : Type 0 where
  created updated deleted : Kind

-- The dispatch of `worker` on the names of the subscription events.
unfoldable pub handle : Kind → Subscription → Work → Outcome × Work
handle created = handle_subscription_created
handle updated = handle_subscription_updated
handle deleted = handle_subscription_deleted

-- The statuses under which Stripe's customer has paid.
abbrev pub IsPaying : Subscription → Type 0
IsPaying sub = (sub.status ≡ "active") ⊎ (sub.status ≡ "trialing")

-- The specification, with no reference to the handlers' tests: the account stays the same
-- account, only a paid update of its own subscription puts it on the business tier, and an
-- expired subscription stays expired and never gains the tier.
pub record Allowed (kind : Kind) (sub : Subscription) (u u' : User) : Type 0 where
  pub same_id : u'.id ≡ u.id
  pub same_admin : u'.is_admin ≡ u.is_admin
  pub same_session : u'.session_id ≡ u.session_id
  pub same_password : u'.password_hash ≡ u.password_hash
  pub same_totp : u'.totp_secret ≡ u.totp_secret
  pub same_customer : u'.stripe_customer_id ≡ u.stripe_customer_id
  pub upgraded :
      (is_business_tier u' ≡ false)
      ⊎ (is_business_tier u ≡ true)
      ⊎ ((kind ≡ updated) × IsPaying sub × (u.stripe_subscription_id ≡ some sub.id))
  pub expired :
      (is_terminal u.stripe_subscription_status ≡ false)
      ⊎ ((is_terminal u'.stripe_subscription_status ≡ true)
          × ((is_business_tier u' ≡ false) ⊎ (is_business_tier u ≡ true)))

Allowed-refl : (kind : Kind) (sub : Subscription) (u : User) → Allowed kind sub u u
Allowed-refl kind sub u = record {
  same_id = refl;
  same_admin = refl;
  same_session = refl;
  same_password = refl;
  same_totp = refl;
  same_customer = refl;
  upgraded = ground arith;
  expired = ground arith;
}

module _ (sub : Subscription) (w : Work) (k : IsKeyed w.users) where
  same : (kind : Kind) → All₂ (Allowed kind sub) w.users w.users
  same kind = All₂-refl (Allowed kind sub) (Allowed-refl kind sub) w.users

  created_for-Allowed :
      (u : User)
      → one_or_none (has_customer sub.customer) w.users ≡ one u
      → All₂ (Allowed created sub) w.users (created_for sub u w).1.users
  unfolding created_for
  created_for-Allowed u e =
      let save = λ (v : User) (i : v.id ≡ u.id) (r : Allowed created sub u v).
        put_user-one (Allowed created sub) (has_customer sub.customer) u v w.users
          (Allowed-refl created sub) k e i r in
      elim (Bool-cases (is_terminal u.stripe_subscription_status)) [
        | inl t ↦ rw t (same created)
        | inr f ↦ elim (Option-cases (parse_subscription_status sub.status)) [
          | inl bad ↦ rw (f, bad) (save _ refl (ground arith))
          | inr (st, good) ↦ rw (f, good) (save _ refl (ground arith))
        ]
      ]

  updated_for-Allowed :
      (st : SubscriptionStatus) (u : User)
      → one_or_none (has_subscription sub.id) w.users ≡ one u
      → All₂ (Allowed updated sub) w.users (updated_for sub st u w).1.users
  unfolding updated_for
  updated_for-Allowed st u e =
      let mine : u.stripe_subscription_id ≡ some sub.id =
        (option_beq_iff u.stripe_subscription_id (some sub.id)).0
          (one_or_none-holds (has_subscription sub.id) u w.users e) in
      let save = λ (v : User) (i : v.id ≡ u.id) (r : Allowed updated sub u v).
        put_user-one (Allowed updated sub) (has_subscription sub.id) u v w.users
          (Allowed-refl updated sub) k e i r in
      elim (Bool-cases (is_terminal u.stripe_subscription_status && not (is_terminal (some st)))) [
        | inl t ↦ rw t (same updated)
        | inr f ↦ elim (Bool-cases (is_terminal (some st))) [
          | inl t ↦ rw (f, t) (save _ refl (ground arith))
          | inr g ↦ elim (Bool-cases (sub.status == "active" || sub.status == "trialing")) [
            | inl paid ↦
                rw (f, g, paid)
                  (save _ refl
                    (ground (arith, eq_iff sub.status "active", eq_iff sub.status "trialing")))
            | inr unpaid ↦ rw (f, g, unpaid) (save _ refl (ground arith))
          ]
        ]
      ]

  deleted_for-Allowed :
      (u : User)
      → one_or_none (has_subscription sub.id) w.users ≡ one u
      → All₂ (Allowed deleted sub) w.users (deleted_for u w).1.users
  unfolding deleted_for
  deleted_for-Allowed u e =
      let save = λ (v : User) (i : v.id ≡ u.id) (r : Allowed deleted sub u v).
        put_user-one (Allowed deleted sub) (has_subscription sub.id) u v w.users
          (Allowed-refl deleted sub) k e i r in
      elim (Bool-cases (is_terminal u.stripe_subscription_status)) [
        | inl t ↦ rw t (save _ refl (ground arith))
        | inr f ↦ rw f (save _ refl (ground arith))
      ]

  updated_unknown-same : (updated_unknown sub w).1.users ≡ w.users
  unfolding updated_unknown
  updated_unknown-same = ground arith

  deleted_unknown-same : (deleted_unknown sub w).1.users ≡ w.users
  unfolding deleted_unknown
  deleted_unknown-same = ground arith

-- Whatever a subscription event says and however its handler ends, also by an exception: in each
-- row of `users` the account stays the same, the business tier is gained only by an update to an
-- active or trialing status of the subscription that the row holds, and an expired incomplete
-- subscription stays expired without gaining the tier.
pub handle-Allowed :
    (kind : Kind) (sub : Subscription) (w : Work)
    → IsKeyed w.users
    → All₂ (Allowed kind sub) w.users (handle kind sub w).1.users
unfolding handle handle_subscription_created handle_subscription_updated handle_subscription_deleted
handle-Allowed created sub w k =
    elim (Found-cases (one_or_none (has_customer sub.customer) w.users)) [
      | inl e ↦ elim (Bool-cases (is_some w.event && is_some sub.customer)) [
        | inl t ↦ rw (e, handle_subscription_created, t) (same sub w k created)
        | inr f ↦ rw (e, handle_subscription_created, f) (same sub w k created)
      ]
      | inr (inl (u, e)) ↦ rw (e, handle_subscription_created) (created_for-Allowed sub w k u e)
      | inr (inr e) ↦ rw (e, handle_subscription_created) (same sub w k created)
    ]
handle-Allowed updated sub w k = elim (Option-cases (parse_subscription_status sub.status)) [
  | inl bad ↦ rw (bad, handle_subscription_updated) (same sub w k updated)
  | inr (st, good) ↦ elim (Found-cases (one_or_none (has_subscription sub.id) w.users)) [
    | inl e ↦
        rw (good, handle_subscription_updated, e, updated_unknown-same sub w k)
          (same sub w k updated)
    | inr (inl (u, e)) ↦
        rw (good, handle_subscription_updated, e) (updated_for-Allowed sub w k st u e)
    | inr (inr e) ↦ rw (good, handle_subscription_updated, e) (same sub w k updated)
  ]
]
handle-Allowed deleted sub w k =
    elim (Found-cases (one_or_none (has_subscription sub.id) w.users)) [
      | inl e ↦
          rw (e, handle_subscription_deleted, deleted_unknown-same sub w k) (same sub w k deleted)
      | inr (inl (u, e)) ↦ rw (e, handle_subscription_deleted) (deleted_for-Allowed sub w k u e)
      | inr (inr e) ↦ rw (e, handle_subscription_deleted) (same sub w k deleted)
    ]
