-- ===== src/Premium/Subscription.antt =====
-- hushline/premium.py: the handlers of the `customer.subscription.*` events.
pub mod Transitions
pub mod Effects
pub mod Tests
use hushline.Common.{
  Bool, not, ◌&&◌, ◌||◌, Option, none, some, String, if◌then◌else◌, ◌==◌, string_eq, option_eq,
  is_none, is_some, absent, one, multiple, one_or_none,
}
use hushline.Model.Enums.{SubscriptionStatus, parse_subscription_status, is_terminal}
use hushline.Model.User.{User, set_free_tier, set_business_tier}
use hushline.Premium.Work.{
  Subscription, Work, Outcome, returned, raised, value_error, multiple_results, save_user,
  redact_stripe_event_payload,
}

abbrev pub has_customer : Option String → User → Bool
has_customer customer u = u.stripe_customer_id == customer

abbrev pub has_subscription : String → User → Bool
has_subscription id u = u.stripe_subscription_id == some id

-- The attributes that a handler copies, with `status` already parsed.
abbrev sync_periods : User → Subscription → User
sync_periods u sub = record u {
  stripe_subscription_cancel_at_period_end = some sub.cancel_at_period_end;
  stripe_subscription_current_period_end = some sub.current_period_end;
  stripe_subscription_current_period_start = some sub.current_period_start;
}

abbrev clear_periods : User → User
clear_periods u = record u {
  stripe_subscription_cancel_at_period_end = none;
  stripe_subscription_current_period_end = none;
  stripe_subscription_current_period_start = none;
}

-- The row as it is when the assignment of `status` raises, and after the last assignment.
pub created_for : Subscription → User → Work → Outcome × Work
created_for sub user w =
    let user' : User = record user { stripe_subscription_id = some sub.id } in
    if is_terminal user.stripe_subscription_status
    then (returned, w)
    else elim (parse_subscription_status sub.status) [
      | none ↦ (raised value_error, save_user user' w)
      | some st ↦ (
        returned,
        save_user (sync_periods (record user' { stripe_subscription_status = some st }) sub) w,
      )
    ]

unfoldable pub handle_subscription_created : Subscription → Work → Outcome × Work
unfolding created_for
handle_subscription_created sub w = elim (one_or_none (has_customer sub.customer) w.users) [
  | multiple ↦ (raised multiple_results, w)
  | one user ↦ created_for sub user w
  | absent ↦
      if is_some w.event && is_some sub.customer
      then (returned, redact_stripe_event_payload w)
      else (raised value_error, w)
]

-- The branch for a known subscription.
pub updated_for : Subscription → SubscriptionStatus → User → Work → Outcome × Work
updated_for sub st user w =
    let user' : User = record user { stripe_subscription_status = some st } in
    let user'' : User = sync_periods user' sub in
    if is_terminal user.stripe_subscription_status && not (is_terminal (some st))
    then (returned, w)
    else if is_terminal (some st)
    then (returned, save_user (clear_periods (set_free_tier user')) w)
    else if sub.status == "active" || sub.status == "trialing"
    then (returned, save_user (set_business_tier user'') w)
    else (returned, save_user (set_free_tier user'') w)

-- The branch for a subscription that no user holds.
pub updated_unknown : Subscription → Work → Outcome × Work
updated_unknown sub w = elim (one_or_none (has_customer sub.customer) w.users) [
  | multiple ↦ (if is_some sub.customer then raised multiple_results else raised value_error, w)
  | one user ↦
      if is_some sub.customer
        && (is_none user.stripe_subscription_id && is_terminal user.stripe_subscription_status)
      then (returned, w)
      else (raised value_error, w)
  | absent ↦
      if is_some sub.customer
      then (returned, redact_stripe_event_payload w)
      else (raised value_error, w)
]

unfoldable pub handle_subscription_updated : Subscription → Work → Outcome × Work
unfolding updated_for updated_unknown
handle_subscription_updated sub w = elim (parse_subscription_status sub.status) [
  | none ↦ (raised value_error, w)
  | some st ↦ elim (one_or_none (has_subscription sub.id) w.users) [
    | multiple ↦ (raised multiple_results, w)
    | one user ↦ updated_for sub st user w
    | absent ↦ updated_unknown sub w
  ]
]

pub deleted_for : User → Work → Outcome × Work
deleted_for user w =
    let user' : User = set_free_tier user in
    if is_terminal user.stripe_subscription_status then (returned, save_user user' w) else (
      returned,
      save_user
          (clear_periods
            (record user' { stripe_subscription_id = none; stripe_subscription_status = none }))
          w,
    )

pub deleted_unknown : Subscription → Work → Outcome × Work
deleted_unknown sub w = elim (one_or_none (has_customer sub.customer) w.users) [
  | multiple ↦ (if is_some sub.customer then raised multiple_results else raised value_error, w)
  | one user ↦
      if is_some sub.customer && is_terminal user.stripe_subscription_status
      then (returned, w)
      else (raised value_error, w)
  | absent ↦
      if is_some sub.customer
      then (returned, redact_stripe_event_payload w)
      else (raised value_error, w)
]

unfoldable pub handle_subscription_deleted : Subscription → Work → Outcome × Work
unfolding deleted_for deleted_unknown
handle_subscription_deleted sub w = elim (one_or_none (has_subscription sub.id) w.users) [
  | multiple ↦ (raised multiple_results, w)
  | one user ↦ deleted_for user w
  | absent ↦ deleted_unknown sub w
]
