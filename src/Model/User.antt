-- ===== src/Model/User.antt =====
-- hushline/model/user.py and hushline/model/tier.py: a row of `users` with the rows it owns.
-- Encrypted columns are read through their properties, so they hold the plain value here.
pub mod Table
use hushline.Common.{
  ℕ, Bool, true, false, ◌||◌, ◌&&◌, Option, some, List, [], ◌∷◌, String, if◌then◌else◌, ◌==◌,
  nat_eq, option_eq, first, is_none, is_some,
}
use hushline.Model.Enums.{SubscriptionStatus, active, is_terminal}
use hushline.Model.ChatKey.{ChatKey}

-- hushline/model/password_reset_token.py
pub record ResetToken : Type 0 where
  pub token_hash : String
  pub expires_at : ℕ
  pub used_at : Option ℕ

pub record User : Type 0 where
  pub id : ℕ
  pub is_admin : Bool
  pub session_id : String
  pub password_hash : String
  pub totp_secret : Option String
  pub chat_keys : List ChatKey
  pub reset_tokens : List ResetToken
  pub onboarding_complete : Bool
  pub tier_id : Option ℕ
  pub stripe_customer_id : Option String
  pub stripe_subscription_id : Option String
  pub stripe_subscription_status : Option SubscriptionStatus
  pub stripe_subscription_cancel_at_period_end : Option Bool
  pub stripe_subscription_current_period_end : Option ℕ
  pub stripe_subscription_current_period_start : Option ℕ

-- hushline/model/tier.py
abbrev pub free_tier_id : ℕ
free_tier_id = 1

abbrev pub business_tier_id : ℕ
business_tier_id = 2

abbrev pub is_free_tier : User → Bool
is_free_tier u = is_none u.tier_id || u.tier_id == some free_tier_id

abbrev pub is_business_tier : User → Bool
is_business_tier u = u.tier_id == some business_tier_id

abbrev pub set_free_tier : User → User
set_free_tier u = record u { tier_id = some free_tier_id }

abbrev pub set_business_tier : User → User
set_business_tier u = record u { tier_id = some business_tier_id }

abbrev pub is_active_status : Option SubscriptionStatus → Bool
is_active_status (some active) = true
is_active_status _ = false

unfoldable pub is_current_paid_super_user : User → Bool
is_current_paid_super_user u = is_business_tier u && is_active_status u.stripe_subscription_status

unfoldable pub has_deletion_blocking_stripe_subscription : User → Bool
has_deletion_blocking_stripe_subscription u =
    if is_terminal u.stripe_subscription_status then false else is_some u.stripe_subscription_id

abbrev pub is_enabled : ChatKey → Bool
is_enabled k = is_none k.disabled_at

-- `User.active_chat_key`: the keys come ordered by version, the newest first.
abbrev pub active_chat_key : User → Option ChatKey
active_chat_key u = first is_enabled u.chat_keys

-- `db.session.get(User, id)`
abbrev pub get_user : ℕ → List User → Option User
get_user i us = first (λ u. u.id == i) us

-- Assignments to the attributes of a loaded row, written back to the table.
abbrev pub put_user : User → List User → List User
put_user v [] = []
put_user v (u ∷ us) = if u.id == v.id then v ∷ put_user v us else u ∷ put_user v us
