-- ===== src/Model/Samples.antt =====
-- A user's row for the tests.
use hushline.Common.{true, false, none, some, []}
use hushline.Model.User.{User}

abbrev pub ada : User
ada = record {
  id = 7;
  is_admin = false;
  session_id = "s0";
  password_hash = "$scrypt$old";
  totp_secret = none;
  chat_keys = [];
  reset_tokens = [];
  onboarding_complete = true;
  tier_id = some 1;
  stripe_customer_id = some "cus_1";
  stripe_subscription_id = some "sub_1";
  stripe_subscription_status = none;
  stripe_subscription_cancel_at_period_end = none;
  stripe_subscription_current_period_end = none;
  stripe_subscription_current_period_start = none;
}
