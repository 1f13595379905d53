-- ===== src/Auth/Store.antt =====
-- The rows that hushline/routes/auth.py reads and writes, what a request brings along, and the
-- outcome of a handler.
use hushline.Common.{
  ℕ, ◌+◌, Bool, Option, none, some, List, [], ◌∷◌, String, if◌then◌else◌, nat_eq, string_eq, max,
  is_some,
}
use hushline.Model.ChatKey.{Payload, ChatKey}
use hushline.Model.User.{User, active_chat_key}
use hushline.Password.{Hashing, Config}
use hushline.Auth.Session.{Session, Urls}

-- hushline/model/username.py
pub record Username : Type 0 where
  pub username : String
  pub user_id : ℕ
  pub is_primary : Bool
  pub show_in_directory : Bool

-- hushline/model/authentication_log.py
pub record AuthenticationLog : Type 0 where
  pub user_id : ℕ
  pub successful : Bool
  pub otp_code : Option String
  pub timecode : Option ℕ
  pub timestamp : ℕ

-- hushline/model/password_reset_attempt.py
pub record ResetAttempt : Type 0 where
  pub identifier_hash : String
  pub ip_hash : String
  pub created_at : ℕ

-- hushline/model/invite_code.py
pub record InviteCode : Type 0 where
  pub code : String
  pub expiration_date : ℕ

pub record Store : Type 0 where
  pub users : List User
  pub usernames : List Username
  -- the newest first
  pub logs : List AuthenticationLog
  pub attempts : List ResetAttempt
  pub invite_codes : List InviteCode
  pub registration_enabled : Bool
  pub registration_codes_required : Bool

-- One request: the clock, fresh random texts, whether the database accepts the commit, and the
-- libraries that are called. Times are in microseconds.
pub record Env : Type 0 where
  pub now : ℕ
  pub new_session_id : String
  pub new_chat_key_session_id : String
  pub commit_ok : Bool
  pub has_stripe_key : Bool
  pub hashing : Hashing
  pub config : Config
  pub urls : Urls
  -- `str.strip().lower()`, which agrees with SQL's `lower` on usernames
  pub fold : String → String
  pub sha256 : String → String
  pub timecode : ℕ → ℕ
  pub verify_totp : String → String → ℕ → Bool

abbrev pub second : ℕ
second = 1000000

pub record Context : Type 0 where
  pub session : Session
  pub store : Store

pub data Endpoint : Type 0 where
  index inbox login verify_2fa_login onboarding select_tier request_password_reset : Endpoint

-- A redirect to an endpoint or to a stored target, a page with its status, or an exception.
pub data Response : Type 0 where
  redirect : Endpoint → Response
  redirect_to : String → Response
  page : ℕ → Response
  server_error : Response

-- `_create_initial_chat_key_from_payload`; versions grow, so the new key comes first.
abbrev pub max_version : List ChatKey → ℕ
max_version [] = 0
max_version (k ∷ ks) = max k.key_version (max_version ks)

abbrev pub initial_key : ℕ → Payload → List ChatKey → ChatKey
initial_key now p keys = record {
  key_version = max_version keys + 1;
  material = p;
  created_at = now;
  rotated_at = none;
  disabled_at = none;
  recovery_state = p.recovery_state;
}

unfoldable pub create_initial_chat_key : ℕ → Option Payload → User → User
create_initial_chat_key now none user = user
create_initial_chat_key now (some p) user =
    if is_some (active_chat_key user)
    then user
    else record user { chat_keys = initial_key now p user.chat_keys ∷ user.chat_keys }

-- `rotate_user_session_id`
abbrev pub rotate_user_session_id : Env → User → User
rotate_user_session_id env user = record user { session_id = env.new_session_id }
