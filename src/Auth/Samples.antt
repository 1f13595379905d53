-- ===== src/Auth/Samples.antt =====
-- Rows and requests for the tests of hushline/auth.py and hushline/routes/auth.py.
use hushline.Common.{◌≢◌, refl, true, false, none, some, [], ◌∷◌, arith, ◌==◌, string_eq, eq_iff}
use hushline.Model.User.{User, ResetToken}
use hushline.Model.Samples.{ada}
use hushline.Password.Tests.{plain, config}
use hushline.Auth.Session.{Session, Urls, Request, empty}
use hushline.Auth.Session.Guard.{IsLive}
use hushline.Auth.Store.{Username, Store, Env, Context}

abbrev pub urls : Urls
urls = record { scheme = λ t. ""; netloc = λ t. ""; unquote = λ t. t }

abbrev pub env : Env
env = record {
  now = 100;
  new_session_id = "s1";
  new_chat_key_session_id = "k1";
  commit_ok = true;
  has_stripe_key = false;
  hashing = plain;
  config = config;
  urls = urls;
  fold = λ t. t;
  sha256 = λ t. t;
  timecode = λ t. t;
  verify_totp = λ secret code t. secret == code;
}

abbrev pub link : ResetToken
link = record { token_hash = "raw"; expires_at = 200; used_at = none }

abbrev pub bea : User
bea = record ada { password_hash = "scrypt:before"; reset_tokens = link ∷ [] }

abbrev pub named : Username
named = record { username = "bea"; user_id = 7; is_primary = true; show_in_directory = false }

abbrev pub store : Store
store = record {
  users = bea ∷ [];
  usernames = named ∷ [];
  logs = [];
  attempts = [];
  invite_codes = [];
  registration_enabled = false;
  registration_codes_required = false;
}

abbrev pub visitor : Context
visitor = record { session = empty; store = store }

abbrev pub cookie : Session
cookie = record empty { user_id = some 7; session_id = some "s0"; is_authenticated = some true }

abbrev pub member : Context
member = record { session = cookie; store = store }

abbrev pub get_page : Request
get_page = record { is_get = true; is_logout = false; target = "/inbox" }

nonempty : bea.session_id ≢ ""
nonempty = ground (arith, eq_iff "s0" "")

pub cookie-IsLive : IsLive store.users cookie bea
cookie-IsLive = record { id = 7; names = refl; row = refl; current = refl; issued = nonempty }
