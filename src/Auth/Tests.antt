-- ===== src/Auth/Tests.antt =====
-- The theorems on hushline/auth.py and on the sign-in of hushline/routes/auth.py at concrete requests.
use hushline.Common.{
  ◌≡◌, refl, ◌⊎◌, ◌↔◌, ◌≤◌, true, false, none, some, List, [], ◌∷◌, arith, string_eq, eq_iff,
}
use hushline.Model.User.{User}
use hushline.Password.{verify_password, prepare_password_rehash_on_auth, get_native_hash_prefix}
use hushline.Auth.Session.{
  Session, to_handler, is_true, get_session_user, set_session_user, pop_post_auth_redirect,
  authentication_required, admin_authentication_required,
}
use hushline.Auth.Session.Guard.{
  IsLive, authentication_required_iff, admin_authentication_required_iff,
}
use hushline.Auth.Store.{Env, Context, create_initial_chat_key}
use hushline.Auth.Login.{LoginRequest, handle_login, submit_login}
use hushline.Auth.SignIn.{SignedIn, ByPassword}
use hushline.Auth.Login.Sound.{handle_login_sound}
use hushline.Auth.TwoFactor.{CodeRequest, handle_verify_2fa_login}
use hushline.Auth.TwoFactor.Sound.{ByCode, handle_verify_2fa_login_sound}
use hushline.Auth.TwoFactor.Failures.{failures, verify_all, last, verify_all-few}
use hushline.Auth.Samples.{urls, env, bea, store, visitor, cookie, get_page}

authentication_required_iff_example :
    ((authentication_required urls get_page store.users cookie).0 ≡ to_handler bea)
    ↔ (IsLive store.users cookie bea × (is_true cookie.is_authenticated ≡ true))
authentication_required_iff_example =
    authentication_required_iff urls get_page store.users cookie bea

admin_authentication_required_iff_example :
    ((admin_authentication_required urls get_page store.users cookie).0 ≡ to_handler bea) ↔ (
      IsLive store.users cookie bea
      × (is_true cookie.is_authenticated ≡ true)
      × (bea.is_admin ≡ true))
admin_authentication_required_iff_example =
    admin_authentication_required_iff urls get_page store.users cookie bea

abbrev login_request : LoginRequest
login_request = record {
  is_post = true;
  next = none;
  form_valid = true;
  username = "bea";
  password = "before";
  chat_key = λ u. none;
}

abbrev after_login : User
after_login = record bea { session_id = "s1" }

logged_in : SignedIn (handle_login env login_request visitor).1 after_login
unfolding handle_login submit_login get_session_user verify_password prepare_password_rehash_on_auth
    set_session_user create_initial_chat_key pop_post_auth_redirect get_native_hash_prefix
logged_in = record {
  live = record {
    id = 7;
    names = refl;
    row = refl;
    current = refl;
    issued = ground (arith, eq_iff "s1" "");
  };
  complete = refl;
}

handle_login_sound_example :
    SignedIn visitor after_login ⊎ ByPassword env login_request store after_login
handle_login_sound_example = handle_login_sound env login_request visitor after_login logged_in

-- Bea with a second factor, and a browser that has given her password.
abbrev careful : User
careful = record bea { totp_secret = some "123456" }

abbrev pending : Session
pending = record cookie { is_authenticated = some false }

abbrev halfway : Context
halfway = record { session = pending; store = record store { users = careful ∷ [] } }

abbrev code_request : CodeRequest
code_request = record { is_post = true; form_valid = true; verification_code = "123456" }

abbrev after_code : User
after_code = record careful { session_id = "s1" }

verified : SignedIn (handle_verify_2fa_login env code_request halfway).1 after_code
unfolding handle_verify_2fa_login get_session_user create_initial_chat_key pop_post_auth_redirect
verified = record {
  live = record {
    id = 7;
    names = refl;
    row = refl;
    current = refl;
    issued = ground (arith, eq_iff "s1" "");
  };
  complete = refl;
}

handle_verify_2fa_login_sound_example :
    SignedIn halfway after_code ⊎ ByCode env code_request halfway after_code
handle_verify_2fa_login_sound_example =
    handle_verify_2fa_login_sound env code_request halfway after_code verified

abbrev wrong_code : CodeRequest
wrong_code = record code_request { verification_code = "000000" }

abbrev tries : List (Env × CodeRequest × Session)
tries = (env, wrong_code, pending) ∷ (record env { now = 300 }, wrong_code, pending) ∷ []

verify_all-few_example : failures (last 0 tries) 7 (verify_all tries halfway.store).logs ≤ 5
verify_all-few_example =
    verify_all-few 0 7 tries halfway.store (omega arith, (omega arith, tt)) (omega arith)
