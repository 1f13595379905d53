-- ===== src/Auth/Reset/Tests.antt =====
-- The theorems on the password reset and the logout of hushline/routes/auth.py at concrete requests.
use hushline.Common.{◌≡◌, ◌≢◌, refl, true, none, some, arith, string_eq, eq_iff, All}
use hushline.Model.User.{User, ResetToken, get_user, active_chat_key}
use hushline.Password.{verify_password, get_native_hash_prefix}
use hushline.Password.Tests.{plain, plain-Verifies}
use hushline.Auth.Session.{to_handler, empty, get_session_user, authentication_required}
use hushline.Auth.Store.{Context, redirect, login, index, request_password_reset}
use hushline.Auth.Reset.{ResetRequest, find_token, is_usable, handle_reset_password, handle_logout}
use hushline.Auth.Reset.Once.{IsUsed, handle_reset_password-once}
use hushline.Auth.Reset.Revoke.{
  handle_reset_password-effect, handle_reset_password-revokes, handle_logout-revokes,
}
use hushline.Auth.Samples.{
  urls, env, link, bea, store, visitor, cookie, member, get_page, cookie-IsLive,
}

abbrev new_password : ResetRequest
new_password = record { is_post = true; form_valid = true; password = "hunter2" }

abbrev after_reset : Context
after_reset = (handle_reset_password env "raw" new_password visitor).1

reset_done : handle_reset_password env "raw" new_password visitor ≡ (redirect login, after_reset)
unfolding handle_reset_password verify_password get_native_hash_prefix
reset_done = refl

handle_reset_password-effect_example :
    (u after : User) × (t : ResetToken) × (find_token "raw" store.users ≡ some (u, t))
    × (is_usable 100 t ≡ true)
    × (after_reset.session ≡ empty)
    × (get_user u.id after_reset.store.users ≡ some after)
    × (verify_password plain "hunter2" (some after.password_hash) ≡ true)
    × All IsUsed after.reset_tokens
    × (active_chat_key after ≡ none)
    × (after.session_id ≡ "s1")
handle_reset_password-effect_example =
    handle_reset_password-effect env "raw" new_password visitor after_reset plain-Verifies
      (record { falling = tt; one_active = omega arith }, tt) reset_done

handle_reset_password-once_example :
    handle_reset_password (record env { now = 150 }) "raw" new_password after_reset
    ≡ (redirect request_password_reset, after_reset)
handle_reset_password-once_example =
    handle_reset_password-once env (record env { now = 150 }) "raw" new_password new_password
      visitor after_reset refl reset_done

another : env.new_session_id ≢ bea.session_id
another = ground (arith, eq_iff "s1" "s0")

handle_reset_password-revokes_example : (get_session_user after_reset.store.users cookie).0 ≡ none
handle_reset_password-revokes_example =
    handle_reset_password-revokes env "raw" new_password visitor after_reset bea link cookie
      reset_done refl cookie-IsLive another

abbrev after_logout : Context
after_logout = (handle_logout env get_page member).1

let_in : (authentication_required urls get_page store.users cookie).0 ≡ to_handler bea
unfolding authentication_required get_session_user
let_in = refl

logged_out : handle_logout env get_page member ≡ (redirect index, after_logout)
unfolding handle_logout authentication_required get_session_user
logged_out = refl

handle_logout-revokes_example :
    (after_logout.session ≡ empty) × ((get_session_user after_logout.store.users cookie).0 ≡ none)
handle_logout-revokes_example =
    handle_logout-revokes env get_page member after_logout bea cookie let_in logged_out
      cookie-IsLive another
