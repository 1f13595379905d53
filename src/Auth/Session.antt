-- ===== src/Auth/Session.antt =====
-- hushline/auth.py: the keys of the session cookie that sign-in uses, and the guard of the routes.
pub mod Guard
use Prim.Native.Char.{Char, code}
use Prim.Native.String
use hushline.Common.{
  ℕ, Bool, true, false, not, ◌&&◌, ◌||◌, Option, none, some, List, [], ◌∷◌, String, if◌then◌else◌,
  ◌==◌, nat_eq, string_eq, leb,
}
use mathlib.Core.List.{foldl}
use text.Mathlib.Text.{starts_with}
use hushline.Model.ChatKey.{Payload}
use hushline.Model.User.{User, get_user}

pub record Session : Type 0 where
  pub user_id : Option ℕ
  pub session_id : Option String
  pub username : Option String
  pub is_authenticated : Option Bool
  pub chat_key_session_id : Option String
  pub post_auth_redirect : Option String
  pub pending_password_rehash : Option String
  pub pending_password_rehash_source_digest : Option String
  pub pending_login_chat_key_payload : Option Payload
  pub math_problem : Option String
  pub math_answer : Option String

pub data Key : Type 0 where
  user_id session_id username is_authenticated chat_key_session_id post_auth_redirect : Key
  pending_password_rehash pending_password_rehash_source_digest : Key
  pending_login_chat_key_payload math_problem math_answer : Key

-- `session.clear()`, and the session of a request without a cookie
abbrev pub empty : Session
empty = record {
  user_id = none;
  session_id = none;
  username = none;
  is_authenticated = none;
  chat_key_session_id = none;
  post_auth_redirect = none;
  pending_password_rehash = none;
  pending_password_rehash_source_digest = none;
  pending_login_chat_key_payload = none;
  math_problem = none;
  math_answer = none;
}

-- `session.pop(key, None)`, for its effect
abbrev pub pop : Session → Key → Session
pop s user_id = record s { user_id = none }
pop s session_id = record s { session_id = none }
pop s username = record s { username = none }
pop s is_authenticated = record s { is_authenticated = none }
pop s chat_key_session_id = record s { chat_key_session_id = none }
pop s post_auth_redirect = record s { post_auth_redirect = none }
pop s pending_password_rehash = record s { pending_password_rehash = none }
pop s pending_password_rehash_source_digest = record s {
  pending_password_rehash_source_digest = none;
}
pop s pending_login_chat_key_payload = record s { pending_login_chat_key_payload = none }
pop s math_problem = record s { math_problem = none }
pop s math_answer = record s { math_answer = none }

abbrev pub auth_session_keys : List Key
auth_session_keys =
    user_id ∷ session_id ∷ username ∷ is_authenticated ∷ chat_key_session_id ∷ post_auth_redirect
    ∷ pending_password_rehash ∷ pending_password_rehash_source_digest ∷ []

abbrev pop_all : List Key → Session → Session
pop_all [] s = s
pop_all (k ∷ ks) s = pop_all ks (pop s k)

unfoldable pub clear_auth_session : Session → Session
clear_auth_session s = pop_all auth_session_keys s

-- The argument is the value of `secrets.token_urlsafe(32)`.
abbrev pub rotate_chat_key_session_id : String → Session → Session
rotate_chat_key_session_id token s = record s { chat_key_session_id = some token }

unfoldable pub set_session_user : String → User → String → Bool → Session → Session
set_session_user token user name authenticated s =
    let s' : Session = record s {
      user_id = some user.id;
      session_id = some user.session_id;
      username = some name;
      is_authenticated = some authenticated;
    } in
    if authenticated then rotate_chat_key_session_id token s' else pop s' chat_key_session_id

-- The answer is the user, and what is left of the session.
abbrev checked : String → Session → Option User → Option User × Session
checked sid s none = (none, clear_auth_session s)
checked sid s (some user) =
    if user.session_id == ""
    then (none, clear_auth_session s)
    else if user.session_id == sid
    then (some user, s)
    else (none, clear_auth_session s)

abbrev lookup_session_user : List User → Session → Option ℕ → Option String → Option User × Session
lookup_session_user users s none none = (none, s)
lookup_session_user users s none (some sid) = (none, clear_auth_session s)
lookup_session_user users s (some uid) none = (none, clear_auth_session s)
lookup_session_user users s (some uid) (some sid) = checked sid s (get_user uid users)

unfoldable pub get_session_user : List User → Session → Option User × Session
get_session_user users s = lookup_session_user users s s.user_id s.session_id

-- `urllib.parse`: the scheme and the host of a target, and percent-decoding.
pub record Urls : Type 0 where
  pub scheme : String → String
  pub netloc : String → String
  pub unquote : String → String

abbrev any_char : (Char → Bool) → String → Bool
any_char p String.[] = false
any_char p (String.◌∷◌ c s) = if p c then true else any_char p s

abbrev is_control : Char → Bool
is_control c = leb (code c) 31 || code c == 127

abbrev is_backslash : Char → Bool
is_backslash c = code c == 92

-- `_is_safe_post_auth_redirect_target`, for a text
unfoldable pub is_safe_target : Urls → String → Bool
is_safe_target urls target =
    starts_with target "/"
    && (not (starts_with target "//")
        && (urls.scheme target == ""
            && (urls.netloc target == ""
                && (not (any_char is_backslash target)
                    && (not (any_char is_backslash (urls.unquote target))
                        && not (any_char is_control (urls.unquote target)))))))

unfoldable pub stash_post_auth_redirect_target : Urls → Option String → Session → Session
stash_post_auth_redirect_target urls none s = s
stash_post_auth_redirect_target urls (some target) s =
    if is_safe_target urls target then record s { post_auth_redirect = some target } else s

pub record Request : Type 0 where
  pub is_get : Bool
  pub is_logout : Bool
  pub target : String

-- `stash_post_auth_redirect`; `target` is the request's full path without a bare "?".
unfoldable pub stash_post_auth_redirect : Urls → Request → Session → Session
stash_post_auth_redirect urls req s =
    if req.is_get
    then (if req.is_logout then s else stash_post_auth_redirect_target urls (some req.target) s)
    else s

-- The target after sign-in: `none` stands for `url_for(default_endpoint)`.
abbrev safe_or_default : Urls → Option String → Option String
safe_or_default urls none = none
safe_or_default urls (some target) = if is_safe_target urls target then some target else none

unfoldable pub pop_post_auth_redirect : Urls → Session → Option String × Session
pop_post_auth_redirect urls s =
    (safe_or_default urls s.post_auth_redirect, pop s post_auth_redirect)

abbrev pub is_true : Option Bool → Bool
is_true none = false
is_true (some b) = b

-- What a guarded route does first; `to_handler` hands over the user that is signed in.
pub data Gate : Type 0 where
  to_login : Gate
  to_verify_2fa : Gate
  to_forbidden : Gate
  to_handler : User → Gate

abbrev admit : Urls → Request → Option User × Session → Gate × Session
admit urls req (none, s) = (to_login, stash_post_auth_redirect urls req s)
admit urls req (some user, s) =
    if is_true s.is_authenticated
    then (to_handler user, s)
    else (to_verify_2fa, stash_post_auth_redirect urls req s)

unfoldable pub authentication_required : Urls → Request → List User → Session → Gate × Session
authentication_required urls req users s = admit urls req (get_session_user users s)

abbrev admin_only : Gate → Gate
admin_only (to_handler user) = if user.is_admin then to_handler user else to_forbidden
admin_only gate = gate

unfoldable pub admin_authentication_required : Urls → Request → List User → Session → Gate × Session
admin_authentication_required urls req users s =
    let (gate, s') = authentication_required urls req users s in (admin_only gate, s')
