-- ===== src/Auth/Reset.antt =====
-- hushline/routes/auth.py: `reset_password` and `logout`.
pub mod Once
pub mod Revoke
pub mod Tests
use hushline.Common.{
  ℕ, Bool, true, false, ◌&&◌, Option, none, some, List, [], ◌∷◌, String, if◌then◌else◌, ◌==◌,
  string_eq, ltb, first, is_none,
}
use hushline.Model.User.{User, ResetToken, put_user}
use hushline.Password.{hash_password, verify_password}
use hushline.Auth.Session.{
  Session, Urls, Request, Gate, to_login, to_verify_2fa, to_forbidden, to_handler, empty,
  authentication_required, get_session_user,
}
use hushline.Auth.Store.{
  Store, Env, Context, Response, redirect, page, server_error, index, login, verify_2fa_login,
  request_password_reset, rotate_user_session_id,
}
use hushline.ChatKeys.Lifecycle.{retire_active_chat_key}

-- `select(PasswordResetToken).where(token_hash == …)`, with the token's user; hashes are unique.
abbrev pub owned_token : String → User → Option ResetToken
owned_token hash u = first (λ t. t.token_hash == hash) u.reset_tokens

abbrev pub joined :
    User → Option ResetToken → Option (User × ResetToken) → Option (User × ResetToken)
joined u none rest = rest
joined u (some t) rest = some (u, t)

abbrev pub find_token : String → List User → Option (User × ResetToken)
find_token hash [] = none
find_token hash (u ∷ us) = joined u (owned_token hash u) (find_token hash us)

abbrev pub is_usable : ℕ → ResetToken → Bool
is_usable now t = is_none t.used_at && ltb now t.expires_at

abbrev if_usable : ℕ → Option (User × ResetToken) → Option (User × ResetToken)
if_usable now none = none
if_usable now (some (u, t)) = if is_usable now t then some (u, t) else none

-- `_load_active_password_reset_token`
unfoldable pub load_active_token : Env → String → List User → Option (User × ResetToken)
load_active_token env raw users = if_usable env.now (find_token (env.sha256 raw) users)

-- `_invalidate_password_reset_tokens`
abbrev pub used_token : ℕ → ResetToken → ResetToken
used_token now t = if is_none t.used_at then record t { used_at = some now } else t

abbrev pub invalidate_tokens : ℕ → List ResetToken → List ResetToken
invalidate_tokens now [] = []
invalidate_tokens now (t ∷ ts) = used_token now t ∷ invalidate_tokens now ts

pub record ResetRequest : Type 0 where
  pub is_post : Bool
  pub form_valid : Bool
  pub password : String

-- The user's row after a reset.
unfoldable pub reset_user : Env → String → User → User
reset_user env password user =
    let retired = (retire_active_chat_key env.now "password_reset_locked" user).0 in
    let hashed : User = record retired {
      password_hash = hash_password env.hashing env.config password;
    } in
    let rotated = rotate_user_session_id env hashed in
    record rotated { reset_tokens = invalidate_tokens env.now rotated.reset_tokens }

-- The session of a failed commit is the one that came: the exception leaves the handler.
abbrev submit_reset : Env → String → User → Context → Response × Context
submit_reset env password user c =
    if verify_password env.hashing password (some user.password_hash)
    then (page 400, c)
    else if env.commit_ok
    then (
      redirect login,
      record {
        session = empty;
        store = record c.store { users = put_user (reset_user env password user) c.store.users };
      },
    )
    else (server_error, c)

abbrev pub reset_with :
    Env → ResetRequest → Context → Option (User × ResetToken) → Response × Context
reset_with env req c none = (redirect request_password_reset, c)
reset_with env req c (some (user, t)) =
    if req.is_post
    then (if req.form_valid then submit_reset env req.password user c else (page 400, c))
    else (page 200, c)

unfoldable pub handle_reset_password : Env → String → ResetRequest → Context → Response × Context
unfolding load_active_token
handle_reset_password env raw req c = reset_with env req c (load_active_token env raw c.store.users)

-- The body of `logout`, which asks for the session's user once more.
abbrev end_session : Env → Context → Option User × Session → Response × Context
end_session env c (none, s) = (redirect index, record { session = empty; store = c.store })
end_session env c (some user, s) =
    if env.commit_ok
    then (
      redirect index,
      record {
        session = empty;
        store = record c.store { users = put_user (rotate_user_session_id env user) c.store.users };
      },
    )
    else (server_error, record { session = s; store = c.store })

abbrev logout_as : Env → Context → Gate × Session → Response × Context
logout_as env c (to_login, s) = (redirect login, record { session = s; store = c.store })
logout_as env c (to_verify_2fa, s) =
    (redirect verify_2fa_login, record { session = s; store = c.store })
logout_as env c (to_forbidden, s) = (page 403, record { session = s; store = c.store })
logout_as env c (to_handler user, s) = end_session env c (get_session_user c.store.users s)

unfoldable pub handle_logout : Env → Request → Context → Response × Context
handle_logout env req c =
    logout_as env c (authentication_required env.urls req c.store.users c.session)
