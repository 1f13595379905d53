-- ===== src/Auth/Login.antt =====
-- hushline/routes/auth.py: `login`, with what it shares with `verify_2fa_login`.
pub mod Sound
use hushline.Common.{
  ℕ, Bool, true, false, not, ◌&&◌, Option, none, some, [], ◌∷◌, String, if◌then◌else◌, ◌==◌, nat_eq,
  string_eq, option_eq, leb, ltb, first, count, rows, Found, absent, one, multiple, one_or_none,
  is_some, is_none,
}
use hushline.Model.ChatKey.{Payload}
use hushline.Model.User.{User, get_user, put_user, active_chat_key}
use hushline.Password.{is_legacy, verify_password, prepare_password_rehash_on_auth}
use hushline.Auth.Session.{
  Session, Key, pop, clear_auth_session, set_session_user, rotate_chat_key_session_id,
  get_session_user, stash_post_auth_redirect_target, pop_post_auth_redirect, is_true,
  pending_password_rehash, pending_password_rehash_source_digest, pending_login_chat_key_payload,
}
use hushline.Auth.Store.{
  Username, AuthenticationLog, Store, Env, Context, Endpoint, Response, redirect, redirect_to, page,
  server_error, inbox, login, verify_2fa_login, onboarding, select_tier, second,
  create_initial_chat_key, rotate_user_session_id,
}

-- `chat_key` is what the submitted chat key payload validates to for a user's id: nothing where it
-- is missing, malformed or refused.
pub record LoginRequest : Type 0 where
  pub is_post : Bool
  pub next : Option String
  pub form_valid : Bool
  pub username : String
  pub password : String
  pub chat_key : ℕ → Option Payload

-- A text column or setting that is neither missing nor empty.
abbrev pub filled : Option String → Bool
filled none = false
filled (some s) = not (s == "")

-- The answer after the second factor or the only one.
abbrev pub signed_in : Env → User → Session → Response × Session
signed_in env user s =
    let (target, s') = pop_post_auth_redirect env.urls s in
    if not user.onboarding_complete
    then (redirect onboarding, s)
    else if env.has_stripe_key && is_none user.tier_id
    then (redirect select_tier, s)
    else (elim target [ none ↦ redirect inbox | some t ↦ redirect_to t ], s')

-- A failed commit rolls the store back and clears the sign-in; the exception goes on.
abbrev pub commit_or_clear :
    Env → Store → (Response × Session) × Store → Session → Response × Context
commit_or_clear env before (done, after) s =
    if env.commit_ok
    then (done.0, record { session = done.1; store = after })
    else (server_error, record { session = clear_auth_session s; store = before })

-- `_validated_login_chat_key_payload`, for its effect on the session
abbrev drop_unless : Option Payload → Session → Session
drop_unless none s = pop s pending_login_chat_key_payload
drop_unless (some p) s = s

-- `_stash_pending_login_chat_key`
abbrev stash_pending_login_chat_key : User → Option Payload → Session → Session
stash_pending_login_chat_key user none s = pop s pending_login_chat_key_payload
stash_pending_login_chat_key user (some p) s =
    if is_some (active_chat_key user)
    then pop s pending_login_chat_key_payload
    else record s { pending_login_chat_key_payload = some p }

-- `_stash_pending_password_rehash`, if there is one
abbrev stash_pending_password_rehash : Env → Option String → String → Session → Session
stash_pending_password_rehash env none source s = s
stash_pending_password_rehash env (some replacement) source s = record s {
  pending_password_rehash = some replacement;
  pending_password_rehash_source_digest = some (env.sha256 source);
}

abbrev rehashed : Option String → User → User
rehashed none user = user
rehashed (some replacement) user = record user { password_hash = replacement }

-- The branch for a right password and a second factor to come.
pub begin_2fa :
    Env → User → String → Option Payload → Option String → Session → Store → Response × Context
begin_2fa env user name payload rehash s st =
    let s1 = set_session_user env.new_chat_key_session_id user name false s in
    let s2 = stash_pending_login_chat_key user payload s1 in
    let s3 = stash_pending_password_rehash env rehash user.password_hash s2 in
    commit_or_clear env st ((redirect verify_2fa_login, s3), st) s3

-- The branch for a right password that is enough.
pub complete_login :
    Env → User → String → Option Payload → Option String → Session → Store → Response × Context
complete_login env user name payload rehash s st =
    let rotated = rotate_user_session_id env user in
    let s1 = set_session_user env.new_chat_key_session_id rotated name true s in
    let keyed = create_initial_chat_key env.now payload rotated in
    let user' = rehashed rehash keyed in
    let log : AuthenticationLog = record {
      user_id = user.id;
      successful = true;
      otp_code = none;
      timecode = none;
      timestamp = env.now;
    } in
    commit_or_clear env st
      (signed_in env user' s1, record st { users = put_user user' st.users; logs = log ∷ st.logs })
      s1

abbrev refuse : Session → Store → Response × Context
refuse s st = (page 200, record { session = s; store = st })

-- The password check and what follows it.
pub login_as : Env → LoginRequest → Username → User → Session → Store → Response × Context
unfolding begin_2fa complete_login
login_as env req name user s st =
    let rehash =
      prepare_password_rehash_on_auth env.hashing env.config req.password
        (some user.password_hash) in
    let payload = req.chat_key user.id in
    let s' = drop_unless payload s in
    if verify_password env.hashing req.password (some user.password_hash)
    then (if filled user.totp_secret
        then begin_2fa env user name.username payload rehash s' st
        else complete_login env user name.username payload rehash s' st)
    else refuse s st

abbrev pub is_primary_named : Env → String → Username → Bool
is_primary_named env typed u = env.fold u.username == env.fold typed && u.is_primary

-- A username row always has a user (a foreign key).
unfoldable pub submit_login : Env → LoginRequest → Session → Store → Response × Context
unfolding login_as
submit_login env req s st =
    let s' = pop (pop s pending_password_rehash) pending_password_rehash_source_digest in
    elim (one_or_none (is_primary_named env req.username) st.usernames) [
      | multiple ↦ refuse s' st
      | absent ↦ refuse s' st
      | one name ↦ elim (get_user name.user_id st.users) [
        | none ↦ (server_error, record { session = s'; store = st })
        | some user ↦ login_as env req name user s' st
      ]
    ]

abbrev not_signed_in : Env → LoginRequest → Session → Store → Response × Context
not_signed_in env req s st =
    if req.is_post
    then (if req.form_valid then submit_login env req s st else refuse s st)
    else refuse (stash_post_auth_redirect_target env.urls req.next s) st

abbrev already : Env → LoginRequest → Store → Option User × Session → Response × Context
already env req st (some user, s) = (redirect inbox, record { session = s; store = st })
already env req st (none, s) = not_signed_in env req s st

unfoldable pub handle_login : Env → LoginRequest → Context → Response × Context
handle_login env req c =
    if is_true c.session.is_authenticated
    then already env req c.store (get_session_user c.store.users c.session)
    else not_signed_in env req c.session c.store
