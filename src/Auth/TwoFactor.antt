-- ===== src/Auth/TwoFactor.antt =====
-- hushline/routes/auth.py: `verify_2fa_login`, with the pending password rehash and chat key.
pub mod Sound
pub mod Failures
use hushline.Common.{
  ℕ, ◌+◌, ◌*◌, Bool, true, false, not, ◌&&◌, ◌||◌, Option, none, some, List, [], ◌∷◌, String,
  if◌then◌else◌, ◌==◌, nat_eq, string_eq, option_eq, leb, ltb, first, count, is_some, is_none,
}
use hushline.Model.User.{User, get_user, put_user}
use hushline.Password.{is_legacy}
use hushline.Auth.Session.{
  Session, pop, clear_auth_session, rotate_chat_key_session_id, get_session_user, is_true,
  pending_password_rehash, pending_password_rehash_source_digest, pending_login_chat_key_payload,
}
use hushline.Auth.Store.{
  AuthenticationLog, Store, Env, Context, Response, redirect, redirect_to, page, server_error,
  inbox, login, second, create_initial_chat_key, rotate_user_session_id,
}
use hushline.Auth.Login.{filled, signed_in, commit_or_clear}

pub record CodeRequest : Type 0 where
  pub is_post : Bool
  pub form_valid : Bool
  pub verification_code : String

-- `_apply_pending_password_rehash` on the row: the RuntimeErrors are `none`.
pub apply_pending_password_rehash : Env → Option String → Option String → User → Option User
apply_pending_password_rehash env none none user = some user
apply_pending_password_rehash env none (some digest) user = none
apply_pending_password_rehash env (some replacement) none user = none
apply_pending_password_rehash env (some replacement) (some digest) user =
    if is_legacy user.password_hash
    then (if env.sha256 user.password_hash == digest
        then some (record user { password_hash = replacement })
        else none)
    else none

abbrev is_success : ℕ → AuthenticationLog → Bool
is_success uid l = l.user_id == uid && l.successful

-- The most recent successful login used this very code in this very interval.
abbrev repeats : Env → String → Option AuthenticationLog → Bool
repeats env code none = false
repeats env code (some l) = l.timecode == some (env.timecode env.now) && l.otp_code == some code

-- A failure of the last 30 seconds: `timestamp > now - 30s`.
abbrev pub is_recent_failure : ℕ → ℕ → AuthenticationLog → Bool
is_recent_failure now uid l =
    l.user_id == uid && (not l.successful && ltb now (l.timestamp + 30 * second))

pub rate_limited : Env → String → User → List AuthenticationLog → Bool
rate_limited env code user logs =
    repeats env code (first (is_success user.id) logs)
    || leb 5 (count (is_recent_failure env.now user.id) logs)

abbrev succeeded : Env → User → String → AuthenticationLog
succeeded env user code = record {
  user_id = user.id;
  successful = true;
  otp_code = some code;
  timecode = some (env.timecode env.now);
  timestamp = env.now;
}

abbrev failed : Env → User → AuthenticationLog
failed env user = record {
  user_id = user.id;
  successful = false;
  otp_code = none;
  timecode = none;
  timestamp = env.now;
}

-- The branch for a right code; both pending entries of the session are consumed.
pub complete_2fa : Env → User → String → Session → Store → Response × Context
unfolding apply_pending_password_rehash
complete_2fa env user code s st =
    let rotated = rotate_user_session_id env user in
    let s1 : Session =
      rotate_chat_key_session_id env.new_chat_key_session_id
        (record s { session_id = some env.new_session_id; is_authenticated = some true }) in
    let s2 = pop (pop s1 pending_password_rehash) pending_password_rehash_source_digest in
    let s3 = pop s2 pending_login_chat_key_payload in
    elim (apply_pending_password_rehash env s1.pending_password_rehash
      s1.pending_password_rehash_source_digest rotated) [
        | none ↦ (server_error, record { session = clear_auth_session s2; store = st })
        | some user' ↦
            let user'' = create_initial_chat_key env.now s2.pending_login_chat_key_payload user' in
            commit_or_clear env st
              (
                signed_in env user'' s3,
                record st {
                  users = put_user user'' st.users;
                  logs = succeeded env user code ∷ st.logs;
                },
              )
              s3
      ]

-- The branch for a wrong code: the failure is logged.
abbrev reject_code : Env → User → Session → Store → Response × Context
reject_code env user s st =
    if env.commit_ok
    then (page 401, record { session = s; store = record st { logs = failed env user ∷ st.logs } })
    else (server_error, record { session = s; store = st })

abbrev pub or_empty : Option String → String
or_empty none = ""
or_empty (some t) = t

pub submit_code : Env → String → User → Session → Store → Response × Context
unfolding complete_2fa rate_limited
submit_code env code user s st =
    if filled user.totp_secret
    then (if rate_limited env code user st.logs
        then (page 429, record { session = s; store = st })
        else if env.verify_totp (or_empty user.totp_secret) code env.now
        then complete_2fa env user code s st
        else reject_code env user s st)
    else (redirect login, record { session = s; store = st })

abbrev for_pending : Env → CodeRequest → Store → Option User × Session → Response × Context
for_pending env req st (none, s) =
    (redirect login, record { session = clear_auth_session s; store = st })
for_pending env req st (some user, s) =
    if is_true s.is_authenticated
    then (redirect inbox, record { session = s; store = st })
    else if req.is_post && req.form_valid
    then submit_code env req.verification_code user s st
    else (page 200, record { session = s; store = st })

unfoldable pub handle_verify_2fa_login : Env → CodeRequest → Context → Response × Context
unfolding submit_code
handle_verify_2fa_login env req c =
    for_pending env req c.store (get_session_user c.store.users c.session)
