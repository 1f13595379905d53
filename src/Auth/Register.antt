-- ===== src/Auth/Register.antt =====
-- hushline/routes/auth.py: `register`. The database's lock lets one registration run at a time, so
-- that its second look at the tables sees what the first one saw.
mod Account
pub mod Sound
pub mod Tests
use hushline.Common.{
  ℕ, Bool, true, false, not, ◌&&◌, ◌||◌, Option, none, some, List, [], ◌∷◌, String, if◌then◌else◌,
  ◌==◌, nat_eq, string_eq, option_eq, ltb, rows, any, Found, absent, one, multiple, one_or_none,
}
use hushline.Model.User.{User}
use hushline.Password.{hash_password}
use hushline.Auth.Session.{Session, get_session_user, stash_post_auth_redirect_target, is_true}
use hushline.Auth.Store.{
  Username, InviteCode, Store, Env, Context, Response, redirect, page, server_error, inbox, index,
  login,
}
use hushline.Auth.Login.{filled}

-- What the request takes from outside besides `Env`: the new row's id, the sum and its answer as
-- texts, `lower` of Python and of SQL, and whether the commit that deletes the code succeeds. Where
-- `env.commit_ok` is false, the first commit ends in an IntegrityError.
pub record Fresh : Type 0 where
  pub user_id : ℕ
  pub problem : String
  pub answer : String
  pub lower : String → String
  pub code_commit_ok : Bool

pub record RegisterRequest : Type 0 where
  pub is_post : Bool
  pub next : Option String
  pub fields_valid : Bool
  pub username : String
  pub password : String
  pub invite_code : String
  pub captcha_answer : String

-- `form.validate()`: the field of the invite code, if there is one, must not be empty.
abbrev form_valid : Store → RegisterRequest → Bool
form_valid st req =
    req.fields_valid && (not st.registration_codes_required || not (req.invite_code == ""))

-- `_get_math_problem`
abbrev pub get_math_problem : Fresh → Bool → Session → Session
get_math_problem fresh force_new s =
    if not force_new && (filled s.math_problem && filled s.math_answer)
    then s
    else record s { math_problem = some fresh.problem; math_answer = some fresh.answer }

abbrev pub is_empty : List User → Bool
is_empty [] = true
is_empty (u ∷ us) = false

abbrev pub is_open : Store → Bool
is_open st = st.registration_enabled || is_empty st.users

abbrev pub new_user : Env → Fresh → RegisterRequest → Store → User
new_user env fresh req st = record {
  id = fresh.user_id;
  is_admin = is_empty st.users;
  session_id = env.new_session_id;
  password_hash = hash_password env.hashing env.config req.password;
  totp_secret = none;
  chat_keys = [];
  reset_tokens = [];
  onboarding_complete = false;
  tier_id = none;
  stripe_customer_id = none;
  stripe_subscription_id = none;
  stripe_subscription_status = none;
  stripe_subscription_cancel_at_period_end = some false;
  stripe_subscription_current_period_end = none;
  stripe_subscription_current_period_start = none;
}

abbrev new_username : Fresh → RegisterRequest → Store → Username
new_username fresh req st = record {
  username = req.username;
  user_id = fresh.user_id;
  is_primary = true;
  show_in_directory = is_empty st.users;
}

abbrev pub is_taken : Fresh → String → List Username → Bool
is_taken fresh name names = any (λ (u : Username). fresh.lower u.username == fresh.lower name) names

abbrev with_account : Env → Fresh → RegisterRequest → Store → Store
with_account env fresh req st = record st {
  users = new_user env fresh req st ∷ st.users;
  usernames = new_username fresh req st ∷ st.usernames;
}

abbrev without_code : String → Store → Store
without_code code st = record st {
  invite_codes = rows (λ (c : InviteCode). not (c.code == code)) st.invite_codes;
}

-- From the check of the name on; `uses_code` tells whether an invite code was checked.
abbrev create_account : Env → Fresh → RegisterRequest → Bool → Session → Store → Response × Store
create_account env fresh req uses_code s st =
    if is_taken fresh req.username st.usernames
    then (page 200, st)
    else if is_open st
    then (if env.commit_ok
        then (if uses_code
            then (if fresh.code_commit_ok
                then (redirect login, without_code req.invite_code (with_account env fresh req st))
                else (server_error, with_account env fresh req st))
            else (redirect login, with_account env fresh req st))
        else (page 200, st))
    else (redirect index, st)

abbrev check_code :
    Env → Fresh → RegisterRequest → Session → Store → Found InviteCode → Response × Store
check_code env fresh req s st absent = (page 200, st)
check_code env fresh req s st multiple = (server_error, st)
check_code env fresh req s st (one code) =
    if ltb code.expiration_date env.now
    then (page 200, st)
    else create_account env fresh req true s st

abbrev answered : Env → Fresh → RegisterRequest → Session → Store → Response × Store
answered env fresh req s st =
    if st.registration_codes_required && not (req.invite_code == "")
    then check_code env fresh req s st
        (one_or_none (λ (c : InviteCode). c.code == req.invite_code) st.invite_codes)
    else create_account env fresh req false s st

abbrev submit_registration : Env → Fresh → RegisterRequest → Session → Store → Response × Store
submit_registration env fresh req s st =
    if s.math_answer == some req.captcha_answer then answered env fresh req s st else (page 200, st)

abbrev with_session : Session → Response × Store → Response × Context
with_session s (response, st) = (response, record { session = s; store = st })

abbrev open_registration : Env → Fresh → RegisterRequest → Session → Store → Response × Context
open_registration env fresh req s st =
    let stashed = if req.is_post then s else stash_post_auth_redirect_target env.urls req.next s in
    let asked = get_math_problem fresh (not req.is_post) stashed in
    if is_open st
    then (if req.is_post && form_valid st req
        then with_session asked (submit_registration env fresh req asked st)
        else (page 200, record { session = asked; store = st }))
    else (redirect index, record { session = stashed; store = st })

abbrev registering :
    Env → Fresh → RegisterRequest → Store → Option User × Session → Response × Context
registering env fresh req st (some user, s) = (redirect inbox, record { session = s; store = st })
registering env fresh req st (none, s) = open_registration env fresh req s st

unfoldable pub handle_register : Env → Fresh → RegisterRequest → Context → Response × Context
handle_register env fresh req c = registering env fresh req c.store (
    if is_true c.session.is_authenticated
    then get_session_user c.store.users c.session
    else (none, c.session))
