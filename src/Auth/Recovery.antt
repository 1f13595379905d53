-- ===== src/Auth/Recovery.antt =====
-- hushline/routes/auth.py: `request_password_reset` and its rate limit, with `validate_captcha` of
-- hushline/routes/common.py. The commit of the attempt is taken to succeed.
mod Attempts
pub mod Limits
pub mod Tests
use hushline.Common.{
  ℕ, ◌+◌, ◌*◌, suc, Bool, true, false, not, ◌&&◌, ◌||◌, Option, none, some, List, ◌∷◌, String,
  if◌then◌else◌, ◌==◌, nat_eq, string_eq, option_eq, leb, count, ℤ, pos, negsuc, Found, absent, one,
  multiple, one_or_none,
}
use hushline.Model.User.{User}
use hushline.Auth.Session.{Session}
use hushline.Auth.Store.{Username, ResetAttempt, Store, Env, Context, Response, page, second}
use hushline.Auth.Login.{is_primary_named}
use hushline.Auth.Register.{Fresh, get_math_problem}

-- The configuration, and the keyed hash and `str.isdigit` of the library.
pub record ResetLimits : Type 0 where
  pub window_minutes : ℤ
  pub identifier_max : ℤ
  pub ip_max : ℤ
  pub hmac : String → String
  pub isdigit : String → Bool

pub record LinkRequest : Type 0 where
  pub is_post : Bool
  pub form_valid : Bool
  pub username : String
  pub captcha_answer : String
  pub remote_addr : Option String

abbrev validate_captcha : ResetLimits → String → Session → Bool
validate_captcha l answer s = l.isdigit answer && s.math_answer == some answer

-- `_password_reset_identifier_hash` and `_password_reset_ip_hash`
abbrev pub identifier_hash : Env → ResetLimits → LinkRequest → String
identifier_hash env l req = l.hmac (env.fold req.username)

abbrev pub or_unknown : Option String → String
or_unknown none = "unknown"
or_unknown (some a) = if a == "" then "unknown" else a

abbrev pub ip_hash : ResetLimits → LinkRequest → String
ip_hash l req = l.hmac (or_unknown req.remote_addr)

abbrev pub minute : ℕ
minute = 60 * second

-- `created_at >= now - window`; a negative window lies in the future.
abbrev pub is_in_window : ℤ → ℕ → ResetAttempt → Bool
is_in_window (pos w) now a = leb now (a.created_at + w * minute)
is_in_window (negsuc w) now a = leb (now + suc w * minute) a.created_at

abbrev pub by_identifier : Env → ResetLimits → LinkRequest → ResetAttempt → Bool
by_identifier env l req a =
    a.identifier_hash == identifier_hash env l req && is_in_window l.window_minutes env.now a

abbrev pub by_ip : Env → ResetLimits → LinkRequest → ResetAttempt → Bool
by_ip env l req a = a.ip_hash == ip_hash l req && is_in_window l.window_minutes env.now a

-- `count >= limit`
abbrev pub reaches : ℤ → ℕ → Bool
reaches (pos n) c = leb n c
reaches (negsuc n) c = true

abbrev pub attempt_of : Env → ResetLimits → LinkRequest → ResetAttempt
attempt_of env l req = record {
  identifier_hash = identifier_hash env l req;
  ip_hash = ip_hash l req;
  created_at = env.now;
}

-- `_password_reset_rate_limited`: every request counts, also one that is limited.
abbrev password_reset_rate_limited : Env → ResetLimits → LinkRequest → Store → Bool × Store
password_reset_rate_limited env l req st = (
  reaches l.identifier_max (count (by_identifier env l req) st.attempts)
      || reaches l.ip_max (count (by_ip env l req) st.attempts),
  record st { attempts = attempt_of env l req ∷ st.attempts },
)

-- `_find_primary_username`, where several matches are none, and `_eligible_password_reset_user`
abbrev found_username : Found Username → Option Username
found_username absent = none
found_username (one name) = some name
found_username multiple = none

abbrev eligible : Option Username → Option User
eligible none = none
eligible (some name) = none

abbrev eligible_password_reset_user : Env → String → Store → Option User
eligible_password_reset_user env identifier st =
    eligible (found_username (one_or_none (is_primary_named env identifier) st.usernames))

abbrev answer_link : Bool × Store → Option User → Session → Response × Context
answer_link (true, st) user s = (page 429, record { session = s; store = st })
answer_link (false, st) user s = (page 200, record { session = s; store = st })

abbrev request_link : Env → ResetLimits → LinkRequest → Session → Store → Response × Context
request_link env l req s st =
    answer_link (password_reset_rate_limited env l req st)
      (eligible_password_reset_user env req.username st) s

abbrev pub ask : Fresh → LinkRequest → Session → Session
ask fresh req s = get_math_problem fresh (not req.is_post) s

-- Whether the request is a form that counts.
abbrev pub is_submitted : ResetLimits → Fresh → LinkRequest → Session → Bool
is_submitted l fresh req s =
    req.is_post && (req.form_valid && validate_captcha l req.captcha_answer (ask fresh req s))

unfoldable pub handle_request_password_reset :
    Env → ResetLimits → Fresh → LinkRequest → Context → Response × Context
handle_request_password_reset env l fresh req c =
    if is_submitted l fresh req c.session
    then request_link env l req (ask fresh req c.session) c.store
    else (page 200, record { session = ask fresh req c.session; store = c.store })
