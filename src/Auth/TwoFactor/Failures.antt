-- ===== src/Auth/TwoFactor/Failures.antt =====
-- How many wrong second-factor codes are accepted for trial (`verify_2fa_login` in
-- hushline/routes/auth.py).
use hushline.Common.{
  ℕ, ◌≤◌, ◌<◌, inl, inr, ◌&&◌, Option, none, some, List, [], ◌∷◌, String, arith, Bool-cases,
  Option-cases, nat_eq, count, if_elim, nat_beq_iff,
}
use hushline.Model.User.{User}
use hushline.Auth.Session.{Session, is_true, get_session_user}
use hushline.Auth.Store.{AuthenticationLog, Store, Env, Context, Response, rotate_user_session_id}
use hushline.Auth.Login.{filled, commit_or_clear}
use hushline.Auth.TwoFactor.{
  CodeRequest, is_recent_failure, rate_limited, complete_2fa, reject_code, or_empty, submit_code,
  for_pending, handle_verify_2fa_login, apply_pending_password_rehash,
}

abbrev pub failures : ℕ → ℕ → List AuthenticationLog → ℕ
failures now uid logs = count (is_recent_failure now uid) logs

failures-later :
    (now later uid : ℕ) (logs : List AuthenticationLog)
    → now ≤ later
    → failures later uid logs ≤ failures now uid logs
failures-later now later uid [] h = ground arith
failures-later now later uid (l ∷ ls) h =
    let rest = failures-later now later uid ls h in ground arith

-- The outcome's log has at most five recent failures of the user.
abbrev IsFew : Env → ℕ → Response × Context → Type 0
IsFew env uid r = failures env.now uid r.1.store.logs ≤ 5

module _ (env : Env) (uid : ℕ) where
  commit_or_clear-IsFew :
      (before after : Store) (done : Response × Session) (s : Session)
      → failures env.now uid before.logs ≤ 5
      → failures env.now uid after.logs ≤ 5
      → IsFew env uid (commit_or_clear env before (done, after) s)
  commit_or_clear-IsFew before after done s a b = if_elim (IsFew env uid) env.commit_ok b a

  complete_2fa-IsFew :
      (user : User) (code : String) (s : Session) (st : Store)
      → failures env.now uid st.logs ≤ 5
      → IsFew env uid (complete_2fa env user code s st)
  unfolding complete_2fa
  complete_2fa-IsFew user code s st h =
      elim (Option-cases (
        apply_pending_password_rehash env s.pending_password_rehash
          s.pending_password_rehash_source_digest (rotate_user_session_id env user))) [
            | inl bad ↦ rw (bad, complete_2fa) h
            | inr (v, good) ↦
                rw (good, complete_2fa) (commit_or_clear-IsFew _ _ _ _ h (ground arith))
          ]

  reject_code-IsFew :
      (user : User) (s : Session) (st : Store)
      → failures env.now uid st.logs ≤ 5
      → (failures env.now user.id st.logs < 5)
      → IsFew env uid (reject_code env user s st)
  reject_code-IsFew user s st h free =
      if_elim (IsFew env uid) env.commit_ok (ground (arith, nat_beq_iff user.id uid)) h

  submit_code-IsFew :
      (code : String) (user : User) (s : Session) (st : Store)
      → failures env.now uid st.logs ≤ 5
      → IsFew env uid (submit_code env code user s st)
  unfolding submit_code rate_limited
  submit_code-IsFew code user s st h =
      if_elim (IsFew env uid) (filled user.totp_secret)
        (elim (Bool-cases (rate_limited env code user st.logs)) [
          | inl full ↦ rw full h
          | inr free ↦ rw free (
              if_elim (IsFew env uid) (env.verify_totp (or_empty user.totp_secret) code env.now)
                (complete_2fa-IsFew user code s st h)
                (reject_code-IsFew user s st h (ground arith)))
        ])
        h

  for_pending-IsFew :
      (req : CodeRequest) (st : Store) (r : Option User × Session)
      → failures env.now uid st.logs ≤ 5
      → IsFew env uid (for_pending env req st r)
  for_pending-IsFew req st (none, s) h = h
  for_pending-IsFew req st (some user, s) h =
      if_elim (IsFew env uid) (is_true s.is_authenticated) h (
        if_elim (IsFew env uid) (req.is_post && req.form_valid)
          (submit_code-IsFew req.verification_code user s st h) h)

-- The requests to the second factor's page, each from a browser of its own.
abbrev pub verify_all : List (Env × CodeRequest × Session) → Store → Store
verify_all [] st = st
verify_all ((env, req, s) ∷ rest) st =
    verify_all rest (handle_verify_2fa_login env req (record { session = s; store = st })).1.store

abbrev pub IsOrdered : ℕ → List (Env × CodeRequest × Session) → Type 0
IsOrdered now [] = Unit
IsOrdered now ((env, req, s) ∷ rest) = (now ≤ env.now) × IsOrdered env.now rest

abbrev pub last : ℕ → List (Env × CodeRequest × Session) → ℕ
last now [] = now
last now ((env, req, s) ∷ rest) = last env.now rest

-- Whatever codes are tried, from however many browsers: as long as the clock does not run
-- backwards, no user has more than five failures in the log within the last 30 seconds.
pub verify_all-few :
    (now uid : ℕ) (tries : List (Env × CodeRequest × Session)) (st : Store)
    → IsOrdered now tries
    → failures now uid st.logs ≤ 5
    → failures (last now tries) uid (verify_all tries st).logs ≤ 5
unfolding handle_verify_2fa_login
verify_all-few now uid [] st o h = h
verify_all-few now uid ((env, req, s) ∷ rest) st o h =
    verify_all-few env.now uid rest
      (handle_verify_2fa_login env req (record { session = s; store = st })).1.store o.1
      (for_pending-IsFew env uid req st (get_session_user st.users s)
        (ground (arith, failures-later now env.now uid st.logs o.0)))
