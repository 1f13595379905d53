-- ===== src/Auth/TwoFactor/Sound.antt =====
-- Who is signed in after a request to `verify_2fa_login` (hushline/routes/auth.py).
use hushline.Common.{
  ◌<◌, ◌≡◌, refl, ◌⊎◌, inl, inr, true, false, ◌&&◌, Option, none, some, List, String, arith,
  Bool-cases, if_split, count, if◌then◌else◌, first, option_eq, nat_eq, string_eq,
}
use hushline.Model.User.{User}
use hushline.Auth.Session.{
  Session, is_true, get_session_user, clear_auth_session, pop_post_auth_redirect,
}
use hushline.Auth.Session.Guard.{IsLive, get_session_user_sound}
use hushline.Auth.Store.{AuthenticationLog, Store, Env, Context, Response, page}
use hushline.Auth.Login.{filled}
use hushline.Auth.SignIn.{SignedIn, not-SignedIn, get_user-id}
use hushline.Auth.TwoFactor.{
  CodeRequest, handle_verify_2fa_login, for_pending, submit_code, complete_2fa, reject_code,
  rate_limited, is_recent_failure, is_success, repeats, or_empty,
}

-- The evidence of a sign-in by a second factor: the password step of this very user is pending in
-- the session, the code verifies against the user's secret, fewer than five failures lie within
-- the last 30 seconds, and the last successful login did not use the code in this interval.
pub record ByCode (env : Env) (req : CodeRequest) (c : Context) (u : User) : Type 0 where
  pub user : User
  pub pending : IsLive c.store.users c.session user
  pub has_secret : filled user.totp_secret ≡ true
  pub verified : env.verify_totp (or_empty user.totp_secret) req.verification_code env.now ≡ true
  pub few_failures : count (is_recent_failure env.now user.id) c.store.logs < 5
  pub no_replay :
      repeats env req.verification_code (first (is_success user.id) c.store.logs) ≡ false
  pub stored : env.commit_ok ≡ true
  pub same_user : u.id ≡ user.id

complete_2fa-user_id :
    (env : Env) (user : User) (code : String) (s : Session) (st : Store)
    → is_true (complete_2fa env user code s st).1.session.is_authenticated ≡ true
    → (env.commit_ok ≡ true) × ((complete_2fa env user code s st).1.session.user_id ≡ s.user_id)
unfolding complete_2fa clear_auth_session pop_post_auth_redirect
complete_2fa-user_id env user code s st h = ground arith

not_limited :
    (env : Env) (code : String) (user : User) (logs : List AuthenticationLog)
    → rate_limited env code user logs ≡ false
    → (count (is_recent_failure env.now user.id) logs < 5)
      × (repeats env code (first (is_success user.id) logs) ≡ false)
unfolding rate_limited
not_limited env code user logs h = ground arith

module _ (env : Env) (req : CodeRequest) (s : Session) (st : Store) (u : User) where
  reject_code-out :
      (user : User)
      → is_true s.is_authenticated ≡ false
      → is_true (reject_code env user s st).1.session.is_authenticated ≡ false
  reject_code-out user out = ground arith

  submit_code-SignedIn :
      (user : User)
      → is_true s.is_authenticated ≡ false
      → IsLive st.users s user
      → SignedIn (submit_code env req.verification_code user s st).1 u
      → ByCode env req (record { session = s; store = st }) u
  unfolding submit_code
  submit_code-SignedIn user out live h = elim (Bool-cases (filled user.totp_secret)) [
    | inr f ↦ absurd (not-SignedIn s st u out (rw (submit_code, f) at h))
    | inl secret ↦ elim (Bool-cases (rate_limited env req.verification_code user st.logs)) [
      | inl limited ↦ absurd (not-SignedIn s st u out (rw (submit_code, secret, limited) at h))
      | inr free ↦
          elim (Bool-cases
            (env.verify_totp (or_empty user.totp_secret) req.verification_code env.now)) [
              | inr wrong ↦
                  let rejected : SignedIn (reject_code env user s st).1 u =
                    rw (submit_code, secret, free, wrong) at h in
                  absurd (cc (reject_code-out user out, rejected.complete))
              | inl right ↦
                  let done : SignedIn (complete_2fa env user req.verification_code s st).1 u =
                    rw (submit_code, secret, free, right) at h in
                  let (stored, same_id) =
                    complete_2fa-user_id env user req.verification_code s st done.complete in
                  let (few, fresh) = not_limited env req.verification_code user st.logs free in
                  record {
                    user = user;
                    pending = live;
                    has_secret = secret;
                    verified = right;
                    few_failures = few;
                    no_replay = fresh;
                    stored = stored;
                    same_user = cc (
                      get_user-id done.live.id u _ done.live.row,
                      done.live.names,
                      same_id,
                      live.names,
                      get_user-id live.id user _ live.row,
                    );
                  }
            ]
    ]
  ]

module _ (env : Env) (req : CodeRequest) (s : Session) (st : Store) (u : User) where
  unfinished-SignedIn :
      (v : User)
      → is_true s.is_authenticated ≡ false
      → IsLive st.users s v
      → SignedIn
          (if req.is_post && req.form_valid
            then submit_code env req.verification_code v s st
            else (page 200, record { session = s; store = st })).1
          u
      → ByCode env req (record { session = s; store = st }) u
  unfinished-SignedIn v out live h =
      elim (if_split (λ (r : Response × Context). SignedIn r.1 u) (req.is_post && req.form_valid)
        h) [
          | inl posted ↦ submit_code-SignedIn env req s st u v out live posted
          | inr shown ↦ absurd (not-SignedIn s st u out shown)
        ]

  for_pending-SignedIn :
      (r : Option User × Session)
      → ((v : User) → r.0 ≡ some v → IsLive st.users s v × (r.1 ≡ s))
      → SignedIn (for_pending env req st r).1 u
      → SignedIn (record { session = s; store = st }) u
        ⊎ ByCode env req (record { session = s; store = st }) u
  unfolding clear_auth_session
  for_pending-SignedIn (none, s') sound h = absurd (cc h.complete)
  for_pending-SignedIn (some v, s') sound h =
      let (live, kept) = sound v refl in
      let h' : SignedIn (for_pending env req st (some v, s)).1 u = rw kept at h in
      elim (Bool-cases (is_true s.is_authenticated)) [
        | inl done ↦ inl (rw done at h')
        | inr out ↦ inr (unfinished-SignedIn v out live (rw out at h'))
      ]

-- After any request to the second factor's page the browser is signed in as a user only if it was
-- so before, or the password step of that user was pending in its session and the request passed
-- every check of `ByCode`.
pub handle_verify_2fa_login_sound :
    (env : Env) (req : CodeRequest) (c : Context) (u : User)
    → SignedIn (handle_verify_2fa_login env req c).1 u
    → SignedIn c u ⊎ ByCode env req c u
unfolding handle_verify_2fa_login
handle_verify_2fa_login_sound env req c u h =
    for_pending-SignedIn env req c.session c.store u (get_session_user c.store.users c.session)
      (get_session_user_sound c.store.users c.session) h
