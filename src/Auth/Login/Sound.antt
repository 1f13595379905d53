-- ===== src/Auth/Login/Sound.antt =====
-- Who is signed in after a request to `login` (hushline/routes/auth.py).
use hushline.Common.{
  ◌≡◌, refl, ◌⊎◌, inl, inr, true, false, Option, none, some, String, arith, Bool-cases,
  Option-cases, Found-cases, one_or_none, if_split,
}
use hushline.Model.User.{User, get_user}
use hushline.Model.ChatKey.{Payload}
use hushline.Password.{verify_password}
use hushline.Auth.Session.{
  Session, is_true, get_session_user, clear_auth_session, set_session_user, pop,
  pending_password_rehash, pending_password_rehash_source_digest, pop_post_auth_redirect,
}
use hushline.Auth.Session.Guard.{get_session_user_sound, get_session_user-none, stash-keeps}
use hushline.Auth.Store.{Username, Store, Env, Context, Response, create_initial_chat_key}
use hushline.Auth.Login.{
  LoginRequest, filled, handle_login, submit_login, is_primary_named, login_as, begin_2fa,
  complete_login, not_signed_in, already,
}
use hushline.Auth.SignIn.{
  SignedIn, SignedIn-same, not-SignedIn, not-SignedIn_anonymous, get_user-id, ByPassword,
}

begin_2fa-out :
    (env : Env) (user : User) (name : String) (payload : Option Payload) (rehash : Option String)
    (s : Session) (st : Store)
    → is_true (begin_2fa env user name payload rehash s st).1.session.is_authenticated ≡ false
unfolding begin_2fa set_session_user clear_auth_session
begin_2fa-out env user name payload rehash s st = ground arith

complete_login-user_id :
    (env : Env) (user : User) (name : String) (payload : Option Payload) (rehash : Option String)
    (s : Session) (st : Store)
    → ((complete_login env user name payload rehash s st).1.session.user_id ≡ some user.id)
      ⊎ ((complete_login env user name payload rehash s st).1.session.user_id ≡ none)
unfolding complete_login set_session_user clear_auth_session create_initial_chat_key
    pop_post_auth_redirect
complete_login-user_id env user name payload rehash s st = ground arith

complete_login-SignedIn :
    (env : Env) (user : User) (name : String) (payload : Option Payload) (rehash : Option String)
    (s : Session) (st : Store) (u : User)
    → SignedIn (complete_login env user name payload rehash s st).1 u
    → u.id ≡ user.id
complete_login-SignedIn env user name payload rehash s st u h =
    let i = get_user-id h.live.id u _ h.live.row in
    elim (complete_login-user_id env user name payload rehash s st) [
      | inl e ↦ cc (e, h.live.names, i)
      | inr e ↦ absurd (cc (e, h.live.names))
    ]

module _ (env : Env) (req : LoginRequest) (s : Session) (st : Store) (u : User) where
  login_as-SignedIn :
      (name : Username) (user : User)
      → SignedIn (login_as env req name user s st).1 u
      → SignedIn (record { session = s; store = st }) u
        ⊎ ((verify_password env.hashing req.password (some user.password_hash) ≡ true)
            × (filled user.totp_secret ≡ false)
            × (u.id ≡ user.id))
  unfolding login_as
  login_as-SignedIn name user h =
      elim (Bool-cases (verify_password env.hashing req.password (some user.password_hash))) [
        | inr wrong ↦ inl (rw (login_as, wrong) at h)
        | inl right ↦ elim (Bool-cases (filled user.totp_secret)) [
          | inl two ↦ absurd (
              not-SignedIn _ _ u
                (begin_2fa-out env user name.username (req.chat_key user.id) _ _ st)
                (rw (login_as, right, two) at h))
          | inr one_factor ↦ inr (
            right,
            one_factor,
            complete_login-SignedIn env user name.username (req.chat_key user.id) _ _ st u
                (rw (login_as, right, one_factor) at h),
          )
        ]
      ]

module _ (env : Env) (req : LoginRequest) (s : Session) (st : Store) (u : User) where
  submit_login-SignedIn :
      SignedIn (submit_login env req s st).1 u
      → SignedIn (record { session = s; store = st }) u ⊎ ByPassword env req st u
  unfolding submit_login
  submit_login-SignedIn h =
      let s' = pop (pop s pending_password_rehash) pending_password_rehash_source_digest in
      let same = SignedIn-same s s' st u refl refl refl in
      elim (Found-cases (one_or_none (is_primary_named env req.username) st.usernames)) [
        | inl e ↦ inl (same (rw (e, submit_login) at h))
        | inr (inr e) ↦ inl (same (rw (e, submit_login) at h))
        | inr (inl (name, e)) ↦ elim (Option-cases (get_user name.user_id st.users)) [
          | inl no_row ↦ inl (same (rw (e, submit_login, no_row) at h))
          | inr (user, row) ↦
              elim (login_as-SignedIn env req s' st u name user (rw (e, submit_login, row) at h)) [
                | inl before ↦ inl (same before)
                | inr (right, one_factor, is_user) ↦ inr (record {
                  name = name;
                  user = user;
                  named = e;
                  owner = row;
                  password = right;
                  single_factor = one_factor;
                  same_user = is_user;
                })
              ]
        ]
      ]

  not_signed_in-SignedIn :
      SignedIn (not_signed_in env req s st).1 u
      → SignedIn (record { session = s; store = st }) u ⊎ ByPassword env req st u
  not_signed_in-SignedIn h =
      let P = λ (r : Response × Context). SignedIn r.1 u in
      let (a, b, c) = stash-keeps env.urls req.next s in
      elim (if_split P req.is_post h) [
        | inl post ↦ elim (if_split P req.form_valid post) [
          | inl valid ↦ submit_login-SignedIn valid
          | inr invalid ↦ inl invalid
        ]
        | inr get ↦ inl (SignedIn-same s _ st u a b c get)
      ]

already-SignedIn :
    (env : Env) (req : LoginRequest) (s : Session) (st : Store) (u : User)
    (r : Option User × Session)
    → (r.0 ≡ none → r.1.user_id ≡ none)
    → ((v : User) → r.0 ≡ some v → r.1 ≡ s)
    → SignedIn (already env req st r).1 u
    → SignedIn (record { session = s; store = st }) u ⊎ ByPassword env req st u
already-SignedIn env req s st u (some v, s') nobody kept h = inl (rw (kept v refl) at h)
already-SignedIn env req s st u (none, s') nobody kept h =
    elim (not_signed_in-SignedIn env req s' st u h) [
      | inl before ↦ absurd (not-SignedIn_anonymous s' st u (nobody refl) before)
      | inr by ↦ inr by
    ]

-- After any request to the login page the browser is signed in as a user only if it was so before,
-- or the request named that user by its one primary username, gave its password, and the user has
-- no second factor.
pub handle_login_sound :
    (env : Env) (req : LoginRequest) (c : Context) (u : User)
    → SignedIn (handle_login env req c).1 u
    → SignedIn c u ⊎ ByPassword env req c.store u
unfolding handle_login
handle_login_sound env req c u h =
    let users = c.store.users in
    elim (if_split (λ (r : Response × Context). SignedIn r.1 u) (is_true c.session.is_authenticated)
      h) [
        | inr new ↦ not_signed_in-SignedIn env req c.session c.store u new
        | inl old ↦
            already-SignedIn env req c.session c.store u (get_session_user users c.session)
              (get_session_user-none users c.session)
              (λ v e. (get_session_user_sound users c.session v e).1) old
      ]
