-- ===== src/Auth/SignIn.antt =====
-- When a request to hushline/routes/auth.py leaves the browser signed in.
use hushline.Common.{
  ℕ, ◌≡◌, sym, ap, ◌∙◌, true, false, none, some, List, [], ◌∷◌, arith, one_or_none, one, nat_eq,
}
use hushline.Model.User.{User, get_user}
use hushline.Password.{verify_password}
use hushline.Auth.Session.{Session, is_true}
use hushline.Auth.Session.Guard.{IsLive}
use hushline.Auth.Store.{Username, Store, Env, Context}
use hushline.Auth.Login.{LoginRequest, filled, is_primary_named}

-- The session is live and its sign-in complete: what the guard asks for.
pub record SignedIn (c : Context) (u : User) : Type 0 where
  pub live : IsLive c.store.users c.session u
  pub complete : is_true c.session.is_authenticated ≡ true

pub get_user-id : (i : ℕ) (u : User) (us : List User) → get_user i us ≡ some u → u.id ≡ i
get_user-id i u [] h = cc
get_user-id i u (x ∷ xs) h = ground (arith, get_user-id i u xs)

-- A session that agrees on the three keys is live for the same user.
pub SignedIn-same :
    (s s' : Session) (st : Store) (u : User)
    → s'.user_id ≡ s.user_id
    → s'.session_id ≡ s.session_id
    → s'.is_authenticated ≡ s.is_authenticated
    → SignedIn (record { session = s'; store = st }) u
    → SignedIn (record { session = s; store = st }) u
SignedIn-same s s' st u a b c h = record {
  live = record {
    id = h.live.id;
    names = sym a ∙ h.live.names;
    row = h.live.row;
    current = sym b ∙ h.live.current;
    issued = h.live.issued;
  };
  complete = ap is_true (sym c) ∙ h.complete;
}

-- A session that has been cleared is not live.
pub not-SignedIn :
    (s : Session) (st : Store) (u : User)
    → is_true s.is_authenticated ≡ false
    → ¬ SignedIn (record { session = s; store = st }) u
not-SignedIn s st u f h = cc (f, h.complete)

pub not-SignedIn_anonymous :
    (s : Session) (st : Store) (u : User)
    → s.user_id ≡ none
    → ¬ SignedIn (record { session = s; store = st }) u
not-SignedIn_anonymous s st u f h = cc (f, h.live.names)

-- The evidence of a sign-in by password alone.
pub record ByPassword (env : Env) (req : LoginRequest) (st : Store) (u : User) : Type 0 where
  pub name : Username
  pub user : User
  pub named : one_or_none (is_primary_named env req.username) st.usernames ≡ one name
  pub owner : get_user name.user_id st.users ≡ some user
  pub password : verify_password env.hashing req.password (some user.password_hash) ≡ true
  pub single_factor : filled user.totp_secret ≡ false
  pub same_user : u.id ≡ user.id
