-- ===== src/Auth/Reset/Revoke.antt =====
-- Which cookies a password reset and a logout put out of use (hushline/routes/auth.py).
use hushline.Common.{
  ℕ, ◌≡◌, ◌≢◌, refl, sym, ap, ◌∙◌, inl, inr, true, Option, none, some, List, [], ◌∷◌, String, arith,
  Bool-cases, Option-cases, ◌==◌, nat_eq, string_eq, nat_beq_iff, All,
}
use hushline.Model.User.{User, ResetToken, put_user, get_user, active_chat_key}
use hushline.Password.{verify_password}
use hushline.Password.Laws.{Verifies}
use hushline.Auth.Session.{
  Session, Request, to_handler, empty, get_session_user, authentication_required,
}
use hushline.Auth.Session.Guard.{
  IsLive, get_session_user-stale, get_session_user_complete, authentication_required_iff,
  authentication_required-kept,
}
use hushline.Auth.SignIn.{get_user-id}
use hushline.Auth.Store.{Env, Context, redirect, index, login, rotate_user_session_id}
use hushline.Auth.Reset.{
  ResetRequest, owned_token, find_token, is_usable, reset_user, handle_reset_password, end_session,
  handle_logout,
}
use hushline.Auth.Reset.Once.{IsUsed, handle-success, reset_user-locks, reset_user-id}
use hushline.ChatKeys.Lifecycle.Versions.{IsValid}

-- Writing back a row that is there.
get_user-put :
    (v w : User) (us : List User)
    → get_user v.id us ≡ some w
    → get_user v.id (put_user v us) ≡ some v
get_user-put v w [] e = absurd cc
get_user-put v w (x ∷ xs) e = elim (Bool-cases (x.id == v.id)) [
  | inl same ↦ rw same (ground (arith, nat_beq_iff v.id v.id))
  | inr other ↦ rw other (ground (arith, get_user-put v w xs))
]

find_token-get_user :
    (hash : String) (u v : User) (t : ResetToken) (us : List User)
    → find_token hash us ≡ some (u, t)
    → v.id ≡ u.id
    → get_user v.id (put_user v us) ≡ some v
find_token-get_user hash u v t [] e i = absurd cc
find_token-get_user hash u v t (x ∷ xs) e i = elim (Bool-cases (x.id == v.id)) [
  | inl same ↦ rw same (ground (arith, nat_beq_iff v.id v.id))
  | inr other ↦ elim (Option-cases (owned_token hash x)) [
    | inl foreign ↦
        rw other
          (ground (arith, find_token-get_user hash u v t xs (rw (find_token, foreign) at e) i))
    | inr (s, own) ↦ absurd (ground (arith, nat_beq_iff x.id v.id))
  ]
]

find_token-All :
    (P : User → Type 0) (hash : String) (u : User) (t : ResetToken) (us : List User)
    → find_token hash us ≡ some (u, t)
    → All P us
    → P u
find_token-All P hash u t [] e h = absurd cc
find_token-All P hash u t (x ∷ xs) e h = elim (Option-cases (owned_token hash x)) [
  | inl foreign ↦ find_token-All P hash u t xs (rw (find_token, foreign) at e) h.1
  | inr (s, own) ↦ let same : x ≡ u = cc (rw (find_token, own) at e) in rw⁻¹ same h.0
]

get_user-lemma :
    (i : ℕ) (v : User) (us : List User)
    → v.id ≡ i
    → get_user v.id us ≡ some v
    → get_user i us ≡ some v
get_user-lemma i v us e h = ground arith

-- A cookie that was issued before the row got another session id no longer names the user.
put_user-revokes :
    (us : List User) (u v : User) (s : Session)
    → IsLive us s u
    → v.id ≡ u.id
    → v.session_id ≢ u.session_id
    → (get_session_user (put_user v us) s).0 ≡ none
put_user-revokes us u v s l same_id ne =
    let v_is : v.id ≡ l.id = same_id ∙ get_user-id l.id u us l.row in
    let row = get_user-put v u us (ap (λ i. get_user i us) v_is ∙ l.row) in
    get_session_user-stale (put_user v us) s l.id u.session_id v l.names
      (ap (λ i. get_user i (put_user v us)) (sym v_is) ∙ row) l.current ne

-- A reset with a usable link signs the browser out and writes the owner of the token back such that
-- the new password verifies, all of the owner's reset tokens are used up, no chat key is active and
-- the session id is the fresh one.
pub handle_reset_password-effect :
    (env : Env) (raw : String) (req : ResetRequest) (c out : Context)
    → Verifies env.hashing req.password
    → All (λ u. IsValid u.chat_keys) c.store.users
    → handle_reset_password env raw req c ≡ (redirect login, out)
    → (u after : User) × (t : ResetToken) × (find_token (env.sha256 raw) c.store.users
        ≡ some (u, t))
      × (is_usable env.now t ≡ true)
      × (out.session ≡ empty)
      × (get_user u.id out.store.users ≡ some after)
      × (verify_password env.hashing req.password (some after.password_hash) ≡ true)
      × All IsUsed after.reset_tokens
      × (active_chat_key after ≡ none)
      × (after.session_id ≡ env.new_session_id)
handle_reset_password-effect env raw req c out v valid e =
    let (u, t, found_it, usable, is_out) = handle-success env raw req c out e in
    let hash = env.sha256 raw in
    let after = reset_user env req.password u in
    let keys = find_token-All (λ w. IsValid w.chat_keys) hash u t c.store.users found_it valid in
    let (same_id, verifies, used, locked, fresh) = reset_user-locks env req.password u v keys in
    let row = find_token-get_user hash u after t c.store.users found_it same_id in
    (
      u,
      after,
      t,
      found_it,
      usable,
      ap (λ (x : Context). x.session) is_out,
      rw is_out (ap (λ i. get_user i (put_user after c.store.users)) (sym same_id) ∙ row),
      verifies,
      used,
      locked,
      fresh,
    )

-- After a reset, no cookie that the token's owner had is live, unless the fresh session id is the
-- old one.
pub handle_reset_password-revokes :
    (env : Env) (raw : String) (req : ResetRequest) (c out : Context) (u : User) (t : ResetToken)
    (cookie : Session)
    → handle_reset_password env raw req c ≡ (redirect login, out)
    → find_token (env.sha256 raw) c.store.users ≡ some (u, t)
    → IsLive c.store.users cookie u
    → env.new_session_id ≢ u.session_id
    → (get_session_user out.store.users cookie).0 ≡ none
unfolding reset_user
handle_reset_password-revokes env raw req c out u t cookie e found_it l ne =
    let (u', t', found', usable, is_out) = handle-success env raw req c out e in
    let same : u' ≡ u = cc (found_it, found') in
    let after = reset_user env req.password u' in
    let same_id = reset_user-id env req.password u' ∙ ap (λ (w : User). w.id) same in
    rw is_out (put_user-revokes c.store.users u after cookie l same_id ne)

end_session-revokes :
    (env : Env) (c out : Context) (r : Option User × Session) (u : User) (cookie : Session)
    → r.0 ≡ some u
    → end_session env c r ≡ (redirect index, out)
    → IsLive c.store.users cookie u
    → env.new_session_id ≢ u.session_id
    → (out.session ≡ empty) × ((get_session_user out.store.users cookie).0 ≡ none)
end_session-revokes env c out (none, s) u cookie a e l ne = absurd cc
end_session-revokes env c out (some u', s) u cookie a e l ne = elim (Bool-cases env.commit_ok) [
  | inl ok ↦
      let after = rotate_user_session_id env u' in
      let users = put_user after c.store.users in
      let is_out : out ≡ record { session = empty; store = record c.store { users = users } } =
        ground arith in
      let same_id : after.id ≡ u.id = ground arith in
      rw is_out (refl, put_user-revokes c.store.users u after cookie l same_id ne)
  | inr failed ↦ absurd (ground arith)
]

-- A logout empties the session, and no cookie that the user had, on any device, is live after it.
pub handle_logout-revokes :
    (env : Env) (req : Request) (c out : Context) (u : User) (cookie : Session)
    → (authentication_required env.urls req c.store.users c.session).0 ≡ to_handler u
    → handle_logout env req c ≡ (redirect index, out)
    → IsLive c.store.users cookie u
    → env.new_session_id ≢ u.session_id
    → (out.session ≡ empty) × ((get_session_user out.store.users cookie).0 ≡ none)
unfolding handle_logout
handle_logout-revokes env req c out u cookie a e l ne =
    let kept = authentication_required-kept env.urls req c.store.users c.session u a in
    let (live, done) = (authentication_required_iff env.urls req c.store.users c.session u).0 a in
    let is_user = get_session_user_complete c.store.users c.session u live in
    let e' : end_session env c (some u, c.session) ≡ (redirect index, out) =
      rw (handle_logout, kept, is_user) at e in
    end_session-revokes env c out (some u, c.session) u cookie refl e' l ne
