-- ===== src/Auth/Reset/Once.antt =====
-- What a password reset leaves behind (`reset_password` in hushline/routes/auth.py).
use hushline.Common.{
  ℕ, ◌≡◌, refl, inl, inr, true, Option, none, some, List, [], ◌∷◌, String, arith, Bool-cases,
  Option-cases, ◌==◌, nat_beq_iff, nat_eq, string_eq, first, is_some, All,
}
use hushline.Model.User.{User, ResetToken, put_user, active_chat_key}
use hushline.Password.{verify_password}
use hushline.Password.Laws.{Verifies, verify-hash_password}
use hushline.Auth.Session.{empty}
use hushline.Auth.Store.{Env, Context, redirect, login, request_password_reset}
use hushline.Auth.Reset.{
  ResetRequest, owned_token, find_token, used_token, reset_with, is_usable, if_usable,
  load_active_token, invalidate_tokens, reset_user, submit_reset, handle_reset_password,
}
use hushline.ChatKeys.Lifecycle.{retire_active_chat_key}
use hushline.ChatKeys.Lifecycle.Versions.{IsValid, retire-inactive, retire-none, retire-some}

abbrev pub IsUsed : ResetToken → Type 0
IsUsed t = is_some t.used_at ≡ true

invalidate-IsUsed : (now : ℕ) (ts : List ResetToken) → All IsUsed (invalidate_tokens now ts)
invalidate-IsUsed now [] = tt
invalidate-IsUsed now (t ∷ ts) = (ground arith, invalidate-IsUsed now ts)

invalidate-first :
    (now : ℕ) (hash : String) (ts : List ResetToken) (t : ResetToken)
    → first (λ x. x.token_hash == hash) ts ≡ some t
    → (t' : ResetToken) × (first (λ x. x.token_hash == hash) (invalidate_tokens now ts) ≡ some t')
      × IsUsed t'
invalidate-first now hash [] t e = absurd cc
invalidate-first now hash (x ∷ xs) t e = elim (Bool-cases (x.token_hash == hash)) [
  | inl here ↦ (used_token now x, ground arith, ground arith)
  | inr there ↦
      let (t', found_it, used) = invalidate-first now hash xs t (rw there at e) in
      (t', ground arith, used)
]

retire-owned :
    (now : ℕ) (state : String) (u : User)
    → ((retire_active_chat_key now state u).0.id ≡ u.id)
      × ((retire_active_chat_key now state u).0.reset_tokens ≡ u.reset_tokens)
retire-owned now state u = elim (Option-cases (active_chat_key u)) [
  | inl none_active ↦ rw (retire-none now state u none_active) (refl, refl)
  | inr (k, active) ↦ rw (retire-some now state u k active) (refl, refl)
]

find_token-put_user :
    (hash : String) (u v : User) (t t' : ResetToken) (us : List User)
    → find_token hash us ≡ some (u, t)
    → v.id ≡ u.id
    → owned_token hash v ≡ some t'
    → find_token hash (put_user v us) ≡ some (v, t')
find_token-put_user hash u v t t' [] e i o = absurd cc
find_token-put_user hash u v t t' (x ∷ xs) e i o = elim (Bool-cases (x.id == v.id)) [
  | inl same ↦ rw (same, o) refl
  | inr other ↦ elim (Option-cases (owned_token hash x)) [
    | inl foreign ↦
        rw (other, foreign)
          (find_token-put_user hash u v t t' xs (rw (find_token, foreign) at e) i o)
    | inr (s, own) ↦ absurd (ground (arith, nat_beq_iff x.id v.id))
  ]
]

load_sound :
    (env : Env) (raw : String) (users : List User) (u : User) (t : ResetToken)
    → load_active_token env raw users ≡ some (u, t)
    → (find_token (env.sha256 raw) users ≡ some (u, t)) × (is_usable env.now t ≡ true)
unfolding load_active_token
load_sound env raw users u t e = go (find_token (env.sha256 raw) users) e
  where
    go :
        (f : Option (User × ResetToken))
        → if_usable env.now f ≡ some (u, t)
        → (f ≡ some (u, t)) × (is_usable env.now t ≡ true)
    go none p = absurd cc
    go (some (v, s)) p = ground arith

submit_sound :
    (env : Env) (password : String) (user : User) (c out : Context)
    → submit_reset env password user c ≡ (redirect login, out)
    → out ≡ record {
      session = empty;
      store = record c.store { users = put_user (reset_user env password user) c.store.users };
    }
submit_sound env password user c out e = ground arith

reset_with_sound :
    (env : Env) (req : ResetRequest) (c out : Context) (l : Option (User × ResetToken))
    → reset_with env req c l ≡ (redirect login, out)
    → (u : User) × (t : ResetToken) × (l ≡ some (u, t))
      × (submit_reset env req.password u c ≡ (redirect login, out))
reset_with_sound env req c out none e = absurd (ground arith)
reset_with_sound env req c out (some (u, t)) e = (u, t, refl, ground arith)

pub handle-success :
    (env : Env) (raw : String) (req : ResetRequest) (c out : Context)
    → handle_reset_password env raw req c ≡ (redirect login, out)
    → (u : User) × (t : ResetToken) × (find_token (env.sha256 raw) c.store.users ≡ some (u, t))
      × (is_usable env.now t ≡ true)
      × (out ≡ record {
        session = empty;
        store = record c.store { users = put_user (reset_user env req.password u) c.store.users };
      })
unfolding handle_reset_password
handle-success env raw req c out e =
    let loaded = load_active_token env raw c.store.users in
    let (u, t, is_loaded, submitted) = reset_with_sound env req c out loaded e in
    let (found_it, usable) = load_sound env raw c.store.users u t is_loaded in
    (u, t, found_it, usable, submit_sound env req.password u c out submitted)

-- The row after a reset: the new password is the one that verifies, every reset token is used up,
-- no chat key is left active, and the session id is the fresh one.
pub reset_user-locks :
    (env : Env) (password : String) (u : User)
    → Verifies env.hashing password
    → IsValid u.chat_keys
    → let after = reset_user env password u in
      (after.id ≡ u.id)
      × (verify_password env.hashing password (some after.password_hash) ≡ true)
      × All IsUsed after.reset_tokens
      × (active_chat_key after ≡ none)
      × (after.session_id ≡ env.new_session_id)
unfolding reset_user
reset_user-locks env password u v k = (
  (retire-owned env.now "password_reset_locked" u).0,
  verify-hash_password env.hashing env.config password v,
  invalidate-IsUsed env.now _,
  (retire-inactive env.now "password_reset_locked" u k).0,
  refl,
)

pub reset_user-id :
    (env : Env) (password : String) (u : User) → (reset_user env password u).id ≡ u.id
unfolding reset_user
reset_user-id env password u = (retire-owned env.now "password_reset_locked" u).0

reset_user-owned :
    (env : Env) (password hash : String) (u : User) (t : ResetToken)
    → owned_token hash u ≡ some t
    → (t' : ResetToken) × (owned_token hash (reset_user env password u) ≡ some t') × IsUsed t'
unfolding reset_user
reset_user-owned env password hash u t e =
    rw (retire-owned env.now "password_reset_locked" u).1
      (invalidate-first env.now hash u.reset_tokens t e)

pub find_token-owned :
    (hash : String) (us : List User) (u : User) (t : ResetToken)
    → find_token hash us ≡ some (u, t)
    → owned_token hash u ≡ some t
find_token-owned hash [] u t e = absurd cc
find_token-owned hash (x ∷ xs) u t e = elim (Option-cases (owned_token hash x)) [
  | inl foreign ↦ find_token-owned hash xs u t (rw (find_token, foreign) at e)
  | inr (s, own) ↦ cc (own, rw (find_token, own) at e)
]

-- A reset link works once: after it was used, every later request with it, posted or not, is sent
-- to ask for a new one and changes nothing.
pub handle_reset_password-once :
    (env later : Env) (raw : String) (req again : ResetRequest) (c out : Context)
    → later.sha256 raw ≡ env.sha256 raw
    → handle_reset_password env raw req c ≡ (redirect login, out)
    → handle_reset_password later raw again out ≡ (redirect request_password_reset, out)
unfolding handle_reset_password load_active_token
handle_reset_password-once env later raw req again c out same e =
    let (u, t, found_it, usable, is_out) = handle-success env raw req c out e in
    let hash = env.sha256 raw in
    let own = find_token-owned hash c.store.users u t found_it in
    let (t', own', used) = reset_user-owned env req.password hash u t own in
    let v = reset_user env req.password u in
    let gone =
      find_token-put_user hash u v t t' c.store.users found_it (reset_user-id env req.password u)
        own' in
    rw (is_out, same, gone) (ground arith)
