-- ===== src/Auth/Register/Account.antt =====
-- The account that a registration adds (`register` in hushline/routes/auth.py).
use hushline.Common.{
  ◌≡◌, refl, ◌⊎◌, inl, inr, true, false, none, List, [], ◌∷◌, String, arith, nat_eq, string_eq,
  option_eq, All, ◌≢◌, ◌↔◌, eq_iff, Bool-cases,
}
use hushline.Model.User.{User}
use hushline.Password.{hash_password}
use hushline.Auth.Store.{Username, Store, Env}
use hushline.Auth.Register.{
  Fresh, RegisterRequest, is_empty, is_open, new_user, new_username, is_taken,
}

-- What a registration adds: a user with the given password and no second factor, who is an admin if
-- there was no user before, and the user's primary name.
pub record IsAccount (env : Env) (fresh : Fresh) (req : RegisterRequest) (before : Store) (u : User)
    (n : Username) : Type 0 where
  pub admin : (u.is_admin ≡ true) ↔ (before.users ≡ [])
  pub password : u.password_hash ≡ hash_password env.hashing env.config req.password
  pub one_factor : u.totp_secret ≡ none
  pub session_id : u.session_id ≡ env.new_session_id
  pub tier : u.tier_id ≡ none
  pub name : n.username ≡ req.username
  pub primary : n.is_primary ≡ true
  pub owner : n.user_id ≡ u.id

is_empty_iff : (us : List User) → (is_empty us ≡ true) ↔ (us ≡ [])
is_empty_iff [] = (λ e. refl, λ e. refl)
is_empty_iff (u ∷ us) = (λ e. absurd cc, λ e. absurd cc)

pub is_open_sound :
    (st : Store) → is_open st ≡ true → (st.registration_enabled ≡ true) ⊎ (st.users ≡ [])
is_open_sound st e = elim (Bool-cases st.registration_enabled) [
  | inl on ↦ inl on
  | inr off ↦ inr ((is_empty_iff st.users).0 (ground arith))
]

pub not_taken :
    (fresh : Fresh) (name : String) (ns : List Username)
    → is_taken fresh name ns ≡ false
    → All (λ (n : Username). fresh.lower n.username ≢ fresh.lower name) ns
not_taken fresh name [] e = tt
not_taken fresh name (n ∷ ns) e = (
  λ same. absurd (ground (arith, (eq_iff (fresh.lower n.username) (fresh.lower name)).1 same)),
  not_taken fresh name ns (ground arith),
)

pub new_user-IsAccount :
    (env : Env) (fresh : Fresh) (req : RegisterRequest) (st : Store)
    → IsAccount env fresh req st (new_user env fresh req st) (new_username fresh req st)
new_user-IsAccount env fresh req st = record {
  admin = is_empty_iff st.users;
  password = refl;
  one_factor = refl;
  session_id = refl;
  tier = refl;
  name = refl;
  primary = refl;
  owner = refl;
}
