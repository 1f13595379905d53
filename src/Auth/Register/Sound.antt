-- ===== src/Auth/Register/Sound.antt =====
-- Who gets an account (`register` in hushline/routes/auth.py).
use hushline.Common.{
  ℕ, ◌≡◌, refl, sym, ap, ◌≤◌, ◌⊎◌, inl, inr, Bool, true, false, not, ◌&&◌, Option, none, some, List,
  [], ◌∷◌, String, arith, if◌then◌else◌, ◌==◌, nat_eq, string_eq, option_eq, ltb, rows, any, All,
  ◌≢◌, if_cases, option_beq_iff, Found, absent, one, multiple, one_or_none, Bool-cases,
}
use hushline.Model.User.{User}
use hushline.Auth.Session.{Session, stash_post_auth_redirect_target, get_session_user, is_true}
use hushline.Auth.Store.{Username, InviteCode, Store, Env, Context, Response, redirect, page, login}
use hushline.Auth.Register.{
  Fresh, RegisterRequest, form_valid, is_open, new_user, new_username, is_taken, with_account,
  without_code, create_account, check_code, answered, get_math_problem, submit_registration,
  open_registration, with_session, registering, handle_register,
}
use hushline.Auth.Register.Account.{IsAccount, is_open_sound, not_taken, new_user-IsAccount}

-- The code of the request, unexpired and gone afterwards.
pub record CodeUsed (now : ℕ) (text : String) (before after : List InviteCode) : Type 0 where
  pub code : InviteCode
  pub known : one_or_none (λ (c : InviteCode). c.code == text) before ≡ one code
  pub unexpired : now ≤ code.expiration_date
  pub gone : any (λ (c : InviteCode). c.code == text) after ≡ false

pub record Registered (env : Env) (fresh : Fresh) (req : RegisterRequest) (before after : Store)
    : Type 0 where
  pub allowed : (before.registration_enabled ≡ true) ⊎ (before.users ≡ [])
  pub free_name :
      All (λ (n : Username). fresh.lower n.username ≢ fresh.lower req.username) before.usernames
  pub account :
      (u : User) × (n : Username) × (after.users ≡ u ∷ before.users)
      × (after.usernames ≡ n ∷ before.usernames)
      × IsAccount env fresh req before u n
  pub invited :
      (before.registration_codes_required ≡ false)
      ⊎ CodeUsed env.now req.invite_code before.invite_codes after.invite_codes

rows-not_code :
    (text : String) (cs : List InviteCode)
    → any (λ (c : InviteCode). c.code == text) (rows (λ (c : InviteCode). not (c.code == text)) cs)
      ≡ false
rows-not_code text [] = refl
rows-not_code text (c ∷ cs) = let rest = rows-not_code text cs in ground arith

module _ (env : Env) (fresh : Fresh) (req : RegisterRequest) (s : Session) (st out : Store) where
  create_account_sound :
      (uses_code : Bool)
      → create_account env fresh req uses_code s st ≡ (redirect login, out)
      → (is_open st ≡ true)
        × (is_taken fresh req.username st.usernames ≡ false)
        × (out ≡ (
            if uses_code
            then without_code req.invite_code (with_account env fresh req st)
            else with_account env fresh req st))
  create_account_sound true e = ground arith
  create_account_sound false e = ground arith

  -- What the tables have gained, whether or not a code is deleted with it.
  abbrev HasAccount : Store → Type 0
  HasAccount x =
      (u : User) × (n : Username) × (x.users ≡ u ∷ st.users)
      × (x.usernames ≡ n ∷ st.usernames)
      × IsAccount env fresh req st u n

  has_account :
      (x : Store)
      → x.users ≡ new_user env fresh req st ∷ st.users
      → x.usernames ≡ new_username fresh req st ∷ st.usernames
      → HasAccount x
  has_account x us ns = (
    new_user env fresh req st,
    new_username fresh req st,
    us,
    ns,
    new_user-IsAccount env fresh req st,
  )

  check_code_sound :
      (f : Found InviteCode)
      → f ≡ one_or_none (λ (c : InviteCode). c.code == req.invite_code) st.invite_codes
      → check_code env fresh req s st f ≡ (redirect login, out)
      → Registered env fresh req st out
  check_code_sound absent k e = absurd (ground arith)
  check_code_sound multiple k e = absurd (ground arith)
  check_code_sound (one code) k e = elim (Bool-cases (ltb code.expiration_date env.now)) [
    | inl late ↦ absurd (ground arith)
    | inr fresh_code ↦
        let (open_now, free, is_out) =
          create_account_sound true (rw (check_code, fresh_code) at e) in
        record {
          allowed = is_open_sound st open_now;
          free_name = not_taken fresh req.username st.usernames free;
          account =
              has_account out (ap (λ (x : Store). x.users) is_out)
                (ap (λ (x : Store). x.usernames) is_out);
          invited = inr record {
            code = code;
            known = sym k;
            unexpired = ground arith;
            gone = rw is_out (rows-not_code req.invite_code st.invite_codes);
          };
        }
  ]

  without_code_sound :
      st.registration_codes_required ≡ false
      → create_account env fresh req false s st ≡ (redirect login, out)
      → Registered env fresh req st out
  without_code_sound k e =
      let (open_now, free, is_out) = create_account_sound false e in
      record {
        allowed = is_open_sound st open_now;
        free_name = not_taken fresh req.username st.usernames free;
        account =
            has_account out (ap (λ (x : Store). x.users) is_out)
              (ap (λ (x : Store). x.usernames) is_out);
        invited = inl k;
      }

  submit_registration_sound :
      form_valid st req ≡ true
      → submit_registration env fresh req s st ≡ (redirect login, out)
      → (s.math_answer ≡ some req.captcha_answer) × Registered env fresh req st out
  submit_registration_sound v e =
      elim (if_cases (s.math_answer == some req.captcha_answer) (answered env fresh req s st)
        (page 200, st) (redirect login, out) e) [
          | inr (wrong, e') ↦ absurd (ground arith)
          | inl (right, e') ↦ (
            (option_beq_iff s.math_answer (some req.captcha_answer)).0 right,
            elim (if_cases (st.registration_codes_required && not (req.invite_code == ""))
                (check_code env fresh req s st
                  (one_or_none (λ (c : InviteCode). c.code == req.invite_code) st.invite_codes))
                (create_account env fresh req false s st) (redirect login, out) e') [
                  | inl (coded, e'') ↦
                      check_code_sound
                        (one_or_none (λ (c : InviteCode). c.code == req.invite_code)
                          st.invite_codes)
                        refl e''
                  | inr (uncoded, e'') ↦ without_code_sound (ground arith) e''
                ],
          )
        ]

with_session_sound :
    (s : Session) (r : Response × Store) (out : Context)
    → with_session s r ≡ (redirect login, out)
    → (r ≡ (redirect login, r.1)) × (out ≡ record { session = s; store = r.1 })
with_session_sound s (response, st) out e =
    (ap (λ (x : Response × Context). (x.0, st)) e, ap (λ (x : Response × Context). x.1) (sym e))

open_registration_sound :
    (env : Env) (fresh : Fresh) (req : RegisterRequest) (s : Session) (st : Store) (out : Context)
    → open_registration env fresh req s st ≡ (redirect login, out)
    → (out.session.math_answer ≡ some req.captcha_answer) × Registered env fresh req st out.store
open_registration_sound env fresh req s st out e =
    let stashed = if req.is_post then s else stash_post_auth_redirect_target env.urls req.next s in
    let asked = get_math_problem fresh (not req.is_post) stashed in
    let r = submit_registration env fresh req asked st in
    elim (if_cases (is_open st) _ _ _ e) [
      | inr (shut, e') ↦ absurd (ground arith)
      | inl (open_now, e') ↦ elim (if_cases (req.is_post && form_valid st req) _ _ _ e') [
        | inr (shown, e'') ↦ absurd (ground arith)
        | inl (posted, e'') ↦
            let (answer, is_out) = with_session_sound asked r out e'' in
            rw is_out (submit_registration_sound env fresh req asked st r.1 (ground arith) answer)
      ]
    ]

registering_sound :
    (env : Env) (fresh : Fresh) (req : RegisterRequest) (st : Store) (r : Option User × Session)
    (out : Context)
    → registering env fresh req st r ≡ (redirect login, out)
    → (out.session.math_answer ≡ some req.captcha_answer) × Registered env fresh req st out.store
registering_sound env fresh req st (some user, s) out e = absurd (ground arith)
registering_sound env fresh req st (none, s) out e =
    open_registration_sound env fresh req s st out e

-- A registration that succeeds was open or is the first of all, answered the session's sum, took a
-- free name, and gave a known, unexpired invite code wherever codes are required, which is gone
-- afterwards; it adds exactly one user, with the given password and no second factor, and the user's
-- primary name, and the user is an admin exactly if there was no user before.
pub handle_register_sound :
    (env : Env) (fresh : Fresh) (req : RegisterRequest) (c out : Context)
    → handle_register env fresh req c ≡ (redirect login, out)
    → (out.session.math_answer ≡ some req.captcha_answer)
      × Registered env fresh req c.store out.store
unfolding handle_register
handle_register_sound env fresh req c out e =
    registering_sound env fresh req c.store
      (if is_true c.session.is_authenticated
        then get_session_user c.store.users c.session
        else (none, c.session))
      out e
