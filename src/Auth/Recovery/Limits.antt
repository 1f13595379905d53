-- ===== src/Auth/Recovery/Limits.antt =====
-- What a request for a reset link does (`request_password_reset` in hushline/routes/auth.py).
use hushline.Common.{
  ap, ◌∙◌, ◌==◌, List, String, ◌≢◌, none, some, eq_iff, option_beq_iff, string_eq, option_eq, ◌≡◌,
  refl, ◌⊎◌, inl, inr, ◌↔◌, Bool, true, false, Option, ◌∷◌, arith, Bool-cases, count,
}
use hushline.Model.User.{User}
use hushline.Auth.Session.{Session}
use hushline.Auth.Store.{ResetAttempt, Store, Env, Context, page}
use hushline.Auth.Register.{Fresh}
use hushline.Auth.Recovery.{
  ResetLimits, LinkRequest, or_unknown, ip_hash, by_identifier, by_ip, reaches,
  password_reset_rate_limited, answer_link, eligible_password_reset_user, ask, is_submitted,
  attempt_of, handle_request_password_reset,
}
use hushline.Auth.Recovery.Attempts.{IsReached, IsRecent, full_iff, in_time_iff, and_iff, or_iff}

-- The attempt that a request counts as.
pub record IsAttempt (env : Env) (l : ResetLimits) (req : LinkRequest) (t : ResetAttempt)
    : Type 0 where
  pub identifier : t.identifier_hash ≡ l.hmac (env.fold req.username)
  pub address : (a : String) → req.remote_addr ≡ some a → a ≢ "" → t.ip_hash ≡ l.hmac a
  pub no_address :
      (req.remote_addr ≡ none) ⊎ (req.remote_addr ≡ some "") → t.ip_hash ≡ l.hmac "unknown"
  pub time : t.created_at ≡ env.now

-- One of the limits is reached by the attempts with the identifier, or with the address, of `t`.
abbrev pub IsLimited : ResetLimits → ResetAttempt → List ResetAttempt → Type 0
IsLimited l t xs =
    IsReached
      (λ a. (a.identifier_hash ≡ t.identifier_hash) × IsRecent l.window_minutes t.created_at a)
      l.identifier_max xs
    ⊎ IsReached (λ a. (a.ip_hash ≡ t.ip_hash) × IsRecent l.window_minutes t.created_at a) l.ip_max
        xs

-- The request is a valid form with the sum of the session that it leaves.
abbrev pub IsForm : ResetLimits → LinkRequest → Session → Type 0
IsForm l req s =
    (req.is_post ≡ true)
    × ((req.form_valid ≡ true)
        × ((l.isdigit req.captcha_answer ≡ true) × (s.math_answer ≡ some req.captcha_answer)))

-- What a request leaves of the tables: everything but the attempts.
pub record Untouched (before after : Store) : Type 0 where
  pub users : after.users ≡ before.users
  pub usernames : after.usernames ≡ before.usernames
  pub logs : after.logs ≡ before.logs
  pub invite_codes : after.invite_codes ≡ before.invite_codes

answer_link_iff :
    (limited : Bool) (st : Store) (user : Option User) (s : Session)
    → ((answer_link (limited, st) user s).0 ≡ page 429) ↔ (limited ≡ true)
answer_link_iff true st user s = (λ e. refl, λ e. refl)
answer_link_iff false st user s = (λ e. absurd (ground arith), λ e. absurd cc)

answer_link-keeps :
    (limited : Bool) (st : Store) (user : Option User) (s : Session)
    → let after = (answer_link (limited, st) user s).1 in (after.session ≡ s) × (after.store ≡ st)
answer_link-keeps true st user s = (refl, refl)
answer_link-keeps false st user s = (refl, refl)

ip_hash-unknown :
    (l : ResetLimits) (req : LinkRequest)
    → (req.remote_addr ≡ none) ⊎ (req.remote_addr ≡ some "")
    → ip_hash l req ≡ l.hmac "unknown"
ip_hash-unknown l req (inl e) = rw e refl
ip_hash-unknown l req (inr e) = rw e refl

ip_hash-address :
    (l : ResetLimits) (req : LinkRequest) (a : String)
    → req.remote_addr ≡ some a
    → a ≢ ""
    → ip_hash l req ≡ l.hmac a
ip_hash-address l req a e ne =
    let filled : (a == "") ≡ false = ground (arith, eq_iff a "") in
    let is_a : or_unknown (some a) ≡ a = rw filled refl in ap l.hmac (ap or_unknown e ∙ is_a)

attempt_of-IsAttempt :
    (env : Env) (l : ResetLimits) (req : LinkRequest) → IsAttempt env l req (attempt_of env l req)
attempt_of-IsAttempt env l req = record {
  identifier = refl;
  address = ip_hash-address l req;
  no_address = ip_hash-unknown l req;
  time = refl;
}

put_off_iff :
    (env : Env) (l : ResetLimits) (req : LinkRequest) (st : Store)
    → ((password_reset_rate_limited env l req st).0 ≡ true)
      ↔ IsLimited l (attempt_of env l req) st.attempts
put_off_iff env l req st =
    let t = attempt_of env l req in
    let named =
      full_iff
        (λ a. (a.identifier_hash ≡ t.identifier_hash) × IsRecent l.window_minutes t.created_at a)
        (by_identifier env l req)
        (λ a.
          and_iff (a.identifier_hash == t.identifier_hash) _ (eq_iff _ _)
            (in_time_iff l.window_minutes env.now a))
        l.identifier_max st.attempts in
    let from =
      full_iff (λ a. (a.ip_hash ≡ t.ip_hash) × IsRecent l.window_minutes t.created_at a)
        (by_ip env l req)
        (λ a.
          and_iff (a.ip_hash == t.ip_hash) _ (eq_iff _ _) (in_time_iff l.window_minutes env.now a))
        l.ip_max st.attempts in
    let either =
      or_iff (reaches l.identifier_max (count (by_identifier env l req) st.attempts))
        (reaches l.ip_max (count (by_ip env l req) st.attempts)) in
    (
      λ e. elim (either.0 e) [ inl x ↦ inl (named.0 x) | inr x ↦ inr (from.0 x) ],
      λ h. either.1 (elim h [ inl x ↦ inl (named.1 x) | inr x ↦ inr (from.1 x) ]),
    )

submitted_iff :
    (l : ResetLimits) (fresh : Fresh) (req : LinkRequest) (s : Session)
    → (is_submitted l fresh req s ≡ true) ↔ IsForm l req (ask fresh req s)
submitted_iff l fresh req s =
    let asked = ask fresh req s in
    and_iff req.is_post _ (λ e. e, λ e. e)
      (and_iff req.form_valid _ (λ e. e, λ e. e)
        (and_iff (l.isdigit req.captcha_answer) _ (λ e. e, λ e. e)
          (option_beq_iff asked.math_answer (some req.captcha_answer))))

-- A request for a reset link never changes an account, a name, a login's log or an invite code. It
-- counts as an attempt at the present time by its identifier and its address, missing or not, if it is
-- a valid form with the session's sum, also one that is put off, and as none otherwise; and it is put
-- off exactly if it is such a form and as many recent attempts as a limit allows were made before, for
-- the identifier or from the address.
pub handle_request_password_reset_sound :
    (env : Env) (l : ResetLimits) (fresh : Fresh) (req : LinkRequest) (c : Context)
    → let after = handle_request_password_reset env l fresh req c in
      Untouched c.store after.1.store
      × (t : ResetAttempt) × IsAttempt env l req t
      × ((after.0 ≡ page 429) ↔ (IsForm l req after.1.session × IsLimited l t c.store.attempts))
      × ((IsForm l req after.1.session × (after.1.store.attempts ≡ t ∷ c.store.attempts))
          ⊎ (¬ (IsForm l req after.1.session) × (after.1.store.attempts ≡ c.store.attempts)))
unfolding handle_request_password_reset
handle_request_password_reset_sound env l fresh req c =
    let form = submitted_iff l fresh req c.session in
    let t = attempt_of env l req in
    elim (Bool-cases (is_submitted l fresh req c.session)) [
      | inr skipped ↦
          let no_form : ¬ (IsForm l req (ask fresh req c.session)) = λ f. cc (form.1 f) in
          rw (skipped, handle_request_password_reset)
            (
              record { users = refl; usernames = refl; logs = refl; invite_codes = refl },
              t,
              attempt_of-IsAttempt env l req,
              (λ e. absurd (ground arith), λ h. absurd (no_form h.0)),
              inr (no_form, refl),
            )
      | inl counted ↦
          let user = eligible_password_reset_user env req.username c.store in
          let (limited, after) = password_reset_rate_limited env l req c.store in
          let asked = ask fresh req c.session in
          let (session, stored) = answer_link-keeps limited after user asked in
          let answer = answer_link_iff limited after user asked in
          let limit = put_off_iff env l req c.store in
          let is_form = form.0 counted in
          rw (counted, handle_request_password_reset, stored, session)
            (
              record { users = refl; usernames = refl; logs = refl; invite_codes = refl },
              t,
              attempt_of-IsAttempt env l req,
              (λ e. (is_form, limit.0 (answer.0 e)), λ h. answer.1 (limit.1 h.1)),
              inl (is_form, refl),
            )
    ]
