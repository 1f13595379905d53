-- ===== src/Auth/Session/Guard.antt =====
-- When the guard of hushline/auth.py lets a request through.
use hushline.Common.{
  ℕ, ◌≡◌, ◌≢◌, ◌↔◌, refl, sym, ap, ◌∙◌, true, Option, none, some, List, String, arith, string_eq,
  eq_iff,
}
use hushline.Model.User.{User, get_user}
use hushline.Auth.Session.{
  stash_post_auth_redirect_target, Session, Urls, Request, Gate, to_login, to_verify_2fa,
  to_forbidden, to_handler, is_true, get_session_user, authentication_required,
  admin_authentication_required, clear_auth_session, checked, lookup_session_user, admit,
  admin_only,
}

-- The specification of a live session of a user: the cookie names the row and carries its current
-- session id.
pub record IsLive (users : List User) (s : Session) (u : User) : Type 0 where
  pub id : ℕ
  pub names : s.user_id ≡ some id
  pub row : get_user id users ≡ some u
  pub current : s.session_id ≡ some u.session_id
  pub issued : u.session_id ≢ ""

checked_sound :
    (sid : String) (s : Session) (o : Option User) (u : User)
    → (checked sid s o).0 ≡ some u
    → (o ≡ some u) × (sid ≡ u.session_id) × (u.session_id ≢ "") × ((checked sid s o).1 ≡ s)
checked_sound sid s none u e = cc
checked_sound sid s (some v) u e = ground (arith, eq_iff v.session_id "", eq_iff v.session_id sid)

lookup_sound :
    (users : List User) (s : Session) (uo : Option ℕ) (so : Option String) (u : User)
    → (lookup_session_user users s uo so).0 ≡ some u
    → (i : ℕ) × (uo ≡ some i)
      × (get_user i users ≡ some u)
      × (so ≡ some u.session_id)
      × (u.session_id ≢ "")
      × ((lookup_session_user users s uo so).1 ≡ s)
lookup_sound users s none none u e = cc
lookup_sound users s none (some sid) u e = cc
lookup_sound users s (some i) none u e = cc
lookup_sound users s (some i) (some sid) u e =
    let (row, same, issued, kept) = checked_sound sid s (get_user i users) u e in
    (i, refl, row, ap some same, issued, kept)

lookup_complete :
    (users : List User) (s : Session) (uo : Option ℕ) (so : Option String) (i : ℕ) (u : User)
    → uo ≡ some i
    → get_user i users ≡ some u
    → so ≡ some u.session_id
    → u.session_id ≢ ""
    → lookup_session_user users s uo so ≡ (some u, s)
lookup_complete users s uo so i u a b c d =
    rw (a, c, lookup_session_user, b)
      (ground (arith, eq_iff u.session_id "", eq_iff u.session_id u.session_id))

pub get_session_user_sound :
    (users : List User) (s : Session) (u : User)
    → (get_session_user users s).0 ≡ some u
    → IsLive users s u × ((get_session_user users s).1 ≡ s)
unfolding get_session_user
get_session_user_sound users s u e =
    let (i, a, b, c, d, kept) = lookup_sound users s s.user_id s.session_id u e in
    (record { id = i; names = a; row = b; current = c; issued = d }, kept)

pub get_session_user_complete :
    (users : List User) (s : Session) (u : User)
    → IsLive users s u
    → get_session_user users s ≡ (some u, s)
unfolding get_session_user
get_session_user_complete users s u l =
    lookup_complete users s s.user_id s.session_id l.id u l.names l.row l.current l.issued

admit_sound :
    (urls : Urls) (req : Request) (r : Option User × Session) (u : User)
    → (admit urls req r).0 ≡ to_handler u
    → (r.0 ≡ some u) × (is_true r.1.is_authenticated ≡ true)
admit_sound urls req (none, s) u e = cc
admit_sound urls req (some v, s) u e = ground arith

-- A guarded handler runs for a user exactly if the cookie is a live session of that user and the
-- sign-in was completed, the second factor included.
pub authentication_required_iff :
    (urls : Urls) (req : Request) (users : List User) (s : Session) (u : User)
    → ((authentication_required urls req users s).0 ≡ to_handler u)
      ↔ (IsLive users s u × (is_true s.is_authenticated ≡ true))
unfolding authentication_required
authentication_required_iff urls req users s u = (
  λ e.
      let (found, done) = admit_sound urls req (get_session_user users s) u e in
      let (live, kept) = get_session_user_sound users s u found in
      (live, ap (λ (x : Session). is_true x.is_authenticated) (sym kept) ∙ done),
  λ p. rw (get_session_user_complete users s u p.0, p.1),
)

-- The session that a guarded handler starts with is the one that came.
pub authentication_required-kept :
    (urls : Urls) (req : Request) (users : List User) (s : Session) (u : User)
    → (authentication_required urls req users s).0 ≡ to_handler u
    → authentication_required urls req users s ≡ (to_handler u, s)
unfolding authentication_required
authentication_required-kept urls req users s u e =
    let (live, done) = (authentication_required_iff urls req users s u).0 e in
    rw (get_session_user_complete users s u live, done) refl

admin_only_sound :
    (gate : Gate) (u : User)
    → admin_only gate ≡ to_handler u
    → (gate ≡ to_handler u) × (u.is_admin ≡ true)
admin_only_sound to_login u e = cc
admin_only_sound to_verify_2fa u e = cc
admin_only_sound to_forbidden u e = cc
admin_only_sound (to_handler v) u e = ground arith

-- The admin guard adds exactly that the user is an admin.
pub admin_authentication_required_iff :
    (urls : Urls) (req : Request) (users : List User) (s : Session) (u : User)
    → ((admin_authentication_required urls req users s).0 ≡ to_handler u)
      ↔ (IsLive users s u × (is_true s.is_authenticated ≡ true) × (u.is_admin ≡ true))
unfolding admin_authentication_required
admin_authentication_required_iff urls req users s u = (
  λ e.
      let (passed, admin) = admin_only_sound (authentication_required urls req users s).0 u e in
      let (live, done) = (authentication_required_iff urls req users s u).0 passed in
      (live, done, admin),
  λ p. rw ((authentication_required_iff urls req users s u).1 (p.0, p.1), admin_only, p.2),
)

lookup-none :
    (users : List User) (s : Session) (uo : Option ℕ) (so : Option String)
    → s.user_id ≡ uo
    → (lookup_session_user users s uo so).0 ≡ none
    → (lookup_session_user users s uo so).1.user_id ≡ none
unfolding clear_auth_session
lookup-none users s none none a e = a
lookup-none users s none (some sid) a e = refl
lookup-none users s (some i) none a e = refl
lookup-none users s (some i) (some sid) a e = checked-none (get_user i users) e
  where
    checked-none :
        (o : Option User) → (checked sid s o).0 ≡ none → (checked sid s o).1.user_id ≡ none
    checked-none none p = refl
    checked-none (some v) p = ground arith

-- Where no user is found, the session that is left names none.
pub get_session_user-none :
    (users : List User) (s : Session)
    → (get_session_user users s).0 ≡ none
    → (get_session_user users s).1.user_id ≡ none
unfolding get_session_user
get_session_user-none users s e = lookup-none users s s.user_id s.session_id refl e

-- Remembering a target leaves the keys of the sign-in alone.
pub stash-keeps :
    (urls : Urls) (target : Option String) (s : Session)
    → ((stash_post_auth_redirect_target urls target s).user_id ≡ s.user_id)
      × ((stash_post_auth_redirect_target urls target s).session_id ≡ s.session_id)
      × ((stash_post_auth_redirect_target urls target s).is_authenticated ≡ s.is_authenticated)
unfolding stash_post_auth_redirect_target
stash-keeps urls target s = ground arith

-- A session that carries another id than its user's row names nobody.
pub get_session_user-stale :
    (users : List User) (s : Session) (i : ℕ) (sid : String) (v : User)
    → s.user_id ≡ some i
    → get_user i users ≡ some v
    → s.session_id ≡ some sid
    → v.session_id ≢ sid
    → (get_session_user users s).0 ≡ none
unfolding get_session_user
get_session_user-stale users s i sid v a b c ne =
    rw (a, c, lookup_session_user, b)
      (ground (arith, eq_iff v.session_id "", eq_iff v.session_id sid))
