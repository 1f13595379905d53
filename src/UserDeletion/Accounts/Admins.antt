-- ===== src/UserDeletion/Accounts/Admins.antt =====
-- hushline/settings/delete_account.py and hushline/admin.py: that an admin is left.
use hushline.Common.{
  ℕ, ◌≤◌, ◌≡◌, true, false, ◌&&◌, ◌==◌, nat_eq, some, List, arith, Bool-cases, inl, inr, any, count,
}
use hushline.Conversation.Envelope.{Library}
use hushline.Model.User.{User, get_user}
use hushline.Model.User.Table.{IsKeyed}
use hushline.UserDeletion.Accounts.Keyed.{
  get_user-id, has_id, count-without, without-IsKeyed, any-count, count-any, any-has_id, any-other,
}
use hushline.UserDeletion.Accounts.Checked.{
  delete_user_and_related-users, handle_delete_account_cases, handle_delete_user_cases,
}
use hushline.UserDeletion.Foreign.{any-without}
use hushline.UserDeletion.Accounts.{deleted, handle_delete_account, handle_delete_user}
use hushline.UserDeletion.{Database, without}

-- A user deletes the own account, and an admin the account of someone else.
pub data Deletes (lib : Library) : Database → Database → Type 0 where
  done : {db : Database} → Deletes lib db db
  own :
      {db db' after : Database} (id : ℕ)
      → handle_delete_account lib id db ≡ deleted db'
      → Deletes lib db' after
      → Deletes lib db after
  other :
      {db db' after : Database} (admin id : ℕ) {a : User}
      → get_user admin db.users ≡ some a
      → a.is_admin ≡ true
      → handle_delete_user lib admin id db ≡ deleted db'
      → Deletes lib db' after
      → Deletes lib db after

abbrev HasAdmin : Database → Type 0
HasAdmin db = IsKeyed db.users × (any (λ u. u.is_admin) db.users ≡ true)

others-HasAdmin :
    (id : ℕ) (us : List User)
    → IsKeyed us
    → 2 ≤ count (λ u. u.is_admin) us
    → any (λ u. u.is_admin) (without (has_id id) us) ≡ true
others-HasAdmin id us k h =
    count-any (λ u. u.is_admin) (without (has_id id) us)
      (omega (arith, count-without id (λ u. u.is_admin) us k))

own-HasAdmin :
    (id : ℕ) (us : List User) {user : User}
    → IsKeyed us
    → any (λ u. u.is_admin) us ≡ true
    → get_user id us ≡ some user
    → (user.is_admin && count (λ (u : User). u.is_admin) us == 1) ≡ false
    → any (λ u. u.is_admin) (without (has_id id) us) ≡ true
own-HasAdmin id us {user} k h e c = elim (Bool-cases user.is_admin) [
  | inl a ↦ others-HasAdmin id us k (ground (arith, any-count (λ u. u.is_admin) us h))
  | inr a ↦
      any-without (has_id id) (λ u. u.is_admin) us h (any-has_id id (λ u. u.is_admin) us k e a)
]

own_keeps :
    (lib : Library) (id : ℕ) (db : Database) {after : Database}
    → handle_delete_account lib id db ≡ deleted after
    → HasAdmin db
    → HasAdmin after
own_keeps lib id db e (k, h) =
    let (user, g, c, _, d) = handle_delete_account_cases lib id db e in
    let same = delete_user_and_related-users lib user db d in
    let i = get_user-id id db.users g in
    rw (same, i) (without-IsKeyed (has_id id) db.users k, own-HasAdmin id db.users k h g c)

other_keeps :
    (lib : Library) (admin id : ℕ) (db : Database) {a : User} {after : Database}
    → get_user admin db.users ≡ some a
    → a.is_admin ≡ true
    → handle_delete_user lib admin id db ≡ deleted after
    → HasAdmin db
    → HasAdmin after
other_keeps lib admin id db ga ha e (k, h) =
    let (user, g, n, _, d) = handle_delete_user_cases lib admin id db e in
    let same = delete_user_and_related-users lib user db d in
    let i = get_user-id id db.users g in
    rw (same, i)
      (
        without-IsKeyed (has_id id) db.users k,
        any-other id admin (λ u. u.is_admin) db.users (ground arith) ga ha,
      )

-- Where the users' ids differ and there is an admin, there is still one after any deletions of
-- accounts by their owners and by admins.
pub deletions_keep_admin :
    (lib : Library) {db after : Database}
    → IsKeyed db.users
    → any (λ u. u.is_admin) db.users ≡ true
    → Deletes lib db after
    → any (λ u. u.is_admin) after.users ≡ true
deletions_keep_admin lib k h steps = (all_keep lib (k, h) steps).1
  where
    all_keep :
        (lib : Library) {db after : Database} → HasAdmin db → Deletes lib db after → HasAdmin after
    all_keep lib h done = h
    all_keep lib h (own {db} id e rest) = all_keep lib (own_keeps lib id db e h) rest
    all_keep lib h (other {db} admin id ga ha e rest) =
        all_keep lib (other_keeps lib admin id db ga ha e h) rest
