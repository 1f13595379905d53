-- ===== src/UserDeletion/Accounts/Checked.antt =====
-- hushline/settings/delete_account.py and hushline/admin.py: what holds where an account was
-- deleted.
use hushline.Common.{
  ℕ, ◌≡◌, refl, sym, ap, Bool, true, false, ◌&&◌, ◌==◌, nat_eq, Option, none, some, All, if_cases,
  inl, inr, count,
}
use hushline.Conversation.Envelope.{Library}
use hushline.Model.User.{User, get_user, has_deletion_blocking_stripe_subscription}
use hushline.UserDeletion.Blocking.{
  has_blocking_invoice, has_blocking_invoice_event, has_blocking_subscription_event,
}
use hushline.UserDeletion.Blocking.Queued.{has_queued, has_blocking_invoice_event_lem}
use hushline.UserDeletion.Delete.{invoice_ids_of, delete_user_and_related}
use hushline.Conversation.Envelope.{object, no_fields}
use hushline.UserDeletion.Redacted.{decodes}
use hushline.UserDeletion.Erased.{IsErased, delete_user_and_related-erases}
use hushline.UserDeletion.Steps.{delete_user_and_related-some}
use hushline.UserDeletion.Accounts.{
  Outcome, deleted, commit_deletion, subscription_event_check, delete_unless_blocked, delete_own,
  delete_other, handle_delete_account, handle_delete_user,
}
use hushline.UserDeletion.{Database, without}

-- A deletion that goes through takes the user's row and no other.
pub delete_user_and_related-users :
    (lib : Library) (user : User) (db : Database) {after : Database}
    → delete_user_and_related lib user db ≡ some after
    → after.users ≡ without (λ (u : User). u.id == user.id) db.users
delete_user_and_related-users lib user db e =
    let (es, q) = delete_user_and_related-some lib user db e in
    ap (λ (d : Database). d.users) (sym q)

commit_deletion_sound :
    (o : Option Database) {after : Database} → commit_deletion o ≡ deleted after → o ≡ some after
commit_deletion_sound none e = cc
commit_deletion_sound (some db) e = cc e

subscription_event_check_sound :
    (o : Option Bool) (rest : Outcome) {after : Database}
    → subscription_event_check o rest ≡ deleted after
    → (o ≡ some false) × (rest ≡ deleted after)
subscription_event_check_sound none rest e = cc
subscription_event_check_sound (some true) rest e = cc
subscription_event_check_sound (some false) rest e = (refl, e)

-- Nothing stands against the deletion of a user.
abbrev pub IsUnblocked : Library → User → Database → Type 0
IsUnblocked lib user db =
    (has_deletion_blocking_stripe_subscription user ≡ false)
    × (has_blocking_invoice user db ≡ false)
    × (has_blocking_invoice_event lib user db ≡ some false)
    × (has_blocking_subscription_event lib user db ≡ some false)

delete_unless_blocked_sound :
    (lib : Library) (user : User) (db : Database) {after : Database}
    → delete_unless_blocked lib user db ≡ deleted after
    → IsUnblocked lib user db × (delete_user_and_related lib user db ≡ some after)
delete_unless_blocked_sound lib user db {after} e =
    elim (if_cases (has_deletion_blocking_stripe_subscription user) _ _ _ e) [
      | inl (_, x) ↦ absurd (cc x)
      | inr (a, e1) ↦ elim (if_cases (has_blocking_invoice user db) _ _ _ e1) [
        | inl (_, x) ↦ absurd (cc x)
        | inr (b, e2) ↦
            let (c, e3) =
              subscription_event_check_sound (has_blocking_invoice_event lib user db) _ e2 in
            let (d, e4) =
              subscription_event_check_sound (has_blocking_subscription_event lib user db) _ e3 in
            ((a, b, c, d), commit_deletion_sound (delete_user_and_related lib user db) e4)
      ]
    ]

-- What is checked before an own account is deleted.
pub handle_delete_account_cases :
    (lib : Library) (id : ℕ) (db : Database) {after : Database}
    → handle_delete_account lib id db ≡ deleted after
    → (user : User) × (get_user id db.users ≡ some user)
      × ((user.is_admin && count (λ (u : User). u.is_admin) db.users == 1) ≡ false)
      × IsUnblocked lib user db
      × (delete_user_and_related lib user db ≡ some after)
unfolding handle_delete_account
handle_delete_account_cases lib id db {after} e = go (get_user id db.users) refl e
  where
    go :
        (o : Option User)
        → get_user id db.users ≡ o
        → delete_own lib db o ≡ deleted after
        → (user : User) × (get_user id db.users ≡ some user)
          × ((user.is_admin && count (λ (u : User). u.is_admin) db.users == 1) ≡ false)
          × IsUnblocked lib user db
          × (delete_user_and_related lib user db ≡ some after)
    go none q x = cc
    go (some user) q x =
        elim (if_cases (user.is_admin && count (λ (u : User). u.is_admin) db.users == 1) _ _ _ x) [
          | inl (_, y) ↦ absurd (cc y)
          | inr (a, y) ↦
              let (b, d) = delete_unless_blocked_sound lib user db y in (user, q, a, b, d)
        ]

pub handle_delete_user_cases :
    (lib : Library) (admin id : ℕ) (db : Database) {after : Database}
    → handle_delete_user lib admin id db ≡ deleted after
    → (user : User) × (get_user id db.users ≡ some user)
      × ((admin == id) ≡ false)
      × IsUnblocked lib user db
      × (delete_user_and_related lib user db ≡ some after)
unfolding handle_delete_user
handle_delete_user_cases lib admin id db {after} e = elim (if_cases (admin == id) _ _ _ e) [
  | inl (_, x) ↦ absurd (cc x)
  | inr (a, x) ↦ go a (get_user id db.users) refl x
]
  where
    go :
        (admin == id) ≡ false
        → (o : Option User) → get_user id db.users ≡ o
        → delete_other lib db o ≡ deleted after
        → (user : User) × (get_user id db.users ≡ some user)
          × ((admin == id) ≡ false)
          × IsUnblocked lib user db
          × (delete_user_and_related lib user db ≡ some after)
    go a none q x = cc
    go a (some user) q x =
        let (b, d) = delete_unless_blocked_sound lib user db x in (user, q, a, b, d)

erases-after :
    (lib : Library) (user : User) (db : Database) {after : Database}
    → lib.loads "{}" ≡ some (object no_fields)
    → All (λ e. decodes lib e ≡ true) db.stripe_events
    → delete_user_and_related lib user db ≡ some after
    → IsErased lib user db after
erases-after lib user db {after} empty d e =
    let (other, q, erased) = delete_user_and_related-erases lib user db empty d in
    let same : other ≡ after = cc (q, e) in rw (← same) erased

-- No queued event has the id of an invoice of the user.
no_queued :
    (lib : Library) (user : User) (db : Database)
    → All (λ e. decodes lib e ≡ true) db.stripe_events
    → has_blocking_invoice_event lib user db ≡ some false
    → has_queued lib (invoice_ids_of user.id db.stripe_invoices) db.stripe_events ≡ false
no_queued lib user db d h = cc (has_blocking_invoice_event_lem lib user db d, h)

-- If the stored events decode, an account that its owner deleted was there and not the only admin's,
-- nothing stood against the deletion (no subscription, no unsettled invoice, no queued event about
-- the user, and none with the id of one of the user's invoices), and it is erased.
pub handle_delete_account_sound :
    (lib : Library) (id : ℕ) (db : Database) {after : Database}
    → lib.loads "{}" ≡ some (object no_fields)
    → All (λ e. decodes lib e ≡ true) db.stripe_events
    → handle_delete_account lib id db ≡ deleted after
    → (user : User) × (get_user id db.users ≡ some user)
      × ((user.is_admin && count (λ (u : User). u.is_admin) db.users == 1) ≡ false)
      × IsUnblocked lib user db
      × (has_queued lib (invoice_ids_of user.id db.stripe_invoices) db.stripe_events ≡ false)
      × IsErased lib user db after
handle_delete_account_sound lib id db empty d e =
    let (user, g, a, (b1, b2, b3, b4), done) = handle_delete_account_cases lib id db e in
    (
      user,
      g,
      a,
      (b1, b2, b3, b4),
      no_queued lib user db d b3,
      erases-after lib user db empty d done,
    )

-- An account that an admin deleted is someone else's, nothing stood against the deletion, and it is
-- erased.
pub handle_delete_user_sound :
    (lib : Library) (admin id : ℕ) (db : Database) {after : Database}
    → lib.loads "{}" ≡ some (object no_fields)
    → All (λ e. decodes lib e ≡ true) db.stripe_events
    → handle_delete_user lib admin id db ≡ deleted after
    → (user : User) × (get_user id db.users ≡ some user)
      × ((admin == id) ≡ false)
      × IsUnblocked lib user db
      × IsErased lib user db after
handle_delete_user_sound lib admin id db empty d e =
    let (user, g, a, b, done) = handle_delete_user_cases lib admin id db e in
    (user, g, a, b, erases-after lib user db empty d done)
