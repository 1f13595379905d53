-- ===== src/UserDeletion/Accounts.antt =====
-- hushline/settings/delete_account.py (delete_account), and in hushline/admin.py delete_user and
-- delete_username.
mod Keyed
pub mod Checked
pub mod Admins
use hushline.Common.{
  ℕ, Bool, true, false, not, ◌&&◌, ◌||◌, Option, none, some, List, [], ◌∷◌, if◌then◌else◌, ◌==◌,
  nat_eq, count, first,
}
use hushline.Conversation.Envelope.{Library}
use hushline.Model.User.{User, get_user, has_deletion_blocking_stripe_subscription}
use hushline.UserDeletion.Blocking.{
  has_blocking_invoice, has_blocking_invoice_event, has_blocking_subscription_event,
}
use hushline.UserDeletion.Delete.{delete_user_and_related, delete_username_and_related}
use hushline.UserDeletion.{Database, UsernameRow}

-- How a request ends: a refusal with its status, a redirect to the sign-in page, an exception, which
-- rolls the session back, or a deletion that is committed.
pub data Outcome : Type 0 where
  refused : ℕ → Outcome
  not_found : Outcome
  raised : Outcome
  deleted : Database → Outcome

abbrev pub commit_deletion : Option Database → Outcome
commit_deletion none = raised
commit_deletion (some db) = deleted db

-- The four tests that both routes make, in their order.
abbrev pub subscription_event_check : Option Bool → Outcome → Outcome
subscription_event_check none rest = raised
subscription_event_check (some true) rest = refused 400
subscription_event_check (some false) rest = rest

abbrev pub delete_unless_blocked : Library → User → Database → Outcome
delete_unless_blocked lib user db =
    if has_deletion_blocking_stripe_subscription user
    then refused 400
    else if has_blocking_invoice user db
    then refused 400
    else subscription_event_check (has_blocking_invoice_event lib user db) (
        subscription_event_check (has_blocking_subscription_event lib user db)
          (commit_deletion (delete_user_and_related lib user db)))

-- For the user whose id the session of the guard has.
abbrev pub delete_own : Library → Database → Option User → Outcome
delete_own lib db none = not_found
delete_own lib db (some user) =
    if user.is_admin && count (λ (u : User). u.is_admin) db.users == 1
    then refused 400
    else delete_unless_blocked lib user db

unfoldable pub handle_delete_account : Library → ℕ → Database → Outcome
handle_delete_account lib id db = delete_own lib db (get_user id db.users)

-- For the admin that the guard let through, and where the form's token is the session's.
abbrev pub delete_other : Library → Database → Option User → Outcome
delete_other lib db none = refused 404
delete_other lib db (some user) = delete_unless_blocked lib user db

unfoldable pub handle_delete_user : Library → ℕ → ℕ → Database → Outcome
handle_delete_user lib admin id db =
    if admin == id then refused 400 else delete_other lib db (get_user id db.users)

abbrev delete_alias : Database → Option UsernameRow → Outcome
delete_alias db none = refused 404
delete_alias db (some name) =
    if name.is_primary then refused 400 else commit_deletion (delete_username_and_related name db)

unfoldable pub handle_delete_username : ℕ → Database → Outcome
handle_delete_username id db = delete_alias db (first (λ n. n.id == id) db.usernames)
