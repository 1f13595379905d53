-- ===== src/UserDeletion/Blocking.antt =====
-- hushline/user_deletion.py: what stands against the deletion of a user: unsettled invoices, and queued
-- events about the user. A dictionary is a function, which gives the default where there is no key.
mod Dictionaries
pub mod Queued
use hushline.Common.{
  ℕ, zero, suc, Bool, true, false, not, ◌&&◌, ◌||◌, Option, none, some, List, [], ◌∷◌, String,
  if◌then◌else◌, ◌==◌, nat_eq, string_eq, option_eq, rows, any, count, is_some,
}
use hushline.Conversation.Envelope.{Library, Fields}
use hushline.Model.Enums.{InvoiceStatus, draft, open_invoice}
use hushline.Model.User.{User}
use hushline.Premium.Work.{StripeEvent, StripeInvoice}
use hushline.UserDeletion.Events.{
  stripe_event_object, invoice_id_of, customer_id_of, subscription_id_of, is_queued,
}
use hushline.UserDeletion.Delete.{◌>>=◌}
use hushline.UserDeletion.{Database}

-- `id IN user_ids`
abbrev pub contains : List ℕ → ℕ → Bool
contains ids id = any (λ i. i == id) ids

-- `deletion_blocking_stripe_invoice_counts_by_user_ids`
abbrev pub is_unsettled : Option InvoiceStatus → Bool
is_unsettled none = true
is_unsettled (some draft) = true
is_unsettled (some open_invoice) = true
is_unsettled (some _) = false

unfoldable pub blocking_invoice_counts : List ℕ → Database → ℕ → ℕ
blocking_invoice_counts ids db user =
    count
      (λ (r : StripeInvoice). r.user_id == user && contains ids r.user_id && is_unsettled r.status)
      db.stripe_invoices

-- `d[key] = user`
abbrev pub put_key : Option String → ℕ → (String → Option ℕ) → String → Option ℕ
put_key none user d key = d key
put_key (some k) user d key = if k == key then some user else d key

abbrev pub empty_dict : String → Option ℕ
empty_dict key = none

-- The dictionaries of the loops over the rows, in which the last row with a key counts.
abbrev pub invoice_users : List ℕ → List StripeInvoice → (String → Option ℕ) → String → Option ℕ
invoice_users ids [] d = d
invoice_users ids (r ∷ rs) d =
    invoice_users ids rs (if contains ids r.user_id then put_key r.invoice_id r.user_id d else d)

abbrev pub customer_users : List ℕ → List User → (String → Option ℕ) → String → Option ℕ
customer_users ids [] d = d
customer_users ids (u ∷ us) d =
    customer_users ids us (if contains ids u.id then put_key u.stripe_customer_id u.id d else d)

abbrev pub subscription_users : List ℕ → List User → (String → Option ℕ) → String → Option ℕ
subscription_users ids [] d = d
subscription_users ids (u ∷ us) d =
    subscription_users ids us
      (if contains ids u.id then put_key u.stripe_subscription_id u.id d else d)

-- `d.get(key)`, or None without a key
abbrev pub find_key : (String → Option ℕ) → Option String → Option ℕ
find_key d none = none
find_key d (some k) = d k

-- `counts[user] = counts.get(user, 0) + 1`
abbrev pub bump : Option ℕ → (ℕ → ℕ) → ℕ → ℕ
bump none counts v = counts v
bump (some user) counts v = if user == v then suc (counts v) else counts v

-- The loop over the data of the queued events; `whose` names the user that an event is about.
abbrev pub count_event :
    Library → (StripeEvent → Bool) → (Fields → Option ℕ) → StripeEvent → (ℕ → ℕ) → Option (ℕ → ℕ)
count_event lib p whose e counts =
    if p e
    then (stripe_event_object lib e.event_data >>= λ fs. some (bump (whose fs) counts))
    else some counts

abbrev pub count_events :
    Library
    → (StripeEvent → Bool)
    → (Fields → Option ℕ)
    → List StripeEvent
    → (ℕ → ℕ)
    → Option (ℕ → ℕ)
count_events lib p whose [] counts = some counts
count_events lib p whose (e ∷ es) counts =
    count_event lib p whose e counts >>= λ next. count_events lib p whose es next

abbrev pub no_counts : ℕ → ℕ
no_counts user = 0

abbrev pub is_queued_invoice_event : StripeEvent → Bool
is_queued_invoice_event e =
    (e.event_type == "invoice.updated" || e.event_type == "invoice.payment_succeeded")
    && is_queued e.status

abbrev pub is_queued_subscription_event : StripeEvent → Bool
is_queued_subscription_event e =
    (e.event_type == "customer.subscription.created"
      || e.event_type == "customer.subscription.updated"
      || e.event_type == "customer.subscription.deleted")
    && is_queued e.status

-- `deletion_blocking_stripe_invoice_event_counts_by_user_ids`
unfoldable pub blocking_invoice_event_counts : Library → List ℕ → Database → Option (ℕ → ℕ)
blocking_invoice_event_counts lib ids db =
    if any (λ (r : StripeInvoice). contains ids r.user_id) db.stripe_invoices
    then count_events lib is_queued_invoice_event
        (λ fs. find_key (invoice_users ids db.stripe_invoices empty_dict) (invoice_id_of fs))
        db.stripe_events no_counts
    else some no_counts

-- `deletion_blocking_stripe_subscription_event_counts_by_user_ids`: the customer is looked for first.
abbrev pub or_else : Option ℕ → Option ℕ → Option ℕ
or_else none b = b
or_else (some a) b = some a

abbrev pub has_stripe_ids : List ℕ → User → Bool
has_stripe_ids ids u =
    contains ids u.id && (is_some u.stripe_customer_id || is_some u.stripe_subscription_id)

unfoldable pub blocking_subscription_event_counts : Library → List ℕ → Database → Option (ℕ → ℕ)
blocking_subscription_event_counts lib ids db =
    if any (has_stripe_ids ids) db.users
    then count_events lib is_queued_subscription_event
        (λ fs.
          or_else (find_key (customer_users ids db.users empty_dict) (customer_id_of fs))
            (find_key (subscription_users ids db.users empty_dict) (subscription_id_of fs)))
        db.stripe_events no_counts
    else some no_counts

-- The three tests of the routes; `none` stands for an exception.
abbrev pub is_positive : ℕ → Bool
is_positive zero = false
is_positive (suc n) = true

unfoldable pub has_blocking_invoice : User → Database → Bool
has_blocking_invoice user db = is_positive (blocking_invoice_counts (user.id ∷ []) db user.id)

unfoldable pub has_blocking_invoice_event : Library → User → Database → Option Bool
has_blocking_invoice_event lib user db =
    blocking_invoice_event_counts lib (user.id ∷ []) db >>= λ counts.
    some (is_positive (counts user.id))

unfoldable pub has_blocking_subscription_event : Library → User → Database → Option Bool
has_blocking_subscription_event lib user db =
    blocking_subscription_event_counts lib (user.id ∷ []) db >>= λ counts.
    some (is_positive (counts user.id))
