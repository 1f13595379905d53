-- ===== src/UserDeletion/Blocking/Queued.antt =====
-- hushline/user_deletion.py: the dictionaries of the counts find just the queued events about the user.

use hushline.Common.{
  ℕ, ◌≡◌, refl, ap, Bool, true, false, ◌&&◌, ◌==◌, nat_eq, string_eq, option_eq, Option, none, some,
  List, [], ◌∷◌, String, if◌then◌else◌, arith, All, Bool-cases, if_cases, inl, inr, any, count,
}
use hushline.Conversation.Envelope.{Library, Fields}
use hushline.Model.User.{User}
use hushline.Premium.Work.{StripeEvent, StripeInvoice}
use hushline.UserDeletion.Events.{stripe_event_object, is_about_invoice, is_in, invoice_id_of}
use hushline.UserDeletion.Redacted.{decodes, about_read}
use hushline.UserDeletion.Delete.{invoice_ids_of, ◌>>=◌}
use hushline.UserDeletion.Blocking.Dictionaries.{
  and_false, ne_false, eq_true, invoice_users_one, is_about, count_events_sum,
}
use hushline.UserDeletion.Blocking.{
  contains, invoice_users, find_key, count_events, empty_dict, no_counts, is_queued_invoice_event,
  blocking_invoice_event_counts, is_positive, has_blocking_invoice_event,
}
use hushline.UserDeletion.{Database}

is_positive-count : {A : Type 0} (p : A → Bool) (xs : List A) → is_positive (count p xs) ≡ any p xs
is_positive-count p [] = refl
is_positive-count p (x ∷ xs) = elim (Bool-cases (p x)) [
  | inl h ↦ rw h refl
  | inr h ↦ rw h (is_positive-count p xs)
]

any-cong :
    {A : Type 0} (p q : A → Bool) → ((x : A) → p x ≡ q x) → (xs : List A) → any p xs ≡ any q xs
any-cong p q h [] = refl
any-cong p q h (x ∷ xs) = rw (h x, any-cong p q h xs) refl

-- The user that the dictionary gives for an event is the user if the event has one of the ids.
some_if : (b : Bool) (user : ℕ) → ((if b then some user else none) == some user) ≡ b
some_if true user = eq_true user
some_if false user = refl

find_key_one :
    (user : ℕ) (rs : List StripeInvoice) (o : Option String)
    → (find_key (invoice_users (user ∷ []) rs empty_dict) o == some user)
      ≡ is_in o (invoice_ids_of user rs)
find_key_one user rs none = refl
find_key_one user rs (some k) =
    rw (invoice_users_one user rs empty_dict k)
      (some_if (is_in (some k) (invoice_ids_of user rs)) user)

about_read-cong :
    (f g : Fields → Bool)
    → ((fs : Fields) → f fs ≡ g fs)
    → (o : Option Fields) → about_read f o ≡ about_read g o
about_read-cong f g h none = refl
about_read-cong f g h (some fs) = h fs

about_none : (o : Option Fields) → about_read (is_about_invoice []) o ≡ false
about_none none = refl
about_none (some fs) = is_in_nil (invoice_id_of fs)
  where
    is_in_nil : (o : Option String) → is_in o [] ≡ false
    is_in_nil none = refl
    is_in_nil (some k) = refl

none_owned :
    (user : ℕ) (rs : List StripeInvoice)
    → any (λ (r : StripeInvoice). contains (user ∷ []) r.user_id) rs ≡ false
    → invoice_ids_of user rs ≡ []
none_owned user [] h = refl
none_owned user (r ∷ rs) h = elim (if_cases (contains (user ∷ []) r.user_id) true _ false h) [
  | inl (_, x) ↦ absurd (cc x)
  | inr (n, x) ↦ rw (ne_false r.user_id user (ground arith)) (none_owned user rs x)
]

any-false : {A : Type 0} (p : A → Bool) → ((x : A) → p x ≡ false) → (xs : List A) → any p xs ≡ false
any-false p h [] = refl
any-false p h (x ∷ xs) = rw (h x) (any-false p h xs)

-- The queued events with the id of an invoice of the user.
abbrev pub has_queued : Library → List String → List StripeEvent → Bool
has_queued lib ids = any (λ e.
    is_queued_invoice_event e
    && about_read (is_about_invoice ids) (stripe_event_object lib e.event_data))

has_queued-none :
    (lib : Library) (ids : List String) (es : List StripeEvent)
    → ids ≡ []
    → has_queued lib ids es ≡ false
has_queued-none lib ids es h =
    any-false _
      (λ e.
        rw (h, about_none (stripe_event_object lib e.event_data))
          (and_false (is_queued_invoice_event e)))
      es

counted :
    (lib : Library) (user : ℕ) (rs : List StripeInvoice) (es : List StripeEvent)
    → All (λ e. decodes lib e ≡ true) es
    → (count_events lib is_queued_invoice_event
          (λ fs. find_key (invoice_users (user ∷ []) rs empty_dict) (invoice_id_of fs))
          es
          no_counts
        >>= λ counts. some (is_positive (counts user)))
      ≡ some (has_queued lib (invoice_ids_of user rs) es)
counted lib user rs es d =
    let whose =
      λ (fs : Fields). find_key (invoice_users (user ∷ []) rs empty_dict) (invoice_id_of fs) in
    let p = λ (e : StripeEvent). is_queued_invoice_event e && is_about lib whose user e in
    let q = λ (e : StripeEvent).
      is_queued_invoice_event e
      && about_read (is_about_invoice (invoice_ids_of user rs))
          (stripe_event_object lib e.event_data) in
    let (c, e, n) = count_events_sum lib is_queued_invoice_event whose user es no_counts d in
    let total : c user ≡ count p es = omega (arith, n) in
    let same : any p es ≡ any q es =
      any-cong p q
        (λ x.
          ap (λ b. is_queued_invoice_event x && b)
            (about_read-cong _ _ (λ fs. find_key_one user rs (invoice_id_of fs))
              (stripe_event_object lib x.event_data)))
        es in
    rw (e, total, is_positive-count p es, same) refl

-- Whether a user has queued invoice events is whether a queued event has the id of an invoice of the
-- user.
pub has_blocking_invoice_event_lem :
    (lib : Library) (user : User) (db : Database)
    → All (λ e. decodes lib e ≡ true) db.stripe_events
    → has_blocking_invoice_event lib user db
      ≡ some (
          any
            (λ e.
              is_queued_invoice_event e
              && about_read
                  (is_about_invoice (invoice_ids_of user.id db.stripe_invoices))
                  (stripe_event_object lib e.event_data))
            db.stripe_events)
unfolding has_blocking_invoice_event blocking_invoice_event_counts
has_blocking_invoice_event_lem lib user db d =
    elim (Bool-cases
      (any (λ (r : StripeInvoice). contains (user.id ∷ []) r.user_id) db.stripe_invoices)) [
        | inl h ↦ rw h (counted lib user.id db.stripe_invoices db.stripe_events d)
        | inr h ↦
            rw (h, has_queued-none lib _ db.stripe_events (none_owned user.id db.stripe_invoices h))
              refl
      ]
