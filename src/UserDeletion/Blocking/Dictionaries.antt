-- ===== src/UserDeletion/Blocking/Dictionaries.antt =====
-- hushline/user_deletion.py: the dictionaries and the counters of the loops, read at one user.
use native.Mathlib.Decide.{ℕ_discrete}
use hushline.Common.{
  ℕ, suc, ◌+◌, ◌≡◌, ◌≢◌, refl, sym, ap, ◌∙◌, Bool, true, false, ◌&&◌, ◌==◌, nat_eq, string_eq,
  option_eq, Option, none, some, is_some, List, [], ◌∷◌, String, if◌then◌else◌, arith, All,
  Bool-cases, Option-cases, inl, inr, count,
}
use hushline.Conversation.Envelope.{Library, Fields}
use hushline.Premium.Work.{StripeEvent, StripeInvoice}
use hushline.UserDeletion.Events.{stripe_event_object, is_in}
use hushline.UserDeletion.Redacted.{decodes, about_read}
use hushline.UserDeletion.Delete.{invoice_ids_of, add_id}
use hushline.UserDeletion.Blocking.{
  contains, put_key, invoice_users, bump, count_event, count_events,
}

pub and_false : (b : Bool) → (b && false) ≡ false
and_false true = refl
and_false false = refl

pub ne_false : (a b : ℕ) → a ≢ b → (a == b) ≡ false
ne_false a b h = ground arith

pub eq_true : (a : ℕ) → (a == a) ≡ true
eq_true a = ground arith

-- One more row: its key is looked up last.
found_or :
    (user : ℕ) (found own : Bool) (d : Option ℕ)
    → (if found then some user else (if own then some user else d))
      ≡ (if (if own then true else found) then some user else d)
found_or user true true d = refl
found_or user true false d = refl
found_or user false true d = refl
found_or user false false d = refl

invoice_users_cons :
    (user owner : ℕ) (o : Option String) (rs : List StripeInvoice) (d : String → Option ℕ)
    (key : String)
    → ((d' : String → Option ℕ)
        → invoice_users (user ∷ []) rs d' key
          ≡ (if is_in (some key) (invoice_ids_of user rs) then some user else d' key))
    → invoice_users (user ∷ []) rs (if contains (user ∷ []) owner then put_key o owner d else d) key
      ≡ (if is_in
            (some key)
            (if owner == user then add_id o (invoice_ids_of user rs) else invoice_ids_of user rs)
          then some user
          else d key)
invoice_users_cons user owner o rs d key ih = elim (ℕ_discrete owner user) [
  | no n ↦ rw (ne_false user owner (λ e. n (sym e)), ne_false owner user n) (ih d)
  | yes e ↦ rw (e, eq_true user) (own o)
]
  where
    own :
        (o : Option String)
        → invoice_users (user ∷ []) rs (put_key o user d) key
          ≡ (if is_in (some key) (add_id o (invoice_ids_of user rs)) then some user else d key)
    own none = ih d
    own (some k) = ih (put_key (some k) user d) ∙ found_or user _ (k == key) (d key)

-- For one user the dictionary has the keys of the rows of the user.
pub invoice_users_one :
    (user : ℕ) (rs : List StripeInvoice) (d : String → Option ℕ) (key : String)
    → invoice_users (user ∷ []) rs d key
      ≡ (if is_in (some key) (invoice_ids_of user rs) then some user else d key)
invoice_users_one user [] d key = refl
invoice_users_one user (r ∷ rs) d key =
    invoice_users_cons user r.user_id r.invoice_id rs d key (λ d'. invoice_users_one user rs d' key)

-- An event is about the user if its data is read and names the user.
abbrev pub is_about : Library → (Fields → Option ℕ) → ℕ → StripeEvent → Bool
is_about lib whose user e =
    about_read (λ fs. whose fs == some user) (stripe_event_object lib e.event_data)

count_event_one :
    (lib : Library) (p : StripeEvent → Bool) (whose : Fields → Option ℕ) (user : ℕ)
    (e : StripeEvent) (c : ℕ → ℕ)
    → decodes lib e ≡ true
    → (c' : ℕ → ℕ) × (count_event lib p whose e c ≡ some c')
      × (c' user ≡ (if p e && is_about lib whose user e then suc (c user) else c user))
count_event_one lib p whose user e c d = elim (Bool-cases (p e)) [
  | inr h ↦ (c, rw h refl, rw h refl)
  | inl h ↦ elim (Option-cases (stripe_event_object lib e.event_data)) [
    | inl o ↦ absurd (cc (d, ap is_some o))
    | inr (fs, o) ↦ (bump (whose fs) c, rw (h, o) refl, rw (h, o) (bumped (whose fs)))
  ]
]
  where
    bumped : (o : Option ℕ) → bump o c user ≡ (if o == some user then suc (c user) else c user)
    bumped none = refl
    bumped (some i) = refl

pub count_events_sum :
    (lib : Library) (p : StripeEvent → Bool) (whose : Fields → Option ℕ) (user : ℕ)
    (es : List StripeEvent) (c : ℕ → ℕ)
    → All (λ e. decodes lib e ≡ true) es
    → (c' : ℕ → ℕ) × (count_events lib p whose es c ≡ some c')
      × (c' user ≡ c user + count (λ e. p e && is_about lib whose user e) es)
count_events_sum lib p whose user [] c d = (c, refl, omega arith)
count_events_sum lib p whose user (e ∷ es) c (d, ds) =
    let (c1, q1, n1) = count_event_one lib p whose user e c d in
    let (c2, q2, n2) = count_events_sum lib p whose user es c1 ds in
    (c2, rw q1 q2, (ground (arith, n1, n2)))
