-- ===== src/UserDeletion/Redacted.antt =====
-- hushline/user_deletion.py: after the redactions no processed event is about the user any more, and no
-- event is lost.
use hushline.Common.{
  ◌≡◌, refl, ap, Bool, true, false, ◌&&◌, Option, none, some, is_some, List, [], ◌∷◌, String, arith,
  All, Bool-cases, Option-cases, inl, inr,
}
use hushline.Conversation.Envelope.{object, Fields, no_fields, Library}
use hushline.Premium.Work.{StripeEvent}
use hushline.UserDeletion.Events.{
  stripe_event_object, is_candidate, is_about_invoice, is_about_subscription, redact_read,
  redact_one, redact_all, redact_invoice_events, redact_subscription_events, is_empty, is_in,
  invoice_id_of, customer_id_of, subscription_id_of,
}

-- The data of an event, which is a JSON text of a dictionary whose `data` is one, if it is there.
abbrev pub decodes : Library → StripeEvent → Bool
decodes lib e = is_some (stripe_event_object lib e.event_data)

abbrev pub blank : StripeEvent → StripeEvent
blank e = record e { event_data = "{}" }

-- An event as it was, or without its data.
pub data Redacted (e : StripeEvent) : StripeEvent → Type 0 where
  kept : Redacted e e
  blanked : Redacted e (blank e)

-- The same events in the same order, of which some have lost their data.
pub data AllRedacted : List StripeEvent → List StripeEvent → Type 0 where
  nil : AllRedacted [] []
  cons :
      {e e' : StripeEvent} {es es' : List StripeEvent}
      → Redacted e e'
      → AllRedacted es es'
      → AllRedacted (e ∷ es) (e' ∷ es')

AllRedacted-refl : (es : List StripeEvent) → AllRedacted es es
AllRedacted-refl [] = nil
AllRedacted-refl (e ∷ es) = cons kept (AllRedacted-refl es)

Redacted-trans : {a b c : StripeEvent} → Redacted a b → Redacted b c → Redacted a c
Redacted-trans kept s = s
Redacted-trans blanked kept = blanked
Redacted-trans blanked blanked = blanked

pub AllRedacted-trans :
    {a b c : List StripeEvent} → AllRedacted a b → AllRedacted b c → AllRedacted a c
AllRedacted-trans nil nil = nil
AllRedacted-trans (cons r rs) (cons s ss) = cons (Redacted-trans r s) (AllRedacted-trans rs ss)

abbrev pub about_read : (Fields → Bool) → Option Fields → Bool
about_read about none = false
about_read about (some fs) = about fs

-- A processed event with the type's prefix that still has data about the user.
abbrev pub names_user : Library → String → (Fields → Bool) → StripeEvent → Bool
names_user lib prefix about e =
    is_candidate prefix e && about_read about (stripe_event_object lib e.event_data)

and_false : (b : Bool) → (b && false) ≡ false
and_false true = refl
and_false false = refl

module _ (lib : Library) (empty : lib.loads "{}" ≡ some (object no_fields)) where
  blank-decodes : (e : StripeEvent) → stripe_event_object lib (blank e).event_data ≡ some no_fields
  unfolding stripe_event_object
  blank-decodes e = rw empty refl

  module _ (prefix : String) (about : Fields → Bool) (unnamed : about no_fields ≡ false) where
    blank-unnamed : (e : StripeEvent) → names_user lib prefix about (blank e) ≡ false
    blank-unnamed e = rw (blank-decodes e, unnamed) (and_false (is_candidate prefix e))

    Redacted-unnamed :
        {e e' : StripeEvent}
        → Redacted e e'
        → names_user lib prefix about e ≡ false
        → names_user lib prefix about e' ≡ false
    Redacted-unnamed kept h = h
    Redacted-unnamed {e} blanked h = blank-unnamed e

    pub AllRedacted-unnamed :
        {es es' : List StripeEvent}
        → AllRedacted es es'
        → All (λ e. names_user lib prefix about e ≡ false) es
        → All (λ e. names_user lib prefix about e ≡ false) es'
    AllRedacted-unnamed nil h = tt
    AllRedacted-unnamed (cons r rs) (h, hs) = (Redacted-unnamed r h, AllRedacted-unnamed rs hs)

    redact_read_sound :
        (e : StripeEvent) (fs : Fields)
        → stripe_event_object lib e.event_data ≡ some fs
        → (e' : StripeEvent) × (redact_read about e (some fs) ≡ some e')
          × Redacted e e'
          × (names_user lib prefix about e' ≡ false)
    redact_read_sound e fs o = elim (Bool-cases (about fs)) [
      | inl a ↦ (blank e, rw a refl, blanked, blank-unnamed e)
      | inr a ↦ (e, rw a refl, kept, rw (o, a) (and_false (is_candidate prefix e)))
    ]

    redact_one_sound :
        (e : StripeEvent)
        → decodes lib e ≡ true
        → (e' : StripeEvent) × (redact_one lib prefix about e ≡ some e')
          × Redacted e e'
          × (names_user lib prefix about e' ≡ false)
    redact_one_sound e d = elim (Bool-cases (is_candidate prefix e)) [
      | inr c ↦ (e, rw c refl, kept, rw c refl)
      | inl c ↦ elim (Option-cases (stripe_event_object lib e.event_data)) [
        | inl o ↦ absurd (cc (d, ap is_some o))
        | inr (fs, o) ↦ let (e', q, r, n) = redact_read_sound e fs o in (e', rw (c, o) q, r, n)
      ]
    ]

    redact_all_sound :
        (es : List StripeEvent)
        → All (λ e. decodes lib e ≡ true) es
        → (es' : List StripeEvent) × (redact_all lib prefix about es ≡ some es')
          × AllRedacted es es'
          × All (λ e. names_user lib prefix about e ≡ false) es'
    redact_all_sound [] d = ([], refl, nil, tt)
    redact_all_sound (e ∷ es) (d, ds) =
        let (e', q, r, n) = redact_one_sound e d in
        let (es', qs, rs, ns) = redact_all_sound es ds in
        (e' ∷ es', rw (q, qs) refl, cons r rs, (n, ns))

  Redacted-decodes :
      {e e' : StripeEvent} → Redacted e e' → decodes lib e ≡ true → decodes lib e' ≡ true
  Redacted-decodes kept h = h
  Redacted-decodes {e} blanked h = rw (blank-decodes e) refl

  AllRedacted-decodes :
      {es es' : List StripeEvent}
      → AllRedacted es es'
      → All (λ e. decodes lib e ≡ true) es
      → All (λ e. decodes lib e ≡ true) es'
  AllRedacted-decodes nil h = tt
  AllRedacted-decodes (cons r rs) (h, hs) = (Redacted-decodes r h, AllRedacted-decodes rs hs)

  is_in-empty : (o : Option String) (ids : List String) → is_empty ids ≡ true → is_in o ids ≡ false
  is_in-empty none ids h = refl
  is_in-empty (some s) [] h = refl
  is_in-empty (some s) (x ∷ xs) h = cc

  not_about :
      (prefix : String) (about : Fields → Bool)
      → ((fs : Fields) → about fs ≡ false)
      → (es : List StripeEvent) → All (λ e. names_user lib prefix about e ≡ false) es
  not_about prefix about h [] = tt
  not_about prefix about h (e ∷ es) = elim (Option-cases (stripe_event_object lib e.event_data)) [
    | inl o ↦ (rw o (and_false (is_candidate prefix e)), not_about prefix about h es)
    | inr (fs, o) ↦ (rw (o, h fs) (and_false (is_candidate prefix e)), not_about prefix about h es)
  ]

  pub redact_invoice_events_sound :
      (ids : List String) (es : List StripeEvent)
      → All (λ e. decodes lib e ≡ true) es
      → (es' : List StripeEvent) × (redact_invoice_events lib ids es ≡ some es')
        × AllRedacted es es'
        × All (λ e. decodes lib e ≡ true) es'
        × All (λ e. names_user lib "invoice." (is_about_invoice ids) e ≡ false) es'
  unfolding redact_invoice_events
  redact_invoice_events_sound ids es d = elim (Bool-cases (is_empty ids)) [
    | inl h ↦ (
      es,
      rw h refl,
      AllRedacted-refl es,
      d,
      not_about "invoice." (is_about_invoice ids) (λ fs. is_in-empty (invoice_id_of fs) ids h) es,
    )
    | inr h ↦
        let (es', q, r, n) = redact_all_sound "invoice." (is_about_invoice ids) refl es d in
        (es', rw h q, r, AllRedacted-decodes r d, n)
  ]

  pub redact_subscription_events_sound :
      (cs ss : List String) (es : List StripeEvent)
      → All (λ e. decodes lib e ≡ true) es
      → (es' : List StripeEvent) × (redact_subscription_events lib cs ss es ≡ some es')
        × AllRedacted es es'
        × All
            (λ e. names_user lib "customer.subscription." (is_about_subscription cs ss) e ≡ false)
            es'
  unfolding redact_subscription_events
  redact_subscription_events_sound cs ss es d = elim (Bool-cases (is_empty cs && is_empty ss)) [
    | inl h ↦ (
      es,
      rw h refl,
      AllRedacted-refl es,
      not_about "customer.subscription." (is_about_subscription cs ss)
          (λ fs.
            rw
              (
                is_in-empty (customer_id_of fs) cs (ground arith),
                is_in-empty (subscription_id_of fs) ss (ground arith),
              )
              refl)
          es,
    )
    | inr h ↦
        let (es', q, r, n) =
          redact_all_sound "customer.subscription." (is_about_subscription cs ss) refl es d in
        (es', rw h q, r, n)
  ]
