-- ===== src/Premium/Worker/Oldest.antt =====
-- The order in which the worker of hushline/premium.py takes events.
use hushline.Common.{
  ℕ, ◌≤◌, ◌≡◌, ◌⊎◌, inl, inr, true, false, Option, none, some, List, [], ◌∷◌, arith, Bool-cases,
  Option-cases, All, All-of, string_eq,
}
use hushline.Premium.Work.{StripeEvent}
use hushline.Premium.Worker.{next_event, older}
use hushline.Premium.Worker.Table.{is_open, next_event-open, older-ne-none}

older-le :
    (x e : StripeEvent) (o : Option StripeEvent)
    → older x o ≡ some e
    → (e.event_created ≤ x.event_created)
      × ((f : StripeEvent) → o ≡ some f → e.event_created ≤ f.event_created)
older-le x e none h = ground arith
older-le x e (some g) h = (ground arith, λ f p. ground arith)

abbrev pub NoneBefore : ℕ → List StripeEvent → Type 0
NoneBefore t = All (λ f. (is_open f ≡ false) ⊎ (t ≤ f.event_created))

NoneBefore-idle : (t : ℕ) (es : List StripeEvent) → next_event es ≡ none → NoneBefore t es
unfolding next_event
NoneBefore-idle t [] h = tt
NoneBefore-idle t (x ∷ xs) h = elim (Bool-cases (is_open x)) [
  | inl o ↦ absurd (older-ne-none x (next_event xs) (rw o at h))
  | inr f ↦ (inl f, NoneBefore-idle t xs (rw f at h))
]

NoneBefore-mono : (s t : ℕ) (es : List StripeEvent) → s ≤ t → NoneBefore t es → NoneBefore s es
NoneBefore-mono s t [] h n = tt
NoneBefore-mono s t (x ∷ xs) h n = (ground (arith, n.0), NoneBefore-mono s t xs h n.1)

next_event-NoneBefore :
    (es : List StripeEvent) (e : StripeEvent)
    → next_event es ≡ some e
    → NoneBefore e.event_created es
unfolding next_event
next_event-NoneBefore [] e h = tt
next_event-NoneBefore (x ∷ xs) e h = elim (Bool-cases (is_open x)) [
  | inl o ↦
      let (first_le, rest_le) = older-le x e (next_event xs) (rw o at h) in
      elim (Option-cases (next_event xs)) [
        | inl idle ↦ (inr first_le, NoneBefore-idle e.event_created xs idle)
        | inr (g, p) ↦ (
          inr first_le,
          NoneBefore-mono e.event_created g.event_created xs (rest_le g p)
              (next_event-NoneBefore xs g p),
        )
      ]
  | inr f ↦ (inl f, next_event-NoneBefore xs e (rw f at h))
]

-- The event that a round takes is pending, and no pending event was created before it.
pub next_event-oldest :
    (es : List StripeEvent) (e : StripeEvent)
    → next_event es ≡ some e
    → (is_open e ≡ true) × NoneBefore e.event_created es
next_event-oldest es e h = (
  (next_event-open (λ _. Unit {0}) e es h (All-of _ (λ _. tt) es)).0,
  next_event-NoneBefore es e h,
)
