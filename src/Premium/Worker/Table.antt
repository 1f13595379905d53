-- ===== src/Premium/Worker/Table.antt =====
-- The table of events: unique ids, the next pending row, and writing a row back
-- (hushline/premium.py, hushline/model/stripe_event.py).
use hushline.Common.{
  suc, ◌≡◌, ◌≢◌, refl, ◌⊎◌, inl, inr, Bool, true, false, Option, none, some, List, [], ◌∷◌, String,
  arith, Bool-cases, All, count, ◌==◌, string_eq, eq_iff,
}
use hushline.Model.Enums.{is_pending}
use hushline.Premium.Work.{StripeEvent}
use hushline.Premium.Worker.{next_event, older, put_event}

abbrev pub is_open : StripeEvent → Bool
is_open e = is_pending e.status

-- `event_id` is unique.
abbrev pub IsKeyed : List StripeEvent → Type 0
IsKeyed [] = Unit
IsKeyed (e ∷ es) = All (λ f. f.event_id ≢ e.event_id) es × IsKeyed es

pub older-eq :
    (e f : StripeEvent) (o : Option StripeEvent) → older e o ≡ some f → (f ≡ e) ⊎ (o ≡ some f)
older-eq e f none h = ground arith
older-eq e f (some g) h = ground arith

-- The event that is taken next is pending, and what all rows satisfy it satisfies.
pub next_event-open :
    (Q : StripeEvent → Type 0) (e : StripeEvent) (es : List StripeEvent)
    → next_event es ≡ some e
    → All Q es
    → (is_open e ≡ true) × Q e
unfolding next_event
next_event-open Q e [] h q = cc
next_event-open Q e (x ∷ xs) h q = elim (Bool-cases (is_open x)) [
  | inl t ↦ elim (older-eq x e (next_event xs) (rw t at h)) [
    | inl same ↦ rw same (t, q.0)
    | inr later ↦ next_event-open Q e xs later q.1
  ]
  | inr f ↦ next_event-open Q e xs (rw f at h) q.1
]

pub put_event-fresh :
    (e : StripeEvent) (es : List StripeEvent)
    → All (λ f. f.event_id ≢ e.event_id) es
    → put_event e es ≡ es
put_event-fresh e [] h = refl
put_event-fresh e (x ∷ xs) h =
    ground (arith, put_event-fresh e xs h.1, eq_iff x.event_id e.event_id)

pub put_event-cons_eq :
    (e x : StripeEvent) (xs : List StripeEvent)
    → x.event_id ≡ e.event_id
    → put_event e (x ∷ xs) ≡ e ∷ put_event e xs
put_event-cons_eq e x xs h = ground (arith, eq_iff x.event_id e.event_id)

pub put_event-cons_ne :
    (e x : StripeEvent) (xs : List StripeEvent)
    → x.event_id ≢ e.event_id
    → put_event e (x ∷ xs) ≡ x ∷ put_event e xs
put_event-cons_ne e x xs h = ground (arith, eq_iff x.event_id e.event_id)

pub count-cons :
    (x : StripeEvent) (xs : List StripeEvent)
    → is_open x ≡ true
    → count is_open (x ∷ xs) ≡ suc (count is_open xs)
count-cons x xs h = ground arith

pub count-cons_closed :
    (x : StripeEvent) (xs : List StripeEvent)
    → is_open x ≡ false
    → count is_open (x ∷ xs) ≡ count is_open xs
count-cons_closed x xs h = ground arith

-- Writing the closed event back lowers the number of pending events by one.
pub count-put_event :
    (e e' : StripeEvent) (es : List StripeEvent)
    → IsKeyed es
    → next_event es ≡ some e
    → e'.event_id ≡ e.event_id
    → is_open e' ≡ false
    → suc (count is_open (put_event e' es)) ≡ count is_open es
unfolding next_event
count-put_event e e' [] k h i c = cc
count-put_event e e' (x ∷ xs) k h i c =
    let later : next_event xs ≡ some e
        → suc (count is_open (put_event e' (x ∷ xs))) ≡ count is_open (x ∷ xs) =
      λ n.
        let apart : e.event_id ≢ x.event_id =
          (next_event-open (λ f. f.event_id ≢ x.event_id) e xs n k.0).1 in
        let cons : put_event e' (x ∷ xs) ≡ x ∷ put_event e' xs =
          put_event-cons_ne e' x xs (λ s. apart (cc)) in
        rw cons (ground (arith, count-put_event e e' xs k.1 n i c)) in
    elim (Bool-cases (is_open x)) [
      | inl t ↦ elim (older-eq x e (next_event xs) (rw t at h)) [
        | inl same ↦
            let fresh : All (λ f. f.event_id ≢ e'.event_id) xs = rw (i, same) k.0 in
            rw
              (
                put_event-cons_eq e' x xs (cc),
                put_event-fresh e' xs fresh,
                count-cons x xs t,
                count-cons_closed e' xs c,
              )
              refl
        | inr n ↦ later n
      ]
      | inr f ↦ later (rw f at h)
    ]

pub put_event-All_ids :
    (a : String) (e : StripeEvent) (es : List StripeEvent)
    → All (λ f. f.event_id ≢ a) es
    → All (λ f. f.event_id ≢ a) (put_event e es)
put_event-All_ids a e [] h = tt
put_event-All_ids a e (x ∷ xs) h =
    ground (arith, put_event-All_ids a e xs h.1, eq_iff x.event_id e.event_id)

pub put_event-IsKeyed :
    (e : StripeEvent) (es : List StripeEvent) → IsKeyed es → IsKeyed (put_event e es)
put_event-IsKeyed e [] k = tt
put_event-IsKeyed e (x ∷ xs) k =
    let rest = put_event-IsKeyed e xs k.1 in
    let apart = put_event-All_ids x.event_id e xs k.0 in
    elim (Bool-cases (x.event_id == e.event_id)) [
      | inl t ↦
          let same_id : x.event_id ≡ e.event_id = (eq_iff x.event_id e.event_id).0 t in
          rw (put_event-cons_eq e x xs same_id) (rw same_id at apart, rest)
      | inr f ↦
          rw (put_event-cons_ne e x xs (ground (arith, eq_iff x.event_id e.event_id))) (apart, rest)
    ]

pub older-ne-none : (e : StripeEvent) (o : Option StripeEvent) → older e o ≢ none
older-ne-none e none h = cc
older-ne-none e (some f) h = ground arith

pub next_event-idle : (es : List StripeEvent) → next_event es ≡ none → count is_open es ≡ 0
unfolding next_event
next_event-idle [] h = refl
next_event-idle (x ∷ xs) h = elim (Bool-cases (is_open x)) [
  | inl t ↦ absurd (older-ne-none x (next_event xs) (rw t at h))
  | inr f ↦ rw (count-cons_closed x xs f) (next_event-idle xs (rw f at h))
]
