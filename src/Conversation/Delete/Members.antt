-- ===== src/Conversation/Delete/Members.antt =====
-- Which conversations a user takes part in, when a participant's row is written back or rows are
-- dropped (hushline/model/conversation.py).
use hushline.Common.{
  ℕ, ◌≡◌, ◌≢◌, refl, sym, ap, ◌∙◌, ◌⊎◌, inl, inr, Bool, true, false, ◌&&◌, not, Option, none, some,
  List, [], ◌∷◌, arith, Bool-cases, nat_beq_iff, ◌==◌, nat_eq, string_eq, option_eq, rows, count,
  first, any, All, ◌≤◌,
}
use hushline.Conversation.Threads.{Participant, Message, Tables, is_of, is_present, put_participant}
use hushline.Conversation.Delete.{left}

module _ {ℓ} {A : Type ℓ} where
  -- No row is left that a DELETE statement selects.
  pub rows-not : (p : A → Bool) (xs : List A) → any p (rows (λ x. not (p x)) xs) ≡ false
  rows-not p [] = refl
  rows-not p (x ∷ xs) = let rest = rows-not p xs in ground arith

  pub rows-any : (p q : A → Bool) (xs : List A) → any p xs ≡ false → any p (rows q xs) ≡ false
  rows-any p q [] e = refl
  rows-any p q (x ∷ xs) e = let rest = rows-any p q xs in ground arith

-- The primary key of `conversation_participants`, and its unique constraint.
abbrev pub IsKeyed : List Participant → Type 0
IsKeyed [] = Unit
IsKeyed (p ∷ ps) = All (λ q. q.id ≢ p.id) ps × IsKeyed ps

abbrev pub is_member : ℕ → ℕ → Participant → Bool
is_member thread user p = is_of thread p && p.user_id == user

abbrev pub is_present_member : ℕ → ℕ → Participant → Bool
is_present_member thread user p = is_of thread p && (p.user_id == user && is_present p)

pub record IsConstrained (db : Tables) : Type 0 where
  pub keyed : IsKeyed db.participants
  pub one_each : (t u : ℕ) → count (is_member t u) db.participants ≤ 1

pub left-gone :
    (now : ℕ) (m : Option Message) (p : Participant) (t u : ℕ)
    → is_present_member t u (left now m p) ≡ false
left-gone now none p t u = ground arith
left-gone now (some m) p t u = ground arith

pub left-id : (now : ℕ) (m : Option Message) (p : Participant) → (left now m p).id ≡ p.id
left-id now none p = refl
left-id now (some m) p = refl

pub put-none :
    (t u : ℕ) (v : Participant) (ps : List Participant)
    → is_present_member t u v ≡ false
    → count (is_member t u) ps ≡ 0
    → any (is_present_member t u) (put_participant v ps) ≡ false
put-none t u v [] e c = refl
put-none t u v (q ∷ qs) e c = let rest = put-none t u v qs e in ground arith

-- The member that leaves is no longer a present one.
pub put-left :
    (t u : ℕ) (p v : Participant) (ps : List Participant)
    → is_present_member t u v ≡ false
    → v.id ≡ p.id
    → first (is_member t u) ps ≡ some p
    → count (is_member t u) ps ≤ 1
    → any (is_present_member t u) (put_participant v ps) ≡ false
put-left t u p v [] e i f c = refl
put-left t u p v (q ∷ qs) e i f c = elim (Bool-cases (is_member t u q)) [
  | inl own ↦
      let is_p : q ≡ p = cc (rw own at f) in
      let rest = put-none t u v qs e (ground arith) in
      let same : (q.id == v.id) ≡ true =
        (nat_beq_iff q.id v.id).1 (ap (λ (w : Participant). w.id) is_p ∙ sym i) in
      rw same (ground arith)
  | inr foreign ↦
      let rest = put-left t u p v qs e i (rw foreign at f) (rw foreign at c) in ground arith
]

pub apart :
    (p q : Participant) (ps : List Participant)
    → q ≡ p
    → All (λ x. x.id ≢ q.id) ps
    → All (λ x. (x.id ≢ p.id) ⊎ (x ≡ p)) ps
apart p q [] e h = tt
apart p q (x ∷ xs) e h =
    (inl (λ same. h.0 (same ∙ ap (λ (w : Participant). w.id) (sym e))), apart p q xs e h.1)

pub first-apart :
    (f : Participant → Bool) (p q : Participant) (ps : List Participant)
    → All (λ x. x.id ≢ q.id) ps
    → first f ps ≡ some p
    → p.id ≢ q.id
first-apart f p q [] h e = absurd cc
first-apart f p q (x ∷ xs) h e = elim (Bool-cases (f x)) [
  | inl here ↦
      let is_p : x ≡ p = cc (rw here at e) in
      λ same. h.0 (ap (λ (w : Participant). w.id) is_p ∙ same)
  | inr there ↦ first-apart f p q xs h.1 (rw there at e)
]

pub keyed-cases :
    (f : Participant → Bool) (p : Participant) (ps : List Participant)
    → IsKeyed ps
    → first f ps ≡ some p
    → All (λ q. (q.id ≢ p.id) ⊎ (q ≡ p)) ps
keyed-cases f p [] k e = tt
keyed-cases f p (q ∷ qs) k e = elim (Bool-cases (f q)) [
  | inl here ↦ let is_p : q ≡ p = cc (rw here at e) in (inr is_p, apart p q qs is_p k.0)
  | inr there ↦
      let rest = keyed-cases f p qs k.1 (rw there at e) in
      (inl (λ same. first-apart f p q qs k.0 (rw there at e) (sym same)), rest)
]

-- Writing a row back changes no answer that is the same for the old and the new row.
pub any-put :
    (r : Participant → Bool) (p v : Participant) (ps : List Participant)
    → r v ≡ r p
    → v.id ≡ p.id
    → All (λ q. (q.id ≢ p.id) ⊎ (q ≡ p)) ps
    → any r (put_participant v ps) ≡ any r ps
any-put r p v [] e i h = refl
any-put r p v (q ∷ qs) e i h =
    let rest = any-put r p v qs e i h.1 in
    elim h.0 [
      | inl ne ↦ ground (arith, nat_beq_iff q.id v.id)
      | inr is ↦
          let same : (q.id == v.id) ≡ true =
            (nat_beq_iff q.id v.id).1 (ap (λ (w : Participant). w.id) is ∙ sym i) in
          let old : r v ≡ r q = e ∙ ap r (sym is) in rw (same, old, rest) refl
    ]

-- Dropping the rows that a test refuses anyway.
pub any-rows :
    (r k : Participant → Bool) (ps : List Participant)
    → ((q : Participant) → (r q ≡ false) ⊎ (k q ≡ true))
    → any r (rows k ps) ≡ any r ps
any-rows r k [] h = refl
any-rows r k (q ∷ qs) h =
    let rest = any-rows r k qs h in elim (h q) [ inl out ↦ ground arith | inr in_it ↦ ground arith ]

pub any-stronger :
    (r k : Participant → Bool) (ps : List Participant)
    → ((q : Participant) → (r q ≡ false) ⊎ (k q ≡ true))
    → any k ps ≡ false
    → any r ps ≡ false
any-stronger r k [] h e = refl
any-stronger r k (q ∷ qs) h e =
    let rest = any-stronger r k qs h in
    elim (h q) [ inl out ↦ ground arith | inr in_it ↦ absurd (ground arith) ]

pub first-holds :
    (f : Participant → Bool) (p : Participant) (ps : List Participant)
    → first f ps ≡ some p
    → f p ≡ true
first-holds f p [] e = absurd cc
first-holds f p (q ∷ qs) e = elim (Bool-cases (f q)) [
  | inl here ↦ let is_p : q ≡ p = cc (rw here at e) in ap f (sym is_p) ∙ here
  | inr there ↦ first-holds f p qs (rw there at e)
]

pub member-other :
    (t u s v : ℕ) (p : Participant)
    → is_member t u p ≡ true
    → v ≢ u
    → false ≡ is_present_member s v p
member-other t u s v p e ne = ground (arith, nat_beq_iff p.user_id u, nat_beq_iff p.user_id v)

pub present-here :
    (t v : ℕ) (q : Participant)
    → (is_present_member t v q ≡ false) ⊎ ((is_of t q && is_present q) ≡ true)
present-here t v q = elim (Bool-cases (is_present_member t v q)) [
  | inl seen ↦ inr (ground arith)
  | inr unseen ↦ inl unseen
]

pub present-elsewhere :
    (s t v : ℕ) (q : Participant)
    → s ≢ t
    → (is_present_member s v q ≡ false) ⊎ (not (is_of t q) ≡ true)
present-elsewhere s t v q ne = elim (Bool-cases (is_of t q)) [
  | inl here ↦
      inl (ground (arith, nat_beq_iff q.conversation_id t, nat_beq_iff q.conversation_id s))
  | inr there ↦ inr (rw there refl)
]
