-- ===== src/Conversation/Delete/Copies.antt =====
-- Which encrypted copies a deletion takes and which it leaves (`delete_conversation` in
-- hushline/routes/message.py).
use hushline.Common.{
  ℕ, ◌≡◌, refl, ◌⊎◌, inl, inr, ◌↔◌, Bool, true, false, ◌&&◌, not, List, [], ◌∷◌, arith, Bool-cases,
  nat_beq_iff, ◌==◌, nat_eq, rows, All, All-map,
}
use hushline.Conversation.Threads.{Message, MessageCopy}
use hushline.Conversation.Delete.{is_sent_by, is_erased}

-- The copy is of a message that the participant sent.
abbrev pub IsSentBy : ℕ → List Message → MessageCopy → Type 0
IsSentBy p [] k = ⊥
IsSentBy p (m ∷ ms) k =
    ((m.sender_participant_id ≡ p) × (m.id ≡ k.conversation_message_id)) ⊎ IsSentBy p ms k

-- The participant sent what the copy is of, or it was encrypted for the participant.
abbrev pub IsOwn : ℕ → List Message → MessageCopy → Type 0
IsOwn p ms k = IsSentBy p ms k ⊎ (k.recipient_participant_id ≡ p)

abbrev pub IsIn : {A : Type 0} → A → List A → Type 0
IsIn a [] = ⊥
IsIn a (x ∷ xs) = (x ≡ a) ⊎ IsIn a xs

is_sent_by_iff :
    (p : ℕ) (ms : List Message) (k : MessageCopy) → (is_sent_by p ms k ≡ true) ↔ IsSentBy p ms k
is_sent_by_iff p [] k = (λ e. absurd cc, λ f. absurd f)
is_sent_by_iff p (m ∷ ms) k =
    let rest = is_sent_by_iff p ms k in
    let sender = nat_beq_iff m.sender_participant_id p in
    let id = nat_beq_iff m.id k.conversation_message_id in
    elim (Bool-cases (m.sender_participant_id == p && m.id == k.conversation_message_id)) [
      | inl is ↦ (λ e. inl (sender.0 (ground arith), id.0 (ground arith)), λ f. rw is refl)
      | inr isnt ↦ (
        λ e. inr (rest.0 (rw isnt at e)),
        λ f.
            rw isnt (elim f [
              | inl x ↦ absurd (ground (arith, sender.1 x.0, id.1 x.1))
              | inr x ↦ rest.1 x
            ]),
      )
    ]

pub is_erased_iff :
    (p : ℕ) (ms : List Message) (k : MessageCopy) → (is_erased p ms k ≡ true) ↔ IsOwn p ms k
is_erased_iff p ms k =
    let sent = is_sent_by_iff p ms k in
    let own = nat_beq_iff k.recipient_participant_id p in
    elim (Bool-cases (is_sent_by p ms k)) [
      | inl is ↦ (λ e. inl (sent.0 is), λ f. rw is refl)
      | inr isnt ↦ (
        λ e. inr (own.0 (rw isnt at e)),
        λ f. rw isnt (elim f [ inl x ↦ absurd (cc (sent.1 x)) | inr x ↦ own.1 x ]),
      )
    ]

module _ {A : Type 0} where
  rows-more : (q : A → Bool) (x y : A) (xs : List A) → IsIn y (rows q xs) → IsIn y (rows q (x ∷ xs))
  rows-more q x y xs h = elim (Bool-cases (q x)) [ inl e ↦ rw e (inr h) | inr e ↦ rw e h ]

  pub rows-kept :
      (p : A → Bool) (xs : List A) → All (λ x. (p x ≡ true) ⊎ IsIn x (rows (λ y. not (p y)) xs)) xs
  rows-kept p [] = tt
  rows-kept p (x ∷ xs) =
      let q = λ (y : A). not (p y) in
      (
        elim (Bool-cases (p x)) [ inl out ↦ inl out | inr in_it ↦ inr (rw in_it (inl refl)) ],
        All-map (λ y h. elim h [ inl e ↦ inl e | inr e ↦ inr (rows-more q x y xs e) ]) xs
            (rows-kept p xs),
      )

  -- What a DELETE statement leaves does not have its condition.
  pub rows-refused :
      (p : A → Bool) (xs : List A) → All (λ x. p x ≡ false) (rows (λ x. not (p x)) xs)
  rows-refused p [] = tt
  rows-refused p (x ∷ xs) = elim (Bool-cases (p x)) [
    | inl out ↦ rw out (rows-refused p xs)
    | inr in_it ↦ rw in_it (in_it, rows-refused p xs)
  ]
