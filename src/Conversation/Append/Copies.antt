-- ===== src/Conversation/Append/Copies.antt =====
-- The copies that an accepted message is stored as (`append_conversation_message` in
-- hushline/routes/message.py).
use hushline.Common.{
  ℕ, ◌≡◌, refl, inl, inr, Bool, true, false, ◌&&◌, Option, none, some, List, [], ◌∷◌, map, String,
  Bool-cases, All, ◌==◌, string_eq, eq_iff,
}
use hushline.Conversation.Threads.{Conversation, Participant, MessageCopy}
use hushline.Conversation.Envelope.{
  Json, null, boolean, number, float, text, array, object, Fields, no_fields, field, Library,
  lookup, str_id, is_envelope, is_bound,
}
use hushline.Conversation.Signature.{is_signed}
use hushline.Conversation.Append.{Post, all_items, with_copy, next_copy, new_copies}

pub and-left : (a b : Bool) → (a && b) ≡ true → a ≡ true
and-left true b e = refl
and-left false b e = e

pub and-right : (a b : Bool) → (a && b) ≡ true → b ≡ true
and-right true b e = e
and-right false b e = absurd cc

pub all_items-lookup :
    (check : String → Json → Bool) (fs : Fields) (key : String) (v : Json)
    → all_items check fs ≡ true
    → lookup key fs ≡ some v
    → check key v ≡ true
all_items-lookup check no_fields key v a e = absurd cc
all_items-lookup check (field k w rest) key v a e = elim (Bool-cases (k == key)) [
  | inl here ↦
      let same : k ≡ key = (eq_iff k key).0 here in
      let is_v : w ≡ v = cc (rw (lookup, here) at e) in
      rw⁻¹ (same, is_v) (and-left (check k w) (all_items check rest) a)
  | inr there ↦
      all_items-lookup check rest key v (and-right (check k w) (all_items check rest) a)
        (rw (lookup, there) at e)
]

-- A copy that its recipient can trust: sealed, bound to the conversation, the sender and the
-- recipient, and signed with the sender's key.
pub record IsSealed (lib : Library) (key : Option String) (message : ℕ) (c : Conversation)
    (sender : ℕ) (k : MessageCopy) : Type 0 where
  pub of_message : k.conversation_message_id ≡ message
  pub envelope : is_envelope lib (text k.encrypted_payload) ≡ true
  pub bound :
      is_bound lib c.id c.public_id sender
        (str_id lib k.recipient_participant_id)
        (text k.encrypted_payload)
      ≡ true
  pub signed : is_signed lib key (text k.encrypted_payload) ≡ true

pub with_copy_sound :
    (post : Post) (p : Participant) (l : Option Json) (r : Option (List MessageCopy))
    (out : List MessageCopy)
    → with_copy post p l r ≡ some out
    → (s : String) × (rest : List MessageCopy) × (l ≡ some (text s))
      × (r ≡ some rest)
      × (out
          ≡ record {
            id = post.copy_id;
            conversation_message_id = post.message_id;
            recipient_participant_id = p.id;
            encrypted_payload = s;
          }
            ∷ rest)
with_copy_sound post p none r out e = absurd cc
with_copy_sound post p (some null) r out e = absurd cc
with_copy_sound post p (some (boolean b)) r out e = absurd cc
with_copy_sound post p (some (number n)) r out e = absurd cc
with_copy_sound post p (some (float n)) r out e = absurd cc
with_copy_sound post p (some (array xs)) r out e = absurd cc
with_copy_sound post p (some (object fs)) r out e = absurd cc
with_copy_sound post p (some (text s)) none out e = absurd cc
with_copy_sound post p (some (text s)) (some rest) out e = (s, rest, refl, refl, cc e)

module _ (lib : Library) (c : Conversation) (sender : ℕ) (key : Option String) where
  pub new_copies-IsSealed :
      (post : Post) (copies : Fields) (ps : List Participant) (out : List MessageCopy)
      → all_items (λ k v. is_envelope lib v) copies ≡ true
      → all_items (λ k v. is_bound lib c.id c.public_id sender k v) copies ≡ true
      → all_items (λ k v. is_signed lib key v) copies ≡ true
      → new_copies lib post copies ps ≡ some out
      → All (IsSealed lib key post.message_id c sender) out
        × (map (λ (k : MessageCopy). k.recipient_participant_id) out
            ≡ map (λ (p : Participant). p.id) ps)
  new_copies-IsSealed post copies [] out a b d e =
      let is_out : out ≡ [] = cc e in rw is_out (tt, refl)
  new_copies-IsSealed post copies (p ∷ ps) out a b d e =
      let (s, rest, found_it, others, is_out) =
        with_copy_sound post p (lookup (str_id lib p.id) copies)
          (new_copies lib (next_copy post) copies ps) out e in
      let (sealed, recipients) = new_copies-IsSealed (next_copy post) copies ps rest a b d others in
      rw is_out (
        (
          record {
            of_message = refl;
            envelope =
                all_items-lookup (λ k v. is_envelope lib v) copies (str_id lib p.id) (text s) a
                  found_it;
            bound =
                all_items-lookup (λ k v. is_bound lib c.id c.public_id sender k v) copies
                  (str_id lib p.id) (text s) b found_it;
            signed =
                all_items-lookup (λ k v. is_signed lib key v) copies (str_id lib p.id) (text s) d
                  found_it;
          },
          sealed,
        ),
        rw recipients refl,
      )
