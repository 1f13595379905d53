-- ===== src/Conversation/Delete/Erased.antt =====
-- What is left after a conversation was deleted (`delete_conversation` in
-- hushline/routes/message.py).
use hushline.Common.{
  ◌⊎◌, inl, inr, Bool-cases, nat_beq_iff, nat_eq, ◌==◌, arith, ℕ, ◌≡◌, ◌≢◌, refl, sym, ◌∙◌, Bool,
  false, ◌&&◌, not, Option, none, some, String, string_eq, option_eq, rows, All, All-map, rows-All,
  Found, absent, one, multiple,
}
use hushline.Auth.Store.{redirect, inbox}
use hushline.Conversation.Threads.{
  Conversation, Participant, Message, Tables, is_of, is_present, is_visible, find_thread,
  participant_for_user_id, latest_message,
}
use hushline.Conversation.Delete.{
  is_erased, outlives, drop_thread, leave, is_inhabited, delete_for, left, delete_of, delete_in,
  handle_delete_conversation,
}
use hushline.Conversation.Delete.Copies.{IsOwn, IsIn, is_erased_iff, rows-kept, rows-refused}
use hushline.Conversation.Delete.Members.{
  IsConstrained, any-put, any-rows, any-stronger, first-holds, is_member, is_present_member,
  keyed-cases, left-gone, left-id, member-other, present-elsewhere, present-here, put-left,
  rows-any,
}

-- What stays: the messages and everyone else's copies of what others sent, or else nobody takes part
-- in the conversation any more and it has no message.
abbrev pub Remains : Conversation → Participant → Tables → Tables → Type 0
Remains c p before after =
    ((after.messages ≡ before.messages)
      × All (λ k. IsOwn p.id before.messages k ⊎ IsIn k after.copies) before.copies)
    ⊎ (All (λ (q : Participant). q.conversation_id ≢ c.id) after.participants
        × All (λ (m : Message). m.conversation_id ≢ c.id) after.messages)

module _ (now user : ℕ) (c : Conversation) (p : Participant) (db : Tables) where
  abbrev gone : Participant
  gone = left now (latest_message (rows (λ (m : Message). m.conversation_id == c.id) db.messages)) p

  drop-visible :
      (v : ℕ) (d : Conversation) (t : Tables)
      → is_inhabited c.id t ≡ false
      → is_visible v (drop_thread c.id t) d ≡ is_visible v t d
  drop-visible v d t e = elim (Bool-cases (d.id == c.id)) [
    | inl same ↦
        let is_c : d.id ≡ c.id = (nat_beq_iff d.id c.id).0 same in
        let before : is_visible v t d ≡ false = rw is_c (
          any-stronger (is_present_member c.id v) (λ q. is_of c.id q && is_present q) t.participants
            (present-here c.id v) e) in
        rows-any (is_present_member d.id v) (λ q. not (is_of c.id q)) t.participants before
        ∙ sym before
    | inr other ↦
        any-rows (is_present_member d.id v) (λ q. not (is_of c.id q)) t.participants
          (λ q. present-elsewhere d.id c.id v q (ground (arith, nat_beq_iff d.id c.id)))
  ]

  leave-hides :
      IsConstrained db
      → participant_for_user_id c.id user db ≡ some p
      → is_visible user (leave now c.id p db) c ≡ false
  leave-hides k e =
      put-left c.id user p gone db.participants (left-gone now _ p c.id user) (left-id now _ p) e
        (k.one_each c.id user)

  leave-keeps :
      (v : ℕ) (d : Conversation)
      → v ≢ user
      → IsConstrained db
      → participant_for_user_id c.id user db ≡ some p
      → is_visible v (leave now c.id p db) d ≡ is_visible v db d
  leave-keeps v d ne k e =
      any-put (is_present_member d.id v) p gone db.participants
        (left-gone now _ p d.id v
          ∙ member-other c.id user d.id v p (first-holds (is_member c.id user) p db.participants e)
              ne)
        (left-id now _ p) (keyed-cases (is_member c.id user) p db.participants k.keyed e)

  delete_for-visible :
      (v : ℕ) (d : Conversation)
      → is_visible v (delete_for now c.id p db) d ≡ is_visible v (leave now c.id p db) d
  delete_for-visible v d = elim (Bool-cases (is_inhabited c.id (leave now c.id p db))) [
    | inl stays ↦ rw stays refl
    | inr empty ↦ rw empty (drop-visible v d (leave now c.id p db) empty)
  ]

  delete_for-erases : All (λ k. ¬ (IsOwn p.id db.messages k)) (delete_for now c.id p db).copies
  delete_for-erases =
      let left_over : All (λ k. ¬ (IsOwn p.id db.messages k)) (leave now c.id p db).copies =
        All-map (λ k e own. absurd (cc (e, (is_erased_iff p.id db.messages k).1 own))) _
          (rows-refused (is_erased p.id db.messages) db.copies) in
      elim (Bool-cases (is_inhabited c.id (leave now c.id p db))) [
        | inl stays ↦ rw stays left_over
        | inr empty ↦ rw empty (rows-All _ (outlives c.id (leave now c.id p db)) _ left_over)
      ]

  delete_for-leaves : Remains c p db (delete_for now c.id p db)
  delete_for-leaves = elim (Bool-cases (is_inhabited c.id (leave now c.id p db))) [
    | inl stays ↦ rw stays (
        inl (
          refl,
          All-map
              (λ k h. elim h [
                | inl e ↦ inl ((is_erased_iff p.id db.messages k).0 e)
                | inr e ↦ inr e
              ])
              db.copies (rows-kept (is_erased p.id db.messages) db.copies),
        ))
    | inr empty ↦ rw empty (
        inr (
          All-map (λ (q : Participant) e. ground (arith, e, nat_beq_iff q.conversation_id c.id)) _
              (rows-refused (is_of c.id) (leave now c.id p db).participants),
          All-map (λ (m : Message) e. ground (arith, e, nat_beq_iff m.conversation_id c.id)) _
              (rows-refused (λ (m : Message). m.conversation_id == c.id) db.messages),
        ))
  ]

delete_of_sound :
    (now thread : ℕ) (form_valid : Bool) (db out : Tables) (o : Option Participant)
    → delete_of now form_valid thread db o ≡ (redirect inbox, out)
    → (p : Participant) × (o ≡ some p) × (out ≡ delete_for now thread p db)
delete_of_sound now thread form_valid db out none e = absurd (ground arith)
delete_of_sound now thread form_valid db out (some p) e = (p, refl, ground arith)

delete_in_sound :
    (now user : ℕ) (form_valid : Bool) (db out : Tables) (f : Found Conversation)
    → delete_in now form_valid user db f ≡ (redirect inbox, out)
    → (c : Conversation) × (p : Participant) × (f ≡ one c)
      × (participant_for_user_id c.id user db ≡ some p)
      × (out ≡ delete_for now c.id p db)
delete_in_sound now user form_valid db out absent e = absurd (ground arith)
delete_in_sound now user form_valid db out multiple e = absurd (ground arith)
delete_in_sound now user form_valid db out (one c) e =
    let (p, found_it, is_out) =
      delete_of_sound now c.id form_valid db out (participant_for_user_id c.id user db) e in
    (c, p, refl, found_it, is_out)

-- A user that deletes a conversation no longer sees it, and everyone else has the conversations that
-- they had before. No copy is left of what the user sent in it, nor of what was encrypted for the user
-- there. All messages and all other copies stay, or else nobody takes part in the conversation any
-- more and none of its messages is left.
pub handle_delete_conversation-erases :
    (now user : ℕ) (form_valid : Bool) (public_id : String) (db out : Tables)
    → IsConstrained db
    → handle_delete_conversation now form_valid user public_id db ≡ (redirect inbox, out)
    → (c : Conversation) × (p : Participant) × (find_thread user public_id db ≡ one c)
      × (participant_for_user_id c.id user db ≡ some p)
      × (is_visible user out c ≡ false)
      × ((v : ℕ) (d : Conversation) → (v ≡ user) ⊎ (is_visible v out d ≡ is_visible v db d))
      × All (λ k. ¬ (IsOwn p.id db.messages k)) out.copies
      × Remains c p db out
unfolding handle_delete_conversation
handle_delete_conversation-erases now user form_valid public_id db out k e =
    let (c, p, thread, member, is_out) =
      delete_in_sound now user form_valid db out (find_thread user public_id db) e in
    (
      c,
      p,
      thread,
      member,
      rw is_out (delete_for-visible now user c p db user c ∙ leave-hides now user c p db k member),
      λ v d. elim (Bool-cases (v == user)) [
        | inl same ↦ inl ((nat_beq_iff v user).0 same)
        | inr other ↦
            let ne : v ≢ user = ground (arith, nat_beq_iff v user) in
            inr (
              rw is_out (
                delete_for-visible now user c p db v d
                ∙ leave-keeps now user c p db v d ne k member))
      ],
      rw is_out (delete_for-erases now user c p db),
      rw is_out (delete_for-leaves now user c p db),
    )
