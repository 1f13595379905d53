-- ===== src/Conversation/Append/Sealed.antt =====
-- What an accepted message stores (`append_conversation_message` in hushline/routes/message.py).
use hushline.Common.{
  ℕ, ◌≡◌, refl, inl, inr, sym, ap, Bool, true, false, ◌&&◌, Option, none, some, List, ◌++◌, map,
  String, arith, Bool-cases, if◌then◌else◌, rows, Found, absent, one, multiple, All, string_eq,
}
use hushline.Model.User.{User, get_user}
use hushline.Auth.Store.{Response, page}
use hushline.Conversation.RateLimit.{Settings, consume_rate_limit}
use hushline.Conversation.Threads.{
  Conversation, Participant, MessageCopy, Tables, find_thread, participant_for_user_id,
}
use hushline.Conversation.Envelope.{
  Json, null, boolean, number, float, text, array, object, Fields, Library, get, is_envelope,
  is_bound,
}
use hushline.Conversation.Signature.{is_signed}
use hushline.Conversation.Append.{
  Post, participants_of, signing_key, all_items, is_acceptable, is_available, is_capable, same_set,
  keys, ids, new_copies, sender_of, store_copies, append_copies, append_json, append_payload,
  append_of, append_in, handle_append,
}
use hushline.Conversation.Append.Copies.{new_copies-IsSealed, IsSealed}

-- What an accepted message leaves behind.
pub record Accepted (s : Settings) (lib : Library) (users : List User) (post : Post) (user : ℕ)
    (c : Conversation) (p : Participant) (db out : Tables) : Type 0 where
  pub member : participant_for_user_id c.id user db ≡ some p
  pub within_limits : (consume_rate_limit s (sender_of post c p user) db.attempts).0 ≡ false
  pub counted : out.attempts ≡ (consume_rate_limit s (sender_of post c p user) db.attempts).1
  pub copies : List MessageCopy
  pub stored : out.copies ≡ copies ++ db.copies
  pub recipients :
      map (λ (k : MessageCopy). k.recipient_participant_id) copies
      ≡ map (λ (q : Participant). q.id) (participants_of c.id db)
  pub sealed :
      All (IsSealed lib (signing_key (get_user p.user_id users)) post.message_id c p.id) copies

and-last :
    (u v a b d : Bool) → (u && (v && (a && (b && d)))) ≡ true → (a ≡ true) × (b ≡ true) × (d ≡ true)
and-last true true true true d e = (refl, refl, e)
and-last true true true false d e = absurd cc
and-last true true false b d e = absurd cc
and-last true false a b d e = absurd cc
and-last false v a b d e = absurd cc

module _ (s : Settings) (lib : Library) (users : List User) (post : Post) (c : Conversation)
    (p : Participant) (user : ℕ) (db out : Tables) where
  store_copies_sound :
      (o : Option (List MessageCopy))
      → store_copies s post c p user db o ≡ (page 201, out)
      → (copies : List MessageCopy) × (o ≡ some copies)
        × (out.copies ≡ copies ++ db.copies)
        × (out.attempts ≡ (consume_rate_limit s (sender_of post c p user) db.attempts).1)
  store_copies_sound none e = absurd cc
  store_copies_sound (some copies) e =
      let is_out = ap (λ (r : Response × Tables). r.1) e in
      (
        copies,
        refl,
        ap (λ (t : Tables). t.copies) (sym is_out),
        ap (λ (t : Tables). t.attempts) (sym is_out),
      )

  append_copies_sound :
      (copies : Fields)
      → participant_for_user_id c.id user db ≡ some p
      → append_copies s lib users post c p user db copies ≡ (page 201, out)
      → Accepted s lib users post user c p db out
  append_copies_sound copies m e = elim (Bool-cases (is_acceptable lib users c p db copies)) [
    | inr refused ↦ absurd (ground arith)
    | inl fine ↦ elim (Bool-cases (consume_rate_limit s (sender_of post c p user) db.attempts).0) [
      | inl full ↦ absurd (ground arith)
      | inr free ↦
          let made = new_copies lib post copies (participants_of c.id db) in
          let (made_rows, is_made, stored, counted) =
            store_copies_sound made (rw (append_copies, fine, free) at e) in
          let members = participants_of c.id db in
          let key = signing_key (get_user p.user_id users) in
          let (enveloped, bound, signed) =
            and-last (is_available users members p)
              (same_set (keys copies) (ids lib (rows (is_capable users) members)))
              (all_items (λ k v. is_envelope lib v) copies)
              (all_items (λ k v. is_bound lib c.id c.public_id p.id k v) copies)
              (all_items (λ k v. is_signed lib key v) copies) fine in
          let (sealed, recipients) =
            new_copies-IsSealed lib c p.id (signing_key (get_user p.user_id users)) post copies
              (participants_of c.id db) made_rows enveloped bound signed is_made in
          record {
            member = m;
            within_limits = free;
            counted = counted;
            copies = made_rows;
            stored = stored;
            recipients = recipients;
            sealed = sealed;
          }
    ]
  ]

  append_payload_sound :
      (body : Option Json)
      → participant_for_user_id c.id user db ≡ some p
      → append_payload s lib users post c p user db body ≡ (page 201, out)
      → Accepted s lib users post user c p db out
  append_payload_sound none m e = absurd (ground arith)
  append_payload_sound (some null) m e = absurd (ground arith)
  append_payload_sound (some (boolean b)) m e = absurd (ground arith)
  append_payload_sound (some (number n)) m e = absurd (ground arith)
  append_payload_sound (some (float n)) m e = absurd (ground arith)
  append_payload_sound (some (text t)) m e = absurd (ground arith)
  append_payload_sound (some (array xs)) m e = absurd (ground arith)
  append_payload_sound (some (object fs)) m e = go (get "encrypted_copies" fs) e
    where
      go :
          (j : Json)
          → append_json s lib users post c p user db j ≡ (page 201, out)
          → Accepted s lib users post user c p db out
      go null h = absurd (ground arith)
      go (boolean b) h = absurd (ground arith)
      go (number n) h = absurd (ground arith)
      go (float n) h = absurd (ground arith)
      go (text t) h = absurd (ground arith)
      go (array xs) h = absurd (ground arith)
      go (object copies) h = append_copies_sound copies m h

csrf_sound :
    (ok : Bool) (done : Response × Tables) (db out : Tables)
    → (if ok then done else (page 400, db)) ≡ (page 201, out)
    → done ≡ (page 201, out)
csrf_sound true done db out e = e
csrf_sound false done db out e = absurd (ground arith)

append_of_sound :
    (s : Settings) (lib : Library) (users : List User) (post : Post) (c : Conversation) (user : ℕ)
    (db out : Tables) (o : Option Participant)
    → participant_for_user_id c.id user db ≡ o
    → append_of s lib users post c user db o ≡ (page 201, out)
    → (p : Participant) × Accepted s lib users post user c p db out
append_of_sound s lib users post c user db out none m e = absurd (ground arith)
append_of_sound s lib users post c user db out (some p) m e =
    let done = append_payload s lib users post c p user db post.payload in
    (
      p,
      append_payload_sound s lib users post c p user db out post.payload m
          (csrf_sound post.csrf_ok done db out e),
    )

append_in_sound :
    (s : Settings) (lib : Library) (users : List User) (post : Post) (user : ℕ) (db out : Tables)
    (f : Found Conversation)
    → append_in s lib users post user db f ≡ (page 201, out)
    → (c : Conversation) × (p : Participant) × (f ≡ one c)
      × Accepted s lib users post user c p db out
append_in_sound s lib users post user db out absent e = absurd (ground arith)
append_in_sound s lib users post user db out multiple e = absurd (ground arith)
append_in_sound s lib users post user db out (one c) e =
    let (p, done) =
      append_of_sound s lib users post c user db out (participant_for_user_id c.id user db) refl
        e in
    (c, p, refl, done)

-- A message that is accepted stores one copy for each participant of a conversation that the user
-- sees, in their order and no other; each copy is a well-formed envelope, bound to this
-- conversation, this sender and its recipient, and signed with the sender's active key; and the
-- message was within the rate limits and is counted.
pub handle_append_sound :
    (s : Settings) (lib : Library) (users : List User) (post : Post) (user : ℕ) (public_id : String)
    (db out : Tables)
    → handle_append s lib users post user public_id db ≡ (page 201, out)
    → (c : Conversation) × (p : Participant) × (find_thread user public_id db ≡ one c)
      × Accepted s lib users post user c p db out
unfolding handle_append
handle_append_sound s lib users post user public_id db out e =
    append_in_sound s lib users post user db out (find_thread user public_id db) e
