-- ===== src/Inbox/Isolated.antt =====
-- hushline/routes/message.py and hushline/settings/replies.py: requests of other users leave a user's
-- messages and answers as they are.
use hushline.Common.{
  rows-first, All-map, ℕ, ◌≡◌, refl, ap, ◌∙◌, Bool, true, false, ◌&&◌, Option, none, some, List, [],
  ◌∷◌, String, ◌==◌, nat_eq, string_eq, arith, leb, count, rows, strip, found, All, All-of,
  Bool-cases, option_eq, inl, inr,
}
use hushline.UserDeletion.{UsernameRow, FieldValueRow}
use hushline.Inbox.{
  MessageStatus, StatusText, StoredMessage, Mailbox, is_own, is_asked, drop_message, delete_found,
  handle_delete_message, handle_set_message_status,
}
use hushline.Inbox.Replies.{is_text_for, upsert_text, upsert, submitted_markdown, handle_replies}
use hushline.Inbox.Answers.{AreKeyed, one_owner}
use hushline.Inbox.Posts.{
  Post, delete, set_status, reply, sender, perform, perform_each, HaveIds, messages_of, answers_of,
  values_of, kept,
}
use hushline.Inbox.Others.{
  only, rows-without_some, All-rows, without-HaveIds, update_rows-HaveIds, update_rows-other,
  put_text-other, other_value,
}

-- The user's messages, their values and the user's answers are the same.
unfoldable pub AreUnchanged : ℕ → Mailbox → Mailbox → Type 0
AreUnchanged u box after =
    (messages_of u after ≡ messages_of u box)
    × (answers_of u after ≡ answers_of u box)
    × All (λ (m : StoredMessage). values_of m.id after ≡ values_of m.id box) (messages_of u box)

-- The primary keys, which a request keeps.
abbrev pub HasKeys : Mailbox → Type 0
HasKeys box = AreKeyed box.usernames × HaveIds box.messages

abbrev Step : ℕ → Mailbox → Mailbox → Type 0
Step u box after = AreUnchanged u box after × HasKeys after

none_changed : (u : ℕ) (box : Mailbox) → HasKeys box → Step u box box
unfolding AreUnchanged
none_changed u box k = ((refl, refl, All-of _ (λ m. refl) _), k)

asked-other :
    (u a : ℕ) (public_id : String) (names : List UsernameRow) (m : StoredMessage)
    → AreKeyed names
    → (u == a) ≡ false
    → is_asked a public_id names m ≡ true
    → is_own u names m ≡ false
asked-other u a public_id names m k n h = one_owner a u m.username_id names k (ground arith) ∙ n

values-kept :
    (P : StoredMessage → Bool) (box : Mailbox) (d m : StoredMessage)
    → ((m.id == d.id) ≡ true → P m ≡ false) × (P m ≡ true)
    → values_of m.id (drop_message d box) ≡ values_of m.id box
unfolding values_of
values-kept P box d m (h, t) = elim (Bool-cases (m.id == d.id)) [
  | inl e ↦ cc (h e, t)
  | inr e ↦
      rows-without_some _ _ box.field_values
        (All-of _ (λ (v : FieldValueRow). other_value m.id d.id v.message_id e) box.field_values)
]

drop_message-Step :
    (u a : ℕ) (public_id : String) (box : Mailbox) (d : StoredMessage)
    → HasKeys box
    → (u == a) ≡ false
    → rows (is_asked a public_id box.usernames) box.messages ≡ d ∷ []
    → Step u box (drop_message d box)
unfolding AreUnchanged messages_of answers_of values_of
drop_message-Step u a public_id box d (k, l) n e =
    let P = is_asked a public_id box.usernames in
    let (_, t) = rows-first P (λ _. Unit {0}) box.messages e (All-of _ (λ _. tt) _) in
    let f : is_own u box.usernames d ≡ false = asked-other u a public_id box.usernames d k n t in
    let others : All
        (λ (m : StoredMessage). (m.id == d.id) ≡ true → is_own u box.usernames m ≡ false)
        box.messages =
      All-map {P = λ (m : StoredMessage). (m.id == d.id) ≡ true → m ≡ d}
        (λ m h q. ap (is_own u box.usernames) (h q) ∙ f) box.messages (only P box.messages l e) in
    (
      (
        rows-without_some (λ (m : StoredMessage). m.id == d.id) (is_own u box.usernames)
            box.messages others,
        refl,
        All-map (λ (m : StoredMessage) h. values-kept (is_own u box.usernames) box d m h) _
            (All-rows _ (is_own u box.usernames) box.messages others),
      ),
      (k, without-HaveIds _ box.messages l),
    )

delete-Step :
    (u a : ℕ) (public_id : String) (box : Mailbox)
    → HasKeys box
    → (u == a) ≡ false
    → Step u box (handle_delete_message a public_id box).1
unfolding handle_delete_message
delete-Step u a public_id box k n = go (rows (is_asked a public_id box.usernames) box.messages) refl
  where
    go :
        (ms : List StoredMessage)
        → rows (is_asked a public_id box.usernames) box.messages ≡ ms
        → Step u box (delete_found box (found ms)).1
    go [] e = none_changed u box k
    go (d ∷ []) e = drop_message-Step u a public_id box d k n e
    go (_ ∷ _ ∷ _) e = none_changed u box k

set_status-Step :
    (u a now : ℕ) (public_id : String) (status : Option MessageStatus) (box : Mailbox)
    → HasKeys box
    → (u == a) ≡ false
    → Step u box (handle_set_message_status now a public_id status box).1
unfolding handle_set_message_status AreUnchanged messages_of answers_of values_of
set_status-Step u a now public_id none box k n = none_changed u box k
set_status-Step u a now public_id (some status) box (k, l) n =
    let p = is_asked a public_id box.usernames in
    elim (Bool-cases (count p box.messages == 1)) [
      | inr e ↦ rw e (none_changed u box (k, l))
      | inl e ↦ rw e (
        (
          update_rows-other u box.usernames p now status box.messages
              (λ m. asked-other u a public_id box.usernames m k n),
          refl,
          All-of _ (λ m. refl) _,
        ),
        (k, update_rows-HaveIds p now status box.messages l),
      )
    ]

other_text :
    (u a : ℕ) (status : MessageStatus)
    → (u == a) ≡ false
    → (t : StatusText) → is_text_for a status t ≡ true
    → (t.user_id == u) ≡ false
other_text u a status n t h = ground arith

upsert_text-other :
    (u a : ℕ) (status : MessageStatus) (markdown : String) (ts : List StatusText)
    → (u == a) ≡ false
    → rows (λ (t : StatusText). t.user_id == u) (upsert_text a status markdown ts)
      ≡ rows (λ (t : StatusText). t.user_id == u) ts
upsert_text-other u a status markdown ts n = elim (Bool-cases (markdown == "")) [
  | inl e ↦ rw e (rows-without_some _ _ ts (All-of _ (other_text u a status n) ts))
  | inr e ↦ rw e (put_text-other u a status markdown ts (ground arith))
]

upsert-Step :
    (u a : ℕ) (status : MessageStatus) (markdown : String) (box : Mailbox)
    → HasKeys box
    → (u == a) ≡ false
    → Step u box (kept box (upsert a status markdown box))
unfolding upsert AreUnchanged messages_of answers_of values_of
upsert-Step u a status markdown box (k, l) n =
    elim (Bool-cases
      (strip markdown == "" && leb 2 (count (is_text_for a status) box.status_texts))) [
        | inl e ↦ rw e (none_changed u box (k, l))
        | inr e ↦ rw e (
          (
            refl,
            upsert_text-other u a status (strip markdown) box.status_texts n,
            All-of _ (λ m. refl) _,
          ),
          (k, l),
        )
      ]

perform-Step :
    (u : ℕ) (p : Post) (box : Mailbox)
    → HasKeys box
    → (u == sender p) ≡ false
    → Step u box (perform p box)
unfolding perform handle_replies
perform-Step u (delete a public_id) box k n = delete-Step u a public_id box k n
perform-Step u (set_status now a public_id status) box k n =
    set_status-Step u a now public_id status box k n
perform-Step u (reply a none) box k n = none_changed u box k
perform-Step u (reply a (some (status, markdown))) box k n =
    upsert-Step u a status (submitted_markdown status markdown) box k n

AreUnchanged-trans :
    (u : ℕ) (a b c : Mailbox) → AreUnchanged u a b → AreUnchanged u b c → AreUnchanged u a c
unfolding AreUnchanged
AreUnchanged-trans u a b c (m, t, v) (n, s, w) =
    (n ∙ m, s ∙ t, All-both (messages_of u a) v (rw m at w))
  where
    All-both :
        (ms : List StoredMessage)
        → All (λ (x : StoredMessage). values_of x.id b ≡ values_of x.id a) ms
        → All (λ (x : StoredMessage). values_of x.id c ≡ values_of x.id b) ms
        → All (λ (x : StoredMessage). values_of x.id c ≡ values_of x.id a) ms
    All-both [] _ _ = tt
    All-both (x ∷ ms) (h, hs) (g, gs) = (g ∙ h, All-both ms hs gs)

-- Whatever other users post to delete messages, to set messages' statuses and to save answers, a user's
-- messages, the values of their fields and the user's answers stay as they are, if the usernames and
-- the messages have different ids.
pub others_change_nothing :
    (u : ℕ) (ps : List Post) (box : Mailbox)
    → HasKeys box
    → All (λ p. (u == sender p) ≡ false) ps
    → AreUnchanged u box (perform_each ps box)
unfolding perform_each
others_change_nothing u [] box k n = (none_changed u box k).0
others_change_nothing u (p ∷ ps) box k (n, ns) =
    let (s, l) = perform-Step u p box k n in
    AreUnchanged-trans u box (perform p box) _ s (others_change_nothing u ps (perform p box) l ns)
