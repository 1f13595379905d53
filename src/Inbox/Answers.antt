-- ===== src/Inbox/Answers.antt =====
-- hushline/model/message_status_text.py and hushline/model/message.py: a sender sees the answer that the
-- owner saved.
use hushline.Common.{
  ℕ, ◌≤◌, ◌≡◌, refl, ap, ◌∙◌, Bool, true, false, ◌&&◌, none, some, List, [], ◌∷◌, String,
  if◌then◌else◌, ◌==◌, nat_eq, string_eq, nat_beq_iff, arith, leb, any, count, rows, strip, found,
  one_or_none, All, Bool-cases, inl, inr,
}
use hushline.UserDeletion.{UsernameRow, without}
use hushline.Inbox.{
  MessageStatus, pending, accepted, declined, archived, StatusText, StoredMessage, Mailbox, is_own,
}
use hushline.Inbox.Replies.{
  same_status, is_text_for, put_text, upsert_text, upsert, is_owner, shown, status_text,
  default_text,
}

-- The primary key of the usernames.
abbrev pub AreKeyed : List UsernameRow → Type 0
AreKeyed [] = Unit
AreKeyed (n ∷ ns) = All (λ (k : UsernameRow). (k.id == n.id) ≡ false) ns × AreKeyed ns

rows-cong :
    {A : Type 0} (p q : A → Bool) → ((x : A) → p x ≡ q x) → (xs : List A) → rows p xs ≡ rows q xs
rows-cong p q h [] = refl
rows-cong p q h (x ∷ xs) = rw (h x, rows-cong p q h xs) refl

rows-without : {A : Type 0} (p : A → Bool) (xs : List A) → rows p (without p xs) ≡ []
rows-without p [] = refl
rows-without p (x ∷ xs) = elim (Bool-cases (p x)) [
  | inl h ↦ rw h (rows-without p xs)
  | inr h ↦ rw (h, h) (rows-without p xs)
]

count-rows : {A : Type 0} (p : A → Bool) (xs : List A) → count p xs ≤ 0 → rows p xs ≡ []
count-rows p [] h = refl
count-rows p (x ∷ xs) h = elim (Bool-cases (p x)) [
  | inl e ↦ absurd (ground arith)
  | inr e ↦ rw e (count-rows p xs (ground arith))
]

eq_true : (a : ℕ) → (a == a) ≡ true
eq_true a = ground arith

same_status_refl : (st : MessageStatus) → same_status st st ≡ true
same_status_refl pending = refl
same_status_refl accepted = refl
same_status_refl declined = refl
same_status_refl archived = refl

single :
    (user : ℕ) (status : MessageStatus) (t : StatusText) (ts : List StatusText)
    → is_text_for user status t ≡ true
    → rows (is_text_for user status) ts ≡ []
    → rows (is_text_for user status) (t ∷ ts) ≡ t ∷ []
single user status t ts e r = rw (e, r) refl

count-tail :
    {A : Type 0} (p : A → Bool) (x : A) (xs : List A)
    → p x ≡ false
    → count p (x ∷ xs) ≤ 1
    → count p xs ≤ 1
count-tail p x xs e h = ground arith

rows-tail :
    {A : Type 0} (p : A → Bool) (x : A) (xs : List A) → p x ≡ false → rows p (x ∷ xs) ≡ rows p xs
rows-tail p x xs e = rw e refl

-- One row matches after the text is put, and has it.
rows-put_text :
    (user : ℕ) (status : MessageStatus) (markdown : String) (ts : List StatusText)
    → count (is_text_for user status) ts ≤ 1
    → (t : StatusText) × (rows (is_text_for user status) (put_text user status markdown ts)
        ≡ t ∷ [])
      × (t.markdown ≡ markdown)
rows-put_text user status markdown [] h = (
  record { user_id = user; status = status; markdown = markdown },
  rw (eq_true user, same_status_refl status) refl,
  refl,
)
rows-put_text user status markdown (t ∷ ts) h = elim (Bool-cases (is_text_for user status t)) [
  | inl e ↦ (
    record t { markdown = markdown },
    rw e (
        single user status (record t { markdown = markdown }) ts e
          (count-rows (is_text_for user status) ts (ground arith))),
    refl,
  )
  | inr e ↦
      let (u, r, m) = rows-put_text user status markdown ts (count-tail _ t ts e h) in
      (u, rw e (rows-tail _ t (put_text user status markdown ts) e ∙ r), m)
]

any-other :
    (user u i : ℕ) (ns : List UsernameRow)
    → All (λ (k : UsernameRow). (k.id == i) ≡ false) ns
    → any (λ (n : UsernameRow). n.user_id == u && n.id == i) ns ≡ false
any-other user u i [] h = refl
any-other user u i (n ∷ ns) (h, hs) = rw (h, any-other user u i ns hs) (ground arith)

-- A username has one owner.
pub one_owner :
    (user u i : ℕ) (ns : List UsernameRow)
    → AreKeyed ns
    → any (λ (n : UsernameRow). n.user_id == user && n.id == i) ns ≡ true
    → any (λ (n : UsernameRow). n.user_id == u && n.id == i) ns ≡ (u == user)
one_owner user u i [] k h = cc
one_owner user u i (n ∷ ns) (f, k) h = elim (Bool-cases (n.id == i)) [
  | inr e ↦ ground (arith, one_owner user u i ns k)
  | inl e ↦
      let g : All (λ (m : UsernameRow). (m.id == i) ≡ false) ns =
        rw ((nat_beq_iff n.id i).0 e) at f in
      ground (arith, any-other user user i ns g, any-other user u i ns g)
]

and_comm : (a b : Bool) → (a && b) ≡ (b && a)
and_comm true true = refl
and_comm true false = refl
and_comm false true = refl
and_comm false false = refl

-- The texts that a sender of the owner's message is shown are the owner's for its status.
status_text-owner :
    (user : ℕ) (m : StoredMessage) (box : Mailbox)
    → AreKeyed box.usernames
    → is_own user box.usernames m ≡ true
    → status_text m box ≡ shown m.status (one_or_none (is_text_for user m.status) box.status_texts)
unfolding status_text
status_text-owner user m box k h =
    ap (λ (r : List StatusText). shown m.status (found r)) (rows-cong _ _ eq box.status_texts)
  where
    eq :
        (t : StatusText)
        → (same_status t.status m.status && is_owner box.usernames m t.user_id)
          ≡ is_text_for user m.status t
    eq t =
        rw (one_owner user t.user_id m.username_id box.usernames k h)
          (and_comm (same_status t.status m.status) (t.user_id == user))

shown-upsert_text :
    (user : ℕ) (status : MessageStatus) (markdown : String) (ts : List StatusText)
    → count (is_text_for user status) ts ≤ 1
    → shown status (one_or_none (is_text_for user status) (upsert_text user status markdown ts))
      ≡ some (if markdown == "" then default_text status else markdown)
shown-upsert_text user status markdown ts h = elim (Bool-cases (markdown == "")) [
  | inl e ↦ rw (e, rows-without (is_text_for user status) ts) refl
  | inr e ↦ let (t, r, m) = rows-put_text user status markdown ts h in rw (e, r) (ap some m)
]

upsert-checked :
    {A : Type 0} (b : Bool) (n : ℕ) (x : A)
    → n ≤ 1
    → (if b && leb 2 n then none else some x) ≡ some x
upsert-checked b n x h = ground arith

-- After a user saves an answer for a status, the senders of the user's messages with that status are
-- shown it without the blanks around it, or the default text where it is blank, if the usernames have
-- different ids and the user had at most one answer for the status. Saving it does not fail.
pub status_text-upsert :
    (user : ℕ) (markdown : String) (m : StoredMessage) (box : Mailbox)
    → AreKeyed box.usernames
    → count (is_text_for user m.status) box.status_texts ≤ 1
    → is_own user box.usernames m ≡ true
    → (after : Mailbox) × (upsert user m.status markdown box ≡ some after)
      × (status_text m after
          ≡ some (if strip markdown == "" then default_text m.status else strip markdown))
unfolding upsert
status_text-upsert user markdown m box k c own =
    let after = record box {
      status_texts = upsert_text user m.status (strip markdown) box.status_texts;
    } in
    (
      after,
      upsert-checked (strip markdown == "") _ after c,
      status_text-owner user m after k own
          ∙ shown-upsert_text user m.status (strip markdown) box.status_texts c,
    )
