-- ===== src/Inbox/Others.antt =====
-- Rows of hushline/routes/message.py's tables that a DELETE or an UPDATE of other rows leaves.
use hushline.Common.{
  rows-All, not, rows-first, All-map, ℕ, ◌≡◌, refl, ap, Bool, true, false, Option, none, some, List,
  [], ◌∷◌, String, if◌then◌else◌, ◌==◌, nat_eq, string_eq, arith, rows, All, Bool-cases, option_eq,
  inl, inr,
}
use hushline.UserDeletion.{UsernameRow, without}
use hushline.Inbox.{MessageStatus, StatusText, StoredMessage, is_own, with_status, update_rows}
use hushline.Inbox.Replies.{is_text_for, put_text}
use hushline.Inbox.Posts.{HaveIds}

clash : (m d n : StoredMessage) → m ≡ d → (n.id == m.id) ≡ false → (n.id == d.id) ≡ true → n ≡ d
clash m d n q h t = absurd (ground (arith, ap (λ (k : StoredMessage). k.id) q))

-- The row that is found is the only one with its id.
pub only :
    (p : StoredMessage → Bool) (ms : List StoredMessage) {d : StoredMessage}
    → HaveIds ms
    → rows p ms ≡ d ∷ []
    → All (λ (m : StoredMessage). (m.id == d.id) ≡ true → m ≡ d) ms
only p [] k e = tt
only p (m ∷ ms) {d} (f, k) e = elim (Bool-cases (p m)) [
  | inl b ↦
      let q : m ≡ d = cc (rw b at e) in
      (
        λ _. q,
        All-map {P = λ (n : StoredMessage). (n.id == m.id) ≡ false}
            {Q = λ (n : StoredMessage). (n.id == d.id) ≡ true → n ≡ d} (λ n h t. clash m d n q h t)
            ms f,
      )
  | inr b ↦
      let r : rows p ms ≡ d ∷ [] = rw b at e in
      let (g, _) = rows-first p (λ (n : StoredMessage). (n.id == m.id) ≡ false) ms r f in
      (λ t. absurd (ground arith), only p ms k r)
]

pub rows-without_some :
    {A : Type 0} (p q : A → Bool) (xs : List A)
    → All (λ x. p x ≡ true → q x ≡ false) xs
    → rows q (without p xs) ≡ rows q xs
rows-without_some p q [] h = refl
rows-without_some p q (x ∷ xs) (h, hs) = elim (Bool-cases (p x)) [
  | inl e ↦ rw (e, h e) (rows-without_some p q xs hs)
  | inr e ↦ elim (Bool-cases (q x)) [
    | inl f ↦ rw (e, f) (ap (λ ys. x ∷ ys) (rows-without_some p q xs hs))
    | inr f ↦ rw (e, f) (rows-without_some p q xs hs)
  ]
]

pub All-rows :
    {A : Type 0} (P : A → Type 0) (q : A → Bool) (xs : List A)
    → All P xs
    → All (λ x. P x × (q x ≡ true)) (rows q xs)
All-rows P q [] h = tt
All-rows P q (x ∷ xs) (h, hs) = elim (Bool-cases (q x)) [
  | inl e ↦ rw e ((h, e), All-rows P q xs hs)
  | inr e ↦ rw e (All-rows P q xs hs)
]

pub without-HaveIds :
    (p : StoredMessage → Bool) (ms : List StoredMessage) → HaveIds ms → HaveIds (without p ms)
without-HaveIds p [] k = tt
without-HaveIds p (m ∷ ms) (f, k) = elim (Bool-cases (p m)) [
  | inl e ↦ rw e (without-HaveIds p ms k)
  | inr e ↦ rw e (
    rows-All (λ (n : StoredMessage). (n.id == m.id) ≡ false) (λ n. not (p n)) ms f,
    without-HaveIds p ms k,
  )
]

updated :
    (p : StoredMessage → Bool) (now : ℕ) (status : MessageStatus) (m : StoredMessage)
    → (if p m then with_status now status m else m).id ≡ m.id
updated p now status m = elim (Bool-cases (p m)) [ inl e ↦ rw e refl | inr e ↦ rw e refl ]

update_rows-All :
    (p : StoredMessage → Bool) (now : ℕ) (status : MessageStatus) (i : ℕ) (ms : List StoredMessage)
    → All (λ (n : StoredMessage). (n.id == i) ≡ false) ms
    → All (λ (n : StoredMessage). (n.id == i) ≡ false) (update_rows p now status ms)
update_rows-All p now status i [] h = tt
update_rows-All p now status i (m ∷ ms) (h, hs) =
    (rw (updated p now status m) h, update_rows-All p now status i ms hs)

pub update_rows-HaveIds :
    (p : StoredMessage → Bool) (now : ℕ) (status : MessageStatus) (ms : List StoredMessage)
    → HaveIds ms
    → HaveIds (update_rows p now status ms)
update_rows-HaveIds p now status [] k = tt
update_rows-HaveIds p now status (m ∷ ms) (f, k) = (
  rw (updated p now status m) (update_rows-All p now status m.id ms f),
  update_rows-HaveIds p now status ms k,
)

pub update_rows-other :
    (u : ℕ) (names : List UsernameRow) (p : StoredMessage → Bool) (now : ℕ) (status : MessageStatus)
    (ms : List StoredMessage)
    → ((m : StoredMessage) → p m ≡ true → is_own u names m ≡ false)
    → rows (is_own u names) (update_rows p now status ms) ≡ rows (is_own u names) ms
update_rows-other u names p now status [] h = refl
update_rows-other u names p now status (m ∷ ms) h = elim (Bool-cases (p m)) [
  | inl e ↦ rw (e, h m e) (update_rows-other u names p now status ms h)
  | inr e ↦ rw (e, update_rows-other u names p now status ms h) refl
]

pub put_text-other :
    (u a : ℕ) (status : MessageStatus) (markdown : String) (ts : List StatusText)
    → (a == u) ≡ false
    → rows (λ (t : StatusText). t.user_id == u) (put_text a status markdown ts)
      ≡ rows (λ (t : StatusText). t.user_id == u) ts
put_text-other u a status markdown [] h = rw h refl
put_text-other u a status markdown (t ∷ ts) h = elim (Bool-cases (is_text_for a status t)) [
  | inl e ↦ let f : (t.user_id == u) ≡ false = ground arith in rw (e, f) refl
  | inr e ↦ rw (e, put_text-other u a status markdown ts h) refl
]

pub other_value :
    (i j : ℕ) (k : Option ℕ) → (i == j) ≡ false → (k == some j) ≡ true → (k == some i) ≡ false
other_value i j none h e = cc
other_value i j (some k) h e = ground arith
