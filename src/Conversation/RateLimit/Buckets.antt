-- ===== src/Conversation/RateLimit/Buckets.antt =====
-- One bucket of the rate limit, from one call to the next (hushline/routes/message.py).
use hushline.Common.{
  ℕ, ◌≡◌, refl, ◌⊎◌, inl, inr, ◌≤◌, suc, Bool, true, false, ◌&&◌, ◌||◌, not, List, [], ◌∷◌,
  if◌then◌else◌, nat_eq, leb, ltb, rows, ℤ, pos, negsuc, arith, Bool-cases, nat_beq_iff, if_elim,
  ◌↔◌,
}
use hushline.Conversation.RateLimit.{
  Attempt, Settings, Sender, is_within, recent, is_limited, limited, attempt_of, by_participant,
  in_conversation, by_user, participant_window, conversation_window, user_window, participant_max,
  conversation_max, user_max,
}

-- At a later time a window holds no more of the attempts.
pub recent-later :
    (p : Attempt → Bool) (w now later : ℕ) (xs : List Attempt)
    → now ≤ later
    → recent p w later xs ≤ recent p w now xs
recent-later p w now later [] h = ground arith
recent-later p w now later (a ∷ xs) h = let rest = recent-later p w now later xs h in ground arith

-- Dropping the attempts that are older than every window changes no count.
pub recent-rows :
    (p : Attempt → Bool) (w v now : ℕ) (xs : List Attempt)
    → w ≤ v
    → recent p w now (rows (is_within v now) xs) ≡ recent p w now xs
recent-rows p w v now [] h = refl
recent-rows p w v now (a ∷ xs) h = let rest = recent-rows p w v now xs h in ground arith

-- More attempts than a positive limit allows.
abbrev pub is_over : ℤ → ℕ → Bool
is_over (pos n) c = not (leb n 0) && ltb n c
is_over (negsuc n) c = false

pub over-le : (l : ℤ) (a b : ℕ) → a ≤ b → is_over l b ≡ false → is_over l a ≡ false
over-le (pos n) a b h e = ground arith
over-le (negsuc n) a b h e = refl

pub over-suc : (l : ℤ) (a : ℕ) → is_limited l a ≡ false → is_over l (suc a) ≡ false
over-suc (pos n) a e = ground arith
over-suc (negsuc n) a e = refl

pub added :
    (p : Attempt → Bool) (l : ℤ) (w : ℕ) (c : Sender) (xs : List Attempt)
    → is_over l (recent p w c.now xs) ≡ false
    → (p (attempt_of c) ≡ false) ⊎ (is_limited l (recent p w c.now xs) ≡ false)
    → is_over l (recent p w c.now (attempt_of c ∷ xs)) ≡ false
added p l w c xs b (inl foreign) = rw foreign b
added p l w c xs b (inr below) =
    if_elim (λ k. is_over l k ≡ false) (p (attempt_of c) && is_within w c.now (attempt_of c))
      (over-suc l (recent p w c.now xs) below) b

pub or-false : (a b d : Bool) → (a || (b || d)) ≡ false → (a ≡ false) × (b ≡ false) × (d ≡ false)
or-false true b d e = absurd cc
or-false false true d e = absurd cc
or-false false false d e = (refl, refl, e)

pub or-true : (a b d : Bool) → ((a || (b || d)) ≡ true) ↔ ((a ≡ true) ⊎ (b ≡ true) ⊎ (d ≡ true))
or-true true b d = (λ e. inl refl, λ h. refl)
or-true false true d = (λ e. inr (inl refl), λ h. refl)
or-true false false true = (λ e. inr (inr refl), λ h. refl)
or-true false false false =
    (λ e. inr (inr e), λ h. elim h [ inl e ↦ e | inr (inl e) ↦ e | inr (inr e) ↦ e ])

pub limited-parts :
    (s : Settings) (c : Sender) (xs : List Attempt)
    → limited s c xs ≡ false
    → (is_limited
          (participant_max s)
          (recent (by_participant c.participant c.thread) (participant_window s) c.now xs)
        ≡ false)
      × (is_limited
            (conversation_max s)
            (recent (in_conversation c.thread) (conversation_window s) c.now xs)
          ≡ false)
      × (is_limited (user_max s) (recent (by_user c.user) (user_window s) c.now xs) ≡ false)
limited-parts s c xs e =
    or-false
      (is_limited (participant_max s)
        (recent (by_participant c.participant c.thread) (participant_window s) c.now xs))
      (is_limited (conversation_max s)
        (recent (in_conversation c.thread) (conversation_window s) c.now xs))
      (is_limited (user_max s) (recent (by_user c.user) (user_window s) c.now xs)) e

pub own-participant :
    (s : Settings) (c : Sender) (xs : List Attempt) (q t : ℕ)
    → (limited s c xs ≡ true)
      ⊎ (by_participant q t (attempt_of c) ≡ false)
      ⊎ (is_limited
            (participant_max s)
            (recent (by_participant q t) (participant_window s) c.now xs)
          ≡ false)
own-participant s c xs q t = elim (Bool-cases (limited s c xs)) [
  | inl full ↦ inl full
  | inr free ↦ elim (Bool-cases (by_participant q t (attempt_of c))) [
    | inr foreign ↦ inr (inl foreign)
    | inl own ↦
        let q_is : q ≡ c.participant = ground (arith, nat_beq_iff c.participant q) in
        let t_is : t ≡ c.thread = ground (arith, nat_beq_iff c.thread t) in
        inr (inr (rw (q_is, t_is) (limited-parts s c xs free).0))
  ]
]

pub own-conversation :
    (s : Settings) (c : Sender) (xs : List Attempt) (t : ℕ)
    → (limited s c xs ≡ true)
      ⊎ (in_conversation t (attempt_of c) ≡ false)
      ⊎ (is_limited
            (conversation_max s)
            (recent (in_conversation t) (conversation_window s) c.now xs)
          ≡ false)
own-conversation s c xs t = elim (Bool-cases (limited s c xs)) [
  | inl full ↦ inl full
  | inr free ↦ elim (Bool-cases (in_conversation t (attempt_of c))) [
    | inr foreign ↦ inr (inl foreign)
    | inl own ↦
        let t_is : t ≡ c.thread = ground (arith, nat_beq_iff c.thread t) in
        inr (inr (rw t_is (limited-parts s c xs free).1))
  ]
]

pub own-user :
    (s : Settings) (c : Sender) (xs : List Attempt) (u : ℕ)
    → (limited s c xs ≡ true)
      ⊎ (by_user u (attempt_of c) ≡ false)
      ⊎ (is_limited (user_max s) (recent (by_user u) (user_window s) c.now xs) ≡ false)
own-user s c xs u = elim (Bool-cases (limited s c xs)) [
  | inl full ↦ inl full
  | inr free ↦ elim (Bool-cases (by_user u (attempt_of c))) [
    | inr foreign ↦ inr (inl foreign)
    | inl own ↦
        let u_is : u ≡ c.user = ground (arith, nat_beq_iff c.user u) in
        inr (inr (rw u_is (limited-parts s c xs free).2))
  ]
]

-- One bucket through one call: it is not the sender's, or it was below its limit.
pub bucket-step :
    (p : Attempt → Bool) (l : ℤ) (w v now : ℕ) (c : Sender) (xs : List Attempt) (full : Bool)
    → now ≤ c.now
    → w ≤ v
    → is_over l (recent p w now xs) ≡ false
    → (full ≡ true)
      ⊎ (p (attempt_of c) ≡ false)
      ⊎ (is_limited l (recent p w c.now (rows (is_within v c.now) xs)) ≡ false)
    → let kept = rows (is_within v c.now) xs in
      is_over l (recent p w c.now (if full then kept else attempt_of c ∷ kept)) ≡ false
bucket-step p l w v now c xs full h k b d =
    let kept = rows (is_within v c.now) xs in
    let same = recent-rows p w v c.now xs k in
    let still : is_over l (recent p w c.now kept) ≡ false =
      rw same
        (over-le l (recent p w c.now xs) (recent p w now xs) (recent-later p w now c.now xs h) b) in
    elim (Bool-cases full) [
      | inl t ↦ rw t still
      | inr f ↦ rw f (
          added p l w c kept still (elim d [
            | inl t ↦ absurd cc
            | inr (inl foreign) ↦ inl foreign
            | inr (inr below) ↦ inr below
          ]))
    ]
