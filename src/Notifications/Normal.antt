-- ===== src/Notifications/Normal.antt =====
-- hushline/settings/notifications.py: what the normalisation of the positions keeps and gives.
use hushline.Common.{
  ℕ, suc, ◌≡◌, refl, sym, ap, ◌∙◌, Bool, true, false, some, List, [], ◌∷◌, ◌++◌, if◌then◌else◌,
  ◌==◌, nat_eq, any, all, rows, first, arith, length, Bool-cases, inl, inr, nat_beq_iff,
}
use hushline.Notifications.{Recipient}
use hushline.Notifications.Settings.{insert_recipient, sorted, enumerate, replace}

-- A test that does not read the position.
abbrev pub IgnoresPosition : (Recipient → Bool) → Type 0
IgnoresPosition p = (i : ℕ) (r : Recipient) → p (record r { position = i }) ≡ p r

any-insert_recipient :
    (p : Recipient → Bool) (r : Recipient) (rs : List Recipient)
    → any p (insert_recipient r rs) ≡ any p (r ∷ rs)
any-insert_recipient p r [] = refl
any-insert_recipient p r (s ∷ rs) = ground (arith, any-insert_recipient p r rs)

all-insert_recipient :
    (p : Recipient → Bool) (r : Recipient) (rs : List Recipient)
    → all p (insert_recipient r rs) ≡ all p (r ∷ rs)
all-insert_recipient p r [] = refl
all-insert_recipient p r (s ∷ rs) = ground (arith, all-insert_recipient p r rs)

any-sorted : (p : Recipient → Bool) (rs : List Recipient) → any p (sorted rs) ≡ any p rs
any-sorted p [] = refl
any-sorted p (r ∷ rs) = any-insert_recipient p r (sorted rs) ∙ rw (any-sorted p rs) refl

all-sorted : (p : Recipient → Bool) (rs : List Recipient) → all p (sorted rs) ≡ all p rs
all-sorted p [] = refl
all-sorted p (r ∷ rs) = all-insert_recipient p r (sorted rs) ∙ rw (all-sorted p rs) refl

any-enumerate :
    (p : Recipient → Bool)
    → IgnoresPosition p
    → (i : ℕ) (rs : List Recipient) → any p (enumerate i rs) ≡ any p rs
any-enumerate p h i [] = refl
any-enumerate p h i (r ∷ rs) = rw (h i r, any-enumerate p h (suc i) rs) refl

all-enumerate :
    (p : Recipient → Bool)
    → IgnoresPosition p
    → (i : ℕ) (rs : List Recipient) → all p (enumerate i rs) ≡ all p rs
all-enumerate p h i [] = refl
all-enumerate p h i (r ∷ rs) = rw (h i r, all-enumerate p h (suc i) rs) refl

pub any-normal :
    (p : Recipient → Bool)
    → IgnoresPosition p
    → (rs : List Recipient) → any p (enumerate 0 (sorted rs)) ≡ any p rs
any-normal p h rs = any-enumerate p h 0 (sorted rs) ∙ any-sorted p rs

pub all-normal :
    (p : Recipient → Bool)
    → IgnoresPosition p
    → (rs : List Recipient) → all p (enumerate 0 (sorted rs)) ≡ all p rs
all-normal p h rs = all-enumerate p h 0 (sorted rs) ∙ all-sorted p rs

pub length-enumerate : (i : ℕ) (rs : List Recipient) → length (enumerate i rs) ≡ length rs
length-enumerate i [] = refl
length-enumerate i (r ∷ rs) = omega (arith, length-enumerate (suc i) rs)

length-insert_recipient :
    (r : Recipient) (rs : List Recipient) → length (insert_recipient r rs) ≡ suc (length rs)
length-insert_recipient r [] = refl
length-insert_recipient r (s ∷ rs) = ground (arith, length-insert_recipient r rs)

pub length-sorted : (rs : List Recipient) → length (sorted rs) ≡ length rs
length-sorted [] = refl
length-sorted (r ∷ rs) = omega (arith, length-insert_recipient r (sorted rs), length-sorted rs)

pub all-append :
    (p : Recipient → Bool) (rs : List Recipient) (r : Recipient)
    → all p rs ≡ true
    → p r ≡ true
    → all p (rs ++ r ∷ []) ≡ true
all-append p [] r h k = rw k refl
all-append p (s ∷ rs) r h k = ground (arith, all-append p rs r)

pub all-rows :
    (p q : Recipient → Bool) (rs : List Recipient) → all p rs ≡ true → all p (rows q rs) ≡ true
all-rows p q [] h = refl
all-rows p q (r ∷ rs) h = ground (arith, all-rows p q rs)

-- The row that is found is the one that is replaced.
pub all-replace :
    (p : Recipient → Bool) (i : ℕ) (f : Recipient → Recipient) (rs : List Recipient)
    → all p rs ≡ true
    → ((r : Recipient) → first (λ (s : Recipient). s.id == i) rs ≡ some r → p (f r) ≡ true)
    → all p (replace i f rs) ≡ true
all-replace p i f [] h k = refl
all-replace p i f (r ∷ rs) h k = elim (Bool-cases (r.id == i)) [
  | inl e ↦ rw e (both (k r (rw e refl)) (tail p r rs h))
  | inr e ↦
      rw e (both (start p r rs h) (all-replace p i f rs (tail p r rs h) (λ s q. k s (rw e q))))
]
  where
    both : {b c : Bool} → b ≡ true → c ≡ true → (if b then c else false) ≡ true
    both x y = rw x y

    tail :
        (p : Recipient → Bool) (r : Recipient) (rs : List Recipient)
        → all p (r ∷ rs) ≡ true
        → all p rs ≡ true
    tail p r rs h = ground arith

    start :
        (p : Recipient → Bool) (r : Recipient) (rs : List Recipient)
        → all p (r ∷ rs) ≡ true
        → p r ≡ true
    start p r rs h = ground arith

pub first-id :
    (i : ℕ) (rs : List Recipient) {r : Recipient}
    → first (λ (s : Recipient). s.id == i) rs ≡ some r
    → r.id ≡ i
first-id i [] h = cc
first-id i (s ∷ rs) {r} h = elim (Bool-cases (s.id == i)) [
  | inl e ↦
      let q : s ≡ r = cc (rw e at h) in
      ap (λ (t : Recipient). t.id) (sym q) ∙ (nat_beq_iff s.id i).0 e
  | inr e ↦ first-id i rs (rw e at h)
]
