-- ===== src/UserDeletion/Accounts/Keyed.antt =====
-- hushline/settings/delete_account.py and hushline/admin.py: counting admins in a table with a primary key.
use native.Mathlib.Decide.{ℕ_discrete}
use hushline.Common.{
  ℕ, suc, ◌≤◌, ◌≡◌, ◌≢◌, refl, sym, ap, ◌∙◌, Bool, true, false, ◌&&◌, ◌==◌, nat_eq, nat_beq_iff,
  some, List, [], ◌∷◌, arith, All, Bool-cases, if_cases, inl, inr, any, count,
}
use hushline.Model.User.{User, get_user}
use hushline.Model.User.Table.{IsKeyed}
use hushline.UserDeletion.{without}

abbrev pub has_id : ℕ → User → Bool
has_id i u = u.id == i

pub get_user-id : (i : ℕ) (us : List User) {u : User} → get_user i us ≡ some u → u.id ≡ i
get_user-id i [] e = cc
get_user-id i (v ∷ us) {u} e = elim (if_cases (v.id == i) (some v) (get_user i us) (some u) e) [
  | inl (b, x) ↦ let q : v ≡ u = cc x in ap (λ (w : User). w.id) (sym q) ∙ (nat_beq_iff v.id i).0 b
  | inr (_, x) ↦ get_user-id i us x
]

eq-true : (a b : ℕ) → a ≡ b → (a == b) ≡ true
eq-true a b e = (nat_beq_iff a b).1 e

ne-false : (a b : ℕ) → a ≢ b → (a == b) ≡ false
ne-false a b h = ground arith

without_fresh : (i : ℕ) (us : List User) → All (λ u. u.id ≢ i) us → without (has_id i) us ≡ us
without_fresh i [] h = refl
without_fresh i (u ∷ us) (h, hs) = rw (ne-false u.id i h) (ap (◌∷◌ u) (without_fresh i us hs))

-- At most one admin goes.
pub count-without :
    (i : ℕ) (p : User → Bool) (us : List User)
    → IsKeyed us
    → count p us ≤ suc (count p (without (has_id i) us))
count-without i p [] k = omega arith
count-without i p (u ∷ us) (f, k) = elim (ℕ_discrete u.id i) [
  | yes e ↦ rw (eq-true u.id i e, without_fresh i us (rw e at f)) (ground arith)
  | no n ↦
      let ih : count p us ≤ suc (count p (without (has_id i) us)) = count-without i p us k in
      rw (ne-false u.id i n) (ground arith)
]

pub All-without :
    (R : User → Type 0) (p : User → Bool) (us : List User) → All R us → All R (without p us)
All-without R p [] h = tt
All-without R p (u ∷ us) (h, hs) = elim (Bool-cases (p u)) [
  | inl e ↦ rw e (All-without R p us hs)
  | inr e ↦ rw e (h, All-without R p us hs)
]

pub without-IsKeyed : (p : User → Bool) (us : List User) → IsKeyed us → IsKeyed (without p us)
without-IsKeyed p [] k = tt
without-IsKeyed p (u ∷ us) (f, k) = elim (Bool-cases (p u)) [
  | inl e ↦ rw e (without-IsKeyed p us k)
  | inr e ↦ rw e (All-without (λ v. v.id ≢ u.id) p us f, without-IsKeyed p us k)
]

pub any-count : (p : User → Bool) (us : List User) → any p us ≡ true → 1 ≤ count p us
any-count p [] h = cc
any-count p (u ∷ us) h = ground (arith, any-count p us)

pub count-any : (p : User → Bool) (us : List User) → 1 ≤ count p us → any p us ≡ true
count-any p [] h = absurd (omega arith)
count-any p (u ∷ us) h = ground (arith, count-any p us)

any-fresh :
    (i : ℕ) (p : User → Bool) (us : List User)
    → All (λ u. u.id ≢ i) us
    → any (λ u. has_id i u && p u) us ≡ false
any-fresh i p [] h = refl
any-fresh i p (u ∷ us) (h, hs) = rw (ne-false u.id i h) (any-fresh i p us hs)

-- What the row with an id does not satisfy, no row with that id does.
pub any-has_id :
    (i : ℕ) (p : User → Bool) (us : List User) {u : User}
    → IsKeyed us
    → get_user i us ≡ some u
    → p u ≡ false
    → any (λ v. has_id i v && p v) us ≡ false
any-has_id i p [] k e h = refl
any-has_id i p (v ∷ us) {u} (f, k) e h =
    elim (if_cases (v.id == i) (some v) (get_user i us) (some u) e) [
      | inl (b, x) ↦
          let same : v ≡ u = cc x in
          let q : p v ≡ false = rw same h in
          rw (b, q) (any-fresh i p us (rw ((nat_beq_iff v.id i).0 b) at f))
      | inr (b, x) ↦ rw b (any-has_id i p us k x h)
    ]

-- A row that another id finds is kept.
pub any-other :
    (i j : ℕ) (p : User → Bool) (us : List User) {u : User}
    → i ≢ j
    → get_user j us ≡ some u
    → p u ≡ true
    → any p (without (has_id i) us) ≡ true
any-other i j p [] n e h = cc
any-other i j p (v ∷ us) {u} n e h =
    elim (if_cases (v.id == j) (some v) (get_user j us) (some u) e) [
      | inl (b, x) ↦
          let same : v ≡ u = cc x in
          let q : p v ≡ true = rw same h in
          let d : v.id ≡ j = (nat_beq_iff v.id j).0 b in
          rw (ne-false v.id i (λ z. n (sym z ∙ d)), q) refl
      | inr (b, x) ↦ elim (Bool-cases (v.id == i)) [
        | inl c ↦ rw c (any-other i j p us n x h)
        | inr c ↦ rw c (ground (arith, any-other i j p us n x h))
      ]
    ]
