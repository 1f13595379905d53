-- ===== src/UserDeletion/Foreign.antt =====
-- hushline/user_deletion.py: which rows refer to which after a DELETE.
use hushline.Common.{
  ◌≡◌, refl, ap, Bool, true, false, ◌&&◌, ◌||◌, List, [], ◌∷◌, arith, Bool-cases, inl, inr, any,
}
use hushline.UserDeletion.{without}

module _ {ℓ} {A : Type ℓ} where
  pub any-without_self : (p : A → Bool) (xs : List A) → any p (without p xs) ≡ false
  any-without_self p [] = refl
  any-without_self p (x ∷ xs) = elim (Bool-cases (p x)) [
    | inl h ↦ rw h (any-without_self p xs)
    | inr h ↦ rw (h, h) (any-without_self p xs)
  ]

  -- What no row satisfies, no row that satisfies more does.
  pub any-weaken :
      (p q : A → Bool)
      → ((x : A) → p x ≡ true → q x ≡ true)
      → (xs : List A) → any q xs ≡ false
      → any p xs ≡ false
  any-weaken p q h [] e = refl
  any-weaken p q h (x ∷ xs) e = ground (arith, h x, any-weaken p q h xs)

  pub without-without :
      (p q : A → Bool) (xs : List A) → without q (without p xs) ≡ without (λ x. p x || q x) xs
  without-without p q [] = refl
  without-without p q (x ∷ xs) = elim (Bool-cases (p x)) [
    | inl h ↦ rw h (without-without p q xs)
    | inr h ↦ elim (Bool-cases (q x)) [
      | inl k ↦ rw (h, k) (without-without p q xs)
      | inr k ↦ rw (h, k) (ap (◌∷◌ x) (without-without p q xs))
    ]
  ]

  pub without_idem : (p : A → Bool) (xs : List A) → without p (without p xs) ≡ without p xs
  without_idem p [] = refl
  without_idem p (x ∷ xs) = elim (Bool-cases (p x)) [
    | inl h ↦ rw h (without_idem p xs)
    | inr h ↦ rw (h, h) (ap (◌∷◌ x) (without_idem p xs))
  ]

  -- A row that is found and is none of the deleted is still found.
  pub any-without :
      (p q : A → Bool) (xs : List A)
      → any q xs ≡ true
      → any (λ x. p x && q x) xs ≡ false
      → any q (without p xs) ≡ true
  any-without p q [] h n = h
  any-without p q (x ∷ xs) h n = ground (arith, any-without p q xs)
