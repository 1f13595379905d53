-- ===== src/Auth/Recovery/Attempts.antt =====
-- How many recent attempts there are (`_password_reset_rate_limited` in hushline/routes/auth.py).
use hushline.Common.{
  ℕ, zero, suc, ℤ, pos, negsuc, List, [], ◌≤◌, ◌+◌, ◌*◌, ◌&&◌, leb, string_eq, option_eq, ◌≡◌, refl,
  ◌⊎◌, inl, inr, ◌↔◌, Bool, true, false, ◌||◌, ◌∷◌, arith, Bool-cases, count,
}
use hushline.Auth.Store.{ResetAttempt}
use hushline.Auth.Recovery.{minute, is_in_window, reaches}

-- At least so many of the rows have the property.
abbrev pub AtLeast : (ResetAttempt → Type 0) → ℕ → List ResetAttempt → Type 0
AtLeast P zero xs = Unit
AtLeast P (suc n) [] = ⊥
AtLeast P (suc n) (a ∷ xs) = (P a × AtLeast P n xs) ⊎ AtLeast P (suc n) xs

-- A limit that is zero or less is always reached.
abbrev pub IsReached : (ResetAttempt → Type 0) → ℤ → List ResetAttempt → Type 0
IsReached P (pos n) xs = AtLeast P n xs
IsReached P (negsuc n) xs = Unit

-- Made no more than so many minutes before now; for a negative number that is after now.
abbrev pub IsRecent : ℤ → ℕ → ResetAttempt → Type 0
IsRecent (pos w) now a = now ≤ a.created_at + w * minute
IsRecent (negsuc w) now a = now + suc w * minute ≤ a.created_at

weaker : (n c : ℕ) → leb (suc n) c ≡ true → leb n c ≡ true
weaker n c e = ground arith

step_iff : (n c : ℕ) → (leb (suc n) (suc c) ≡ true) ↔ (leb n c ≡ true)
step_iff n c = (λ e. ground (arith, e), λ e. ground (arith, e))

enough_iff :
    (P : ResetAttempt → Type 0) (p : ResetAttempt → Bool)
    → ((a : ResetAttempt) → (p a ≡ true) ↔ P a)
    → (n : ℕ) (xs : List ResetAttempt) → (leb n (count p xs) ≡ true) ↔ AtLeast P n xs
enough_iff P p h zero xs = (λ e. tt, λ e. ground arith)
enough_iff P p h (suc n) [] = (λ e. absurd (ground arith), λ f. absurd f)
enough_iff P p h (suc n) (a ∷ xs) =
    let fewer = enough_iff P p h n xs in
    let same = enough_iff P p h (suc n) xs in
    elim (Bool-cases (p a)) [
      | inl is ↦ (
        λ e. inl ((h a).0 is, fewer.0 ((step_iff n (count p xs)).0 (rw is at e))),
        λ f. rw is (elim f [
          | inl x ↦ (step_iff n (count p xs)).1 (fewer.1 x.1)
          | inr x ↦ (step_iff n (count p xs)).1 (weaker n _ (same.1 x))
        ]),
      )
      | inr isnt ↦ (
        λ e. inr (same.0 (rw isnt at e)),
        λ f. rw isnt (elim f [ inl x ↦ absurd (cc ((h a).1 x.0)) | inr x ↦ same.1 x ]),
      )
    ]

pub full_iff :
    (P : ResetAttempt → Type 0) (p : ResetAttempt → Bool)
    → ((a : ResetAttempt) → (p a ≡ true) ↔ P a)
    → (n : ℤ) (xs : List ResetAttempt) → (reaches n (count p xs) ≡ true) ↔ IsReached P n xs
full_iff P p h (pos n) xs = enough_iff P p h n xs
full_iff P p h (negsuc n) xs = (λ e. tt, λ e. refl)

pub in_time_iff :
    (w : ℤ) (now : ℕ) (a : ResetAttempt) → (is_in_window w now a ≡ true) ↔ IsRecent w now a
in_time_iff (pos w) now a = (λ e. ground (arith, e), λ e. ground (arith, e))
in_time_iff (negsuc w) now a = (λ e. ground (arith, e), λ e. ground (arith, e))

pub and_iff :
    {P Q : Type 0} (a b : Bool) → (a ≡ true) ↔ P → (b ≡ true) ↔ Q → ((a && b) ≡ true) ↔ (P × Q)
and_iff a b f g = (λ e. (f.0 (ground arith), g.0 (ground arith)), λ h. rw (f.1 h.0, g.1 h.1) refl)

pub or_iff : (a b : Bool) → ((a || b) ≡ true) ↔ ((a ≡ true) ⊎ (b ≡ true))
or_iff true b = (λ e. inl refl, λ h. refl)
or_iff false b = (λ e. inr e, λ h. elim h [ inl e ↦ absurd cc | inr e ↦ e ])
