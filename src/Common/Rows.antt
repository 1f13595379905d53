-- ===== src/Common/Rows.antt =====
-- Tables as lists of rows: the queries that the handlers make, and counting.
use Prim.Native.Nat.{ℕ, suc}
use mathlib.Core.Path.{◌≡◌, refl}
use mathlib.Core.Logic.{◌⊎◌, inl, inr}
use mathlib.Core.Bool.{Bool, true, false}
use mathlib.Core.Option.{Option, none, some}
use mathlib.Core.List.{List, [], ◌∷◌, ◌++◌}
use hushline.Common.Tests.{if◌then◌else◌, Bool-cases}

module _ {ℓ} {A : Type ℓ} where
  -- `WHERE p`
  abbrev pub rows : (A → Bool) → List A → List A
  rows p [] = []
  rows p (x ∷ xs) = if p x then x ∷ rows p xs else rows p xs

  -- `next((x for x in xs if p(x)), None)`, and a lookup by primary key
  abbrev pub first : (A → Bool) → List A → Option A
  first p [] = none
  first p (x ∷ xs) = if p x then some x else first p xs

  -- `COUNT(*) WHERE p`
  abbrev pub count : (A → Bool) → List A → ℕ
  count p [] = 0
  count p (x ∷ xs) = if p x then suc (count p xs) else count p xs

  abbrev pub any : (A → Bool) → List A → Bool
  any p [] = false
  any p (x ∷ xs) = if p x then true else any p xs

  abbrev pub all : (A → Bool) → List A → Bool
  all p [] = true
  all p (x ∷ xs) = if p x then all p xs else false

  abbrev pub length : List A → ℕ
  length [] = 0
  length (x ∷ xs) = suc (length xs)

abbrev pub All {ℓ κ} : {A : Type ℓ} → (A → Type κ) → List A → Type κ
All P [] = Unit
All P (x ∷ xs) = P x × All P xs

-- `scalars(select).one_or_none()`: no row, the row, or MultipleResultsFound.
pub data Found {ℓ} (A : Type ℓ) : Type ℓ where
  absent : Found A
  one : A → Found A
  multiple : Found A

abbrev pub found {ℓ} : {A : Type ℓ} → List A → Found A
found [] = absent
found (x ∷ []) = one x
found (x ∷ y ∷ xs) = multiple

abbrev pub one_or_none {ℓ} : {A : Type ℓ} → (A → Bool) → List A → Found A
one_or_none p xs = found (rows p xs)

pub Found-cases {ℓ} :
    {A : Type ℓ} (f : Found A) → (f ≡ absent) ⊎ ((a : A) × (f ≡ one a)) ⊎ (f ≡ multiple)
Found-cases absent = inl refl
Found-cases (one a) = inr (inl (a, refl))
Found-cases multiple = inr (inr refl)

pub All-of {ℓ κ} : {A : Type ℓ} (P : A → Type κ) → ((a : A) → P a) → (xs : List A) → All P xs
All-of P h [] = tt
All-of P h (x ∷ xs) = (h x, All-of P h xs)

pub All-map {ℓ κ ν} :
    {A : Type ℓ} {P : A → Type κ} {Q : A → Type ν}
    → ((x : A) → P x → Q x)
    → (xs : List A) → All P xs
    → All Q xs
All-map f [] h = tt
All-map f (x ∷ xs) (h, hs) = (f x h, All-map f xs hs)

-- What holds of each row holds of the first one selected.
pub rows-first {ℓ κ} :
    {A : Type ℓ} (p : A → Bool) (P : A → Type κ) (xs : List A) {x : A} {ys : List A}
    → rows p xs ≡ x ∷ ys
    → All P xs
    → P x × (p x ≡ true)
rows-first p P [] e h = cc
rows-first p P (y ∷ xs) {x} e (h, hs) = elim (Bool-cases (p y)) [
  | inl b ↦ let q : y ≡ x = cc (rw b at e) in (rw q at h, rw q at b)
  | inr b ↦ rows-first p P xs (rw b at e) hs
]

pub rows-All {ℓ κ} :
    {A : Type ℓ} (P : A → Type κ) (p : A → Bool) (xs : List A) → All P xs → All P (rows p xs)
rows-All P p [] h = tt
rows-All P p (x ∷ xs) (h, hs) = elim (Bool-cases (p x)) [
  | inl e ↦ rw e (h, rows-All P p xs hs)
  | inr e ↦ rw e (rows-All P p xs hs)
]

pub All-append {ℓ κ} :
    {A : Type ℓ} (P : A → Type κ) (xs ys : List A) → All P xs → All P ys → All P (xs ++ ys)
All-append P [] ys h k = k
All-append P (x ∷ xs) ys (h, hs) k = (h, All-append P xs ys hs k)
