-- ===== src/Model/User/Table.antt =====
-- Writing a row back to `users`: what stays, and what holds of each row before and after.
use hushline.Common.{
  ℕ, ℕ, ◌≡◌, ◌∙◌, sym, ap, some, ◌≢◌, refl, Bool, true, inl, inr, List, [], ◌∷◌, arith, Bool-cases,
  All, All-of, rows, one, found, one_or_none,
}
use native.Mathlib.Decide.{ℕ_discrete}
use hushline.Model.User.{User, put_user, get_user}

-- The primary key: no two rows share an id.
abbrev pub IsKeyed : List User → Type 0
IsKeyed [] = Unit
IsKeyed (u ∷ us) = All (λ v. v.id ≢ u.id) us × IsKeyed us

-- `R` holds between each row of a table and the same row of another.
abbrev pub All₂ : (User → User → Type 0) → List User → List User → Type 0
All₂ R [] [] = Unit
All₂ R [] (v ∷ vs) = ⊥
All₂ R (u ∷ us) [] = ⊥
All₂ R (u ∷ us) (v ∷ vs) = R u v × All₂ R us vs

pub All₂-refl : (R : User → User → Type 0) → ((u : User) → R u u) → (us : List User) → All₂ R us us
All₂-refl R same [] = tt
All₂-refl R same (u ∷ us) = (same u, All₂-refl R same us)

pub put_user-fresh : (v : User) (us : List User) → All (λ u. u.id ≢ v.id) us → put_user v us ≡ us
put_user-fresh v [] h = refl
put_user-fresh v (u ∷ us) h = ground (arith, put_user-fresh v us h.1)

found_head : (x u : User) (r : List User) → found (x ∷ r) ≡ one u → (x ≡ u) × (r ≡ [])
found_head x u [] h = (cc, refl)
found_head x u (y ∷ r) h = cc

put_user-cons_eq :
    (v x : User) (xs : List User) → x.id ≡ v.id → put_user v (x ∷ xs) ≡ v ∷ put_user v xs
put_user-cons_eq v x xs h = ground arith

put_user-cons_ne :
    (v x : User) (xs : List User) → x.id ≢ v.id → put_user v (x ∷ xs) ≡ x ∷ put_user v xs
put_user-cons_ne v x xs h = ground arith

-- The row that a query finds satisfies it, and what all rows satisfy.
pub one_or_none-one :
    (Q : User → Type 0) (p : User → Bool) (u : User) (us : List User)
    → one_or_none p us ≡ one u
    → All Q us
    → (p u ≡ true) × Q u
one_or_none-one Q p u [] e h = cc
one_or_none-one Q p u (x ∷ xs) e h = elim (Bool-cases (p x)) [
  | inl t ↦
      let (same, _) = found_head x u (rows p xs) (rw t at e) in (rw (← same) t, rw (← same) h.0)
  | inr f ↦ one_or_none-one Q p u xs (rw f at e) h.1
]

pub one_or_none-holds :
    (p : User → Bool) (u : User) (us : List User) → one_or_none p us ≡ one u → p u ≡ true
one_or_none-holds p u us e = (one_or_none-one (λ _. Unit {0}) p u us e (All-of _ (λ _. tt) us)).0

-- Writing back the one row that a query found changes that row and no other.
pub put_user-one :
    (R : User → User → Type 0) (p : User → Bool) (u v : User) (us : List User)
    → ((w : User) → R w w)
    → IsKeyed us
    → one_or_none p us ≡ one u
    → v.id ≡ u.id
    → R u v
    → All₂ R us (put_user v us)
put_user-one R p u v [] same k e i r = cc
put_user-one R p u v (x ∷ xs) same k e i r = elim (Bool-cases (p x)) [
  | inl t ↦
      let (x_is, _) = found_head x u (rows p xs) (rw t at e) in
      let fresh : All (λ w. w.id ≢ v.id) xs = rw (i, ← x_is) k.0 in
      rw (put_user-cons_eq v x xs (rw (x_is, i)), put_user-fresh v xs fresh)
        (rw x_is r, All₂-refl R same xs)
  | inr f ↦
      let e' : one_or_none p xs ≡ one u = rw f at e in
      let apart : u.id ≢ x.id = (one_or_none-one (λ w. w.id ≢ x.id) p u xs e' k.0).1 in
      rw (put_user-cons_ne v x xs (λ same_id. apart (cc)))
        (same x, put_user-one R p u v xs same k.1 e' i r)
]

-- Rows that keep their ids keep the primary key.
All-of-All₂ :
    (R : User → User → Type 0) (a : ℕ) (us vs : List User)
    → ((u v : User) → R u v → v.id ≡ u.id)
    → All₂ R us vs
    → All (λ u. u.id ≢ a) us
    → All (λ v. v.id ≢ a) vs
All-of-All₂ R a [] [] ids h k = tt
All-of-All₂ R a (u ∷ us) (v ∷ vs) ids (r, h) (n, k) =
    (λ e. n (cc (ids u v r)), All-of-All₂ R a us vs ids h k)
All-of-All₂ R a [] (v ∷ vs) ids h k = absurd h
All-of-All₂ R a (u ∷ us) [] ids h k = absurd h

pub All₂-IsKeyed :
    (R : User → User → Type 0) (us vs : List User)
    → ((u v : User) → R u v → v.id ≡ u.id)
    → All₂ R us vs
    → IsKeyed us
    → IsKeyed vs
All₂-IsKeyed R [] [] ids h k = tt
All₂-IsKeyed R (u ∷ us) (v ∷ vs) ids (r, h) (n, k) =
    (rw (ids u v r) (All-of-All₂ R u.id us vs ids h n), All₂-IsKeyed R us vs ids h k)
All₂-IsKeyed R [] (v ∷ vs) ids h k = absurd h
All₂-IsKeyed R (u ∷ us) [] ids h k = absurd h

-- A relation that composes, over tables.
pub All₂-trans :
    (R : User → User → Type 0) (us vs ws : List User)
    → ((u v w : User) → R u v → R v w → R u w)
    → All₂ R us vs
    → All₂ R vs ws
    → All₂ R us ws
All₂-trans R [] [] [] t h k = tt
All₂-trans R (u ∷ us) (v ∷ vs) (w ∷ ws) t (a, h) (b, k) = (t u v w a b, All₂-trans R us vs ws t h k)
All₂-trans R [] (v ∷ vs) ws t h k = absurd h
All₂-trans R (u ∷ us) [] ws t h k = absurd h
All₂-trans R [] [] (w ∷ ws) t h k = absurd k
All₂-trans R (u ∷ us) (v ∷ vs) [] t h k = absurd k

get_user-cons_eq : (i : ℕ) (u : User) (us : List User) → u.id ≡ i → get_user i (u ∷ us) ≡ some u
get_user-cons_eq i u us h = ground arith

get_user-cons_ne :
    (i : ℕ) (u : User) (us : List User) → u.id ≢ i → get_user i (u ∷ us) ≡ get_user i us
get_user-cons_ne i u us h = ground arith

-- The row that was found is read back as it was written.
pub get_user-put_user :
    (p : User → Bool) (u v : User) (us : List User)
    → one_or_none p us ≡ one u
    → v.id ≡ u.id
    → get_user u.id (put_user v us) ≡ some v
get_user-put_user p u v [] e i = cc
get_user-put_user p u v (x ∷ xs) e i = elim (ℕ_discrete x.id v.id) [
  | yes same ↦ rw (put_user-cons_eq v x xs same) (get_user-cons_eq u.id v _ i)
  | no other ↦
      rw (put_user-cons_ne v x xs other, get_user-cons_ne u.id x _ (λ s. other (s ∙ sym i)))
        (elim (Bool-cases (p x)) [
          | inl t ↦
              absurd
                (other (ap (λ (w : User). w.id) (found_head x u (rows p xs) (rw t at e)).0 ∙ sym i))
          | inr f ↦ get_user-put_user p u v xs (rw f at e) i
        ])
]

-- A write to one row leaves the others.
pub get_user-put_user_ne :
    (i : ℕ) (v : User) (us : List User) → v.id ≢ i → get_user i (put_user v us) ≡ get_user i us
get_user-put_user_ne i v [] h = refl
get_user-put_user_ne i v (x ∷ xs) h = ground (arith, get_user-put_user_ne i v xs h)
