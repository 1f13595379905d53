-- ===== src/Template/Find.antt =====
-- hushline/safe_template.py: what a search and a slice of a template give.
use hushline.Common.{
  ℕ, suc, ◌≡◌, refl, ap, inl, inr, Option, none, some, [], ◌∷◌, ◌++◌, arith, length, ◌==◌, ◌&&◌,
  true, false, nat_eq, if_cases,
}
use hushline.Template.{Text, take, drop, find, later, begins}

pub drop-append : (p s : Text) → drop (length p) (p ++ s) ≡ s
drop-append [] s = refl
drop-append (c ∷ p) s = drop-append p s

pub drop_two : (p s : Text) (a b : ℕ) → drop (suc (suc (length p))) (p ++ a ∷ b ∷ s) ≡ s
drop_two [] s a b = refl
drop_two (c ∷ p) s a b = drop_two p s a b

pub take-append : (p s : Text) → take (length p) (p ++ s) ≡ p
take-append [] s = refl
take-append (c ∷ p) s = ap (◌∷◌ c) (take-append p s)

later-some : (o : Option ℕ) (n : ℕ) → later o ≡ some n → (m : ℕ) × (o ≡ some m) × (n ≡ suc m)
later-some none n h = cc
later-some (some m) n h = (m, refl, cc h)

later-none : (o : Option ℕ) → later o ≡ none → o ≡ none
later-none none h = refl
later-none (some n) h = cc

-- A marker behind a text that has none, and that does not end in its brace, is found there.
pub find-append :
    (c : ℕ) (p s : Text) → find c (p ++ c ∷ []) ≡ none → find c (p ++ c ∷ c ∷ s) ≡ some (length p)
find-append c [] s h = ground arith
find-append c (a ∷ []) s h = ground arith
find-append c (a ∷ b ∷ p) s h =
    ground (arith, find-append c (b ∷ p) s, later-none (find c ((b ∷ p) ++ c ∷ [])))

begins-append : (c : ℕ) (p s t : Text) → begins c (p ++ c ∷ s) ≡ begins c (p ++ c ∷ t)
begins-append c [] s t = refl
begins-append c (a ∷ p) s t = refl

find-begins :
    (c a : ℕ) (s : Text) → (a == c && begins c s) ≡ true → (rest : Text) × (a ∷ s ≡ c ∷ c ∷ rest)
find-begins c a [] h = ground arith
find-begins c a (b ∷ s) h =
    let e : a ≡ c = ground arith in let f : b ≡ c = ground arith in (s, cc (e, f))

find-cons_none :
    (c a : ℕ) (p s : Text)
    → (a == c && begins c (p ++ c ∷ s)) ≡ false
    → find c (p ++ c ∷ []) ≡ none
    → find c (a ∷ p ++ c ∷ []) ≡ none
find-cons_none c a p s h e = rw (begins-append c p [] s, h, e) refl

-- The first marker splits the text.
pub find_splits :
    (c n : ℕ) (s : Text)
    → find c s ≡ some n
    → (p : Text) × (rest : Text) × (s ≡ p ++ c ∷ c ∷ rest)
      × (n ≡ length p)
      × (find c (p ++ c ∷ []) ≡ none)
find_splits c n [] h = cc
find_splits c n (a ∷ s) h =
    elim (if_cases (a == c && begins c s) (some 0) (later (find c s)) (some n) h) [
      | inl (b, e) ↦ let (rest, q) = find-begins c a s b in ([], rest, q, cc e, (ground arith))
      | inr (b, e) ↦
          let (m, em, en) = later-some (find c s) n e in
          let (p, rest, q, l, f) = find_splits c m s em in
          (a ∷ p, rest, ap (◌∷◌ a) q, cc (en, l), find-cons_none c a p (c ∷ rest) (rw q at b) f)
    ]
