-- ===== src/Template/Turns.antt =====
-- hushline/safe_template.py: what one turn of the loop of safe_render_template does with the template.
use hushline.Common.{
  ℕ, suc, ◌+◌, ◌-◌, ◌<◌, ◌≡◌, refl, sym, ap, ◌∙◌, Option, none, some, [], ◌∷◌, ◌++◌, arith, length,
  ◌⊎◌, inl, inr,
}
use mathlib.Core.List.{append_assoc, append-nil}
use hushline.Template.Find.{take-append, drop_two, find_splits}
use hushline.Template.{
  Text, Variables, rendered, Turn, stop, next, take, slice, strip, find, lookup, or_empty,
  substitute, close_variable, plain_text, open_variable, turn,
}

-- What is between two markers.
split_between :
    (p q r s : Text) (a b c d : ℕ)
    → p ++ a ∷ b ∷ r ≡ q ++ c ∷ d ∷ s
    → (length q < suc (suc (length p))) ⊎ ((name : Text) × (q ≡ p ++ a ∷ b ∷ name))
split_between [] [] r s a b c d e = inl (omega arith)
split_between [] (x ∷ []) r s a b c d e = inl (omega arith)
split_between [] (x ∷ y ∷ q) r s a b c d e = inr (q, cc e)
split_between (x ∷ p) [] r s a b c d e = inl (omega arith)
split_between (x ∷ p) (y ∷ q) r s a b c d e = elim (split_between p q r s a b c d (cc e)) [
  | inl h ↦ inl (omega arith)
  | inr (name, h) ↦ inr (name, cc (e, h))
]

pub length-append : (p s : Text) → length (p ++ s) ≡ length p + length s
length-append [] s = omega arith
length-append (c ∷ p) s = omega (arith, length-append p s)

pub slice_between :
    (p name s : Text) (a b : ℕ)
    → slice (suc (suc (length p))) (length (p ++ a ∷ b ∷ name)) ((p ++ a ∷ b ∷ name) ++ s) ≡ name
slice_between p name s a b =
    let e : length (p ++ a ∷ b ∷ name) - suc (suc (length p)) ≡ length name =
      omega (arith, length-append p (a ∷ b ∷ name)) in
    rw (append_assoc, drop_two, e, take-append) refl

slice_backwards : (i j : ℕ) (s : Text) → j < suc (suc i) → slice (suc (suc i)) j s ≡ []
slice_backwards i j s h = let e : j - suc (suc i) ≡ 0 = omega arith in rw e refl

-- Turns of the loop that the language explains.
abbrev pub Explains : Variables → Text → Text → Turn → Type 0
Explains vars s acc (stop (rendered r)) =
    (find b'{' s ≡ none) × (find b'}' s ≡ none) × (r ≡ acc ++ s)
Explains vars s acc (stop _) = Unit
Explains vars s acc (next rest acc') =
    (before : Text) × (name : Text) × (value : Option Text) × (s
      ≡ (before ++ b'{' ∷ b'{' ∷ name) ++ b'}' ∷ b'}' ∷ rest)
    × (acc' ≡ acc ++ before ++ or_empty value)
    × (find b'{' (before ++ b'{' ∷ []) ≡ none)
    × (find b'}' ((before ++ b'{' ∷ b'{' ∷ name) ++ b'}' ∷ []) ≡ none)
    × (lookup (strip name) vars ≡ some value)

module _ (vars : Variables) where
  substitute-Explains :
      (before name rest acc : Text) (v : Option (Option Text))
      → find b'{' (before ++ b'{' ∷ []) ≡ none
      → find b'}' ((before ++ b'{' ∷ b'{' ∷ name) ++ b'}' ∷ []) ≡ none
      → lookup (strip name) vars ≡ v
      → Explains vars
          ((before ++ b'{' ∷ b'{' ∷ name) ++ b'}' ∷ b'}' ∷ rest)
          acc
          (substitute rest (acc ++ before) (strip name) v)
  substitute-Explains before name rest acc none f g e = tt
  substitute-Explains before name rest acc (some v) f g e = (before, name, v, refl, refl, f, g, e)

  close_inside :
      (before name rest acc : Text)
      → find b'{' (before ++ b'{' ∷ []) ≡ none
      → find b'}' ((before ++ b'{' ∷ b'{' ∷ name) ++ b'}' ∷ []) ≡ none
      → let s = (before ++ b'{' ∷ b'{' ∷ name) ++ b'}' ∷ b'}' ∷ rest in
        Explains vars s acc (
          close_variable vars s
            (acc ++ take (length before) s)
            (length before)
            (some (length (before ++ b'{' ∷ b'{' ∷ name))))
  close_inside before name rest acc f g =
      let t = b'{' ∷ b'{' ∷ name in
      let e : take (length before) ((before ++ t) ++ b'}' ∷ b'}' ∷ rest) ≡ before =
        ap (take (length before)) (append_assoc before t _) ∙ take-append before _ in
      rw
        (
          e,
          slice_between before name (b'}' ∷ b'}' ∷ rest) b'{' b'{',
          drop_two (before ++ t) rest b'}' b'}',
        )
        (substitute-Explains before name rest acc (lookup (strip name) vars) f g refl)

  close_backwards :
      (s acc : Text) (i j : ℕ)
      → lookup [] vars ≡ none
      → j < suc (suc i)
      → Explains vars s acc (close_variable vars s (acc ++ take i s) i (some j))
  close_backwards s acc i j unnamed h = rw (slice_backwards i j s h, unnamed) tt

  close-Explains :
      (s acc : Text) (i j : ℕ)
      → lookup [] vars ≡ none
      → find b'{' s ≡ some i
      → find b'}' s ≡ some j
      → Explains vars s acc (close_variable vars s (acc ++ take i s) i (some j))
  close-Explains s acc i j unnamed ei ej =
      let (p, r, ep, li, fp) = find_splits b'{' i s ei in
      let (q, t, eq, lj, fq) = find_splits b'}' j s ej in
      elim (split_between p q r t b'{' b'{' b'}' b'}' (sym ep ∙ eq)) [
        | inl h ↦ close_backwards s acc i j unnamed (omega arith)
        | inr (name, e) ↦ rw (lj, li, eq, e) (close_inside p name t acc fp (rw e at fq))
      ]

  close_variable-Explains :
      (s acc : Text) (i : ℕ) (o : Option ℕ)
      → lookup [] vars ≡ none
      → find b'{' s ≡ some i
      → find b'}' s ≡ o
      → Explains vars s acc (close_variable vars s (acc ++ take i s) i o)
  close_variable-Explains s acc i none unnamed ei ej = tt
  close_variable-Explains s acc i (some j) unnamed ei ej = close-Explains s acc i j unnamed ei ej

  plain_text-Explains :
      (s acc : Text) (o : Option ℕ)
      → find b'{' s ≡ none
      → find b'}' s ≡ o
      → Explains vars s acc (plain_text s acc o)
  plain_text-Explains s acc none f g = (f, g, refl)
  plain_text-Explains s acc (some j) f g = tt

  open_variable-Explains :
      (s acc : Text) (o : Option ℕ)
      → lookup [] vars ≡ none
      → find b'{' s ≡ o
      → Explains vars s acc (open_variable vars s acc o)
  open_variable-Explains s acc none unnamed f = plain_text-Explains s acc (find b'}' s) f refl
  open_variable-Explains s acc (some i) unnamed f =
      close_variable-Explains s acc i (find b'}' s) unnamed f refl

  pub turn-Explains : (s acc : Text) → lookup [] vars ≡ none → Explains vars s acc (turn vars s acc)
  unfolding turn
  turn-Explains [] acc unnamed = (refl, refl, sym (append-nil acc))
  turn-Explains (c ∷ s) acc unnamed =
      open_variable-Explains (c ∷ s) acc (find b'{' (c ∷ s)) unnamed refl
