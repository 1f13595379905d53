-- ===== src/Template/Total.antt =====
-- hushline/safe_template.py: the `while` of safe_render_template ends, since each turn that goes on
-- takes at least a pair of closing braces from the template.
use hushline.Common.{
  ℕ, zero, suc, ◌≤◌, ◌<◌, ◌≡◌, ◌≢◌, refl, Option, none, some, [], ◌∷◌, ◌++◌, arith, length, ◌⊎◌,
  inl, inr,
}
use hushline.Template.{
  Text, Variables, Rendered, rendered, template_error, invalid_syntax, out_of_fuel, TemplateError,
  Turn, stop, next, take, drop, slice, strip, find, lookup, substitute, close_variable, plain_text,
  open_variable, turn, render_loop, render_checked, invalid_name, safe_render_template,
}

-- A turn that goes on has a shorter template left, and one that stops has a result.
abbrev Shortens : ℕ → Turn → Type 0
Shortens n (stop r) = r ≢ out_of_fuel
Shortens n (next rest out) = length rest < n

length-drop : (n : ℕ) (s : Text) → length (drop n s) ≤ length s
length-drop zero s = omega arith
length-drop (suc n) [] = omega arith
length-drop (suc n) (c ∷ s) = omega (arith, length-drop n s)

length-drop_cons : (n c : ℕ) (s : Text) → length (drop (suc n) (c ∷ s)) < length (c ∷ s)
length-drop_cons n c s = omega (arith, length-drop n s)

substitute-Shortens :
    (n : ℕ) (rest out name : Text) (v : Option (Option Text))
    → length rest < n
    → Shortens n (substitute rest out name v)
substitute-Shortens n rest out name none h = cc
substitute-Shortens n rest out name (some v) h = h

close_variable-Shortens :
    (vars : Variables) (c : ℕ) (s out : Text) (i : ℕ) (j : Option ℕ)
    → Shortens (length (c ∷ s)) (close_variable vars (c ∷ s) out i j)
close_variable-Shortens vars c s out i none = cc
close_variable-Shortens vars c s out i (some j) =
    substitute-Shortens (length (c ∷ s)) (drop (suc (suc j)) (c ∷ s)) out
      (strip (slice (suc (suc i)) j (c ∷ s))) (lookup (strip (slice (suc (suc i)) j (c ∷ s))) vars)
      (length-drop_cons (suc j) c s)

plain_text-Shortens :
    (n : ℕ) (template out : Text) (j : Option ℕ) → Shortens n (plain_text template out j)
plain_text-Shortens n template out none = cc
plain_text-Shortens n template out (some j) = cc

open_variable-Shortens :
    (vars : Variables) (c : ℕ) (s out : Text) (i : Option ℕ)
    → Shortens (length (c ∷ s)) (open_variable vars (c ∷ s) out i)
open_variable-Shortens vars c s out none =
    plain_text-Shortens (length (c ∷ s)) (c ∷ s) out (find b'}' (c ∷ s))
open_variable-Shortens vars c s out (some i) =
    close_variable-Shortens vars c s (out ++ take i (c ∷ s)) i (find b'}' (c ∷ s))

turn-Shortens :
    (vars : Variables) (template out : Text) → Shortens (length template) (turn vars template out)
unfolding turn
turn-Shortens vars [] out = cc
turn-Shortens vars (c ∷ s) out = open_variable-Shortens vars c s out (find b'{' (c ∷ s))

-- What is true of every way to go on is true of the turn.
continue_total :
    (n : ℕ) (vars : Variables) (k : ℕ) (t : Turn)
    → ((rest out : Text) → length rest < n → render_loop n vars rest out ≢ out_of_fuel)
    → k < suc n
    → Shortens k t
    → elim t [ stop r ↦ r | next rest out ↦ render_loop n vars rest out ] ≢ out_of_fuel
continue_total n vars k (stop r) ih h s = s
continue_total n vars k (next rest out) ih h s = ih rest out (omega arith)

render_loop_total :
    (n : ℕ) (vars : Variables) (template out : Text)
    → length template < n
    → render_loop n vars template out ≢ out_of_fuel
unfolding render_loop
render_loop_total zero vars template out h = absurd (omega arith)
render_loop_total (suc n) vars template out h =
    continue_total n vars (length template) (turn vars template out) (render_loop_total n vars) h
      (turn-Shortens vars template out)

Ends : Rendered → Type 0
Ends r = ((out : Text) × (r ≡ rendered out)) ⊎ ((e : TemplateError) × (r ≡ template_error e))

Ends-not_out : (r : Rendered) → r ≢ out_of_fuel → Ends r
unfolding Ends
Ends-not_out (rendered out) h = inl (out, refl)
Ends-not_out (template_error e) h = inr (e, refl)
Ends-not_out out_of_fuel h = absurd (h refl)

render_checked-Ends :
    (vars : Variables) (template : Text) (o : Option Text) → Ends (render_checked vars template o)
unfolding Ends
render_checked-Ends vars template none =
    Ends-not_out (render_loop (suc (length template)) vars template [])
      (render_loop_total (suc (length template)) vars template [] (omega arith))
render_checked-Ends vars template (some name) = inr (invalid_syntax name, refl)

-- Rendering always ends, whatever the template and the variables are: with a text or with one of
-- the template errors.
pub safe_render_template_total :
    (template : Text) (vars : Variables)
    → ((out : Text) × (safe_render_template template vars ≡ rendered out))
      ⊎ ((e : TemplateError) × (safe_render_template template vars ≡ template_error e))
unfolding safe_render_template Ends
safe_render_template_total template vars = render_checked-Ends vars template (invalid_name vars)
