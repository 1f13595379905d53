-- ===== src/Template/Renders.antt =====
-- hushline/safe_template.py: the language of the templates, and that safe_render_template accepts just
-- its texts and gives their values.
use mathlib.Core.List.{append_assoc, append-nil}
use hushline.Common.{
  ℕ, zero, suc, ◌<◌, ◌≡◌, refl, sym, ap, ◌∙◌, Option, none, some, [], ◌∷◌, ◌++◌, arith, length, ◌↔◌,
}
use hushline.Template.Find.{take-append, drop_two, find-append}
use hushline.Template.Turns.{Explains, turn-Explains, slice_between, length-append}
use hushline.Template.{
  Text, Variables, rendered, template_error, out_of_fuel, Turn, stop, next, take, strip, find,
  lookup, or_empty, open_variable, turn, render_loop, render_checked, invalid_name,
  safe_render_template,
}

-- A template is a text without a pair of braces, or such a text, a variable that is defined, and a template.
pub data Renders (vars : Variables) : Text → Text → Type 0 where
  plain : {s : Text} → find b'{' s ≡ none → find b'}' s ≡ none → Renders vars s s
  variable :
      (before name : Text) {rest out : Text} {value : Option Text}
      → find b'{' (before ++ b'{' ∷ []) ≡ none
      → find b'}' ((before ++ b'{' ∷ b'{' ∷ name) ++ b'}' ∷ []) ≡ none
      → lookup (strip name) vars ≡ some value
      → Renders vars rest out
      → Renders vars
          ((before ++ b'{' ∷ b'{' ∷ name) ++ b'}' ∷ b'}' ∷ rest)
          (before ++ or_empty value ++ out)

module _ (vars : Variables) where
  -- What every way to go on gives, the turn gives.
  continue_sound :
      (n : ℕ) (s acc : Text) {r : Text} (t : Turn)
      → ((rest acc' : Text)
          → render_loop n vars rest acc' ≡ rendered r
          → (out : Text) × (r ≡ acc' ++ out) × Renders vars rest out)
      → Explains vars s acc t
      → elim t [ stop q ↦ q | next rest acc' ↦ render_loop n vars rest acc' ] ≡ rendered r
      → (out : Text) × (r ≡ acc ++ out) × Renders vars s out
  continue_sound n s acc (stop (rendered q)) ih (f, g, h) e = (s, cc (e, h), plain f g)
  continue_sound n s acc (stop (template_error q)) ih x e = cc
  continue_sound n s acc (stop out_of_fuel) ih x e = cc
  continue_sound n s acc (next rest acc') ih (before, name, value, es, ea, f, g, d) e =
      let (out, er, more) = ih rest acc' e in
      (
        before ++ or_empty value ++ out,
        er ∙ rw (ea, append_assoc, append_assoc, append_assoc) refl,
        rw es (variable before name f g d more),
      )

  render_loop_sound :
      (n : ℕ) (s acc : Text) {r : Text}
      → lookup [] vars ≡ none
      → render_loop n vars s acc ≡ rendered r
      → (out : Text) × (r ≡ acc ++ out) × Renders vars s out
  unfolding render_loop
  render_loop_sound zero s acc unnamed e = cc
  render_loop_sound (suc n) s acc unnamed e =
      continue_sound n s acc (turn vars s acc) (λ rest acc'. render_loop_sound n rest acc' unnamed)
        (turn-Explains vars s acc unnamed) e

  turn_open :
      (p s acc : Text) (c : ℕ)
      → turn vars (p ++ c ∷ s) acc ≡ open_variable vars (p ++ c ∷ s) acc (find b'{' (p ++ c ∷ s))
  unfolding turn
  turn_open [] s acc c = refl
  turn_open (b ∷ p) s acc c = refl

  turn_plain :
      (s acc : Text)
      → find b'{' s ≡ none
      → find b'}' s ≡ none
      → turn vars s acc ≡ stop (rendered (acc ++ s))
  unfolding turn
  turn_plain [] acc f g = ap (λ t. stop (rendered t)) (sym (append-nil acc))
  turn_plain (c ∷ s) acc f g = rw (f, g) refl

  turn_variable :
      (before name rest acc : Text) {value : Option Text}
      → find b'{' (before ++ b'{' ∷ []) ≡ none
      → find b'}' ((before ++ b'{' ∷ b'{' ∷ name) ++ b'}' ∷ []) ≡ none
      → lookup (strip name) vars ≡ some value
      → turn vars ((before ++ b'{' ∷ b'{' ∷ name) ++ b'}' ∷ b'}' ∷ rest) acc
        ≡ next rest (acc ++ before ++ or_empty value)
  turn_variable before name rest acc f g d =
      let t = b'{' ∷ b'{' ∷ name in
      let assoc = append_assoc before t (b'}' ∷ b'}' ∷ rest) in
      let start : find b'{' ((before ++ t) ++ b'}' ∷ b'}' ∷ rest) ≡ some (length before) =
        ap (find b'{') assoc ∙ find-append b'{' before (name ++ b'}' ∷ b'}' ∷ rest) f in
      let literal : take (length before) ((before ++ t) ++ b'}' ∷ b'}' ∷ rest) ≡ before =
        ap (take (length before)) assoc ∙ take-append before _ in
      rw
        (
          turn_open (before ++ t) (b'}' ∷ rest) acc b'}',
          start,
          find-append b'}' (before ++ t) rest g,
          literal,
          slice_between before name (b'}' ∷ b'}' ∷ rest) b'{' b'{',
          d,
          drop_two (before ++ t) rest b'}' b'}',
        )
        refl

  length-rest : (p rest : Text) (n : ℕ) → length (p ++ b'}' ∷ b'}' ∷ rest) < suc n → length rest < n
  length-rest p rest n h = omega (arith, length-append p (b'}' ∷ b'}' ∷ rest))

  render_loop_complete :
      (n : ℕ) {s out : Text} (acc : Text)
      → Renders vars s out
      → length s < n
      → render_loop n vars s acc ≡ rendered (acc ++ out)
  unfolding render_loop
  render_loop_complete zero acc x h = absurd (omega arith)
  render_loop_complete (suc n) acc (plain {s} f g) h = rw (render_loop, turn_plain s acc f g) refl
  render_loop_complete (suc n) acc (variable before name {rest} {out} {value} f g d more) h =
      rw (render_loop, turn_variable before name rest acc f g d)
        (render_loop_complete n (acc ++ before ++ or_empty value) more
            (length-rest (before ++ b'{' ∷ b'{' ∷ name) rest n h)
          ∙ rw (append_assoc, append_assoc, append_assoc) refl)

unnamed : (vars : Variables) → invalid_name vars ≡ none → lookup [] vars ≡ none
unnamed [] h = refl
unnamed (([], v) ∷ vars) h = cc
unnamed ((c ∷ name, v) ∷ vars) h = ground (arith, unnamed vars)

render_checked_sound :
    (vars : Variables) (template out : Text) (o : Option Text)
    → invalid_name vars ≡ o
    → render_checked vars template o ≡ rendered out
    → (invalid_name vars ≡ none) × Renders vars template out
render_checked_sound vars template out none e h =
    let (r, er, x) =
      render_loop_sound vars (suc (length template)) template [] (unnamed vars e) h in
    (e, rw er x)
render_checked_sound vars template out (some name) e h = cc

render_checked_complete :
    (vars : Variables) (template out : Text)
    → invalid_name vars ≡ none
    → Renders vars template out
    → render_checked vars template (invalid_name vars) ≡ rendered out
render_checked_complete vars template out e x =
    rw e (render_loop_complete vars (suc (length template)) [] x (omega arith))

-- safe_render_template gives a text if and only if every variable has a valid name and the template
-- is in the language for these variables, and the text is then the language's: the pieces between
-- the variables as they stand, and for each variable its value, which is not read as a template.
pub safe_render_template_iff :
    (template : Text) (vars : Variables) (out : Text)
    → (safe_render_template template vars ≡ rendered out)
      ↔ ((invalid_name vars ≡ none) × Renders vars template out)
unfolding safe_render_template
safe_render_template_iff template vars out = (
  render_checked_sound vars template out (invalid_name vars) refl,
  λ (e, x). render_checked_complete vars template out e x,
)
