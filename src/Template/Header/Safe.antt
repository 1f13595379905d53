-- ===== src/Template/Header/Safe.antt =====
-- hushline/routes/profile.py: the profile header that a stored template gives is always rendered.
use hushline.Common.{
  is_space, text_eq, ℕ, ◌≡◌, refl, sym, ◌∙◌, true, false, ◌==◌, nat_eq, Option, none, some, List,
  [], ◌∷◌, ◌++◌, arith, all, if_cases, Bool-cases, nat_beq_iff, inl, inr,
}
use hushline.Template.Renders.{Renders, plain, variable, safe_render_template_iff}
use hushline.Template.Header.{
  Validators, is_rendered, valid_template, header_variables, sample_variables, accepts_template,
  store_template, update_profile_header, update_profile_headers, default_header, header_template,
  or_username, profile_header,
}
use hushline.Template.{
  Text, Variables, Rendered, rendered, template_error, out_of_fuel, strip, find, lookup, or_empty,
  invalid_name, safe_render_template, render_loop, turn,
}

-- Two mappings of the same names, in the same order.
data SameNames : Variables → Variables → Type 0 where
  nil : SameNames [] []
  cons :
      (name : Text) (v w : Option Text) {vars vars' : Variables}
      → SameNames vars vars'
      → SameNames ((name, v) ∷ vars) ((name, w) ∷ vars')

lookup-SameNames :
    (n : Text) {vars vars' : Variables} {v : Option Text}
    → SameNames vars vars'
    → lookup n vars ≡ some v
    → (w : Option Text) × (lookup n vars' ≡ some w)
lookup-SameNames n nil e = cc
lookup-SameNames n (cons name v w {vars} {vars'} s) e = elim (Bool-cases (text_eq name n)) [
  | inl t ↦ (w, rw t refl)
  | inr t ↦ let (w', e') = lookup-SameNames n s (rw t at e) in (w', rw t e')
]

invalid_name-SameNames :
    {vars vars' : Variables} → SameNames vars vars' → invalid_name vars ≡ invalid_name vars'
invalid_name-SameNames nil = refl
invalid_name-SameNames (cons name v w s) = rw (invalid_name-SameNames s) refl

Renders-SameNames :
    {vars vars' : Variables} {s out : Text}
    → SameNames vars vars'
    → Renders vars s out
    → (out' : Text) × Renders vars' s out'
Renders-SameNames same (plain {s} f g) = (s, plain f g)
Renders-SameNames same (variable before name {rest} f g d more) =
    let (v, e) = lookup-SameNames (strip name) same d in
    let (out', more') = Renders-SameNames same more in
    (before ++ or_empty v ++ out', variable before name f g e more')

-- Whether a template renders depends on the names of the variables alone.
safe_render_template-SameNames :
    (template : Text) {vars vars' : Variables} {out : Text}
    → SameNames vars vars'
    → safe_render_template template vars ≡ rendered out
    → (out' : Text) × (safe_render_template template vars' ≡ rendered out')
safe_render_template-SameNames template {vars} {vars'} {out} same e =
    let (valid, r) = (safe_render_template_iff template vars out).0 e in
    let (out', r') = Renders-SameNames same r in
    (
      out',
      (safe_render_template_iff template vars' out').1
          (sym (invalid_name-SameNames same) ∙ valid, r'),
    )

is_rendered_sound : (r : Rendered) → is_rendered r ≡ true → (out : Text) × (r ≡ rendered out)
is_rendered_sound (rendered out) h = (out, refl)
is_rendered_sound (template_error e) h = cc
is_rendered_sound out_of_fuel h = cc

space-ne : (b c : ℕ) → is_space b ≡ true → is_space c ≡ false → (b == c) ≡ false
space-ne b c hb hc = elim (Bool-cases (b == c)) [
  | inl e ↦
      let q : b ≡ c = (nat_beq_iff b c).0 e in
      let hb' : is_space c ≡ true = rw q at hb in absurd (cc (hb', hc))
  | inr e ↦ e
]

find_blank : (c : ℕ) (s : Text) → is_space c ≡ false → all is_space s ≡ true → find c s ≡ none
find_blank c [] h a = refl
find_blank c (b ∷ s) h a = elim (if_cases (is_space b) (all is_space s) false true a) [
  | inl (hb, hs) ↦ rw (space-ne b c hb h, find_blank c s h hs) refl
  | inr (_, e) ↦ absurd (cc e)
]

-- The templates that are rendered for every user.
abbrev IsSafe : Text → Type 0
IsSafe template =
    (display_name : Option Text) (username : Text)
    → (out : Text) × (safe_render_template template
          (header_variables (some (or_username display_name username)) display_name (some username))
        ≡ rendered out)

samples-SameNames : (a b c : Option Text) → SameNames sample_variables (header_variables a b c)
samples-SameNames a b c = cons _ _ a (cons _ _ b (cons _ _ c nil))

valid-IsSafe : (template : Text) → valid_template sample_variables template ≡ true → IsSafe template
unfolding valid_template
valid-IsSafe template h display_name username =
    let (out, e) = is_rendered_sound (safe_render_template template sample_variables) h in
    safe_render_template-SameNames template
      (samples-SameNames (some (or_username display_name username)) display_name (some username)) e

blank-IsSafe : (template : Text) → all is_space template ≡ true → IsSafe template
blank-IsSafe template h display_name username =
    let vars =
      header_variables (some (or_username display_name username)) display_name (some username) in
    (
      template,
      (safe_render_template_iff template vars template).1
          (refl, plain (find_blank b'{' template refl h) (find_blank b'}' template refl h)),
    )

default_is_valid : valid_template sample_variables default_header ≡ true
unfolding valid_template safe_render_template render_loop turn
default_is_valid = refl

default-IsSafe : IsSafe default_header
default-IsSafe = valid-IsSafe default_header default_is_valid

module _ (lib : Validators)
    (blank : (t : Text) → lib.optional t ≡ true → all is_space t ≡ true) where
  accepts-IsSafe : (template : Text) → accepts_template lib template ≡ true → IsSafe template
  unfolding accepts_template
  accepts-IsSafe template h = elim (Bool-cases (lib.optional template)) [
    | inl o ↦ blank-IsSafe template (blank template o)
    | inr o ↦ valid-IsSafe template (ground arith)
  ]

  store-IsSafe :
      (template : Text) → IsSafe template → IsSafe (header_template (store_template template))
  store-IsSafe [] h = default-IsSafe
  store-IsSafe (c ∷ s) h = h

  update-IsSafe :
      (setting : Option Text) (template : Text)
      → IsSafe (header_template setting)
      → IsSafe (header_template (update_profile_header lib setting template))
  unfolding update_profile_header
  update-IsSafe setting template h = elim (Bool-cases (accepts_template lib template)) [
    | inl a ↦ rw a (store-IsSafe template (accepts-IsSafe template a))
    | inr a ↦ rw a h
  ]

  updates-IsSafe :
      (setting : Option Text) (templates : List Text)
      → IsSafe (header_template setting)
      → IsSafe (header_template (update_profile_headers lib setting templates))
  unfolding update_profile_headers
  updates-IsSafe setting [] h = h
  updates-IsSafe setting (t ∷ ts) h =
      updates-IsSafe (update_profile_header lib setting t) ts (update-IsSafe setting t h)

-- If WTForms' Optional lets only blank texts pass, then after any submissions of the branding form,
-- accepted or refused, the profile of every user renders its header: no template that the form
-- lets through raises a TemplateError there.
pub profile_header_total :
    (lib : Validators)
    → ((t : Text) → lib.optional t ≡ true → all is_space t ≡ true)
    → (templates : List Text) (display_name : Option Text) (username : Text)
    → (out : Text) × (profile_header
          (update_profile_headers lib none templates)
          display_name
          username
        ≡ rendered out)
unfolding profile_header
profile_header_total lib blank templates = updates-IsSafe lib blank none templates default-IsSafe
