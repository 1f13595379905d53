-- ===== src/Template.antt =====
-- hushline/safe_template.py: the templates whose variables stand in double braces. A Python text is
-- the list of its code points, which the parser searches and slices.
mod Find
mod Total
mod Turns
mod Renders
mod Header
mod Tests
use hushline.Common.{
  is_space, text_eq, ℕ, zero, suc, ◌+◌, ◌-◌, Bool, true, false, not, ◌&&◌, ◌||◌, Option, none, some,
  List, [], ◌∷◌, ◌++◌, if◌then◌else◌, ◌==◌, nat_eq, leb, length,
}

abbrev pub Text : Type 0
Text = List ℕ

-- `s[:n]` and `s[n:]`
abbrev pub take : ℕ → Text → Text
take zero s = []
take (suc n) [] = []
take (suc n) (c ∷ s) = c ∷ take n s

abbrev pub drop : ℕ → Text → Text
drop zero s = s
drop (suc n) [] = []
drop (suc n) (c ∷ s) = drop n s

-- `s[a:b]`, which is empty from the end of the text on and where b is not above a
abbrev pub slice : ℕ → ℕ → Text → Text
slice a b s = take (b - a) (drop a s)

-- Both markers are one brace twice: `s.find(c + c)`, and none for -1.
abbrev pub begins : ℕ → Text → Bool
begins c [] = false
begins c (a ∷ s) = a == c

abbrev pub later : Option ℕ → Option ℕ
later none = none
later (some n) = some (suc n)

abbrev pub find : ℕ → Text → Option ℕ
find c [] = none
find c (a ∷ s) = if a == c && begins c s then some 0 else later (find c s)

-- `s.strip()`
abbrev lstrip : Text → Text
lstrip [] = []
lstrip (c ∷ s) = if is_space c then lstrip s else c ∷ s

abbrev reverse_onto : Text → Text → Text
reverse_onto [] t = t
reverse_onto (c ∷ s) t = reverse_onto s (c ∷ t)

abbrev reverse : Text → Text
reverse s = reverse_onto s []

abbrev pub strip : Text → Text
strip s = reverse (lstrip (reverse (lstrip s)))

-- `Mapping[str, Optional[str]]`, in the mapping's order
abbrev pub Variables : Type 0
Variables = List (Text × Option Text)

abbrev pub lookup : Text → Variables → Option (Option Text)
lookup name [] = none
lookup name ((key, value) ∷ vars) = if text_eq key name then some value else lookup name vars

-- VARIABLE_SYNTAX. Its `$` also stands before a newline that ends the text.
abbrev is_letter : ℕ → Bool
is_letter c = (leb b'a' c && leb c b'z') || (leb b'A' c && leb c b'Z') || c == b'_'

abbrev is_word : ℕ → Bool
is_word c = is_letter c || (leb b'0' c && leb c b'9')

abbrev is_word_tail : Text → Bool
is_word_tail [] = true
is_word_tail (c ∷ []) = is_word c || c == b'\n'
is_word_tail (c ∷ d ∷ s) = is_word c && is_word_tail (d ∷ s)

abbrev pub is_name : Text → Bool
is_name [] = false
is_name (c ∷ s) = is_letter c && is_word_tail s

pub data TemplateError : Type 0 where
  invalid_syntax : Text → TemplateError
  extra_braces : TemplateError
  not_closed : TemplateError
  not_defined : Text → TemplateError

pub data Rendered : Type 0 where
  rendered : Text → Rendered
  template_error : TemplateError → Rendered
  out_of_fuel : Rendered

-- How one turn of the `while` ends: the function returns, or goes on with the rest of the template
-- and what has been put out.
pub data Turn : Type 0 where
  stop : Rendered → Turn
  next : Text → Text → Turn

abbrev pub or_empty : Option Text → Text
or_empty none = []
or_empty (some s) = s

abbrev pub substitute : Text → Text → Text → Option (Option Text) → Turn
substitute rest out name none = stop (template_error (not_defined name))
substitute rest out name (some value) = next rest (out ++ or_empty value)

abbrev pub close_variable : Variables → Text → Text → ℕ → Option ℕ → Turn
close_variable vars template out start none = stop (template_error not_closed)
close_variable vars template out start (some end) =
    let name = strip (slice (suc (suc start)) end template) in
    substitute (drop (suc (suc end)) template) out name (lookup name vars)

abbrev pub plain_text : Text → Text → Option ℕ → Turn
plain_text template out none = stop (rendered (out ++ template))
plain_text template out (some end) = stop (template_error extra_braces)

abbrev pub open_variable : Variables → Text → Text → Option ℕ → Turn
open_variable vars template out none = plain_text template out (find b'}' template)
open_variable vars template out (some start) =
    close_variable vars template (out ++ take start template) start (find b'}' template)

unfoldable pub turn : Variables → Text → Text → Turn
turn vars [] out = stop (rendered out)
turn vars (c ∷ s) out = open_variable vars (c ∷ s) out (find b'{' (c ∷ s))

-- The `while`, in at most so many turns.
unfoldable pub render_loop : ℕ → Variables → Text → Text → Rendered
render_loop zero vars template out = out_of_fuel
render_loop (suc n) vars template out = elim (turn vars template out) [
  | stop r ↦ r
  | next rest out' ↦ render_loop n vars rest out'
]

-- The first variable with a name that is none.
abbrev pub invalid_name : Variables → Option Text
invalid_name [] = none
invalid_name ((name, value) ∷ vars) = if is_name name then invalid_name vars else some name

abbrev pub render_checked : Variables → Text → Option Text → Rendered
render_checked vars template none = render_loop (suc (length template)) vars template []
render_checked vars template (some name) = template_error (invalid_syntax name)

unfoldable pub safe_render_template : Text → Variables → Rendered
safe_render_template template vars = render_checked vars template (invalid_name vars)
