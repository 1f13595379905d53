-- ===== src/Template/Tests.antt =====
-- Runs of the templates and instances of their theorems.
use hushline.Common.{codes, is_space, ◌≡◌, ◌↔◌, ◌⊎◌, refl, true, none, some, [], ◌∷◌, all, String}
use hushline.Template.Total.{safe_render_template_total}
use hushline.Template.Renders.{Renders, safe_render_template_iff}
use hushline.Template.Header.Safe.{profile_header_total}
use hushline.Template.Header.{header_variables, Validators, update_profile_headers, profile_header}
use hushline.Template.{
  Text, Variables, Rendered, rendered, template_error, extra_braces, not_closed, not_defined,
  TemplateError, invalid_name, safe_render_template, render_loop, turn, is_name,
}

abbrev vars : Variables
vars = header_variables (some (codes "{{ada}}")) none (some (codes "ada"))

abbrev template : Text
template = codes "To {{ display_name_or_username }}{{display_name}} ({{username}}) {x}"

module _ where
  run : String → Rendered
  unfolding safe_render_template
  run s = safe_render_template (codes s) vars

  -- a value with braces is put out as it stands
  run_value :
      run "To {{ display_name_or_username }}{{display_name}}!" ≡ rendered (codes "To {{ada}}!")
  unfolding run render_loop turn
  run_value = refl

  run_extra : run "a }} b" ≡ template_error extra_braces
  unfolding run render_loop turn
  run_extra = refl

  run_open : run "{{ username }" ≡ template_error not_closed
  unfolding run render_loop turn
  run_open = refl

  run_braces : run "{{{username}}}" ≡ template_error (not_defined (codes "{username"))
  unfolding run render_loop turn
  run_braces = refl

  -- braces that close before they open leave an empty name
  run_swapped : run "}} {{ username }}" ≡ template_error (not_defined [])
  unfolding run render_loop turn
  run_swapped = refl

name_newline : is_name (codes "a\n") ≡ true
name_newline = refl

safe_render_template_total_example :
    ((out : Text) × (safe_render_template template vars ≡ rendered out))
    ⊎ ((e : TemplateError) × (safe_render_template template vars ≡ template_error e))
safe_render_template_total_example = safe_render_template_total template vars

safe_render_template_iff_example :
    (safe_render_template template vars ≡ rendered (codes "To {{ada}} (ada) {x}"))
    ↔ ((invalid_name vars ≡ none) × Renders vars template (codes "To {{ada}} (ada) {x}"))
safe_render_template_iff_example =
    safe_render_template_iff template vars (codes "To {{ada}} (ada) {x}")

-- A form whose Optional lets blank texts pass, and whose Length refuses nothing.
abbrev form : Validators
form = record { optional = all is_space; at_most = λ n t. true }

profile_header_total_example :
    (out : Text) × (profile_header
        (update_profile_headers form none (codes "{{x" ∷ template ∷ []))
        none
        (codes "ada")
      ≡ rendered out)
profile_header_total_example =
    profile_header_total form (λ t h. h) (codes "{{x" ∷ template ∷ []) none (codes "ada")
