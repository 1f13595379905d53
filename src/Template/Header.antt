-- ===== src/Template/Header.antt =====
-- The profile header's template: hushline/forms.py (ValidTemplate), its form in
-- hushline/settings/forms.py (UpdateProfileHeaderForm), the setting that hushline/settings/branding.py
-- stores, and the header that hushline/routes/profile.py renders.
pub mod Safe
use hushline.Common.{
  codes, ℕ, Bool, true, false, ◌&&◌, ◌||◌, Option, none, some, List, [], ◌∷◌, String, if◌then◌else◌,
}
use hushline.Template.{Text, Variables, Rendered, rendered, safe_render_template}

-- WTForms: whether `Optional` ends the validation, so that the field passes, and `Length(max=n)`.
pub record Validators : Type 0 where
  pub optional : Text → Bool
  pub at_most : ℕ → Text → Bool

-- ValidTemplate.__call__, which refuses a template that raises a TemplateError.
abbrev pub is_rendered : Rendered → Bool
is_rendered (rendered out) = true
is_rendered _ = false

unfoldable pub valid_template : Variables → Text → Bool
valid_template vars template = is_rendered (safe_render_template template vars)

abbrev pub header_variables : Option Text → Option Text → Option Text → Variables
header_variables display_name_or_username display_name username =
    (codes "display_name_or_username", display_name_or_username)
    ∷ (codes "display_name", display_name)
    ∷ (codes "username", username)
    ∷ []

abbrev pub sample_variables : Variables
sample_variables = header_variables (some (codes "x")) (some (codes "x")) (some (codes "x"))

-- The validators of UpdateProfileHeaderForm.template, in their order.
unfoldable pub accepts_template : Validators → Text → Bool
accepts_template lib template =
    lib.optional template || (lib.at_most 500 template && valid_template sample_variables template)

-- The branch of `branding` for this form: the setting's row is written, or deleted for an empty text.
abbrev pub store_template : Text → Option Text
store_template [] = none
store_template (c ∷ s) = some (c ∷ s)

unfoldable pub update_profile_header : Validators → Option Text → Text → Option Text
update_profile_header lib setting template =
    if accepts_template lib template then store_template template else setting

-- Submissions of the form one after the other.
unfoldable pub update_profile_headers : Validators → Option Text → List Text → Option Text
update_profile_headers lib setting [] = setting
update_profile_headers lib setting (t ∷ ts) =
    update_profile_headers lib (update_profile_header lib setting t) ts

-- OrganizationSetting.fetch_one
abbrev pub default_header : Text
default_header = codes "Submit a message to {{ display_name_or_username }}"

abbrev pub header_template : Option Text → Text
header_template none = default_header
header_template (some template) = template

-- `uname.display_name or uname.username`
abbrev pub or_username : Option Text → Text → Text
or_username none username = username
or_username (some []) username = username
or_username (some (c ∷ s)) username = c ∷ s

unfoldable pub profile_header : Option Text → Option Text → Text → Rendered
profile_header setting display_name username =
    safe_render_template (header_template setting)
      (header_variables (some (or_username display_name username)) display_name (some username))
