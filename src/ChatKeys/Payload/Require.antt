-- ===== src/ChatKeys/Payload/Require.antt =====
-- hushline/chat_key_lifecycle.py: what has passed when a check of `validate_chat_key_payload` accepts.
use hushline.Common.{
  ℕ, ◌≤◌, ◌≡◌, refl, Bool, true, false, Option, none, some, String, string_eq, ℤ, pos, negsuc,
  arith,
}
use hushline.Model.ChatKey.{Payload}
use hushline.Model.Json.{
  Json, null, boolean, number, float, text, array, object, Fields, no_fields, field,
}
use hushline.ChatKeys.Payload.{min_iterations}
use hushline.ChatKeys.Payload.Check.{
  Validated, valid, require, need, need_fields, need_int, is_enough, check_wrapped,
}

module _ {p : Payload} where
  pub require_sound :
      (b : Bool) (error : String) (rest : Validated)
      → require b error rest ≡ valid p
      → (b ≡ true) × (rest ≡ valid p)
  unfolding require
  require_sound true error rest e = (refl, e)
  require_sound false error rest e = cc

  pub need_sound :
      (o : Option String) (error : String) (rest : String → Validated)
      → need o error rest ≡ valid p
      → (s : String) × (o ≡ some s) × (rest s ≡ valid p)
  unfolding need
  need_sound none error rest e = cc
  need_sound (some s) error rest e = (s, refl, e)

  pub need_fields_sound :
      (v : Json) (error : String) (rest : Fields → Validated)
      → need_fields v error rest ≡ valid p
      → (fs : Fields) × (v ≡ object fs) × (rest fs ≡ valid p)
  unfolding need_fields
  need_fields_sound (object (field k v fs)) error rest e = (field k v fs, refl, e)
  need_fields_sound (object no_fields) error rest e = cc
  need_fields_sound null error rest e = cc
  need_fields_sound (boolean b) error rest e = cc
  need_fields_sound (number i) error rest e = cc
  need_fields_sound (float i) error rest e = cc
  need_fields_sound (text s) error rest e = cc
  need_fields_sound (array vs) error rest e = cc

  pub need_int_sound :
      (v : Json) (error : String) (rest : ℤ → Validated)
      → need_int v error rest ≡ valid p
      → (i : ℤ) × (v ≡ number i) × (rest i ≡ valid p)
  unfolding need_int
  need_int_sound (number i) error rest e = (i, refl, e)
  need_int_sound null error rest e = cc
  need_int_sound (boolean b) error rest e = cc
  need_int_sound (float i) error rest e = cc
  need_int_sound (text s) error rest e = cc
  need_int_sound (array vs) error rest e = cc
  need_int_sound (object fs) error rest e = cc

  pub check_wrapped_sound :
      (o : Option String) (rest : Validated)
      → check_wrapped o rest ≡ valid p
      → (o ≡ none) × (rest ≡ valid p)
  unfolding check_wrapped
  check_wrapped_sound none rest e = (refl, e)
  check_wrapped_sound (some error) rest e = cc

pub enough : (i : ℤ) → is_enough i ≡ true → (n : ℕ) × (i ≡ pos n) × (min_iterations ≤ n)
enough (pos n) h = (n, refl, ground arith)
enough (negsuc n) h = cc
