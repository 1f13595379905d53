-- ===== src/ChatKeys/Payload.antt =====
-- hushline/chat_key_lifecycle.py: `validate_chat_key_payload`, which reads the fields of a new chat key
-- from a submitted payload.
pub mod Keys
pub mod Wrapped
pub mod Check
mod Require
pub mod Sound
mod Tests
use hushline.Common.{
  strip, ℕ, ◌+◌, Bool, true, false, not, ◌&&◌, ◌||◌, Option, none, some, is_none, List, [], ◌∷◌,
  String, if◌then◌else◌, ◌==◌, nat_eq, string_eq, leb, length, any, ℤ, pos, negsuc,
}
use hushline.Model.ChatKey.{Payload}
use hushline.Model.Json.{
  Json, null, boolean, number, float, text, array, object, Items, no_items, item, Fields, no_fields,
  field, lookup, get,
}
use hushline.Conversation.Envelope.{
  Library, is_the_text, is_text, is_null, equals, text_length, load_object,
}
use hushline.ChatKeys.Secrets.{contains_forbidden}

abbrev pub string_max_length : ℕ
string_max_length = 200000

abbrev pub metadata_max_length : ℕ
metadata_max_length = 20000

abbrev pub recovery_state_max_length : ℕ
recovery_state_max_length = 64

abbrev pub min_iterations : ℕ
min_iterations = 310000

-- `payload_text`: the first of the keys with a text that is not blank.
abbrev not_blank : String → Option String
not_blank s = if s == "" then none else some s

abbrev stripped : Json → Option String
stripped (text s) = not_blank (strip s)
stripped _ = none

abbrev else_text : Option String → Option String → Option String
else_text none b = b
else_text (some a) b = some a

abbrev pub payload_text : Fields → List String → Option String
payload_text payload [] = none
payload_text payload (key ∷ keys) =
    else_text (stripped (get key payload)) (payload_text payload keys)

-- `_valid_public_jwk`
abbrev pub all_texts : Items → Bool
all_texts no_items = true
all_texts (item (text s) vs) = all_texts vs
all_texts (item v vs) = false

abbrev pub has_text : String → Items → Bool
has_text t no_items = false
has_text t (item v vs) = is_the_text t v || has_text t vs

abbrev pub is_no_item : Items → Bool
is_no_item no_items = true
is_no_item (item v vs) = false

abbrev pub allows : String → Json → Bool
allows op null = true
allows op (array vs) = all_texts vs && (is_no_item vs || has_text op vs)
allows op _ = false

abbrev pub is_p256 : String → Option Fields → Bool
is_p256 op none = false
is_p256 op (some jwk) =
    is_the_text "EC" (get "kty" jwk)
    && (is_the_text "P-256" (get "crv" jwk)
        && (is_text (get "x" jwk) && (is_text (get "y" jwk) && allows op (get "key_ops" jwk))))

-- `expected_use` is the key operation that goes with it.
unfoldable pub valid_public_jwk : Library → String → String → Bool
valid_public_jwk lib op value = is_p256 op (load_object lib value)

-- `_base64_bytes`
abbrev pub not_empty : Option (List ℕ) → Option (List ℕ)
not_empty (some (b ∷ bs)) = some (b ∷ bs)
not_empty _ = none

abbrev pub base64_bytes : Library → Json → Option (List ℕ)
base64_bytes lib (text s) = if s == "" then none else not_empty (lib.b64decode s)
base64_bytes lib _ = none

abbrev pub has_length : ℕ → Option (List ℕ) → Bool
has_length n none = false
has_length n (some bs) = length bs == n

-- `set(d) == {"algorithm", "iv", "ciphertext"}`
abbrev pub is_wrapping_field : String → Bool
is_wrapping_field k = k == "algorithm" || k == "iv" || k == "ciphertext"

abbrev pub only_wrapping_fields : Fields → Bool
only_wrapping_fields no_fields = true
only_wrapping_fields (field k v rest) = is_wrapping_field k && only_wrapping_fields rest

abbrev has_field : String → Fields → Bool
has_field key no_fields = false
has_field key (field k v rest) = k == key || has_field key rest

abbrev pub has_wrapping_fields : Fields → Bool
has_wrapping_fields d =
    only_wrapping_fields d
    && (has_field "algorithm" d && (has_field "iv" d && has_field "ciphertext" d))

-- `_validate_wrapped_private_key`, whose result is the error or nothing
abbrev pub wrapped_error : Library → Option Fields → Option String
wrapped_error lib none = some "encrypted_private_key must be a JSON object."
wrapped_error lib (some d) =
    if not (has_wrapping_fields d)
    then some "encrypted_private_key contains unsupported fields."
    else if not (is_the_text "AES-GCM" (get "algorithm" d))
    then some "encrypted_private_key algorithm must be AES-GCM."
    else if is_none (base64_bytes lib (get "iv" d))
    then some "encrypted_private_key iv must be non-empty base64."
    else if not (has_length 12 (base64_bytes lib (get "iv" d)))
    then some "encrypted_private_key iv must be 12 bytes."
    else if is_none (base64_bytes lib (get "ciphertext" d))
    then some "encrypted_private_key ciphertext must be non-empty base64."
    else none

unfoldable pub validate_wrapped_private_key : Library → String → Option String
validate_wrapped_private_key lib value = wrapped_error lib (load_object lib value)

-- What was read from the payload, before it is checked.
pub record Read : Type 0 where
  pub user_id : Json
  pub public_key : Option String
  pub public_signing_key : Option String
  pub encrypted_private_key : Option String
  pub kdf_algorithm : Option String
  pub kdf_salt : Option String
  pub wrapping_algorithm : String
  pub kdf_params : Json
  pub recovery_state : Option String

-- The fallbacks of a nested dictionary `kdf`.
abbrev from_kdf : Read → Json → Read
from_kdf r (object kdf) = record r {
  kdf_algorithm = else_text r.kdf_algorithm (payload_text kdf ("algorithm" ∷ []));
  kdf_salt = else_text r.kdf_salt (payload_text kdf ("salt" ∷ []));
  kdf_params = if is_null r.kdf_params then get "params" kdf else r.kdf_params;
}
from_kdf r _ = r

abbrev or_text : Option String → String → String
or_text none s = s
or_text (some t) s = t

abbrev pub read_payload : Fields → Read
read_payload payload =
    from_kdf
      (record {
        user_id = get "user_id" payload;
        public_key = payload_text payload ("public_key" ∷ "chat_public_key" ∷ []);
        public_signing_key =
            payload_text payload ("public_signing_key" ∷ "signing_public_key" ∷ []);
        encrypted_private_key =
            payload_text payload ("encrypted_private_key" ∷ "encrypted_private_key_blob" ∷ []);
        kdf_algorithm = payload_text payload ("kdf_algorithm" ∷ []);
        kdf_salt = payload_text payload ("kdf_salt" ∷ "salt" ∷ []);
        wrapping_algorithm = or_text (payload_text payload ("wrapping_algorithm" ∷ [])) "AES-GCM";
        kdf_params = get "kdf_params" payload;
        recovery_state = payload_text payload ("recovery_state" ∷ []);
      })
      (get "kdf" payload)
