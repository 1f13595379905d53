-- ===== src/ChatKeys/Payload/Tests.antt =====
-- Payloads for hushline/chat_key_lifecycle.py, and the theorems on them at a concrete one.
use hushline.Common.{
  ◌⊎◌, ℕ, zero, suc, ◌≡◌, refl, pos, true, none, some, Option, List, [], ◌∷◌, String, if◌then◌else◌,
  ◌==◌, string_eq, All,
}
use hushline.Model.ChatKey.{Payload}
use hushline.Model.Json.{
  null, text, number, object, array, item, no_items, Fields, no_fields, field, get,
}
use hushline.Model.User.{User}
use hushline.Model.Samples.{ada}
use hushline.Conversation.Envelope.{Library}
use hushline.ChatKeys.Lifecycle.Versions.{IsValid}
use hushline.ChatKeys.Lifecycle.{rewrap_active_chat_key, retire_active_chat_key}
use hushline.Auth.Store.{create_initial_chat_key}
use hushline.ChatKeys.Secrets.{is_forbidden, contains_forbidden}
use hushline.ChatKeys.Payload.{valid_public_jwk, validate_wrapped_private_key}
use hushline.ChatKeys.Payload.Check.{
  valid, invalid, require, need, need_fields, need_int, check_wrapped, validate_chat_key_payload,
}
use hushline.ChatKeys.Secrets.Nested.{KeyIn, IsHarmless}
use hushline.ChatKeys.Payload.Wrapped.{IsNumber}
use hushline.ChatKeys.Payload.Sound.{IsSafe, validate_chat_key_payload_sound}
use hushline.ChatKeys.Submitted.{login_chat_key}
use hushline.ChatKeys.Stored.{
  Changes, done, provisioned, replaced, retired, IsSafeKey, chat_keys_stay_safe,
}

abbrev zeros : ℕ → List ℕ
zeros zero = []
zeros (suc n) = 0 ∷ zeros n

abbrev jwk : Fields
jwk =
    field "kty" (text "EC")
      (field "crv" (text "P-256") (field "x" (text "x") (field "y" (text "y") no_fields)))

abbrev wrapped_key : Fields
wrapped_key =
    field "iv" (text "iv")
      (field "algorithm" (text "AES-GCM") (field "ciphertext" (text "c") no_fields))

abbrev params : Fields
params = field "hash" (text "SHA-256") (field "iterations" (number (pos 600000)) no_fields)

abbrev entries : Fields → Fields
entries rest = field "public_key" (text "jwk") (
    field "signing_public_key" (text " jwk ") (
      field "encrypted_private_key" (text "wrapped") (
        field "kdf"
          (object (
            field "algorithm" (text "PBKDF2-SHA-256")
              (field "salt" (text "salt") (field "params" (object params) no_fields))))
          rest)))

abbrev library : Library
library = record {
  loads = λ s.
      if s == "jwk"
      then some (object jwk)
      else if s == "wrapped"
      then some (object wrapped_key)
      else if s == "submitted"
      then some (object (entries no_fields))
      else none;
  dumps = λ j. none;
  str = λ j. "";
  b64decode = λ s. some (zeros (if s == "iv" then 12 else 16));
  urlsafe_b64decode = λ s. none;
  is_public_key = λ x y. true;
  verify = λ x y r s m. true;
}

abbrev dumps : Fields → Option String
dumps fs = some "{}"

abbrev read : Payload
read = record {
  public_key = "jwk";
  public_signing_key = "jwk";
  encrypted_private_key = "wrapped";
  kdf_algorithm = "PBKDF2-SHA-256";
  kdf_params = params;
  kdf_salt = "salt";
  wrapping_algorithm = "AES-GCM";
  recovery_state = none;
}

accepts : validate_chat_key_payload library dumps 7 (object (entries no_fields)) ≡ valid read
unfolding validate_chat_key_payload contains_forbidden is_forbidden require need need_fields
    need_int check_wrapped valid_public_jwk validate_wrapped_private_key
accepts = refl

-- A forbidden name in a list of dictionaries.
refuses_secret :
    validate_chat_key_payload library dumps 7 (
      object (
        entries (
          field "x"
            (array (item (object (field " Private-KEY" (text "k") no_fields)) no_items))
            no_fields)))
    ≡ invalid "Plaintext chat key material is not accepted."
unfolding validate_chat_key_payload contains_forbidden is_forbidden require need need_fields
    need_int check_wrapped valid_public_jwk validate_wrapped_private_key
refuses_secret = refl

refuses_other :
    validate_chat_key_payload library dumps 7
      (object (entries (field "user_id" (number (pos 8)) no_fields)))
    ≡ invalid "Chat keys can only be provisioned for the authenticated user."
unfolding validate_chat_key_payload contains_forbidden is_forbidden require need need_fields
    need_int check_wrapped valid_public_jwk validate_wrapped_private_key
refuses_other = refl

validate_chat_key_payload_sound_example :
    ((key : String) → KeyIn key (object (entries no_fields)) → IsHarmless key)
    × ((payload : Fields) × (object (entries no_fields) ≡ object payload)
        × ((get "user_id" payload ≡ null) ⊎ IsNumber 7 (get "user_id" payload)))
    × IsSafe library dumps read
validate_chat_key_payload_sound_example =
    validate_chat_key_payload_sound library dumps 7 (object (entries no_fields)) accepts

-- A login brings a key along, which a reset retires.
abbrev last : User
last =
    (retire_active_chat_key 9 "lost"
      (create_initial_chat_key 5 (login_chat_key library dumps "submitted" 7) ada)).0

chat_keys_stay_safe_example : IsValid last.chat_keys × All (IsSafeKey library dumps) last.chat_keys
chat_keys_stay_safe_example =
    chat_keys_stay_safe library dumps refl (provisioned 5 "submitted" (retired 9 "lost" done))

brings_key : login_chat_key library dumps " submitted" 7 ≡ some read
unfolding login_chat_key validate_chat_key_payload contains_forbidden is_forbidden require need
    need_fields need_int check_wrapped valid_public_jwk validate_wrapped_private_key
brings_key = refl

replaces : Changes library dumps ada (rewrap_active_chat_key 3 read ada).0
replaces = replaced 3 (object (entries no_fields)) accepts done
