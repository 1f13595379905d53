-- ===== src/ChatKeys/Payload/Check.antt =====
-- hushline/chat_key_lifecycle.py: the checks of `validate_chat_key_payload`, in their order.
use hushline.Common.{
  ℕ, Bool, true, false, not, ◌&&◌, ◌||◌, Option, none, some, is_some, String, ◌==◌, string_eq, leb,
  ℤ, pos, negsuc,
}
use hushline.Model.ChatKey.{Payload}
use hushline.Model.Json.{Json, number, text, object, Fields, field, get}
use hushline.Conversation.Envelope.{Library, is_the_text, is_null, equals, text_length}
use hushline.ChatKeys.Secrets.{contains_forbidden}
use hushline.ChatKeys.Payload.{
  string_max_length, metadata_max_length, recovery_state_max_length, min_iterations, Read,
  read_payload, valid_public_jwk, validate_wrapped_private_key, base64_bytes, has_length,
}

pub data Validated : Type 0 where
  invalid : String → Validated
  valid : Payload → Validated

-- `if not …: return {}, error`
unfoldable pub require : Bool → String → Validated → Validated
require true error rest = rest
require false error rest = invalid error

unfoldable pub need : Option String → String → (String → Validated) → Validated
need none error rest = invalid error
need (some s) error rest = rest s

unfoldable pub need_fields : Json → String → (Fields → Validated) → Validated
need_fields (object (field k v fs)) error rest = rest (field k v fs)
need_fields v error rest = invalid error

-- `isinstance(v, int) and not isinstance(v, bool)`
unfoldable pub need_int : Json → String → (ℤ → Validated) → Validated
need_int (number i) error rest = rest i
need_int v error rest = invalid error

abbrev pub is_enough : ℤ → Bool
is_enough (pos n) = leb min_iterations n
is_enough (negsuc n) = false

abbrev pub is_at_most : ℕ → String → Bool
is_at_most n s = leb (text_length s) n

abbrev pub is_short : ℕ → Option String → Bool
is_short n none = true
is_short n (some s) = is_at_most n s

abbrev pub fits : Payload → Bool
fits p =
    is_at_most string_max_length p.public_key
    && (is_at_most string_max_length p.encrypted_private_key
        && (is_at_most string_max_length p.kdf_algorithm
            && (is_at_most string_max_length p.kdf_salt
                && (is_at_most string_max_length p.wrapping_algorithm
                    && is_at_most string_max_length p.public_signing_key))))

unfoldable pub check_wrapped : Option String → Validated → Validated
check_wrapped none rest = rest
check_wrapped (some error) rest = invalid error

-- From the lengths on; `dumps` is json.dumps of a dictionary with sorted keys, or nothing where it
-- raises.
abbrev pub check_values : Library → (Fields → Option String) → Payload → Validated
check_values lib dumps p = require (fits p) "Chat key payload is too large." (
    require (is_the_text "SHA-256" (get "hash" p.kdf_params)) "kdf_params.hash must be SHA-256." (
      need_int (get "iterations" p.kdf_params) "kdf_params.iterations must be an integer."
        λ iterations. require (is_enough iterations) "kdf_params.iterations is below the minimum." (
          require (is_some (base64_bytes lib (text p.kdf_salt)))
            "kdf_salt must be non-empty base64."
            (require (has_length 16 (base64_bytes lib (text p.kdf_salt)))
              "kdf_salt must be 16 bytes."
              (require (p.wrapping_algorithm == "AES-GCM") "wrapping_algorithm must be AES-GCM." (
                check_wrapped (validate_wrapped_private_key lib p.encrypted_private_key) (
                  need (dumps p.kdf_params) "kdf_params must be JSON serializable." λ serialized.
                    require (is_at_most metadata_max_length serialized) "kdf_params is too large." (
                      require (is_short recovery_state_max_length p.recovery_state)
                        "recovery_state is too large." (valid p)))))))))

abbrev pub check_read : Library → (Fields → Option String) → Read → Validated
check_read lib dumps r = need r.public_key "public_key is required." λ public_key.
    require (valid_public_jwk lib "deriveKey" public_key)
      "public_key must be a P-256 ECDH public JWK."
      (need r.public_signing_key "public_signing_key is required." λ public_signing_key.
        require (valid_public_jwk lib "verify" public_signing_key)
          "public_signing_key must be a P-256 ECDSA public JWK."
          (need r.encrypted_private_key "encrypted_private_key is required."
            λ encrypted_private_key.
              need r.kdf_algorithm "kdf_algorithm is required." λ kdf_algorithm.
                require (kdf_algorithm == "PBKDF2-SHA-256") "kdf_algorithm must be PBKDF2-SHA-256."
                  (need r.kdf_salt "kdf_salt is required." λ kdf_salt.
                    need_fields r.kdf_params "kdf_params must be a non-empty object." λ kdf_params.
                      check_values lib dumps (record {
                        public_key = public_key;
                        public_signing_key = public_signing_key;
                        encrypted_private_key = encrypted_private_key;
                        kdf_algorithm = kdf_algorithm;
                        kdf_params = kdf_params;
                        kdf_salt = kdf_salt;
                        wrapping_algorithm = r.wrapping_algorithm;
                        recovery_state = r.recovery_state;
                      }))))

abbrev pub is_own : ℕ → Json → Bool
is_own user id = is_null id || equals user id

unfoldable pub validate_chat_key_payload : Library → (Fields → Option String) → ℕ → Json → Validated
validate_chat_key_payload lib dumps user (object payload) =
    require (not (contains_forbidden (object payload)))
      "Plaintext chat key material is not accepted."
      (require (is_own user (get "user_id" payload))
        "Chat keys can only be provisioned for the authenticated user."
        (check_read lib dumps (read_payload payload)))
validate_chat_key_payload lib dumps user v = invalid "Expected a JSON object."
