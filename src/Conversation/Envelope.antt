-- ===== src/Conversation/Envelope.antt =====
-- hushline/routes/message.py: the checks of a message's ciphertext envelopes, each a JSON text that
-- names its conversation, sender and recipient and is signed by the sender.

pub use hushline.Model.Json.{
  Json, null, boolean, number, float, text, array, object, Items, no_items, item, Fields, no_fields,
  field, lookup, get,
}
use hushline.Common.{
  ℕ, suc, Bool, true, false, not, ◌&&◌, ◌||◌, Option, none, some, List, String, if◌then◌else◌, ◌==◌,
  nat_eq, string_eq, leb, ℤ, pos, negsuc,
}

-- The standard library and the cryptography library: the JSON parser and printer, `str` of what is
-- not a text, the two base64 decoders, the curve's test for a point, and ECDSA over P-256 with the
-- key's coordinates and the signature's two numbers.
pub record Library : Type 0 where
  pub loads : String → Option Json
  pub dumps : Json → Option String
  pub str : Json → String
  pub b64decode : String → Option (List ℕ)
  pub urlsafe_b64decode : String → Option (List ℕ)
  pub is_public_key : ℕ → ℕ → Bool
  pub verify : ℕ → ℕ → ℕ → ℕ → String → Bool

abbrev pub py_str : Library → Json → String
py_str lib (text s) = s
py_str lib v = lib.str v

abbrev pub str_id : Library → ℕ → String
str_id lib id = py_str lib (number (pos id))

abbrev fields_of : Option Json → Option Fields
fields_of (some (object fs)) = some fs
fields_of _ = none

-- `current_app.json.loads(value)` where it has to be an object.
abbrev pub load_object : Library → String → Option Fields
load_object lib value = fields_of (lib.loads value)

abbrev pub is_text : Json → Bool
is_text (text s) = not (s == "")
is_text _ = false

abbrev pub is_the_text : String → Json → Bool
is_the_text t (text s) = s == t
is_the_text t _ = false

abbrev is_object : Json → Bool
is_object (object fs) = true
is_object _ = false

-- `v == n`, which holds of an equal float, and of True for 1.
abbrev is_int : ℕ → ℤ → Bool
is_int n (pos m) = m == n
is_int n (negsuc m) = false

abbrev pub equals : ℕ → Json → Bool
equals n (number i) = is_int n i
equals n (float (some i)) = is_int n i
equals n (boolean true) = n == 1
equals n (boolean false) = n == 0
equals n _ = false

abbrev pub is_null : Json → Bool
is_null null = true
is_null _ = false

abbrev pub text_length : String → ℕ
text_length String.[] = 0
text_length (String.◌∷◌ c s) = suc (text_length s)

abbrev max_length : ℕ
max_length = 200000

-- `_is_chat_ciphertext_envelope`
abbrev is_versioned : Fields → Bool
is_versioned e =
    is_null (get "v" e)
    || equals 1 (get "v" e)
    || (equals 2 (get "v" e) && (is_object (get "context" e) && is_text (get "signature" e)))

abbrev is_sealed : Option Fields → Bool
is_sealed none = false
is_sealed (some e) =
    is_text (get "algorithm" e)
    && (is_text (get "ephemeral_public_key" e)
        && (is_text (get "iv" e)
            && (is_text (get "ciphertext" e)
                && (is_the_text "ECDH-P256-AES-GCM" (get "algorithm" e) && is_versioned e))))

unfoldable pub is_envelope : Library → Json → Bool
is_envelope lib (text s) =
    not (s == "") && (leb (text_length s) max_length && is_sealed (load_object lib s))
is_envelope lib _ = false

-- `_chat_ciphertext_context`
abbrev as_fields : Json → Option Fields
as_fields (object fs) = some fs
as_fields _ = none

abbrev context_of : Option Fields → Option Fields
context_of none = none
context_of (some e) = if equals 2 (get "v" e) then as_fields (get "context" e) else none

abbrev pub ciphertext_context : Library → String → Option Fields
ciphertext_context lib value = context_of (load_object lib value)

-- The body of the loop of `_chat_ciphertext_context_is_bound`, for one copy.
abbrev is_conversation : Library → ℕ → String → Fields → Bool
is_conversation lib id public_id c =
    if is_null (get "conversation_public_id" c)
    then py_str lib (get "conversation_id" c) == str_id lib id
    else py_str lib (get "conversation_public_id" c) == public_id

abbrev is_bound_context : Library → ℕ → String → ℕ → String → Option Fields → Bool
is_bound_context lib id public_id sender recipient none = false
is_bound_context lib id public_id sender recipient (some c) =
    is_the_text "hushline.chat.message" (get "purpose" c)
    && (is_conversation lib id public_id c
        && (py_str lib (get "sender_participant_id" c) == str_id lib sender
            && py_str lib (get "recipient_participant_id" c) == recipient))

unfoldable pub is_bound : Library → ℕ → String → ℕ → String → Json → Bool
is_bound lib id public_id sender recipient (text s) =
    is_bound_context lib id public_id sender recipient (ciphertext_context lib s)
is_bound lib id public_id sender recipient _ = false
