-- ===== src/Conversation/Signature.antt =====
-- hushline/routes/message.py: the signature over a message's ciphertext envelope, and the sender's
-- public key, a JSON web key.
use Prim.Native.Nat.{◌%◌}
use Prim.Native.String
use hushline.Common.{
  ℕ, zero, suc, ◌+◌, ◌-◌, ◌*◌, Bool, false, ◌&&◌, Option, none, some, List, [], ◌∷◌, String,
  if◌then◌else◌, ◌==◌, nat_eq, string_eq, length,
}
use hushline.Conversation.Envelope.{
  Json, text, object, Fields, no_fields, field, Library, lookup, get, load_object, equals,
  is_the_text, text_length,
}

abbrev bytes_to_int : List ℕ → ℕ → ℕ
bytes_to_int [] acc = acc
bytes_to_int (b ∷ bs) acc = bytes_to_int bs (acc * 256 + b)

abbrev take : ℕ → List ℕ → List ℕ
take zero xs = []
take (suc n) [] = []
take (suc n) (x ∷ xs) = x ∷ take n xs

abbrev drop : ℕ → List ℕ → List ℕ
drop zero xs = xs
drop (suc n) [] = []
drop (suc n) (x ∷ xs) = drop n xs

abbrev coordinate_length : ℕ
coordinate_length = 32

-- `"=" * (-len(value) % 4)`
abbrev equals_signs : ℕ → String
equals_signs zero = ""
equals_signs (suc n) = String.◌++◌ "=" (equals_signs n)

abbrev padded : String → String
padded s = String.◌++◌ s (equals_signs ((4 - text_length s % 4) % 4))

-- `_decode_jwk_coordinate`
abbrev coordinate : Option (List ℕ) → Option ℕ
coordinate none = none
coordinate (some bs) = if length bs == coordinate_length then some (bytes_to_int bs 0) else none

abbrev decode_jwk_coordinate : Library → Json → Option ℕ
decode_jwk_coordinate lib (text s) =
    if s == "" then none else coordinate (lib.urlsafe_b64decode (padded s))
decode_jwk_coordinate lib _ = none

-- `_chat_signing_public_key`: the key is its two coordinates.
abbrev point : Library → Option ℕ → Option ℕ → Option (ℕ × ℕ)
point lib (some x) (some y) = if lib.is_public_key x y then some (x, y) else none
point lib _ _ = none

abbrev public_key : Library → Option Fields → Option (ℕ × ℕ)
public_key lib none = none
public_key lib (some jwk) =
    if is_the_text "EC" (get "kty" jwk) && is_the_text "P-256" (get "crv" jwk)
    then point lib (decode_jwk_coordinate lib (get "x" jwk))
        (decode_jwk_coordinate lib (get "y" jwk))
    else none

unfoldable pub signing_public_key : Library → Option String → Option (ℕ × ℕ)
signing_public_key lib none = none
signing_public_key lib (some key) = if key == "" then none else public_key lib (load_object lib key)

-- `_canonical_chat_signature_payload`; the printer sorts the keys.
abbrev signed_fields :
    Library
    → Option Json
    → Option Json
    → Option Json
    → Option Json
    → Option Json
    → Option Json
    → Option String
signed_fields lib (some v) (some a) (some k) (some i) (some c) (some x) = lib.dumps (
    object (
      field "v" v (
        field "algorithm" a (
          field "ephemeral_public_key" k
            (field "iv" i (field "ciphertext" c (field "context" x no_fields)))))))
signed_fields lib _ _ _ _ _ _ = none

abbrev pub canonical_payload : Library → Fields → Option String
canonical_payload lib e =
    signed_fields lib (lookup "v" e) (lookup "algorithm" e) (lookup "ephemeral_public_key" e)
      (lookup "iv" e) (lookup "ciphertext" e) (lookup "context" e)

-- `_chat_ciphertext_signature_is_valid`
abbrev verify_bytes : Library → ℕ × ℕ → String → Option (List ℕ) → Bool
verify_bytes lib key payload none = false
verify_bytes lib (x, y) payload (some bs) =
    length bs == 64
    && lib.verify x y (bytes_to_int (take coordinate_length bs) 0)
        (bytes_to_int (drop coordinate_length bs) 0) payload

abbrev verify_payload : Library → ℕ × ℕ → Json → Option String → Bool
verify_payload lib key (text signature) (some payload) =
    verify_bytes lib key payload (lib.b64decode signature)
verify_payload lib key _ _ = false

abbrev verify_envelope : Library → ℕ × ℕ → Option Fields → Bool
verify_envelope lib key none = false
verify_envelope lib key (some e) =
    equals 2 (get "v" e) && verify_payload lib key (get "signature" e) (canonical_payload lib e)

abbrev is_signed_by : Library → Option (ℕ × ℕ) → String → Bool
is_signed_by lib none value = false
is_signed_by lib (some key) value = verify_envelope lib key (load_object lib value)

unfoldable pub is_signed : Library → Option String → Json → Bool
is_signed lib key (text s) = is_signed_by lib (signing_public_key lib key) s
is_signed lib key _ = false
