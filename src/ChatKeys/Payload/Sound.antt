-- ===== src/ChatKeys/Payload/Sound.antt =====
-- hushline/chat_key_lifecycle.py: what holds of a payload that `validate_chat_key_payload` accepts.
use hushline.Common.{
  List, [], ◌∷◌, All, ◌⊎◌, ℕ, ◌≤◌, ◌≡◌, refl, ap, ◌∙◌, true, Option, none, some, String, string_eq,
  pos, arith, eq_iff,
}
use hushline.Model.ChatKey.{Payload}
use hushline.Model.Json.{Json, null, boolean, number, float, text, array, object, Fields, get}
use hushline.Conversation.Envelope.{Library, is_the_text, text_length}
use hushline.ChatKeys.Payload.{
  metadata_max_length, recovery_state_max_length, min_iterations, Read, read_payload,
  validate_wrapped_private_key, base64_bytes, has_length,
}
use hushline.ChatKeys.Secrets.Nested.{KeyIn, IsHarmless, none_forbidden}
use hushline.ChatKeys.Payload.Keys.{IsPublicKey, the_text_sound, valid_public_jwk_sound}
use hushline.ChatKeys.Payload.Wrapped.{
  HasBytes, IsWrapped, IsNumber, has_length_sound, validate_wrapped_private_key_sound, is_own_sound,
}
use hushline.ChatKeys.Payload.Check.{
  valid, is_short, fits, check_values, check_read, validate_chat_key_payload,
}
use hushline.ChatKeys.Payload.Require.{
  require_sound, need_sound, need_fields_sound, need_int_sound, check_wrapped_sound, enough,
}

is_short_sound :
    (n : ℕ) (o : Option String)
    → is_short n o ≡ true
    → (s : String) → o ≡ some s
    → text_length s ≤ n
is_short_sound n none e s h = cc
is_short_sound n (some t) e s h = let same : t ≡ s = cc h in rw (← same) (ground (arith, e))

-- No text is longer than this.
abbrev IsWithin : ℕ → List String → Type 0
IsWithin n texts = All (λ s. text_length s ≤ n) texts

-- A key that may be stored.
pub record IsSafe (lib : Library) (dumps : Fields → Option String) (p : Payload) : Type 0 where
  pub agreement_key : IsPublicKey lib "deriveKey" p.public_key
  pub signing_key : IsPublicKey lib "verify" p.public_signing_key
  pub derivation : p.kdf_algorithm ≡ "PBKDF2-SHA-256"
  pub hash : get "hash" p.kdf_params ≡ text "SHA-256"
  pub iterations : (n : ℕ) × (get "iterations" p.kdf_params ≡ number (pos n)) × (310000 ≤ n)
  pub salt : HasBytes lib 16 (text p.kdf_salt)
  pub wrapping : p.wrapping_algorithm ≡ "AES-GCM"
  pub wrapped : IsWrapped lib p.encrypted_private_key
  pub lengths : IsWithin 200000 (
      p.public_key ∷ p.public_signing_key ∷ p.encrypted_private_key ∷ p.kdf_algorithm ∷ p.kdf_salt
      ∷ p.wrapping_algorithm ∷ [])
  pub params : (s : String) × (dumps p.kdf_params ≡ some s) × (text_length s ≤ 20000)
  pub state : (s : String) → p.recovery_state ≡ some s → text_length s ≤ 64

fits_sound :
    (p : Payload)
    → fits p ≡ true
    → IsWithin 200000 (
        p.public_key ∷ p.public_signing_key ∷ p.encrypted_private_key ∷ p.kdf_algorithm ∷ p.kdf_salt
        ∷ p.wrapping_algorithm ∷ [])
fits_sound p e = (
  ground (arith, e),
  (
    ground (arith, e),
    (ground (arith, e), (ground (arith, e), (ground (arith, e), (ground (arith, e), tt)))),
  ),
)

-- What `check_values` shows on its own.
abbrev HasValues : Library → (Fields → Option String) → Payload → Type 0
HasValues lib dumps p =
    (fits p ≡ true)
    × (is_the_text "SHA-256" (get "hash" p.kdf_params) ≡ true)
    × ((n : ℕ) × (get "iterations" p.kdf_params ≡ number (pos n)) × (min_iterations ≤ n))
    × (has_length 16 (base64_bytes lib (text p.kdf_salt)) ≡ true)
    × (p.wrapping_algorithm ≡ "AES-GCM")
    × (validate_wrapped_private_key lib p.encrypted_private_key ≡ none)
    × ((s : String) × (dumps p.kdf_params ≡ some s) × (text_length s ≤ metadata_max_length))
    × (is_short recovery_state_max_length p.recovery_state ≡ true)

check_values_sound :
    (lib : Library) (dumps : Fields → Option String) (q : Payload) {p : Payload}
    → check_values lib dumps q ≡ valid p
    → (q ≡ p) × HasValues lib dumps q
check_values_sound lib dumps q e =
    let (lengths, e1) = require_sound _ _ _ e in
    let (hash, e2) = require_sound _ _ _ e1 in
    let (i, int, e3) = need_int_sound _ _ _ e2 in
    let (low, e4) = require_sound _ _ _ e3 in
    let (_, e5) = require_sound _ _ _ e4 in
    let (salt, e6) = require_sound _ _ _ e5 in
    let (wrapping, e7) = require_sound _ _ _ e6 in
    let (wrapped, e8) = check_wrapped_sound _ _ e7 in
    let (s, dumped, e9) = need_sound _ _ _ e8 in
    let (small, e10) = require_sound _ _ _ e9 in
    let (short, e11) = require_sound _ _ _ e10 in
    let (n, at, more) = enough i low in
    (
      cc e11,
      (
        lengths,
        hash,
        (n, int ∙ ap number at, more),
        salt,
        (eq_iff q.wrapping_algorithm "AES-GCM").0 wrapping,
        wrapped,
        (s, dumped, ground arith),
        short,
      ),
    )

check_read_sound :
    (lib : Library) (dumps : Fields → Option String) (r : Read) {p : Payload}
    → check_read lib dumps r ≡ valid p
    → IsSafe lib dumps p
check_read_sound lib dumps r e =
    let (k, _, e1) = need_sound _ _ _ e in
    let (agreement, e2) = require_sound _ _ _ e1 in
    let (s, _, e3) = need_sound _ _ _ e2 in
    let (signing, e4) = require_sound _ _ _ e3 in
    let (w, _, e5) = need_sound _ _ _ e4 in
    let (a, _, e6) = need_sound _ _ _ e5 in
    let (derivation, e7) = require_sound _ _ _ e6 in
    let (t, _, e8) = need_sound _ _ _ e7 in
    let (fs, _, e9) = need_fields_sound _ _ _ e8 in
    let q : Payload = record {
      public_key = k;
      public_signing_key = s;
      encrypted_private_key = w;
      kdf_algorithm = a;
      kdf_params = fs;
      kdf_salt = t;
      wrapping_algorithm = r.wrapping_algorithm;
      recovery_state = r.recovery_state;
    } in
    let (same, (lengths, hash, iterations, salt, wrapping, wrapped, params, state)) =
      check_values_sound lib dumps q e9 in
    rw (← same) (record {
      agreement_key = valid_public_jwk_sound lib "deriveKey" k agreement;
      signing_key = valid_public_jwk_sound lib "verify" s signing;
      derivation = (eq_iff a "PBKDF2-SHA-256").0 derivation;
      hash = the_text_sound "SHA-256" (get "hash" fs) hash;
      iterations = iterations;
      salt = has_length_sound lib 16 (text t) salt;
      wrapping = wrapping;
      wrapped = validate_wrapped_private_key_sound lib w wrapped;
      lengths = fits_sound q lengths;
      params = params;
      state = is_short_sound 64 r.recovery_state state;
    })

-- In an accepted payload no key of any dictionary, at any depth, is the name of a plaintext secret;
-- its user id is missing or the user's; and the key that is read from it is complete and within every
-- bound: public keys on P-256 for their uses, PBKDF2 with SHA-256, at least 310000 iterations and a
-- salt of 16 bytes, a wrapping by AES-GCM with an IV of 12 bytes, a ciphertext and nothing else, and
-- texts of bounded length.
pub validate_chat_key_payload_sound :
    (lib : Library) (dumps : Fields → Option String) (user : ℕ) (v : Json) {p : Payload}
    → validate_chat_key_payload lib dumps user v ≡ valid p
    → ((key : String) → KeyIn key v → IsHarmless key)
      × ((payload : Fields) × (v ≡ object payload)
          × ((get "user_id" payload ≡ null) ⊎ IsNumber user (get "user_id" payload)))
      × IsSafe lib dumps p
unfolding validate_chat_key_payload
validate_chat_key_payload_sound lib dumps user (object payload) e =
    let (clean, e1) = require_sound _ _ _ e in
    let (own, e2) = require_sound _ _ _ e1 in
    (
      λ key. none_forbidden (object payload) key (ground (arith, clean)),
      (payload, refl, is_own_sound user (get "user_id" payload) own),
      check_read_sound lib dumps (read_payload payload) e2,
    )
validate_chat_key_payload_sound lib dumps user null e = cc
validate_chat_key_payload_sound lib dumps user (boolean b) e = cc
validate_chat_key_payload_sound lib dumps user (number i) e = cc
validate_chat_key_payload_sound lib dumps user (float i) e = cc
validate_chat_key_payload_sound lib dumps user (text s) e = cc
validate_chat_key_payload_sound lib dumps user (array vs) e = cc
