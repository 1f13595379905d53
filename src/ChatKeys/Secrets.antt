-- ===== src/ChatKeys/Secrets.antt =====
-- hushline/chat_key_lifecycle.py: the names under which no plaintext key may be sent, at any depth of
-- the payload.
pub mod Nested
use hushline.Common.{
  strip, ℕ, ◌+◌, Bool, true, false, ◌&&◌, ◌||◌, List, [], ◌∷◌, String, if◌then◌else◌, ◌==◌, nat_eq,
  leb, any, codes, is_space, text_eq,
}
use hushline.Model.Json.{
  Json, null, boolean, number, float, text, array, object, Items, no_items, item, Fields, no_fields,
  field,
}

-- `.lower().replace("-", "_")` of a code point. Of the letters beyond ASCII only the Kelvin sign has
-- an ASCII letter for its lower case; the others are left as they are, since the names are ASCII.
abbrev lower : ℕ → ℕ
lower c = if leb b'A' c && leb c b'Z' then c + 32 else if c == 8490 then b'k' else c

abbrev normal_code : ℕ → ℕ
normal_code c = if c == b'-' then b'_' else lower c

abbrev normal : List ℕ → List ℕ
normal [] = []
normal (c ∷ s) = normal_code c ∷ normal s

abbrev pub normalized_payload_key : String → List ℕ
normalized_payload_key value = normal (codes (strip value))

abbrev forbidden_secret_fields : List String
forbidden_secret_fields =
    "decrypted_message_text" ∷ "decrypted_private_key" ∷ "derived_key" ∷ "password"
    ∷ "plaintext_private_key" ∷ "private_key" ∷ "unlock_key" ∷ "wrapping_key" ∷ []

unfoldable pub is_forbidden : String → Bool
is_forbidden key =
    any (λ name. text_eq (normalized_payload_key key) (codes name)) forbidden_secret_fields

-- `payload_contains_forbidden_secret_field`, of a value, of a list and of a dictionary's entries
unfoldable mutual
  pub contains_forbidden : Json → Bool
  contains_forbidden (object fs) = fields_contain_forbidden fs
  contains_forbidden (array xs) = items_contain_forbidden xs
  contains_forbidden null = false
  contains_forbidden (boolean b) = false
  contains_forbidden (number i) = false
  contains_forbidden (float i) = false
  contains_forbidden (text s) = false

  pub items_contain_forbidden : Items → Bool
  items_contain_forbidden no_items = false
  items_contain_forbidden (item v vs) = contains_forbidden v || items_contain_forbidden vs

  pub fields_contain_forbidden : Fields → Bool
  fields_contain_forbidden no_fields = false
  fields_contain_forbidden (field key v rest) =
      is_forbidden key || (contains_forbidden v || fields_contain_forbidden rest)
