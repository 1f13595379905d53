-- ===== src/ChatKeys/Secrets/Nested.antt =====
-- hushline/chat_key_lifecycle.py: the search for a forbidden name finds each key of each dictionary.
use hushline.Common.{
  ℕ, List, [], ◌∷◌, ◌≢◌, All, any, codes, text_eq, nat_eq, nat_beq_iff, refl, ◌≡◌, Bool, true,
  false, ◌||◌, inl, inr, String, arith, Bool-cases,
}
use hushline.Model.Json.{Json, array, object, Items, item, Fields, field}
use hushline.ChatKeys.Secrets.{
  normalized_payload_key, is_forbidden, contains_forbidden, items_contain_forbidden,
  fields_contain_forbidden,
}

-- A key of a dictionary that stands somewhere in a value.
mutual
  pub data KeyIn (key : String) : Json → Type 0 where
    in_object : {fs : Fields} → KeyInFields key fs → KeyIn key (object fs)
    in_array : {vs : Items} → KeyInItems key vs → KeyIn key (array vs)

  pub data KeyInItems (key : String) : Items → Type 0 where
    this_item : {v : Json} {vs : Items} → KeyIn key v → KeyInItems key (item v vs)
    later_item : {v : Json} {vs : Items} → KeyInItems key vs → KeyInItems key (item v vs)

  pub data KeyInFields (key : String) : Fields → Type 0 where
    this_key : {v : Json} {fs : Fields} → KeyInFields key (field key v fs)
    this_value :
        {k : String} {v : Json} {fs : Fields} → KeyIn key v → KeyInFields key (field k v fs)
    later_field :
        {k : String} {v : Json} {fs : Fields} → KeyInFields key fs → KeyInFields key (field k v fs)

or_true_left : (a b : Bool) → a ≡ true → (a || b) ≡ true
or_true_left a b h = ground arith

or_true_right : (a b : Bool) → b ≡ true → (a || b) ≡ true
or_true_right a b h = ground arith

mutual
  unfolding contains_forbidden

  found :
      (key : String) {v : Json}
      → is_forbidden key ≡ true
      → KeyIn key v
      → contains_forbidden v ≡ true
  found key h (in_object k) = found_in_fields key h k
  found key h (in_array k) = found_in_items key h k

  found_in_items :
      (key : String) {vs : Items}
      → is_forbidden key ≡ true
      → KeyInItems key vs
      → items_contain_forbidden vs ≡ true
  found_in_items key h (this_item {v} {vs} k) =
      or_true_left (contains_forbidden v) (items_contain_forbidden vs) (found key h k)
  found_in_items key h (later_item {v} {vs} k) =
      or_true_right (contains_forbidden v) (items_contain_forbidden vs) (found_in_items key h k)

  found_in_fields :
      (key : String) {fs : Fields}
      → is_forbidden key ≡ true
      → KeyInFields key fs
      → fields_contain_forbidden fs ≡ true
  found_in_fields key h (this_key {v} {fs}) = or_true_left (is_forbidden key) _ h
  found_in_fields key h (this_value {k} {v} {fs} x) =
      or_true_right (is_forbidden k) _
        (or_true_left (contains_forbidden v) (fields_contain_forbidden fs) (found key h x))
  found_in_fields key h (later_field {k} {v} {fs} x) =
      or_true_right (is_forbidden k) _ (
        or_true_right (contains_forbidden v) (fields_contain_forbidden fs)
          (found_in_fields key h x))

-- The names of plaintext secrets.
abbrev pub secret_names : List String
secret_names =
    "decrypted_message_text" ∷ "decrypted_private_key" ∷ "derived_key" ∷ "password"
    ∷ "plaintext_private_key" ∷ "private_key" ∷ "unlock_key" ∷ "wrapping_key" ∷ []

-- However it is cased, spaced or hyphenated, the key is none of them.
abbrev pub IsHarmless : String → Type 0
IsHarmless key = All (λ name. normalized_payload_key key ≢ codes name) secret_names

text_eq-same : (s : List ℕ) → text_eq s s ≡ true
text_eq-same [] = refl
text_eq-same (c ∷ s) = let rest = text_eq-same s in ground (arith, (nat_beq_iff c c).1 refl)

none_named :
    (s : List ℕ) (names : List String)
    → any (λ name. text_eq s (codes name)) names ≡ false
    → All (λ name. s ≢ codes name) names
none_named s [] e = tt
none_named s (n ∷ names) e = (
  λ same.
      let hit : text_eq s (codes n) ≡ true = rw (← same) (text_eq-same s) in absurd (ground arith),
  none_named s names (ground arith),
)

-- Every key of every dictionary in an accepted value is harmless.
pub none_forbidden :
    (v : Json) (key : String) → contains_forbidden v ≡ false → KeyIn key v → IsHarmless key
unfolding is_forbidden
none_forbidden v key h k = elim (Bool-cases (is_forbidden key)) [
  | inl f ↦ absurd (cc (h, found key f k))
  | inr f ↦ none_named (normalized_payload_key key) secret_names f
]
