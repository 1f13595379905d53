-- ===== src/ChatKeys/Payload/Wrapped.antt =====
-- hushline/chat_key_lifecycle.py: what `_validate_wrapped_private_key` and `_base64_bytes` accept, and
-- whose a payload is.
use hushline.Common.{
  if◌then◌else◌, ℕ, ◌≡◌, ◌≢◌, refl, ap, ◌⊎◌, inl, inr, Bool, true, false, not, Option, none, some,
  is_none, List, [], ◌∷◌, String, ◌==◌, string_eq, nat_eq, nat_beq_iff, eq_iff, length, arith,
  Bool-cases, Option-cases, ℤ, pos, negsuc, if_cases,
}
use hushline.Model.Json.{
  Json, null, boolean, number, float, text, array, object, Fields, no_fields, field, lookup, get,
}
use hushline.Conversation.Envelope.{Library, is_the_text, is_null, equals, load_object}
use hushline.ChatKeys.Payload.{
  validate_wrapped_private_key, wrapped_error, base64_bytes, not_empty, has_length,
  is_wrapping_field, only_wrapping_fields, has_wrapping_fields,
}
use hushline.ChatKeys.Payload.Check.{is_own}
use hushline.ChatKeys.Payload.Keys.{the_text_sound}

-- A text of base64 with so many bytes.
abbrev pub HasBytes : Library → ℕ → Json → Type 0
HasBytes lib n v =
    (s : String) × (bs : List ℕ) × (v ≡ text s) × (lib.b64decode s ≡ some bs) × (length bs ≡ n)

-- The algorithm, the IV of 12 bytes and the ciphertext, and no other entry.
pub record IsWrapped (lib : Library) (value : String) : Type 0 where
  pub wrapped : Fields
  pub decoded : load_object lib value ≡ some wrapped
  pub algorithm : get "algorithm" wrapped ≡ text "AES-GCM"
  pub iv : HasBytes lib 12 (get "iv" wrapped)
  pub ciphertext : (n : ℕ) × (n ≢ 0) × HasBytes lib n (get "ciphertext" wrapped)
  pub only :
      (key : String) (v : Json)
      → lookup key wrapped ≡ some v
      → (key ≡ "algorithm") ⊎ (key ≡ "iv") ⊎ (key ≡ "ciphertext")

-- The number as JSON may write it: True equals 1.
abbrev pub IsNumber : ℕ → Json → Type 0
IsNumber n v =
    (v ≡ number (pos n))
    ⊎ (v ≡ float (some (pos n)))
    ⊎ ((v ≡ boolean true) × (n ≡ 1))
    ⊎ ((v ≡ boolean false) × (n ≡ 0))

not_empty_sound :
    (o : Option (List ℕ)) {bs : List ℕ} → not_empty o ≡ some bs → (o ≡ some bs) × (length bs ≢ 0)
not_empty_sound none e = absurd cc
not_empty_sound (some []) e = absurd cc
not_empty_sound (some (b ∷ bs)) {bs = cs} e =
    let same : b ∷ bs ≡ cs = cc e in (e, rw (← same) (λ z. absurd (ground arith)))

bytes_sound :
    (lib : Library) (v : Json) {bs : List ℕ}
    → base64_bytes lib v ≡ some bs
    → (s : String) × (v ≡ text s) × (lib.b64decode s ≡ some bs) × (length bs ≢ 0)
bytes_sound lib (text s) {bs} e =
    elim (if_cases (s == "") none (not_empty (lib.b64decode s)) (some bs) e) [
      | inl (_, x) ↦ absurd (cc x)
      | inr (_, x) ↦ let (q, ne) = not_empty_sound (lib.b64decode s) x in (s, refl, q, ne)
    ]
bytes_sound lib null e = absurd cc
bytes_sound lib (boolean b) e = absurd cc
bytes_sound lib (number i) e = absurd cc
bytes_sound lib (float i) e = absurd cc
bytes_sound lib (array vs) e = absurd cc
bytes_sound lib (object fs) e = absurd cc

pub has_length_sound :
    (lib : Library) (n : ℕ) (v : Json) → has_length n (base64_bytes lib v) ≡ true → HasBytes lib n v
has_length_sound lib n v h = elim (Option-cases (base64_bytes lib v)) [
  | inl e ↦ absurd (cc (rw e at h))
  | inr (bs, e) ↦
      let (s, is, decoded, _) = bytes_sound lib v e in
      (s, bs, is, decoded, (nat_beq_iff (length bs) n).0 (rw e at h))
]

some_bytes_sound :
    (lib : Library) (v : Json)
    → is_none (base64_bytes lib v) ≡ false
    → (n : ℕ) × (n ≢ 0) × HasBytes lib n v
some_bytes_sound lib v h = elim (Option-cases (base64_bytes lib v)) [
  | inl e ↦ absurd (cc (rw e at h))
  | inr (bs, e) ↦
      let (s, is, decoded, ne) = bytes_sound lib v e in (length bs, ne, (s, bs, is, decoded, refl))
]

wrapping_field_sound :
    (k : String) → is_wrapping_field k ≡ true → (k ≡ "algorithm") ⊎ (k ≡ "iv") ⊎ (k ≡ "ciphertext")
wrapping_field_sound k e = elim (Bool-cases (k == "algorithm")) [
  | inl h ↦ inl ((eq_iff k "algorithm").0 h)
  | inr a ↦ elim (Bool-cases (k == "iv")) [
    | inl h ↦ inr (inl ((eq_iff k "iv").0 h))
    | inr b ↦ inr (inr ((eq_iff k "ciphertext").0 (ground (arith, a, b, e))))
  ]
]

only_sound :
    (d : Fields) (key : String) (v : Json)
    → only_wrapping_fields d ≡ true
    → lookup key d ≡ some v
    → (key ≡ "algorithm") ⊎ (key ≡ "iv") ⊎ (key ≡ "ciphertext")
only_sound no_fields key v o e = absurd cc
only_sound (field k w rest) key v o e = elim (Bool-cases (k == key)) [
  | inl h ↦
      let is : k ≡ key = (eq_iff k key).0 h in rw (← is) (wrapping_field_sound k (ground arith))
  | inr h ↦ only_sound rest key v (ground arith) (rw h at e)
]

passes :
    (b : Bool) (error : String) {rest : Option String}
    → (if b then some error else rest) ≡ none
    → (b ≡ false) × (rest ≡ none)
passes true error e = cc
passes false error e = (refl, e)

no_wrapped_error :
    (lib : Library) (value : String) (o : Option Fields)
    → load_object lib value ≡ o
    → wrapped_error lib o ≡ none
    → IsWrapped lib value
no_wrapped_error lib value none d e = cc
no_wrapped_error lib value (some fs) d e =
    let (has, e1) = passes (not (has_wrapping_fields fs)) _ e in
    let (algorithm, e2) = passes (not (is_the_text "AES-GCM" (get "algorithm" fs))) _ e1 in
    let (_, e3) = passes (is_none (base64_bytes lib (get "iv" fs))) _ e2 in
    let (iv, e4) = passes (not (has_length 12 (base64_bytes lib (get "iv" fs)))) _ e3 in
    let (ciphertext, _) = passes (is_none (base64_bytes lib (get "ciphertext" fs))) _ e4 in
    record {
      wrapped = fs;
      decoded = d;
      algorithm = the_text_sound "AES-GCM" (get "algorithm" fs) (ground (arith, algorithm));
      iv = has_length_sound lib 12 (get "iv" fs) (ground (arith, iv));
      ciphertext = some_bytes_sound lib (get "ciphertext" fs) ciphertext;
      only = λ key v. only_sound fs key v (ground (arith, has));
    }

pub validate_wrapped_private_key_sound :
    (lib : Library) (value : String)
    → validate_wrapped_private_key lib value ≡ none
    → IsWrapped lib value
unfolding validate_wrapped_private_key
validate_wrapped_private_key_sound lib value e =
    no_wrapped_error lib value (load_object lib value) refl e

is_int_sound : (n : ℕ) (i : ℤ) → equals n (number i) ≡ true → i ≡ pos n
is_int_sound n (pos m) e = ap pos ((nat_beq_iff m n).0 e)
is_int_sound n (negsuc m) e = cc

equals_sound : (n : ℕ) (v : Json) → equals n v ≡ true → IsNumber n v
equals_sound n (number i) e = inl (ap number (is_int_sound n i e))
equals_sound n (float (some i)) e = inr (inl (ap (λ (j : ℤ). float (some j)) (is_int_sound n i e)))
equals_sound n (float none) e = cc
equals_sound n (boolean true) e = inr (inr (inl (refl, (nat_beq_iff n 1).0 e)))
equals_sound n (boolean false) e = inr (inr (inr (refl, (nat_beq_iff n 0).0 e)))
equals_sound n null e = cc
equals_sound n (text s) e = cc
equals_sound n (array vs) e = cc
equals_sound n (object fs) e = cc

null_sound : (v : Json) → is_null v ≡ true → v ≡ null
null_sound null e = refl
null_sound (boolean b) e = cc
null_sound (number i) e = cc
null_sound (float i) e = cc
null_sound (text s) e = cc
null_sound (array vs) e = cc
null_sound (object fs) e = cc

pub is_own_sound : (user : ℕ) (v : Json) → is_own user v ≡ true → (v ≡ null) ⊎ IsNumber user v
is_own_sound user v e = elim (Bool-cases (is_null v)) [
  | inl h ↦ inl (null_sound v h)
  | inr h ↦ inr (equals_sound user v (ground arith))
]
