-- ===== src/ChatKeys/Payload/Keys.antt =====
-- hushline/chat_key_lifecycle.py: what `_valid_public_jwk` accepts.
use hushline.Common.{
  ◌≡◌, ◌≢◌, refl, ap, ◌⊎◌, inl, inr, true, Option, none, some, String, string_eq, nat_eq, eq_iff,
  arith, Bool-cases,
}
use hushline.Model.Json.{
  Json, null, boolean, number, float, text, array, object, Items, no_items, item, Fields, get,
}
use hushline.Conversation.Envelope.{Library, is_the_text, is_text, load_object}
use hushline.ChatKeys.Payload.{valid_public_jwk, is_p256, allows, has_text, is_no_item}

abbrev pub HasItem : Json → Items → Type 0
HasItem v no_items = ⊥
HasItem v (item w vs) = (w ≡ v) ⊎ HasItem v vs

-- A text of a dictionary that is not empty.
abbrev pub HasText : String → Fields → Type 0
HasText key fs = (s : String) × (get key fs ≡ text s) × (s ≢ "")

-- A public key on P-256, as a JWK, that names the operation if it names any.
pub record IsPublicKey (lib : Library) (op value : String) : Type 0 where
  pub jwk : Fields
  pub decoded : load_object lib value ≡ some jwk
  pub type : get "kty" jwk ≡ text "EC"
  pub curve : get "crv" jwk ≡ text "P-256"
  pub x : HasText "x" jwk
  pub y : HasText "y" jwk
  pub operations :
      (get "key_ops" jwk ≡ null)
      ⊎ ((vs : Items) × (get "key_ops" jwk ≡ array vs) × ((vs ≡ no_items) ⊎ HasItem (text op) vs))

pub the_text_sound : (t : String) (v : Json) → is_the_text t v ≡ true → v ≡ text t
the_text_sound t (text s) e = ap text ((eq_iff s t).0 e)
the_text_sound t null e = cc
the_text_sound t (boolean b) e = cc
the_text_sound t (number i) e = cc
the_text_sound t (float i) e = cc
the_text_sound t (array vs) e = cc
the_text_sound t (object fs) e = cc

is_text_sound : (v : Json) → is_text v ≡ true → (s : String) × (v ≡ text s) × (s ≢ "")
is_text_sound (text s) e = (s, refl, λ q. absurd (ground (arith, (eq_iff s "").1 q)))
is_text_sound null e = cc
is_text_sound (boolean b) e = cc
is_text_sound (number i) e = cc
is_text_sound (float i) e = cc
is_text_sound (array vs) e = cc
is_text_sound (object fs) e = cc

has_text_sound : (t : String) (vs : Items) → has_text t vs ≡ true → HasItem (text t) vs
has_text_sound t no_items e = cc
has_text_sound t (item v vs) e = elim (Bool-cases (is_the_text t v)) [
  | inl h ↦ inl (the_text_sound t v h)
  | inr h ↦ inr (has_text_sound t vs (rw h at e))
]

no_item_sound : (vs : Items) → is_no_item vs ≡ true → vs ≡ no_items
no_item_sound no_items e = refl
no_item_sound (item v vs) e = cc

allows_sound :
    (op : String) (v : Json)
    → allows op v ≡ true
    → (v ≡ null) ⊎ ((vs : Items) × (v ≡ array vs) × ((vs ≡ no_items) ⊎ HasItem (text op) vs))
allows_sound op null e = inl refl
allows_sound op (array vs) e = inr (
  vs,
  refl,
  elim (Bool-cases (is_no_item vs)) [
    | inl h ↦ inl (no_item_sound vs h)
    | inr h ↦ inr (has_text_sound op vs (ground arith))
  ],
)
allows_sound op (boolean b) e = cc
allows_sound op (number i) e = cc
allows_sound op (float i) e = cc
allows_sound op (text s) e = cc
allows_sound op (object fs) e = cc

is_p256_sound :
    (lib : Library) (op value : String) (o : Option Fields)
    → load_object lib value ≡ o
    → is_p256 op o ≡ true
    → IsPublicKey lib op value
is_p256_sound lib op value none d e = cc
is_p256_sound lib op value (some jwk) d e = record {
  jwk = jwk;
  decoded = d;
  type = the_text_sound "EC" (get "kty" jwk) (ground arith);
  curve = the_text_sound "P-256" (get "crv" jwk) (ground arith);
  x = is_text_sound (get "x" jwk) (ground arith);
  y = is_text_sound (get "y" jwk) (ground arith);
  operations = allows_sound op (get "key_ops" jwk) (ground arith);
}

pub valid_public_jwk_sound :
    (lib : Library) (op value : String)
    → valid_public_jwk lib op value ≡ true
    → IsPublicKey lib op value
unfolding valid_public_jwk
valid_public_jwk_sound lib op value e = is_p256_sound lib op value (load_object lib value) refl e
