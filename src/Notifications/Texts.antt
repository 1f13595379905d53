-- ===== src/Notifications/Texts.antt =====
-- hushline/model/user.py, message_recipient_keys: membership in the lists of keys.
use hushline.Common.{
  ◌≡◌, refl, sym, ap, ◌∙◌, Bool, true, false, ◌&&◌, ◌||◌, Option, none, some, List, [], ◌∷◌, ◌++◌,
  String, if◌then◌else◌, ◌==◌, nat_eq, string_eq, option_eq, eq_iff, any, rows, arith, Bool-cases,
  inl, inr,
}
use hushline.Notifications.{Recipient, text_list, keys_of, contains, without_text, from_keys}

pub text_sym : (s k : String) → (s == k) ≡ false → (k == s) ≡ false
text_sym s k h = elim (Bool-cases (k == s)) [
  | inr e ↦ e
  | inl e ↦ cc ((eq_iff s k).1 (sym ((eq_iff k s).0 e)), h)
]

-- A text is not both of two different ones.
pub text_other : (x s k : String) → (x == s) ≡ true → (k == s) ≡ false → (x == k) ≡ false
text_other x s k e h = ap (λ t. t == k) ((eq_iff x s).0 e) ∙ text_sym k s h

pub contains-append :
    (k : String) (xs ys : List String) → contains k (xs ++ ys) ≡ (contains k xs || contains k ys)
contains-append k [] ys = refl
contains-append k (x ∷ xs) ys = ground (arith, contains-append k xs ys)

contains-without_text :
    (k s : String) (xs : List String)
    → (k == s) ≡ false
    → contains k (without_text s xs) ≡ contains k xs
contains-without_text k s [] h = refl
contains-without_text k s (x ∷ xs) h = elim (Bool-cases (x == s)) [
  | inr e ↦ rw (e, contains-without_text k s xs h) refl
  | inl e ↦ rw (e, text_other x s k e h) (contains-without_text k s xs h)
]

pub contains-from_keys : (k : String) (xs : List String) → contains k (from_keys xs) ≡ contains k xs
contains-from_keys k [] = refl
contains-from_keys k (s ∷ xs) = elim (Bool-cases (s == k)) [
  | inl e ↦ rw e refl
  | inr e ↦
      rw e (contains-without_text k s (from_keys xs) (text_sym s k e) ∙ contains-from_keys k xs)
]

pub contains-text_list :
    (k : String) (o : Option String) → (k == "") ≡ false → contains k (text_list o) ≡ (o == some k)
contains-text_list k none h = refl
contains-text_list k (some s) h = elim (Bool-cases (s == "")) [
  | inl e ↦ rw (e, text_other s "" k e h) refl
  | inr e ↦ rw e (bare (s == k))
]
  where
    bare : (b : Bool) → (if b then true else false) ≡ b
    bare b = ground arith

pub contains-keys_of :
    (k : String) (rs : List Recipient)
    → (k == "") ≡ false
    → contains k (keys_of rs) ≡ any (λ (r : Recipient). r.pgp_key == some k) rs
contains-keys_of k [] h = refl
contains-keys_of k (r ∷ rs) h =
    contains-append k (text_list r.pgp_key) (keys_of rs)
    ∙ rw (contains-text_list k r.pgp_key h, contains-keys_of k rs h) (ground arith)

pub any-rows :
    (p q : Recipient → Bool) (rs : List Recipient) → any p (rows q rs) ≡ any (λ r. q r && p r) rs
any-rows p q [] = refl
any-rows p q (r ∷ rs) = elim (Bool-cases (q r)) [
  | inl e ↦ rw (e, any-rows p q rs) refl
  | inr e ↦ rw (e, any-rows p q rs) refl
]
