-- ===== src/Notifications/Keys.antt =====
-- hushline/model/user.py, message_recipient_keys: whose keys a user's messages are encrypted with.
use hushline.Common.{
  ℕ, ◌≡◌, refl, sym, ap, ◌∙◌, Bool, true, false, not, ◌&&◌, ◌||◌, Option, none, some, List, [], ◌∷◌,
  String, if◌then◌else◌, ◌==◌, nat_eq, string_eq, option_eq, any, rows, first, All, arith,
  Bool-cases, inl, inr, nat_beq_iff,
}
use hushline.Notifications.{
  Recipient, Account, has_text, is_reachable, is_first, primary_keys, is_other, keys_of, contains,
  message_recipient_keys,
}
use hushline.Notifications.Texts.{
  text_other, contains-append, contains-from_keys, contains-text_list, contains-keys_of, any-rows,
}

-- The primary key of the recipients.
abbrev pub AreKeyed : List Recipient → Type 0
AreKeyed [] = Unit
AreKeyed (r ∷ rs) = All (λ (s : Recipient). (s.id == r.id) ≡ false) rs × AreKeyed rs

-- The recipient at position 0 gets mail and has a key.
abbrev pub has_primary_key : Option Recipient → Bool
has_primary_key none = false
has_primary_key (some r) = is_reachable r && has_text r.pgp_key

-- The rows are the one with an id, and the others.
any-split :
    (q : Recipient → Bool) (i : ℕ) (rs : List Recipient)
    → any q rs ≡ (
        any (λ (r : Recipient). r.id == i && q r) rs
        || any (λ (r : Recipient). not (r.id == i) && q r) rs)
any-split q i [] = refl
any-split q i (r ∷ rs) = elim (Bool-cases (r.id == i)) [
  | inl e ↦ rw (e, any-split q i rs) (ground arith)
  | inr e ↦ rw (e, any-split q i rs) (ground arith)
]

any-absent :
    (q : Recipient → Bool) (i : ℕ) (rs : List Recipient)
    → All (λ (s : Recipient). (s.id == i) ≡ false) rs
    → any (λ (r : Recipient). r.id == i && q r) rs ≡ false
any-absent q i [] h = refl
any-absent q i (r ∷ rs) (h, hs) = rw (h, any-absent q i rs hs) refl

first-All :
    (p : Recipient → Bool) (P : Recipient → Type 0) (rs : List Recipient) {r : Recipient}
    → first p rs ≡ some r
    → All P rs
    → P r
first-All p P [] e h = cc
first-All p P (s ∷ rs) {r} e (h, hs) = elim (Bool-cases (p s)) [
  | inl b ↦ let x : s ≡ r = cc (rw b at e) in rw x at h
  | inr b ↦ first-All p P rs (rw b at e) hs
]

any_self :
    (q : Recipient → Bool) (s : Recipient) (rs : List Recipient)
    → All (λ (t : Recipient). (t.id == s.id) ≡ false) rs
    → any (λ (t : Recipient). t.id == s.id && q t) (s ∷ rs) ≡ q s
any_self q s rs f = rw ((nat_beq_iff s.id s.id).1 refl, any-absent q s.id rs f) (bare (q s))
  where
    bare : (b : Bool) → (if b then true else false) ≡ b
    bare b = ground arith

any-cong :
    (p q : Recipient → Bool)
    → ((r : Recipient) → p r ≡ q r)
    → (rs : List Recipient) → any p rs ≡ any q rs
any-cong p q h [] = refl
any-cong p q h (r ∷ rs) = rw (h r, any-cong p q h rs) refl

-- Of the rows with the id of the one that is found there is only that one.
any-found :
    (p q : Recipient → Bool) (rs : List Recipient) {r : Recipient}
    → AreKeyed rs
    → first p rs ≡ some r
    → any (λ (s : Recipient). s.id == r.id && q s) rs ≡ q r
any-found p q [] k e = cc
any-found p q (s ∷ rs) {r} (f, k) e = elim (Bool-cases (p s)) [
  | inl b ↦
      let x : s ≡ r = cc (rw b at e) in
      ap (λ (t : Recipient). any (λ (v : Recipient). v.id == t.id && q v) (s ∷ rs)) (sym x)
      ∙ any_self q s rs f
      ∙ ap q x
  | inr b ↦
      let g : first p rs ≡ some r = rw b at e in
      let n : (s.id == r.id) ≡ false =
        ground (arith, first-All p (λ (t : Recipient). (t.id == s.id) ≡ false) rs g f) in
      rw n (any-found p q rs k g)
]

no_text :
    (o : Option String) (k : String)
    → (k == "") ≡ false
    → has_text o ≡ false
    → (o == some k) ≡ false
no_text none k n h = refl
no_text (some s) k n h = text_other s "" k (not_false (s == "") h) n
  where
    not_false : (b : Bool) → not b ≡ false → b ≡ true
    not_false b h = ground arith

abbrev has_key : String → Recipient → Bool
has_key k r = r.pgp_key == some k

contains-primary_keys :
    (legacy : Option String) (r : Recipient) (k : String)
    → (k == "") ≡ false
    → (x : Bool)
    → (contains k (primary_keys legacy (some r)) || x) ≡ (
        ((is_reachable r && has_key k r) || x)
        || legacy == some k && not (has_primary_key (some r)))
contains-primary_keys legacy r k n x = elim (Bool-cases (is_reachable r && has_text r.pgp_key)) [
  | inl e ↦
      rw (e, contains-text_list k r.pgp_key n)
        (with_key (is_reachable r) (has_text r.pgp_key) (has_key k r) (legacy == some k) x e)
  | inr e ↦
      rw (e, contains-text_list k legacy n)
        (without_key (is_reachable r) (has_text r.pgp_key) (has_key k r) (legacy == some k) x e
          (no_text r.pgp_key k n))
]
  where
    with_key : (m t h l x : Bool) → (m && t) ≡ true → (h || x) ≡ (((m && h) || x) || l && false)
    with_key m t h l x e = ground arith

    without_key :
        (m t h l x : Bool)
        → (m && t) ≡ false
        → (t ≡ false → h ≡ false)
        → (l || x) ≡ (((m && h) || x) || l && true)
    without_key true true h l x e f = cc
    without_key true false h l x e f = ground (arith, f refl)
    without_key false t h l x e f = ground arith

contains-keys :
    (k : String) (primary : Option Recipient) (rs : List Recipient)
    → (k == "") ≡ false
    → contains k (keys_of (rows (is_other primary) (rows is_reachable rs)))
      ≡ any (λ r. is_reachable r && (is_other primary r && has_key k r)) rs
contains-keys k primary rs n =
    contains-keys_of k (rows (is_other primary) (rows is_reachable rs)) n
    ∙ any-rows (has_key k) (is_other primary) (rows is_reachable rs)
    ∙ any-rows (λ r. is_other primary r && has_key k r) is_reachable rs

-- A key is used to encrypt a user's messages exactly if an enabled recipient with an address has it, or
-- it is the user's own and the recipient at position 0 gets no mail or has no key; if the recipients'
-- ids are different and the key is not empty.
pub message_recipient_keys_iff :
    (u : Account) (k : String)
    → AreKeyed u.notification_recipients
    → (k == "") ≡ false
    → contains k (message_recipient_keys u) ≡ (
        any (λ (r : Recipient). is_reachable r && r.pgp_key == some k) u.notification_recipients
        || u.pgp_key == some k && not (has_primary_key (first is_first u.notification_recipients)))
unfolding message_recipient_keys
message_recipient_keys_iff u k h n =
    contains-from_keys k _
    ∙ contains-append k (primary_keys u.pgp_key (first is_first rs)) _
    ∙ rw (contains-keys k (first is_first rs) rs n) (go (first is_first rs) refl)
  where
    rs : List Recipient
    rs = u.notification_recipients

    swap : (a b : Bool) → (a || b) ≡ (b || a && true)
    swap a b = ground arith

    holds : Recipient → Bool
    holds t = is_reachable t && has_key k t

    others : Recipient → Recipient → Bool
    others r t = is_reachable t && (not (t.id == r.id) && has_key k t)

    order : (a b c : Bool) → (b && (a && c)) ≡ (a && (b && c))
    order a b c = ground arith

    split :
        (r : Recipient) → first is_first rs ≡ some r → (holds r || any (others r) rs) ≡ any holds rs
    split r e = sym (
        any-split holds r.id rs
        ∙ rw
            (
              any-found is_first holds rs h e,
              any-cong (others r) (λ t. not (t.id == r.id) && holds t)
                  (λ t. order (not (t.id == r.id)) (is_reachable t) (has_key k t)) rs,
            )
            refl)

    go :
        (primary : Option Recipient)
        → first is_first rs ≡ primary
        → (contains k (primary_keys u.pgp_key primary)
            || any (λ r. is_reachable r && (is_other primary r && has_key k r)) rs)
          ≡ (any (λ r. is_reachable r && has_key k r) rs
              || u.pgp_key == some k && not (has_primary_key primary))
    go none e = rw (contains-text_list k u.pgp_key n) (swap (u.pgp_key == some k) _)
    go (some r) e =
        contains-primary_keys u.pgp_key r k n (any (others r) rs)
        ∙ ap (λ b. b || u.pgp_key == some k && not (has_primary_key (some r))) (split r e)
