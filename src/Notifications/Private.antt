-- ===== src/Notifications/Private.antt =====
-- hushline/routes/message.py, resend_message: what is in the mails.
use hushline.Common.{
  ◌≡◌, refl, Bool, true, false, not, ◌&&◌, Option, some, List, [], ◌∷◌, String, if◌then◌else◌, ◌==◌,
  string_eq, option_eq, eq_iff, strip, any, All, All-map, All-append, arith, Bool-cases,
  Option-cases, if_elim, inl, inr, ◌⊎◌,
}
use hushline.Auth.Store.{Response}
use hushline.Notifications.{
  Recipient, Account, enabled_notification_recipients, contains, Target, nobody, single, several,
  message_encryption_target,
}
use hushline.Notifications.Delivery.{send_email_to_user_recipients_sound}
use hushline.Notifications.Mail.{
  Mailer, Mail, generic_body, text_or, encrypted, sealed_body, is_armored_pgp_message, resend_body,
  resend_bodies, or_generic, send_each, resend_message,
}

module _ (lib : Mailer) where
  -- A body that tells nothing: the generic one, a value that is an armored PGP message already, or what
  -- GPG gives back.
  pub IsSealed : List String → String → Type 0
  IsSealed values b =
      (b ≡ generic_body)
      ⊎ ((v : String) × (is_armored_pgp_message v ≡ true)
          × (contains v values ≡ true)
          × (b ≡ strip v))
      ⊎ ((v : String) × (target : Target) × (c : String) × (lib.encrypt_message v target ≡ some c)
          × (b ≡ strip c))

  given :
      (values : List String) (v : String) (target : Target)
      → IsSealed values (strip (text_or generic_body (lib.encrypt_message v target)))
  unfolding IsSealed
  given values v target = elim (Option-cases (lib.encrypt_message v target)) [
    | inl e ↦ rw e (inl refl)
    | inr (c, e) ↦ elim (Bool-cases (c == "")) [
      | inl b ↦ rw (e, b) (inl refl)
      | inr b ↦ rw (e, b) (inr (inr (v, target, c, e, refl)))
    ]
  ]

  encrypted-IsSealed :
      (values : List String) (v : String) (armored : Bool) (target : Target)
      → IsSealed values (strip (text_or generic_body (encrypted lib v armored target)))
  unfolding IsSealed given
  encrypted-IsSealed values v true target = inl refl
  encrypted-IsSealed values v false nobody = inl refl
  encrypted-IsSealed values v false (single k) = given values v (single k)
  encrypted-IsSealed values v false (several ks) = given values v (several ks)

  lift :
      (values : List String) (b : Bool) (x y : String)
      → b ≡ true
      → IsSealed values x
      → IsSealed values (if b then x else y)
  lift values true x y h s = s
  lift values false x y h s = cc

  resend_body-IsSealed :
      (u : Account) (values : List String) (v : String)
      → u.email_encrypt_entire_body ≡ true
      → contains v values ≡ true
      → (v == "") ≡ false
      → IsSealed values (resend_body lib u v)
  unfolding resend_body IsSealed
  resend_body-IsSealed u values v h m n =
      lift values u.email_encrypt_entire_body _ _ h
        (go (is_armored_pgp_message v) (message_encryption_target u) refl)
    where
      go :
          (armored : Bool) (target : Target)
          → is_armored_pgp_message v ≡ armored
          → IsSealed values (strip (text_or generic_body (sealed_body lib v armored target)))
      go true (single k) a = rw n (inr (inl (v, a, m, refl)))
      go true nobody a = encrypted-IsSealed values v true nobody
      go true (several ks) a = encrypted-IsSealed values v true (several ks)
      go false target a = encrypted-IsSealed values v false target

  resend_bodies-IsSealed :
      (u : Account) (values vs : List String)
      → u.email_encrypt_entire_body ≡ true
      → All (λ v. contains v values ≡ true) vs
      → All (IsSealed values) (resend_bodies lib u vs)
  resend_bodies-IsSealed u values [] h c = tt
  resend_bodies-IsSealed u values (v ∷ vs) h (c, cs) = elim (Bool-cases (v == "")) [
    | inl e ↦ rw e (resend_bodies-IsSealed u values vs h cs)
    | inr e ↦ rw e (resend_body-IsSealed u values v h c e, resend_bodies-IsSealed u values vs h cs)
  ]

  any-same : (s : String) (b : Bool) → (if s == s then true else b) ≡ true
  any-same s b = rw ((eq_iff s s).1 refl) refl

  contains-later :
      (s v : String) (vs : List String) → contains s vs ≡ true → contains s (v ∷ vs) ≡ true
  contains-later s v vs h = ground (arith, h)

  each_contained : (vs : List String) → All (λ v. contains v vs ≡ true) vs
  each_contained [] = tt
  each_contained (v ∷ vs) =
      (any-same v (contains v vs), All-map (λ s h. contains-later s v vs h) vs (each_contained vs))

  or_generic-IsSealed :
      (values bs : List String) → All (IsSealed values) bs → All (IsSealed values) (or_generic bs)
  unfolding IsSealed
  or_generic-IsSealed values [] h = (inl refl, tt)
  or_generic-IsSealed values (b ∷ bs) h = h

  one_body :
      (b c : String) (to : Option String → Bool) (rs : List Recipient)
      → any (λ (r : Recipient). to r.email && b == c) rs ≡ true
      → b ≡ c
  one_body b c to [] h = cc
  one_body b c to (r ∷ rs) h = elim (Bool-cases (b == c)) [
    | inl e ↦ (eq_iff b c).0 e
    | inr e ↦ one_body b c to rs (skip (to r.email) e h)
  ]
    where
      skip : (t : Bool) {d f : Bool} → d ≡ false → (if t && d then true else f) ≡ true → f ≡ true
      skip t e h = ground arith

  moved : (P : String → Type 0) {b c : String} → b ≡ c → P b → P c
  moved P e h = rw e at h

  send_each-All :
      (P : String → Type 0) (u : Account) (bs : List String)
      → All P bs
      → All (λ (m : Mail). P m.1) (send_each lib u bs)
  send_each-All P u [] h = tt
  send_each-All P u (b ∷ bs) (h, hs) =
      All-append (λ (m : Mail). P m.1) _ _
        (All-map
          (λ (m : Mail) k.
            moved P (one_body b m.1 (λ e. e == some m.0) (enabled_notification_recipients u) k.1) h)
          _ (send_email_to_user_recipients_sound lib u (λ _. b)).0)
        (send_each-All P u bs hs)

  bodies-IsSealed :
      (u : Account) (values : List String) (include : Bool)
      → u.email_include_message_content ≡ include
      → (u.email_include_message_content ≡ true → u.email_encrypt_entire_body ≡ true)
      → All
          (IsSealed values)
          (if include then or_generic (resend_bodies lib u values) else generic_body ∷ [])
  unfolding IsSealed
  bodies-IsSealed u values false i h = (inl refl, tt)
  bodies-IsSealed u values true i h =
      or_generic-IsSealed values _
        (resend_bodies-IsSealed u values values (h i) (each_contained values))

  -- What is resent of a message whose fields have the values tells nothing of them, if contents are
  -- not included in mail or the entire body is to be encrypted: each mail is the generic text, a value
  -- that the sender had encrypted already, or what GPG made.
  pub resend_message_private :
      (u : Account) (public_id : String) (valid : Bool) (values : List String)
      → (u.email_include_message_content ≡ true → u.email_encrypt_entire_body ≡ true)
      → All
          (λ (m : Mail). IsSealed values m.1)
          (resend_message lib u public_id valid (some values)).1
  unfolding resend_message
  resend_message_private u public_id false values h = tt
  resend_message_private u public_id true values h =
      if_elim (λ (r : Response × List Mail). All (λ (m : Mail). IsSealed values m.1) r.1)
        (not u.enable_email_notifications) tt
        (send_each-All (IsSealed values) u _
          (bodies-IsSealed u values u.email_include_message_content refl h))
