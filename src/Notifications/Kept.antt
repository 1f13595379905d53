-- ===== src/Notifications/Kept.antt =====
-- hushline/settings/notifications.py: each operation keeps contents sealed.
use hushline.Common.{
  ℕ, ◌≡◌, refl, sym, ◌∙◌, Bool, true, false, not, ◌&&◌, ◌||◌, Option, some, List, [], ◌∷◌, String,
  if◌then◌else◌, ◌==◌, nat_eq, string_eq, option_eq, any, all, first, arith, strip, is_none,
  Bool-cases, inl, inr,
}
use hushline.Notifications.{
  Recipient, Account, has_text, is_reachable, set_primary_key, set_pgp_key,
}
use hushline.Notifications.Settings.{
  Gpg, Reply, saved, refused, not_found, limit_reached, recipient_key_is_encryptable,
  has_usable_key, enabled_recipients_support_content, RecipientForm, filled, is_accepted,
  save_new_recipient, save_recipient, delete_recipient, toggle_recipient_enabled,
  toggle_include_content, handle_pgp_key_form,
}
use hushline.Notifications.Normal.{all-append, all-rows, all-replace}
use hushline.Notifications.Content.{
  KeepsContent, is_ready, AreReady, support_lem, gives_key, right,
  normalize_notification_state-KeepsContent, normalize-KeepsContent, filled_ready, new_ready,
}

module _ (gpg : Gpg) where
  -- What a reply stores keeps contents sealed.
  abbrev pub Keeps : Reply → Type 0
  Keeps (saved u) = KeepsContent gpg u
  Keeps refused = Unit
  Keeps not_found = Unit
  Keeps limit_reached = Unit

  pub save_new_recipient-Keeps :
      (new_id : ℕ) (form : RecipientForm) (u : Account)
      → AreReady gpg u
      → Keeps (save_new_recipient gpg new_id form u)
  unfolding save_new_recipient
  save_new_recipient-Keeps new_id form u a = elim (Bool-cases (is_accepted gpg u form)) [
    | inr e ↦ rw e tt
    | inl e ↦ rw e (
        normalize-KeepsContent gpg _ (λ h.
          all-append (is_ready gpg) u.notification_recipients _ (a h)
            (new_ready gpg u form new_id h e)))
  ]

  pub save_recipient-Keeps :
      (form : RecipientForm) (i : ℕ) (u : Account)
      → AreReady gpg u
      → gives_key gpg form ≡ true
      → Keeps (save_recipient gpg form i u)
  unfolding save_recipient
  save_recipient-Keeps form i u a g = elim (Bool-cases (is_accepted gpg u form)) [
    | inr e ↦ rw e tt
    | inl e ↦ rw e (
        normalize-KeepsContent gpg _ (λ h.
          all-replace (is_ready gpg) i (filled form) u.notification_recipients (a h)
            (λ r _. filled_ready gpg u form r h e g)))
  ]

  pub delete_recipient-Keeps : (i : ℕ) (u : Account) → AreReady gpg u → Keeps (delete_recipient i u)
  unfolding delete_recipient
  delete_recipient-Keeps i u a =
      normalize-KeepsContent gpg _ (λ h. all-rows (is_ready gpg) _ u.notification_recipients (a h))

  toggled :
      (r s : Recipient) (b : Bool)
      → (b && true && not (has_usable_key gpg r.pgp_key)) ≡ false
      → s ≡ r
      → is_ready gpg (record s { enabled = b }) ≡ true
  toggled r s b g e = rw e (bare b (has_text r.email) (has_usable_key gpg r.pgp_key) g)
    where
      bare : (b m k : Bool) → (b && true && not k) ≡ false → (not (b && m) || k) ≡ true
      bare b m k g = ground arith

  pub toggle_recipient_enabled-Keeps :
      (r : Recipient) (b : Bool) (u : Account)
      → AreReady gpg u
      → first (λ (s : Recipient). s.id == r.id) u.notification_recipients ≡ some r
      → Keeps (toggle_recipient_enabled gpg r b u)
  unfolding toggle_recipient_enabled
  toggle_recipient_enabled-Keeps r b u a f =
      elim (Bool-cases
        (b && u.email_include_message_content && not (has_usable_key gpg r.pgp_key))) [
          | inl e ↦ rw e tt
          | inr e ↦ rw e (
              normalize_notification_state-KeepsContent gpg _ (λ h.
                all-replace (is_ready gpg) r.id (λ (s : Recipient). record s { enabled = b })
                  u.notification_recipients (a h) (λ s q. toggled r s b (rw h at e) (cc (f, q)))))
        ]

  pub toggle_include_content-Keeps :
      (b : Bool) (u : Account) → KeepsContent gpg u → Keeps (toggle_include_content gpg b u)
  unfolding toggle_include_content enabled_recipients_support_content
  toggle_include_content-Keeps false u k = λ h. cc h
  toggle_include_content-Keeps true u k =
      elim (Bool-cases (enabled_recipients_support_content gpg u)) [
        | inl e ↦ rw e (λ _. e)
        | inr e ↦ rw e tt
      ]

  set_primary_key-ready :
      (old : Option String) (k : String) (rs : List Recipient)
      → has_usable_key gpg (some k) ≡ true
      → all (is_ready gpg) rs ≡ true
      → all (is_ready gpg) (set_primary_key old (some k) rs) ≡ true
  set_primary_key-ready old k [] h a = refl
  set_primary_key-ready old k (r ∷ rs) h a =
      elim (Bool-cases (is_none r.pgp_key || r.pgp_key == old)) [
        | inl e ↦ rw e (bare (not (is_reachable r)) (has_usable_key gpg (some k)) _ h (tail r rs a))
        | inr e ↦ rw e a
      ]
    where
      bare : (n b c : Bool) → b ≡ true → c ≡ true → (if n || b then c else false) ≡ true
      bare n b c x y = ground arith

      tail :
          (r : Recipient) (rs : List Recipient)
          → all (is_ready gpg) (r ∷ rs) ≡ true
          → all (is_ready gpg) rs ≡ true
      tail r rs h = ground arith

  set_primary_key-reachable :
      (old value : Option String) (rs : List Recipient)
      → any is_reachable (set_primary_key old value rs) ≡ any is_reachable rs
  set_primary_key-reachable old value [] = refl
  set_primary_key-reachable old value (r ∷ rs) =
      elim (Bool-cases (is_none r.pgp_key || r.pgp_key == old)) [
        | inl e ↦ rw e refl
        | inr e ↦ rw e refl
      ]

  set_pgp_key-KeepsContent :
      (k : String) (u : Account)
      → has_usable_key gpg (some k) ≡ true
      → KeepsContent gpg u
      → KeepsContent gpg (set_pgp_key (some k) u)
  unfolding set_pgp_key
  set_pgp_key-KeepsContent k u h c i =
      let both = sym (support_lem gpg u) ∙ c i in
      support_lem gpg _
      ∙ join _ _ _ _ both (set_primary_key-reachable u.pgp_key (some k) u.notification_recipients)
          (set_primary_key-ready u.pgp_key k u.notification_recipients h (right gpg _ _ both))
    where
      join : (a b c d : Bool) → (a && b) ≡ true → c ≡ a → d ≡ true → (c && d) ≡ true
      join a b c d h x y = ground arith

  usable_of :
      (k : String)
      → (k == "") ≡ false
      → recipient_key_is_encryptable gpg k ≡ true
      → has_usable_key gpg (some k) ≡ true
  usable_of k e v = rw (e, v) refl

  pub handle_pgp_key_form-Keeps :
      (text : String) (u : Account)
      → AreReady gpg u
      → KeepsContent gpg u
      → not (strip text == "") ≡ true
      → Keeps (handle_pgp_key_form gpg text u)
  unfolding handle_pgp_key_form
  handle_pgp_key_form-Keeps text u a k n = elim (Bool-cases (strip text == "")) [
    | inl e ↦ absurd (ground arith)
    | inr e ↦ rw e (elim (Bool-cases (recipient_key_is_encryptable gpg (strip text))) [
      | inl v ↦ rw v (set_pgp_key-KeepsContent (strip text) u (usable_of (strip text) e v) k)
      | inr v ↦ rw v tt
    ])
  ]
