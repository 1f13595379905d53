-- ===== src/Notifications/Content.antt =====
-- hushline/settings/notifications.py: while mail includes messages' contents, every recipient that mail
-- goes to has a key that the contents can be encrypted with.
use hushline.Common.{
  ℕ, ◌≡◌, refl, sym, ◌∙◌, Bool, true, not, ◌&&◌, ◌||◌, Option, none, some, List, [], ◌∷◌, String,
  ◌==◌, nat_eq, string_eq, any, all, rows, arith, strip, is_some, Bool-cases, inl, inr,
}
use hushline.Notifications.{Recipient, Account, has_text, is_reachable}
use hushline.Notifications.Settings.{
  Gpg, is_empty, normalize_recipient_positions, normalize_notification_state,
  recipient_key_is_encryptable, has_usable_key, enabled_recipients_support_content, RecipientForm,
  is_checked, validate_recipient_form, or_none, enabled_after, filled, normalize, is_accepted,
  new_recipient,
}
use hushline.Notifications.Normal.{all-normal}

module _ (gpg : Gpg) where
  -- Contents are included only while the enabled recipients, of which there are some, support it.
  abbrev pub KeepsContent : Account → Type 0
  KeepsContent u =
      u.email_include_message_content ≡ true → enabled_recipients_support_content gpg u ≡ true

  abbrev pub is_ready : Recipient → Bool
  is_ready r = not (is_reachable r) || has_usable_key gpg r.pgp_key

  -- Each of an account's recipients is ready, if contents are included.
  abbrev pub AreReady : Account → Type 0
  AreReady u =
      u.email_include_message_content ≡ true → all is_ready u.notification_recipients ≡ true

  ready_lem :
      (rs : List Recipient)
      → all (λ (r : Recipient). has_usable_key gpg r.pgp_key) (rows is_reachable rs)
        ≡ all is_ready rs
  ready_lem [] = refl
  ready_lem (r ∷ rs) = elim (Bool-cases (is_reachable r)) [
    | inl e ↦ rw (e, ready_lem rs) refl
    | inr e ↦ rw (e, ready_lem rs) refl
  ]

  nonempty_lem : (rs : List Recipient) → not (is_empty (rows is_reachable rs)) ≡ any is_reachable rs
  nonempty_lem [] = refl
  nonempty_lem (r ∷ rs) = elim (Bool-cases (is_reachable r)) [
    | inl e ↦ rw e refl
    | inr e ↦ rw e (nonempty_lem rs)
  ]

  pub support_lem :
      (u : Account)
      → enabled_recipients_support_content gpg u
        ≡ (any is_reachable u.notification_recipients && all is_ready u.notification_recipients)
  unfolding enabled_recipients_support_content
  support_lem u =
      rw (nonempty_lem u.notification_recipients, ready_lem u.notification_recipients) refl

  pub right : (a b : Bool) → (a && b) ≡ true → b ≡ true
  right a b h = ground arith

  pub KeepsContent-AreReady : (u : Account) → KeepsContent u → AreReady u
  unfolding enabled_recipients_support_content
  KeepsContent-AreReady u k h = sym (ready_lem u.notification_recipients) ∙ right _ _ (k h)

  pub normalize_notification_state-KeepsContent :
      (u : Account) → AreReady u → KeepsContent (normalize_notification_state u)
  unfolding normalize_notification_state enabled_recipients_support_content
  normalize_notification_state-KeepsContent u a =
      elim (Bool-cases (is_empty (rows is_reachable u.notification_recipients))) [
        | inl e ↦ rw e (λ h. cc h)
        | inr e ↦ rw e (λ h. rw (e, ready_lem u.notification_recipients) (a h))
      ]

  pub normalize-KeepsContent : (u : Account) → AreReady u → KeepsContent (normalize u)
  unfolding normalize_recipient_positions
  normalize-KeepsContent u a =
      normalize_notification_state-KeepsContent (normalize_recipient_positions u)
        (λ h. all-normal is_ready (λ i r. refl) u.notification_recipients ∙ a h)

  -- A form that passes leaves a recipient ready, unless it drops the key and does not say whether the
  -- recipient is enabled.
  abbrev pub gives_key : RecipientForm → Bool
  gives_key form = is_some form.recipient_enabled || not (strip form.recipient_pgp_key == "")

  ready_of :
      (checkbox : Option Bool) (enabled mail : Bool) (k : String)
      → ((k == "" || recipient_key_is_encryptable gpg k) && not (is_checked checkbox && k == ""))
        ≡ true
      → (is_some checkbox || not (k == "")) ≡ true
      → (not (enabled_after checkbox enabled && mail) || has_usable_key gpg (or_none k)) ≡ true
  ready_of none enabled mail k v g = elim (Bool-cases (k == "")) [
    | inl e ↦ absurd (ground arith)
    | inr e ↦ rw (e, e) (ground arith)
  ]
  ready_of (some checked) enabled mail k v g = elim (Bool-cases (k == "")) [
    | inl e ↦ rw e (ground arith)
    | inr e ↦ rw (e, e) (ground arith)
  ]

  pub filled_ready :
      (u : Account) (form : RecipientForm) (r : Recipient)
      → u.email_include_message_content ≡ true
      → is_accepted gpg u form ≡ true
      → gives_key form ≡ true
      → is_ready (filled form r) ≡ true
  unfolding validate_recipient_form
  filled_ready u form r h v g =
      ready_of form.recipient_enabled r.enabled (has_text (some (strip form.recipient_email)))
        (strip form.recipient_pgp_key) (right _ _ (rw h at v)) g

  ready_of_new :
      (checkbox : Option Bool) (mail : Bool) (k : String)
      → ((k == "" || recipient_key_is_encryptable gpg k) && not (is_checked checkbox && k == ""))
        ≡ true
      → (not (enabled_after checkbox (is_checked checkbox) && mail)
          || has_usable_key gpg (or_none k))
        ≡ true
  ready_of_new none mail k v = refl
  ready_of_new (some checked) mail k v = ready_of (some checked) checked mail k v refl

  pub new_ready :
      (u : Account) (form : RecipientForm) (new_id : ℕ)
      → u.email_include_message_content ≡ true
      → is_accepted gpg u form ≡ true
      → is_ready (new_recipient new_id form u) ≡ true
  unfolding validate_recipient_form
  new_ready u form new_id h v =
      ready_of_new form.recipient_enabled (has_text (some (strip form.recipient_email)))
        (strip form.recipient_pgp_key) (right _ _ (rw h at v))
