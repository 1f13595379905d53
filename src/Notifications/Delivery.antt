-- ===== src/Notifications/Delivery.antt =====
-- hushline/routes/common.py, send_email_to_user_recipients: who gets the mails that are sent.
use hushline.Common.{
  ◌≡◌, refl, sym, ap, ◌∙◌, Bool, true, false, not, ◌&&◌, ◌||◌, Option, none, some, List, [], ◌∷◌,
  String, if◌then◌else◌, ◌==◌, string_eq, option_eq, option_beq_iff, eq_iff, any, All, All-map,
  arith, Bool-cases, Option-cases, if_elim, inl, inr,
}
use hushline.Notifications.{Recipient, Account, enabled_notification_recipients, contains}
use hushline.Notifications.Settings.{is_empty}
use hushline.Notifications.Mail.{Mailer, Mail, attempt, deliver, send_email_to_user_recipients}

module _ (lib : Mailer) where
  -- No two of the mails go to one address.
  abbrev pub GoOnce : List Mail → Type 0
  GoOnce [] = Unit
  GoOnce (m ∷ ms) = All (λ (n : Mail). (lib.fold m.0 == lib.fold n.0) ≡ false) ms × GoOnce ms

  attempt-some :
      (body : Recipient → String) (delivered : List String) (r : Recipient) (o : Option String)
      {m : Mail}
      → attempt lib body delivered r o ≡ some m
      → (o ≡ some m.0) × (m.1 ≡ body r) × (contains (lib.fold m.0) delivered ≡ false)
  attempt-some body delivered r none e = cc
  attempt-some body delivered r (some a) {m} e =
      elim (Bool-cases (contains (lib.fold a) delivered)) [
        | inl c ↦ cc (rw c at e)
        | inr c ↦ elim (Bool-cases (body r == "")) [
          | inl b ↦ cc (rw (c, b) at e)
          | inr b ↦ elim (Bool-cases (lib.sends a (body r))) [
            | inr s ↦ cc (rw (c, b, s) at e)
            | inl s ↦
                let q : (a, body r) ≡ m = cc (rw (c, b, s) at e) in
                (
                  ap (λ (x : Mail). some x.0) q,
                  sym (ap (λ (x : Mail). x.1) q),
                  ap (λ (x : Mail). contains (lib.fold x.0) delivered) (sym q) ∙ c,
                )
          ]
        ]
      ]

  -- What each mail of `deliver` is: to one of the recipients, with the recipient's body, and to an
  -- address that was not reached before.
  Delivered : (Recipient → String) → List String → List Recipient → Mail → Type 0
  Delivered body delivered rs m =
      (any (λ (r : Recipient). r.email == some m.0 && body r == m.1) rs ≡ true)
      × (contains (lib.fold m.0) delivered ≡ false)

  if_true : (b : Bool) {c : Bool} → c ≡ true → (if b then true else c) ≡ true
  if_true b h = ground arith

  if_then : {b : Bool} (c : Bool) → b ≡ true → (if b then true else c) ≡ true
  if_then c h = rw h refl

  if_false : (b : Bool) {c : Bool} → (if b then true else c) ≡ false → (b ≡ false) × (c ≡ false)
  if_false b h = ground arith

  Delivered-tail :
      (body : Recipient → String) (delivered : List String) (r : Recipient) (rs : List Recipient)
      (m : Mail)
      → Delivered body delivered rs m
      → Delivered body delivered (r ∷ rs) m
  unfolding Delivered
  Delivered-tail body delivered r rs m (a, c) =
      (if_true (r.email == some m.0 && body r == m.1) a, c)

  Delivered-weaken :
      (body : Recipient → String) (delivered : List String) (s : String) (rs : List Recipient)
      (m : Mail)
      → Delivered body (s ∷ delivered) rs m
      → Delivered body delivered rs m × ((s == lib.fold m.0) ≡ false)
  unfolding Delivered
  Delivered-weaken body delivered s rs m (a, c) =
      let (x, y) = if_false (s == lib.fold m.0) c in ((a, y), x)

  deliver-skip :
      (body : Recipient → String) (delivered : List String) (r : Recipient) (rs : List Recipient)
      → attempt lib body delivered r r.email ≡ none
      → deliver lib body delivered (r ∷ rs) ≡ deliver lib body delivered rs
  unfolding deliver
  deliver-skip body delivered r rs e = rw (e, deliver) refl

  deliver-send :
      (body : Recipient → String) (delivered : List String) (r : Recipient) (rs : List Recipient)
      {m : Mail}
      → attempt lib body delivered r r.email ≡ some m
      → deliver lib body delivered (r ∷ rs) ≡ m ∷ deliver lib body (lib.fold m.0 ∷ delivered) rs
  unfolding deliver
  deliver-send body delivered r rs e = rw (e, deliver) refl

  head_lem :
      (body : Recipient → String) (r : Recipient) (m : Mail)
      → r.email ≡ some m.0
      → m.1 ≡ body r
      → (r.email == some m.0 && body r == m.1) ≡ true
  head_lem body r m x y =
      let p : (r.email == some m.0) ≡ true = (option_beq_iff r.email (some m.0)).1 x in
      let q : (body r == m.1) ≡ true = (eq_iff (body r) m.1).1 (sym y) in rw (p, q) refl

  -- A mail to an enabled recipient of a user with notifications.
  abbrev pub IsDue : Account → (Recipient → String) → Mail → Type 0
  IsDue u body m =
      (u.enable_email_notifications ≡ true)
      × (any (λ (r : Recipient). r.email == some m.0 && body r == m.1)
            (enabled_notification_recipients u)
          ≡ true)

  is_on : (a b : Bool) → (a || not b) ≡ false → b ≡ true
  is_on a b h = ground arith

  deliver-Delivered :
      (body : Recipient → String) (delivered : List String) (rs : List Recipient)
      → All (Delivered body delivered rs) (deliver lib body delivered rs)
        × GoOnce (deliver lib body delivered rs)
  unfolding deliver Delivered
  deliver-Delivered body delivered [] = (tt, tt)
  deliver-Delivered body delivered (r ∷ rs) =
      elim (Option-cases (attempt lib body delivered r r.email)) [
        | inl e ↦
            let (h, g) = deliver-Delivered body delivered rs in
            rw (deliver-skip body delivered r rs e)
              (All-map (Delivered-tail body delivered r rs) _ h, g)
        | inr (m, e) ↦
            let (h, g) = deliver-Delivered body (lib.fold m.0 ∷ delivered) rs in
            let (x, y, z) = attempt-some body delivered r r.email e in
            rw (deliver-send body delivered r rs e) (
              (
                (if_then _ (head_lem body r m x y), z),
                All-map
                    (λ n k.
                      Delivered-tail body delivered r rs n
                        (Delivered-weaken body delivered (lib.fold m.0) rs n k).0)
                    _ h,
              ),
              (All-map (λ n k. (Delivered-weaken body delivered (lib.fold m.0) rs n k).1) _ h, g),
            )
      ]

  -- Mail goes out only if the user's notifications are on, to the address of an enabled recipient with
  -- the body that is made for the recipient, and no two mails go to one address, in whatever case the
  -- addresses are written.
  pub send_email_to_user_recipients_sound :
      (u : Account) (body : Recipient → String)
      → All (IsDue u body) (send_email_to_user_recipients lib u body)
        × GoOnce (send_email_to_user_recipients lib u body)
  unfolding send_email_to_user_recipients Delivered
  send_email_to_user_recipients_sound u body =
      elim (Bool-cases
        (is_empty (enabled_notification_recipients u) || not u.enable_email_notifications)) [
          | inl e ↦ rw e (tt, tt)
          | inr e ↦
              let (h, g) = deliver-Delivered body [] (enabled_notification_recipients u) in
              rw e (
                if_elim (λ ms. All (IsDue u body) ms × GoOnce ms) lib.is_configured
                  (All-map (λ m k. (is_on _ _ e, k.0)) _ h, g) (tt, tt))
        ]
